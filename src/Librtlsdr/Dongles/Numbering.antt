-- ===== src/Librtlsdr/Dongles/Numbering.antt =====
-- rtl-sdr/src/librtlsdr.c: the device that is opened and the name that is shown under one number.
use rtl_tcp_pi.Common.{
  ℕ, zero, suc, ◌+◌, ◌-◌, ◌^◌, ◌<◌, ◌≡◌, refl, ap, ◌∙◌, arith, ◌==◌, ==_of_eq, ==_of_ne, true,
  false, Option, none, some, List, [], ◌∷◌, ◌++◌,
}
use rtl_tcp_pi.Librtlsdr.Dongles.{
  Dongle, Descriptor, find_known_device, is_known, counted, last_index, name_loop, name_of,
  rtlsdr_get_device_name, open_loop, open_choice,
}

-- The known device number `n` of a list: its position, counted from `i`, and its entry.
abbrev pub nth_known : List Descriptor → ℕ → ℕ → Option (ℕ × Dongle)
nth_known [] n i = none
nth_known (dd ∷ list) n i = elim (find_known_device dd) [
  | none ↦ nth_known list n (i + 1)
  | some d ↦ elim n [ zero ↦ some (i, d) | suc m ↦ nth_known list m (i + 1) ]
]

-- What the two loops find under the number `index`.
record Agree (list : List Descriptor) (index count i n : ℕ) : Type 0 where
  opened :
      open_loop list index count i ≡ (elim (nth_known list n i) [ none ↦ none | some p ↦ some p.0 ])
  named :
      (p : ℕ × Dongle) (device : Option Dongle)
      → nth_known list n i ≡ some p
      → name_loop list index count device ≡ some p.1

is_known-none : (dd : Descriptor) → find_known_device dd ≡ none → is_known dd ≡ false
unfolding is_known
is_known-none dd h = rw (h, is_known) refl

is_known-some : (dd : Descriptor) (d : Dongle) → find_known_device dd ≡ some d → is_known dd ≡ true
unfolding is_known
is_known-some dd d h = rw (h, is_known) refl

-- One entry more before a list on which the loops agree.
by_entry :
    (dd : Descriptor) (list : List Descriptor) (index count i n : ℕ) (o : Option Dongle)
    → find_known_device dd ≡ o
    → index ≡ count + n
    → index < 2 ^ 32 - 1
    → ((count' n' : ℕ) → index ≡ count' + n' → Agree list index count' (i + 1) n')
    → Agree (dd ∷ list) index count i n
unfolding open_loop name_loop
by_entry dd list index count i n none h e lt others =
    let ih = others count n e in
    let other : (index == last_index count) ≡ false = ==_of_ne _ _ (omega arith) in
    record {
      opened = rw (is_known-none dd h) (rw (other, h) ih.opened);
      named =
          λ p device g. rw (is_known-none dd h) (rw h (ih.named p none (rw (h, nth_known) at g)));
    }
by_entry dd list index count i zero (some d) h e lt others =
    let this : (index == last_index (counted count)) ≡ true = ==_of_eq _ _ (omega arith) in
    record {
      opened = rw (is_known-some dd d h) (rw (this, h) refl);
      named = λ p device g.
          rw (is_known-some dd d h) (rw (this, h) (ap some (first d p i (rw (h, nth_known) at g))));
    }
  where
    first :
        (d : Dongle) (p : ℕ × Dongle) (i : ℕ)
        → ◌≡◌ {A = Option (ℕ × Dongle)} (some (i, d)) (some p)
        → d ≡ p.1
    first d p i g = cc
by_entry dd list index count i (suc m) (some d) h e lt others =
    let other : (index == last_index (counted count)) ≡ false = ==_of_ne _ _ (omega arith) in
    let ih = others (counted count) m (omega arith) in
    record {
      opened = rw (is_known-some dd d h) (rw (other, h) ih.opened);
      named = λ p device g.
          rw (is_known-some dd d h) (rw (other, h) (ih.named p (some d) (rw (h, nth_known) at g)));
    }

loops-Agree :
    (list : List Descriptor) (index count i n : ℕ)
    → index ≡ count + n
    → index < 2 ^ 32 - 1
    → Agree list index count i n
unfolding open_loop name_loop
loops-Agree [] index count i n e lt = record { opened = refl; named = λ p device h. cc }
loops-Agree (dd ∷ list) index count i n e lt =
    by_entry dd list index count i n (find_known_device dd) refl e lt
      (λ count' n' e'. loops-Agree list index count' (i + 1) n' e' lt)

-- What comes of an entry that is not the one with the number.
passed :
    (dd : Descriptor) (list : List Descriptor) (index count n : ℕ) (device o : Option Dongle)
    → find_known_device dd ≡ o
    → index ≡ count + n
    → index < 2 ^ 32 - 1
    → (i : ℕ) → nth_known (dd ∷ list) n i ≡ none
    → (count' : ℕ) × (n' : ℕ) × (index ≡ count' + n')
      × (nth_known list n' (i + 1) ≡ none)
      × (name_loop (dd ∷ list) index count device ≡ name_loop list index count' o)
unfolding name_loop
passed dd list index count n device none h e lt i g =
    (count, n, e, rw (h, nth_known) at g, rw (is_known-none dd h) (rw h refl))
passed dd list index count zero device (some d) h e lt i g =
    absurd (impossible d i (rw (h, nth_known) at g))
  where
    impossible : (d : Dongle) (i : ℕ) → ◌≡◌ {A = Option (ℕ × Dongle)} (some (i, d)) none → ⊥
    impossible d i g = cc
passed dd list index count (suc m) device (some d) h e lt i g =
    let other : (index == last_index (counted count)) ≡ false = ==_of_ne _ _ (omega arith) in
    (
      counted count,
      m,
      omega arith,
      rw (h, nth_known) at g,
      rw (is_known-some dd d h) (rw (other, h) refl),
    )

at_end : (index count : ℕ) (device : Option Dongle) → name_loop [] index count device ≡ device
unfolding name_loop
at_end index count device = refl

stale :
    (init : List Descriptor) (dd : Descriptor) (d : Dongle) (index count n : ℕ)
    (device : Option Dongle) (i : ℕ)
    → find_known_device dd ≡ some d
    → index ≡ count + n
    → index < 2 ^ 32 - 1
    → nth_known (init ++ dd ∷ []) n i ≡ none
    → name_loop (init ++ dd ∷ []) index count device ≡ some d
stale [] dd d index count n device i h e lt g =
    let (count', n', e', g', same) = passed dd [] index count n device (some d) h e lt i g in
    same ∙ at_end index count' (some d)
stale (x ∷ init) dd d index count n device i h e lt g =
    let (count', n', e', g', same) =
      passed x (init ++ dd ∷ []) index count n device (find_known_device x) refl e lt i g in
    same ∙ stale init dd d index count' n' (find_known_device x) (i + 1) h e' lt g'

-- Under each number below 2^32 - 1, `rtlsdr_open` opens the known dongle with this number, if there is
-- one, and none otherwise, and `rtlsdr_get_device_name` returns the name of the dongle that is opened.
pub open_choice-name :
    (list : List Descriptor) (index : ℕ)
    → index < 2 ^ 32 - 1
    → (open_choice list index ≡ (elim (nth_known list index 0) [ none ↦ none | some p ↦ some p.0 ]))
      × ((p : ℕ × Dongle)
          → nth_known list index 0 ≡ some p
          → rtlsdr_get_device_name list index ≡ p.1.name)
unfolding open_choice rtlsdr_get_device_name name_of
open_choice-name list index lt =
    let agree = loops-Agree list index 0 0 index (omega arith) lt in
    (agree.opened, λ p g. rw (agree.named p none g) refl)

-- Where the last device in the list of libusb is a known one, `rtlsdr_get_device_name` returns its name, and not
-- an empty one, for each number below 2^32 - 1 that no dongle has.
pub device_name-stale :
    (init : List Descriptor) (dd : Descriptor) (d : Dongle) (index : ℕ)
    → find_known_device dd ≡ some d
    → index < 2 ^ 32 - 1
    → nth_known (init ++ dd ∷ []) index 0 ≡ none
    → rtlsdr_get_device_name (init ++ dd ∷ []) index ≡ d.name
unfolding rtlsdr_get_device_name name_of
device_name-stale init dd d index h lt g =
    rw (stale init dd d index 0 index none 0 h (omega arith) lt g) refl
