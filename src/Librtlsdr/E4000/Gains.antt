-- ===== src/Librtlsdr/E4000/Gains.antt =====
-- rtl-sdr/src/librtlsdr.c: the gains of the E4000 that are advertised, and those that are accepted.
use rtl_tcp_pi.Common.{
  ◌-◌, ◌==◌, if◌then◌else◌, sym, ap, ◌∙◌, ℕ, ◌+◌, ◌*◌, ◌<◌, ◌≤◌, ◌≡◌, ◌≢◌, inl, inr, refl, arith,
  ltb_ℤ, eq_ℤ, eq_of_eq_ℤ, Option, none, some, List, [], ◌∷◌, ℤ, pos, negsuc, ◌+ℤ◌, not, ltb,
  lt_of_ltb, le_of_ltb, Bool-cases, Bool, true, false, ◌&&◌, ◌||◌,
}
use rtl_tcp_pi.Common.Bits.{all_below, all_below-at}
use rtl_tcp_pi.Librtlsdr.Gains.{rtlsdr_get_tuner_gains, tuner_e4000}
use rtl_tcp_pi.E4k.Gain.{lnagain, lna_code}
use rtl_tcp_pi.Librtlsdr.E4000.{mixgain, lna_part}

-- Ten times a gain in dB.
abbrev pub tenfold : ℤ → ℤ
tenfold (pos n) = pos (n * 10)
tenfold (negsuc n) = negsuc (n * 10 + 9)

abbrev pub is_some : Option ℕ → Bool
is_some none = false
is_some (some n) = true

abbrev pub member : List ℤ → ℤ → Bool
member [] gain = false
member (x ∷ xs) gain = eq_ℤ x gain || member xs gain

abbrev pub accepted : ℤ → Bool
accepted gain = is_some (lna_code lnagain (lna_part gain))

abbrev pub expected : ℤ → Bool
expected gain =
    member (rtlsdr_get_tuner_gains tuner_e4000) gain
    || (eq_ℤ gain (pos 370) || ltb_ℤ (pos 419) gain)

abbrev same : Bool → Bool → Bool
same true b = b
same false b = not b

eq_of_same : (a b : Bool) → same a b ≡ true → a ≡ b
eq_of_same true true h = refl
eq_of_same true false h = cc
eq_of_same false true h = cc
eq_of_same false false h = refl

low_gains : all_below 420 (λ n. same (accepted (pos n)) (expected (pos n))) ≡ true
unfolding all_below lna_code lna_part rtlsdr_get_tuner_gains ◌+ℤ◌
low_gains = refl

high_part : (n : ℕ) → 420 ≤ n → lna_part (pos n) ≡ pos 300
unfolding lna_part ◌+ℤ◌
high_part n le = ground arith

negative_part : (n : ℕ) → lna_part (negsuc n) ≡ negsuc (n + 40)
unfolding lna_part ◌+ℤ◌
negative_part n = ground arith

high_accepted : (n : ℕ) → 420 ≤ n → accepted (pos n) ≡ expected (pos n)
unfolding lna_code rtlsdr_get_tuner_gains
high_accepted n le = rw (high_part n le) (ground arith)

negative_accepted : (n : ℕ) → accepted (negsuc n) ≡ expected (negsuc n)
unfolding lna_code rtlsdr_get_tuner_gains
negative_accepted n = rw (negative_part n) (ground arith)

-- The gains that `e4000_set_gain` has a code of the LNA for.
pub lna_code-accepted : (gain : ℤ) → accepted gain ≡ expected gain
lna_code-accepted (pos n) = elim (Bool-cases (ltb n 420)) [
  | inl e ↦ eq_of_same _ _ (all_below-at 420 _ n low_gains (lt_of_ltb n 420 e))
  | inr e ↦ high_accepted n (le_of_ltb n 420 e)
]
lna_code-accepted (negsuc n) = negative_accepted n

abbrev codes_fit : List (ℤ × ℕ) → Bool
codes_fit [] = true
codes_fit (entry ∷ rest) = ltb entry.1 16 && codes_fit rest

code_fits :
    (table : List (ℤ × ℕ)) (gain : ℤ) (code : ℕ)
    → codes_fit table ≡ true
    → lna_code table gain ≡ some code
    → code < 16
unfolding lna_code
code_fits [] gain code h e = cc
code_fits (entry ∷ rest) gain code h e = ground (arith, code_fits rest gain code)

pub lna_code-lt : (gain : ℤ) (code : ℕ) → lna_code lnagain gain ≡ some code → code < 16
lna_code-lt gain code e = code_fits lnagain gain code refl e

-- A gain that is in the table is not the code of an error.
pub lna_code-ne : (code : ℕ) → lna_code lnagain (negsuc 21) ≢ some code
unfolding lna_code
lna_code-ne code e = cc

-- What the codes of the LNA mean to the tuner, in tenths of a dB: -5 and -2.5 dB, steps of 2.5 dB from
-- 0 dB at the code 4 on, and 25 and 30 dB. The codes 2, 3 and 15 are not in use.
abbrev pub lna_level : ℕ → ℤ
lna_level code =
    if code == 0
    then negsuc 49
    else if code == 1
    then negsuc 24
    else if ltb code 13
    then pos (25 * (code - 4))
    else pos (250 + 50 * (code - 13))

-- What the bit of the mixer means to the tuner: 4 dB or 12 dB.
abbrev pub mixer_level : ℕ → ℤ
mixer_level bit = pos (40 + 80 * bit)

and_left : (a b : Bool) → (a && b) ≡ true → a ≡ true
and_left a b h = ground arith

and_right : (a b : Bool) → (a && b) ≡ true → b ≡ true
and_right a b h = ground arith

abbrev levels_fit : List (ℤ × ℕ) → Bool
levels_fit [] = true
levels_fit (entry ∷ rest) = eq_ℤ (lna_level entry.1) entry.0 && levels_fit rest

level_fits :
    (table : List (ℤ × ℕ)) (gain : ℤ) (code : ℕ)
    → levels_fit table ≡ true
    → lna_code table gain ≡ some code
    → lna_level code ≡ gain
unfolding lna_code
level_fits [] gain code h e = cc
level_fits (entry ∷ rest) gain code h e = elim (Bool-cases (eq_ℤ entry.0 gain)) [
  | inl here ↦
      let same_code : some entry.1 ≡ some code = sym (rw here refl) ∙ e in
      let level = eq_of_eq_ℤ (lna_level entry.1) entry.0 (and_left _ _ h) in
      let found = eq_of_eq_ℤ entry.0 gain here in
      let code_here : entry.1 ≡ code = cc in ap lna_level (sym code_here) ∙ level ∙ found
  | inr other ↦ level_fits rest gain code (and_right _ _ h) (sym (rw other refl) ∙ e)
]

-- The code that the driver has for a gain of the LNA means this gain to the tuner.
pub lna_code-level :
    (gain : ℤ) (code : ℕ) → lna_code lnagain gain ≡ some code → lna_level code ≡ gain
lna_code-level gain code e = level_fits lnagain gain code refl e

implied : (a b : Bool) → (not a || b) ≡ true → a ≡ true → b ≡ true
implied true b h e = h
implied false b h e = cc

abbrev adds_up : ℕ → Bool
adds_up n =
    not (member (rtlsdr_get_tuner_gains tuner_e4000) (pos n))
    || eq_ℤ (lna_part (pos n) +ℤ tenfold (mixgain (pos n))) (pos n)

low_sums : all_below 421 adds_up ≡ true
unfolding all_below lna_part mixgain rtlsdr_get_tuner_gains ◌+ℤ◌
low_sums = refl

none_above : (n : ℕ) → 421 ≤ n → member (rtlsdr_get_tuner_gains tuner_e4000) (pos n) ≢ true
unfolding rtlsdr_get_tuner_gains
none_above n le = ground arith

one_below : (n : ℕ) → member (rtlsdr_get_tuner_gains tuner_e4000) (negsuc n) ≡ true → n ≡ 9
unfolding rtlsdr_get_tuner_gains
one_below n h = ground arith

-- The two parts of an advertised gain add up to it.
pub parts_sum :
    (gain : ℤ)
    → member (rtlsdr_get_tuner_gains tuner_e4000) gain ≡ true
    → lna_part gain +ℤ tenfold (mixgain gain) ≡ gain
unfolding lna_part mixgain rtlsdr_get_tuner_gains ◌+ℤ◌
parts_sum (pos n) h = elim (Bool-cases (ltb n 421)) [
  | inl e ↦ eq_of_eq_ℤ _ _ (implied _ _ (all_below-at 421 adds_up n low_sums (lt_of_ltb n 421 e)) h)
  | inr e ↦ absurd (none_above n (le_of_ltb n 421 e) h)
]
parts_sum (negsuc n) h = let e : n ≡ 9 = one_below n h in rw e refl
