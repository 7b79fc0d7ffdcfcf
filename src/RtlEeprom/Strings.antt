-- ===== src/RtlEeprom/Strings.antt =====
-- rtl-sdr/src/rtl_eeprom.c: what one string descriptor holds.
use rtl_tcp_pi.Common.{
  ℕ, zero, suc, ◌+◌, ◌-◌, ◌*◌, ◌%◌, ◌^◌, ◌≤◌, ◌<◌, ◌≡◌, refl, ap, ap₂, ◌∙◌, arith, leb_of_lt, leb,
  ltb, ◌&&◌, Bool, true, Bool-cases, ==_of_eq, ==_of_ne, ◌≢◌, Option, none, some, List, [], ◌∷◌,
  length, inl, inr,
}
use rtl_tcp_pi.RtlEeprom.{
  Memory, put, get_chars, get_string_descriptor, close_string, set_chars, set_string_descriptor,
}

put_same : (i v : ℕ) (dat : Memory) → put i v dat i ≡ v
unfolding put
put_same i v dat = rw (==_of_eq i i refl) refl

pub put_other : (i v : ℕ) (dat : Memory) (k : ℕ) → k ≢ i → put i v dat k ≡ dat k
unfolding put
put_other i v dat k ne = rw (==_of_ne k i ne) refl

-- A string of characters that are not 0.
abbrev pub IsString : List ℕ → Type 0
IsString [] = Unit
IsString (c ∷ cs) = (0 < c) × (c < 256) × IsString cs

-- The test of a concrete string.
abbrev pub is_string : List ℕ → Bool
is_string [] = true
is_string (c ∷ cs) = ltb 0 c && ltb c 256 && is_string cs

pub is_string-IsString : (str : List ℕ) → is_string str ≡ true → IsString str
is_string-IsString [] h = tt
is_string-IsString (c ∷ cs) h =
    let low : 0 < c = ground arith in
    let high : c < 256 = ground arith in (low, high, is_string-IsString cs (ground arith))

-- The characters of a string in every second byte from `at` on.
abbrev pub Chars : Memory → ℕ → List ℕ → Type 0
Chars dat at [] = Unit
Chars dat at (c ∷ cs) = (dat at ≡ c) × Chars dat (at + 2) cs

-- The same bytes at the odd places from `from` to below `to`.
abbrev pub Agree : Memory → Memory → ℕ → ℕ → Type 0
Agree dat dat' from to = (k : ℕ) → from ≤ k → k < to → k % 2 ≡ 1 → dat' k ≡ dat k

pub Chars-Agree :
    (dat dat' : Memory) (at : ℕ) (str : List ℕ)
    → at % 2 ≡ 1
    → Agree dat dat' at (at + 2 * length str)
    → Chars dat at str
    → Chars dat' at str
Chars-Agree dat dat' at [] odd same h = tt
Chars-Agree dat dat' at (c ∷ cs) odd same h = (
  same at (omega arith) (omega arith) odd ∙ h.0,
  Chars-Agree dat dat' (at + 2) cs (omega arith) (λ k lo hi. same k (omega arith) (omega arith))
      h.1,
)

Chars-at :
    (dat : Memory) (str : List ℕ) {at at' : ℕ} → at' ≡ at → Chars dat at str → Chars dat at' str
Chars-at dat str e h = rw e h

get_chars-Chars :
    (dat : Memory) (at : ℕ) (str : List ℕ)
    → Chars dat at str
    → get_chars (2 * length str) at dat ≡ (at + 2 * length str, str)
unfolding get_chars
get_chars-Chars dat at [] h =
    let same : at ≡ at + 2 * length {A = ℕ} [] = omega arith in ap (λ e. (e, [])) same
get_chars-Chars dat at (c ∷ cs) h =
    let two : 2 * length (c ∷ cs) ≡ suc (suc (2 * length cs)) = omega arith in
    let over : at + 2 + 2 * length cs ≡ at + 2 * length (c ∷ cs) = omega arith in
    ap (λ n. get_chars n at dat) two
    ∙ ap (λ p. (p.0, dat at ∷ p.1)) (get_chars-Chars dat (at + 2) cs h.1)
    ∙ ap₂ (λ e d. (e, d ∷ cs)) over h.0

-- A descriptor at `pos` for a string.
pub record Holds (dat : Memory) (pos : ℕ) (str : List ℕ) : Type 0 where
  pub size : dat pos ≡ 2 + 2 * length str
  pub chars : Chars dat (pos + 2) str

pub get_string-Holds :
    (dat : Memory) (pos : ℕ) (str : List ℕ)
    → Holds dat pos str
    → get_string_descriptor pos dat ≡ (pos + 2 + 2 * length str, str)
unfolding get_string_descriptor
get_string-Holds dat pos str h =
    let left : dat pos - 2 ≡ 2 * length str = omega (arith, h.size) in
    rw left (get_chars-Chars dat (pos + 2) str h.chars)

-- What the rest of the loop makes of a string that fits.
record Written (dat : Memory) (pos j : ℕ) (str : List ℕ) (r : Option ℕ × Memory) : Type 0 where
  end : r.0 ≡ some (pos + j + 2 * length str)
  size : r.1 pos ≡ j + 2 * length str
  chars : Chars r.1 (pos + j) str
  below : (k : ℕ) → k < pos + j → k ≢ pos → r.1 k ≡ dat k

close_string-Written :
    (pos j : ℕ) (dat : Memory) → j < 256 → Written dat pos j [] (close_string pos j dat)
unfolding close_string
close_string-Written pos j dat lt = record {
  end = ap some (omega arith);
  size = put_same pos (j % 2 ^ 8) dat ∙ omega arith;
  chars = tt;
  below = λ k lo ne. put_other pos (j % 2 ^ 8) dat k ne;
}

set_chars-Written :
    (pos j : ℕ) (str : List ℕ) (dat : Memory)
    → IsString str
    → 2 ≤ j
    → pos + j + 2 * length str ≤ 79
    → Written dat pos j str (set_chars pos j str dat)
unfolding set_chars
set_chars-Written pos j [] dat h two fits = close_string-Written pos j dat (omega arith)
set_chars-Written pos j (zero ∷ cs) dat h two fits = absurd (omega (arith, h.0))
set_chars-Written pos j (suc c ∷ cs) dat h two fits =
    let one = put (pos + j) (suc c) dat in
    let both = put (pos + j + 1) 0 one in
    let rest = set_chars-Written pos (j + 2) cs both h.2 (omega arith) (omega arith) in
    rw (leb_of_lt 78 (pos + j) (omega arith)) (record {
      end = rest.end ∙ ap some (omega arith);
      size = rest.size ∙ omega arith;
      chars = (
        rest.below (pos + j) (omega arith) (omega arith)
            ∙ put_other (pos + j + 1) 0 one (pos + j) (omega arith)
            ∙ put_same (pos + j) (suc c) dat,
        Chars-at _ cs (omega arith) rest.chars,
      );
      below = λ k lo ne.
          rest.below k (omega arith) ne
          ∙ put_other (pos + j + 1) 0 one k (omega arith)
          ∙ put_other (pos + j) (suc c) dat k (omega arith);
    })

-- What `set_string_descriptor` leaves for a string that fits.
pub record IsStored (dat : Memory) (pos : ℕ) (str : List ℕ) (r : Option ℕ × Memory) : Type 0 where
  pub end : r.0 ≡ some (pos + 2 + 2 * length str)
  pub holds : Holds r.1 pos str
  pub below : (k : ℕ) → k < pos → r.1 k ≡ dat k

pub set_string-IsStored :
    (pos : ℕ) (str : List ℕ) (dat : Memory)
    → IsString str
    → pos + 2 + 2 * length str ≤ 79
    → IsStored dat pos str (set_string_descriptor (some pos) str dat)
unfolding set_string_descriptor
set_string-IsStored pos str dat h fits =
    let typed = put (pos + 1) 0x03 dat in
    let w = set_chars-Written pos 2 str typed h (omega arith) fits in
    record {
      end = w.end;
      holds = record { size = w.size; chars = w.chars };
      below = λ k lt.
          w.below k (omega arith) (omega arith) ∙ put_other (pos + 1) 0x03 dat k (omega arith);
    }

set_chars-long :
    (pos j : ℕ) (str : List ℕ) (dat : Memory)
    → IsString str
    → 0 < length str
    → 80 ≤ pos + j + 2 * length str
    → (set_chars pos j str dat).0 ≡ none
unfolding set_chars
set_chars-long pos j [] dat h some_left long = absurd (omega (arith, some_left))
set_chars-long pos j (zero ∷ cs) dat h some_left long = absurd (omega (arith, h.0))
set_chars-long pos j (suc c ∷ cs) dat h some_left long = elim (Bool-cases (leb 78 (pos + j))) [
  | inl e ↦ rw e refl
  | inr e ↦
      let room : pos + j < 78 = ground arith in
      rw e (
        set_chars-long pos (j + 2) cs (put (pos + j + 1) 0 (put (pos + j) (suc c) dat)) h.2
          (omega arith) (omega arith))
]

pub set_string-long :
    (pos : ℕ) (str : List ℕ) (dat : Memory)
    → IsString str
    → 0 < length str
    → 80 ≤ pos + 2 + 2 * length str
    → (set_string_descriptor (some pos) str dat).0 ≡ none
unfolding set_string_descriptor
set_string-long pos str dat h some_left long =
    set_chars-long pos 2 str (put (pos + 1) 0x03 dat) h some_left long
