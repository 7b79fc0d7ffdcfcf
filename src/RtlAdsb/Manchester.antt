-- ===== src/RtlAdsb/Manchester.antt =====
-- rtl-sdr/src/rtl_adsb.c: magnitudes, the preamble, and the Manchester code.
use rtl_tcp_pi.Common.{
  ℕ, zero, suc, ◌+◌, ◌-◌, ◌*◌, ◌%◌, ◌^◌, Bool, true, false, not, ◌&&◌, ◌||◌, ltb, leb, ◌==◌,
  if◌then◌else◌, Option, none, some, List, [], ◌∷◌, length, get_or, set, splice,
}

abbrev pub message_go : ℕ
message_go = 253

abbrev pub overwrite : ℕ
overwrite = 254

abbrev pub bad_sample : ℕ
bad_sample = 255

abbrev pub preamble_len : ℕ
preamble_len = 16

unfoldable pub abs8 : ℕ → ℕ
abs8 x = if leb 128 x then x - 128 else 128 - x

-- `squares[x]`, as `squares_precompute` fills it.
unfoldable pub square : ℕ → ℕ
square x = abs8 x * abs8 x % 2 ^ 16

-- The buffer of bytes becomes one of 16-bit values, one for each pair. Each pair is read before its
-- place is written. A last byte without a partner is left out.
unfoldable pub magnitute : List ℕ → List ℕ
magnitute [] = []
magnitute (i ∷ []) = []
magnitute (i ∷ q ∷ rest) = (square i + square q) % 2 ^ 16 ∷ magnitute rest

abbrev bit_value : Bool → ℕ
bit_value bit = if bit then 1 else 0

-- `quality` is ten times the option's value.
unfoldable pub single_manchester : ℕ → ℕ → ℕ → ℕ → ℕ → ℕ
single_manchester quality a b c d =
    let bit_p = ltb b a in
    let bit = ltb d c in
    if quality == 0
    then bit_value bit
    else if quality == 5
    then (if bit && bit_p && ltb c b
        then bad_sample
        else if not bit && not bit_p && ltb b c
        then bad_sample
        else bit_value bit)
    else if quality == 10
    then (if bit && bit_p && ltb b c
        then 1
        else if bit && not bit_p && ltb d b
        then 1
        else if not bit && bit_p && ltb b d
        then 0
        else if not bit && not bit_p && ltb c b
        then 0
        else bad_sample)
    else (if bit && bit_p && ltb b c && ltb d a
        then 1
        else if bit && not bit_p && ltb a c && ltb d b
        then 1
        else if not bit && bit_p && ltb c a && ltb b d
        then 0
        else if not bit && not bit_p && ltb c b && ltb a d
        then 0
        else bad_sample)

-- The positions of the preamble's pulses.
abbrev is_pulse : ℕ → Bool
is_pulse i2 = i2 == 0 || i2 == 2 || i2 == 7 || i2 == 9

-- The loop of `preamble` with `n` rounds left, at `i2`.
unfoldable pub preamble_loop : ℕ → List ℕ → ℕ → ℕ → ℕ → ℕ → Bool
preamble_loop zero buf i i2 low high = true
preamble_loop (suc n) buf i i2 low high =
    let sample = get_or buf (i + i2) 0 in
    let low' = if is_pulse i2 then low else sample in
    let high' = if is_pulse i2 then sample else high in
    let rest = preamble_loop n buf i (i2 + 1) low' high' in if leb high' low' then false else rest

unfoldable pub preamble : List ℕ → ℕ → Bool
preamble buf i = preamble_loop preamble_len buf i 0 0 65535

-- The local variables of `manchester`.
pub record Scan : Type 0 where
  pub buf : List ℕ
  pub i : ℕ
  pub a : ℕ
  pub b : ℕ

abbrev pub marks : ℕ → List ℕ
marks zero = []
marks (suc n) = message_go ∷ marks n

-- The first `for` loop, with `n` positions left below `len - preamble_len`.
unfoldable pub find_preamble : ℕ → Scan → Scan
find_preamble zero s = s
find_preamble (suc n) s =
    let next = find_preamble n (record s { i = s.i + 1 }) in
    if preamble s.buf s.i
    then record {
      buf = splice s.buf s.i (marks preamble_len);
      i = s.i + preamble_len;
      a = get_or s.buf s.i 0;
      b = get_or s.buf (s.i + 1) 0;
    }
    else next

module _ (quality allowed_errors : ℕ) where
  -- A sample that is good, or an error that is allowed: the bit, and `a` and `b` after it.
  unfoldable pub mark_one : Scan → ℕ → ℕ → Scan
  mark_one s i2 bit =
      let c = get_or s.buf s.i 0 in
      let d = get_or s.buf (s.i + 1) 0 in
      let bad = bit == bad_sample in
      record {
        buf =
            set (set (set s.buf s.i overwrite) (s.i + 1) overwrite) i2
              (if bad then bit_value (ltb d c) else bit);
        i = s.i + 2;
        a = if bad then 0 else c;
        b = if bad then 65535 else d;
      }

  -- The second `for` loop, on fuel; `i` grows by 2 in each round.
  unfoldable pub mark_bits : ℕ → Scan → ℕ → ℕ → Scan
  mark_bits zero s i2 errors = s
  mark_bits (suc fuel) s i2 errors =
      let c = get_or s.buf s.i 0 in
      let d = get_or s.buf (s.i + 1) 0 in
      let bit = single_manchester quality s.a s.b c d in
      let errors' = if bit == bad_sample then errors + 1 else errors in
      let rest = mark_bits fuel (mark_one s i2 bit) (i2 + 1) errors' in
      if ltb (s.i + 1) (length s.buf)
      then (if bit == bad_sample && ltb allowed_errors errors'
          then record s { buf = set s.buf i2 bad_sample; a = c; b = d }
          else rest)
      else s

  -- A round of the `while` loop.
  unfoldable pub scan_once : Scan → Scan
  scan_once s =
      let found = find_preamble (length s.buf - preamble_len - s.i) s in
      mark_bits (length found.buf) found found.i 0

  -- The `while` loop on fuel; `none` is a loop that the fuel does not end.
  unfoldable pub manchester_loop : ℕ → Scan → Option (List ℕ)
  manchester_loop zero s = none
  manchester_loop (suc fuel) s =
      let rest = manchester_loop fuel (scan_once s) in
      if ltb (s.i + 1) (length s.buf) then rest else some s.buf

  unfoldable pub manchester : List ℕ → Option (List ℕ)
  manchester buf = manchester_loop (suc (length buf)) (record { buf = buf; i = 0; a = 0; b = 0 })
