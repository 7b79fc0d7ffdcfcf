-- ===== src/RtlAdsb/Ends.antt =====
-- rtl-sdr/src/rtl_adsb.c: the progress of the loops of `manchester`.
use rtl_tcp_pi.Common.{
  ℕ, zero, suc, ◌+◌, ◌-◌, ◌≤◌, ◌<◌, ◌≡◌, refl, ◌∙◌, arith, false, ◌&&◌, ltb, ◌==◌, if◌then◌else◌,
  some, List, length, get_or, set, length-set, length-splice, Bool-cases, inl, inr, lt_of_ltb,
  le_of_ltb, ltb_of_lt, ltb_of_le,
}
use rtl_tcp_pi.RtlAdsb.Manchester.{
  Scan, marks, preamble_len, single_manchester, preamble, bad_sample, find_preamble, mark_one,
  mark_bits, scan_once, manchester_loop, manchester,
}

-- The buffer keeps its length, and the position does not move back.
record IsOnwards (s t : Scan) : Type 0 where
  same_length : length t.buf ≡ length s.buf
  no_less : s.i ≤ t.i

find_preamble-IsOnwards : (n : ℕ) (s : Scan) → IsOnwards s (find_preamble n s)
unfolding find_preamble
find_preamble-IsOnwards zero s = record { same_length = refl; no_less = omega arith }
find_preamble-IsOnwards (suc n) s =
    let later = find_preamble-IsOnwards n (record s { i = s.i + 1 }) in
    elim (Bool-cases (preamble s.buf s.i)) [
      | inl e ↦ rw e (record {
        same_length = length-splice s.buf s.i (marks preamble_len);
        no_less = omega arith;
      })
      | inr e ↦
          rw e (record { same_length = later.same_length; no_less = omega (arith, later.no_less) })
    ]

module _ (quality allowed : ℕ) where
  mark_one-length :
      (s : Scan) (i2 bit : ℕ) → length (mark_one quality allowed s i2 bit).buf ≡ length s.buf
  unfolding mark_one
  mark_one-length s i2 bit =
      length-set (set (set s.buf s.i _) (s.i + 1) _) i2 _
      ∙ length-set (set s.buf s.i _) (s.i + 1) _
      ∙ length-set s.buf s.i _

  after_mark :
      (s : Scan) (i2 bit : ℕ) {t : Scan}
      → IsOnwards (mark_one quality allowed s i2 bit) t
      → IsOnwards s t
  unfolding mark_one
  after_mark s i2 bit h = record {
    same_length = h.same_length ∙ mark_one-length s i2 bit;
    no_less = omega (arith, h.no_less);
  }

  mark_bits-IsOnwards :
      (fuel : ℕ) (s : Scan) (i2 errors : ℕ)
      → IsOnwards s (mark_bits quality allowed fuel s i2 errors)
  unfolding mark_bits
  mark_bits-IsOnwards zero s i2 errors = record { same_length = refl; no_less = omega arith }
  mark_bits-IsOnwards (suc fuel) s i2 errors =
      let c = get_or s.buf s.i 0 in
      let d = get_or s.buf (s.i + 1) 0 in
      let bit = single_manchester quality s.a s.b c d in
      let errors' = if bit == bad_sample then errors + 1 else errors in
      let later = mark_bits-IsOnwards fuel (mark_one quality allowed s i2 bit) (i2 + 1) errors' in
      elim (Bool-cases (ltb (s.i + 1) (length s.buf))) [
        | inr e ↦ rw e (record { same_length = refl; no_less = omega arith })
        | inl e ↦ elim (Bool-cases (bit == bad_sample && ltb allowed errors')) [
          | inl e' ↦
              rw (e, e')
                (record { same_length = length-set s.buf i2 bad_sample; no_less = omega arith })
          | inr e' ↦ rw (e, e') (after_mark s i2 bit later)
        ]
      ]

  -- With an error allowed, the first sample is marked.
  mark_bits-moves :
      (fuel : ℕ) (s : Scan) (i2 : ℕ)
      → 1 ≤ allowed
      → s.i + 1 < length s.buf
      → s.i + 2 ≤ (mark_bits quality allowed (suc fuel) s i2 0).i
  unfolding mark_bits mark_one
  mark_bits-moves fuel s i2 some_allowed more =
      let c = get_or s.buf s.i 0 in
      let d = get_or s.buf (s.i + 1) 0 in
      let bit = single_manchester quality s.a s.b c d in
      let errors' = if bit == bad_sample then 1 else 0 in
      let few : (bit == bad_sample && ltb allowed errors') ≡ false = ground arith in
      let later = mark_bits-IsOnwards fuel (mark_one quality allowed s i2 bit) (i2 + 1) errors' in
      rw (ltb_of_lt (s.i + 1) (length s.buf) more, few) later.no_less

  scan_once-IsOnwards : (s : Scan) → IsOnwards s (scan_once quality allowed s)
  unfolding scan_once
  scan_once-IsOnwards s =
      let found = find_preamble-IsOnwards (length s.buf - preamble_len - s.i) s in
      let marked =
        mark_bits-IsOnwards _ (find_preamble (length s.buf - preamble_len - s.i) s) _ 0 in
      record {
        same_length = marked.same_length ∙ found.same_length;
        no_less = omega (arith, found.no_less, marked.no_less);
      }

  -- A round moves on, or leaves no pair of samples.
  scan_once-moves :
      (s : Scan) → 1 ≤ allowed → s.i + 1 < length s.buf → s.i < (scan_once quality allowed s).i
  unfolding scan_once
  scan_once-moves s some_allowed more =
      let found = find_preamble (length s.buf - preamble_len - s.i) s in
      let onwards = find_preamble-IsOnwards (length s.buf - preamble_len - s.i) s in
      elim (Bool-cases (ltb (found.i + 1) (length found.buf))) [
        | inl e ↦
            moved found s (length found.buf) onwards.no_less some_allowed
              (lt_of_ltb (found.i + 1) (length found.buf) e) refl
        | inr e ↦
            let marked = mark_bits-IsOnwards (length found.buf) found found.i 0 in
            omega (
              arith,
              marked.no_less,
              le_of_ltb (found.i + 1) (length found.buf) e,
              onwards.same_length,
            )
      ]
    where
      moved :
          (found s : Scan) (len : ℕ)
          → s.i ≤ found.i
          → 1 ≤ allowed
          → found.i + 1 < length found.buf
          → length found.buf ≡ len
          → s.i < (mark_bits quality allowed len found found.i 0).i
      moved found s zero h some_allowed more e = absurd (omega arith)
      moved found s (suc n) h some_allowed more e =
          omega (arith, h, mark_bits-moves n found found.i some_allowed more)

  loop_ends :
      (n : ℕ) (s : Scan)
      → 1 ≤ allowed
      → length s.buf ≤ s.i + n
      → (buf' : List ℕ) × (manchester_loop quality allowed (suc n) s ≡ some buf')
        × (length buf' ≡ length s.buf)
  unfolding manchester_loop
  loop_ends zero s some_allowed enough =
      rw (ltb_of_le (s.i + 1) (length s.buf) (omega arith)) (s.buf, refl, refl)
  loop_ends (suc n) s some_allowed enough = elim (Bool-cases (ltb (s.i + 1) (length s.buf))) [
    | inr e ↦ rw e (s.buf, refl, refl)
    | inl e ↦
        let moves = scan_once-moves s some_allowed (lt_of_ltb (s.i + 1) (length s.buf) e) in
        let same = (scan_once-IsOnwards s).same_length in
        let rest =
          loop_ends n (scan_once quality allowed s) some_allowed
            (omega (arith, moves, same, enough)) in
        rw e (rest.0, rest.1, rest.2 ∙ same)
  ]

  -- If at least one error is allowed, `manchester` ends on every buffer, and keeps its length.
  pub manchester-ends :
      (buf : List ℕ)
      → 1 ≤ allowed
      → (buf' : List ℕ) × (manchester quality allowed buf ≡ some buf') × (length buf' ≡ length buf)
  unfolding manchester
  manchester-ends buf some_allowed = loop_ends (length buf) _ some_allowed (omega arith)
