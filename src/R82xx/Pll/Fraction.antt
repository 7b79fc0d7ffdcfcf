-- ===== src/R82xx/Pll/Fraction.antt =====
-- rtl-sdr/src/tuner_r82xx.c: the sdm loop of `r82xx_set_pll`.
use rtl_tcp_pi.Common.{
  ℕ, zero, suc, ◌+◌, ◌-◌, ◌*◌, ◌/◌, ◌%◌, ◌^◌, ◌≤◌, ◌<◌, ◌≡◌, refl, ap, sym, ◌∙◌, inl, inr, arith,
  ltb, Bool-cases, le_of_ltb, lt_of_ltb, ltb_of_le, ltb_of_lt, ==_of_ne, leb_of_le, leb_of_lt,
}
use native.Mathlib.Nat.{
  pow-suc, one-le-pow, mul-div-le, lt-div-mul-add, mul-le-mul_left, mul-le-mul_right,
  div-eq_of_eq-mul_right,
}
use rtl_tcp_pi.R82xx.Pll.{Sdm, result, sdm_loop}

-- The loop from `n_sdm`, `sdm` and `vco_fra` on, with `j` doublings of `n_sdm` left: what it adds
-- to `sdm` stands for what it takes from `vco_fra`, up to 1 kHz a round, and little is left.
pub record IsClose (twice_ref j slack sdm vco_fra : ℕ) (r : Sdm) : Type 0 where
  pub sdm' : ℕ
  pub rest : ℕ
  pub returns : r ≡ result sdm' rest
  pub not_below : 65536 * vco_fra + twice_ref * sdm ≤ 65536 * rest + twice_ref * sdm'
  pub not_above :
      65536 * rest + twice_ref * sdm' ≤ 65536 * vco_fra + twice_ref * sdm + 65536 * (j + 1)
  pub small_rest : rest ≤ slack + j + 2
  pub fits : sdm' < 65536

module _ (ref : ℕ) (bound : 2 * ref < 65536) where
  module _ (m p : ℕ) (mp : m * (2 * p) ≡ 32768) (pos : 0 < p) where
    m_pos : 0 < m
    m_pos = elim (Bool-cases (ltb 0 m)) [
      | inl h ↦ lt_of_ltb 0 m h
      | inr h ↦
          let z : m ≡ 0 = omega (arith, le_of_ltb 0 m h) in
          absurd (omega (arith, ap (λ k. k * (2 * p)) z))
    ]

    -- `32768 / (n_sdm / 2)` is exact.
    taken_exact : 32768 / (2 * m / 2) ≡ 2 * p
    taken_exact =
        let half : 2 * m / 2 ≡ m = omega arith in rw half (div-eq_of_eq-mul_right m_pos (sym mp))

    step_bounds :
        (65536 * (2 * ref / (2 * m)) ≤ 2 * ref * (2 * p))
        × (2 * ref * (2 * p) < 65536 * (2 * ref / (2 * m)) + 65536)
    step_bounds =
        let st = 2 * ref / (2 * m) in
        let below : 2 * m * st * (2 * p) ≤ 2 * ref * (2 * p) =
          mul-le-mul_right (2 * p) (mul-div-le (2 * ref) (2 * m)) in
        let above : suc (2 * ref) * (2 * p) ≤ (st * (2 * m) + 2 * m) * (2 * p) =
          mul-le-mul_right (2 * p) (lt-div-mul-add (omega (arith, m_pos))) in
        let exact : 2 * m * st * (2 * p) ≡ 65536 * st = omega (arith, ap (λ (k : ℕ). k * st) mp) in
        (omega arith, omega (arith, mp))

  module _ (fuel n sdm fra : ℕ) where
    loop_exit : fra ≤ 1 → sdm_loop (suc fuel) ref n sdm fra ≡ result sdm fra
    unfolding sdm_loop
    loop_exit h = rw (ltb_of_le 1 fra h) refl

    loop_break :
        1 < fra
        → 32768 ≤ n
        → 2 * ref / n < fra
        → sdm_loop (suc fuel) ref n sdm fra
          ≡ result ((sdm + 32768 / (n / 2)) % 65536) (fra - 2 * ref / n)
    unfolding sdm_loop
    loop_break h₁ h₂ h₃ =
        let e : 2 * ref % 2 ^ 32 ≡ 2 * ref = omega arith in
        rw
          (
            ltb_of_lt 1 fra h₁,
            ==_of_ne n 0 (omega arith),
            e,
            ltb_of_lt (2 * ref / n) fra h₃,
            leb_of_le 32768 n h₂,
          )
          refl

    loop_taken :
        1 < fra
        → 0 < n
        → n < 32768
        → 2 * ref / n < fra
        → sdm_loop (suc fuel) ref n sdm fra
          ≡ sdm_loop fuel ref (n * 2) ((sdm + 32768 / (n / 2)) % 65536) (fra - 2 * ref / n)
    unfolding sdm_loop
    loop_taken h₁ h₀ h₂ h₃ =
        let e : 2 * ref % 2 ^ 32 ≡ 2 * ref = omega arith in
        let e' : n * 2 % 2 ^ 16 ≡ n * 2 = omega arith in
        rw
          (
            ltb_of_lt 1 fra h₁,
            ==_of_ne n 0 (omega arith),
            e,
            e',
            ltb_of_lt (2 * ref / n) fra h₃,
            leb_of_lt 32768 n h₂,
          )
          refl

    loop_skipped :
        1 < fra
        → 0 < n
        → n < 32768
        → fra ≤ 2 * ref / n
        → sdm_loop (suc fuel) ref n sdm fra ≡ sdm_loop fuel ref (n * 2) sdm fra
    unfolding sdm_loop
    loop_skipped h₁ h₀ h₂ h₃ =
        let e : 2 * ref % 2 ^ 32 ≡ 2 * ref = omega arith in
        let e' : n * 2 % 2 ^ 16 ≡ n * 2 = omega arith in
        rw (ltb_of_lt 1 fra h₁, ==_of_ne n 0 (omega arith), e, e', ltb_of_le (2 * ref / n) fra h₃)
          refl

  IsClose-exit :
      (j slack sdm fra : ℕ) {r : Sdm}
      → fra ≤ 1
      → sdm < 65536
      → r ≡ result sdm fra
      → IsClose (2 * ref) j slack sdm fra r
  IsClose-exit j slack sdm fra h fits e = record {
    sdm' = sdm;
    rest = fra;
    returns = e;
    not_below = omega arith;
    not_above = omega arith;
    small_rest = omega arith;
    fits = fits;
  }

  module _ (m p slack sdm fra : ℕ) (mp : m * (2 * p) ≡ 32768) (pos : 0 < p)
      (room : sdm + 2 * (2 * p) ≤ 65536)
      (low : 32768 * fra ≤ 2 * ref * (2 * p) + 32768 * slack) where
    abbrev st : ℕ
    st = 2 * ref / (2 * m)

    st_bounds : (65536 * st ≤ 2 * ref * (2 * p)) × (2 * ref * (2 * p) < 65536 * st + 65536)
    st_bounds = step_bounds m p mp pos

    -- The last round takes the step and leaves the loop.
    IsClose-break :
        {r : Sdm}
        → p ≡ 1
        → st < fra
        → r ≡ result (sdm + 2 * p) (fra - st)
        → IsClose (2 * ref) 0 slack sdm fra r
    IsClose-break last h e = record {
      sdm' = sdm + 2 * p;
      rest = fra - st;
      returns = e;
      not_below = omega (arith, st_bounds);
      not_above = omega (arith, st_bounds);
      small_rest = omega (arith, st_bounds, ap (λ (k : ℕ). ref * k) last);
      fits = omega arith;
    }

    IsClose-taken :
        {r : Sdm} (j : ℕ)
        → st < fra
        → IsClose (2 * ref) j (slack + 1) (sdm + 2 * p) (fra - st) r
        → IsClose (2 * ref) (suc j) slack sdm fra r
    IsClose-taken j h c = record {
      sdm' = c.sdm';
      rest = c.rest;
      returns = c.returns;
      not_below = omega (arith, st_bounds, c.not_below);
      not_above = omega (arith, st_bounds, c.not_above);
      small_rest = omega (arith, c.small_rest);
      fits = c.fits;
    }

    IsClose-skipped :
        {r : Sdm} (j : ℕ)
        → IsClose (2 * ref) j slack sdm fra r
        → IsClose (2 * ref) (suc j) slack sdm fra r
    IsClose-skipped j c = record {
      sdm' = c.sdm';
      rest = c.rest;
      returns = c.returns;
      not_below = c.not_below;
      not_above = omega (arith, c.not_above);
      small_rest = omega (arith, c.small_rest);
      fits = c.fits;
    }

  pub sdm_loop-IsClose :
      (fuel j m p slack sdm fra : ℕ)
      → j < fuel
      → p ≡ 2 ^ j
      → m * (2 * p) ≡ 32768
      → sdm + 2 * (2 * p) ≤ 65536
      → 32768 * fra ≤ 2 * ref * (2 * p) + 32768 * slack
      → IsClose (2 * ref) j slack sdm fra (sdm_loop fuel ref (2 * m) sdm fra)
  sdm_loop-IsClose zero j m p slack sdm fra lt e mp room low = absurd (omega arith)
  sdm_loop-IsClose (suc fuel) zero m p slack sdm fra lt e mp room low =
      elim (Bool-cases (ltb 1 fra)) [
        | inr done ↦
            IsClose-exit 0 slack sdm fra (le_of_ltb 1 fra done)
              (let one : p ≡ 1 = e in omega (arith, one, room))
              (loop_exit fuel (2 * m) sdm fra (le_of_ltb 1 fra done))
        | inl more ↦
            let one : p ≡ 1 = e in
            let m_is : m ≡ 16384 = omega (arith, ap (λ (k : ℕ). m * k) one) in
            let below : 2 * ref / (2 * m) < fra = rw m_is (omega (arith, lt_of_ltb 1 fra more)) in
            IsClose-break m p slack sdm fra mp (omega arith) room low one below (
              loop_break fuel (2 * m) sdm fra (lt_of_ltb 1 fra more) (omega arith) below
              ∙ rw (taken_exact m p mp (omega arith))
                  (ap (λ k. result k (fra - 2 * ref / (2 * m))) (omega arith)))
      ]
  sdm_loop-IsClose (suc fuel) (suc j) m p slack sdm fra lt e mp room low =
      elim (Bool-cases (ltb 1 fra)) [
        | inr done ↦
            IsClose-exit (suc j) slack sdm fra (le_of_ltb 1 fra done) (omega (arith, pos))
              (loop_exit fuel (2 * m) sdm fra (le_of_ltb 1 fra done))
        | inl more ↦ elim (Bool-cases (ltb (2 * ref / (2 * m)) fra)) [
          | inl below ↦
              let down : 2 * ref / (2 * m) < fra = lt_of_ltb (2 * ref / (2 * m)) fra below in
              rw
                (
                  loop_taken fuel (2 * m) sdm fra (lt_of_ltb 1 fra more) m_low m_high down,
                  taken_exact m p mp pos,
                  fits,
                  twice,
                )
                (IsClose-taken m p slack sdm fra mp pos room low j down (
                  sdm_loop-IsClose fuel j (2 * m) (2 ^ j) (slack + 1) (sdm + 2 * p)
                    (fra - 2 * ref / (2 * m)) (omega arith) refl mp' (omega (arith, two))
                    (omega (
                      arith,
                      two,
                      low,
                      ap (λ (k : ℕ). ref * k) two,
                      st_bounds m p slack sdm fra mp pos room low,
                    ))))
          | inr above ↦
              let up : fra ≤ 2 * ref / (2 * m) = le_of_ltb (2 * ref / (2 * m)) fra above in
              rw (loop_skipped fuel (2 * m) sdm fra (lt_of_ltb 1 fra more) m_low m_high up, twice)
                (IsClose-skipped m p slack sdm fra mp pos room low j (
                  sdm_loop-IsClose fuel j (2 * m) (2 ^ j) slack sdm fra (omega arith) refl mp'
                    (omega (arith, two))
                    (omega (
                      arith,
                      two,
                      up,
                      ap (λ (k : ℕ). ref * k) two,
                      st_bounds m p slack sdm fra mp pos room low,
                    ))))
        ]
      ]
    where
      two : p ≡ 2 * 2 ^ j
      two = omega (arith, e, pow-suc 2 j)

      pos : 0 < p
      pos = omega (arith, two, one-le-pow j 2 (omega arith))

      mp' : 2 * m * (2 * 2 ^ j) ≡ 32768
      mp' = omega (arith, mp, ap (λ (k : ℕ). m * k) two)

      m_low : 0 < 2 * m
      m_low = omega (arith, m_pos m p mp pos)

      m_high : 2 * m < 32768
      m_high = omega (arith, mp', mul-le-mul_left m (one-le-pow j 2 (omega arith)))

      fits : (sdm + 2 * p) % 65536 ≡ sdm + 2 * p
      fits = omega (arith, room, pos)

      twice : 2 * m * 2 ≡ 2 * (2 * m)
      twice = omega arith
