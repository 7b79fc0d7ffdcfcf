-- ===== src/E4k/Accuracy.antt =====
-- rtl-sdr/src/tuner_e4k.c: how close the PLL comes to the frequency that is asked for.
use rtl_tcp_pi.Common.{
  ℕ, ◌+◌, ◌-◌, ◌*◌, ◌/◌, ◌%◌, ◌^◌, ◌≤◌, ◌<◌, ◌≡◌, ◌⊎◌, inl, inr, refl, ap, arith, ◌==◌, true, false,
  ==_of_ne, some,
}
use native.Mathlib.Nat.{
  div-mul-le_self, lt-div-mul-add, div-lt_iff_lt-mul, le-div_iff_mul-le, mul_comm, mul_assoc,
  mul-add, add-mul,
}
use rtl_tcp_pi.E4k.Types.{PllParams}
use rtl_tcp_pi.E4k.Pll.{
  pll_vars, pll_row, params_with, compute_fvco, compute_flo, is_fosc_valid, e4k_compute_pll_params,
}

-- The numbers for a target `intended`: Z and X are the whole and the fractional part, rounded down,
-- of the multiple of the oscillator, and the result is at most 229 Hz below the target.
pub record IsClose (fosc intended : ℕ) (p : PllParams) : Type 0 where
  pub z_fits : p.z < 2 ^ 8
  pub x_fits : p.x < 2 ^ 16
  pub r_idx_fits : p.r_idx < 2 ^ 8
  pub below : fosc * (p.z * 65536 + p.x) ≤ intended * p.r * 65536
  pub above : intended * p.r * 65536 < fosc * (p.z * 65536 + p.x + 1)
  pub flo_low : p.flo ≤ intended
  pub flo_high : intended ≤ p.flo + 229

-- The divisor of the row for a frequency.
row_mult :
    (f fosc : ℕ)
    → 10 ≤ f
    → 18750000 ≤ fosc
    → f < 128 * fosc
    → let m = (pll_row pll_vars f).mult in (2 ≤ m) × (459 ≤ f * m) × (f * m < 256 * fosc)
unfolding pll_row
row_mult f fosc lo clock hi = ground arith

module _ (fosc f m : ℕ) (lo : 18750000 ≤ fosc) (hi : fosc ≤ 30000000) (two : 2 ≤ m)
    (some_hz : 459 ≤ f * m) (small : f * m < 256 * fosc) where
  abbrev whole : ℕ
  whole = f * m / fosc

  abbrev part : ℕ
  part = (f * m - fosc * whole) * 65536 / fosc

  whole-le : fosc * whole ≤ f * m
  whole-le = omega (arith, div-mul-le_self (f * m) fosc, mul_comm fosc whole)

  whole-lt : f * m < fosc * whole + fosc
  whole-lt = omega (arith, lt-div-mul-add {a = f * m} {b = fosc} (omega arith), mul_comm fosc whole)

  whole_byte : whole < 2 ^ 8
  whole_byte = (div-lt_iff_lt-mul {k = fosc} {x = f * m} {y = 256} (omega arith)).1 small

  part-le : fosc * part ≤ (f * m - fosc * whole) * 65536
  part-le = omega (arith, div-mul-le_self ((f * m - fosc * whole) * 65536) fosc, mul_comm fosc part)

  part-lt : (f * m - fosc * whole) * 65536 < fosc * part + fosc
  part-lt = omega (
    arith,
    lt-div-mul-add {a = (f * m - fosc * whole) * 65536} {b = fosc} (omega arith),
    mul_comm fosc part,
  )

  part_word : part < 2 ^ 16
  part_word =
      (div-lt_iff_lt-mul {k = fosc} {x = (f * m - fosc * whole) * 65536} {y = 65536}
          (omega arith)).1
        (omega (arith, whole-lt))

  fvco-le : compute_fvco fosc whole part ≤ f * m
  unfolding compute_fvco
  fvco-le = omega (arith, whole-le, part-le)

  le-fvco : f * m ≤ compute_fvco fosc whole part + 458
  unfolding compute_fvco
  le-fvco = omega (arith, whole-le, part-lt)

  flo-le : compute_fvco fosc whole part / m ≤ f
  flo-le =
      let lt =
        (div-lt_iff_lt-mul {k = m} {x = compute_fvco fosc whole part} {y = f + 1} (omega arith)).1
          (omega (arith, fvco-le, add-mul f 1 m)) in
      omega (arith, lt)

  scaled : f - 229 ≤ compute_fvco fosc whole part / m
  scaled =
      (le-div_iff_mul-le {k = m} {x = f - 229} {y = compute_fvco fosc whole part} (omega arith)).1
        (less (leb-cases 229 f))
    where
      leb-cases : (a b : ℕ) → (a ≤ b) ⊎ (b < a)
      leb-cases a b = omega arith

      less : (229 ≤ f) ⊎ (f < 229) → (f - 229) * m ≤ compute_fvco fosc whole part
      less (inl big) =
          let split : (f - 229 + 229) * m ≡ f * m = ap (λ k. k * m) (omega arith) in
          omega (arith, le-fvco, split, add-mul (f - 229) 229 m)
      less (inr little) = let none : f - 229 ≡ 0 = omega arith in rw none (omega arith)

  flo_lem : f < 2 ^ 32 → compute_flo fosc whole part m ≡ compute_fvco fosc whole part / m
  unfolding compute_flo
  flo_lem word =
      let some_fvco : (compute_fvco fosc whole part == 0) ≡ false =
        ==_of_ne _ 0 (omega (arith, le-fvco)) in
      rw some_fvco (omega (arith, flo-le))

row_byte : (f : ℕ) → (pll_row pll_vars f).reg_synth7 < 2 ^ 8
unfolding pll_row
row_byte f = ground arith

valid_clock : (fosc : ℕ) → 18750000 ≤ fosc → fosc ≤ 30000000 → is_fosc_valid fosc ≡ true
unfolding is_fosc_valid
valid_clock fosc lo hi = ground arith

-- For a clock of 18.75 to 30 MHz and a frequency from 10 Hz up to 128 times the clock,
-- `e4k_compute_pll_params` succeeds: Z and X, which fit their registers of 8 and 16 bits, are the quotient of the
-- frequency of the VCO and the clock in steps of 1/65536, rounded down, and the frequency that it
-- returns is at most 229 Hz below the one that is asked for, and never above it.
pub pll_params-IsClose :
    (fosc f : ℕ)
    → 18750000 ≤ fosc
    → fosc ≤ 30000000
    → 10 ≤ f
    → f < 128 * fosc
    → (p : PllParams) × (e4k_compute_pll_params fosc f ≡ some p) × IsClose fosc f p
unfolding e4k_compute_pll_params params_with
pll_params-IsClose fosc f lo hi some_hz limit =
    let row = pll_row pll_vars f in
    let m = row.mult in
    let (two, enough, small) = row_mult f fosc some_hz lo limit in
    let z = whole fosc f m lo hi two enough small in
    let x = part fosc f m lo hi two enough small in
    let z_byte : z % 2 ^ 8 ≡ z = omega (arith, whole_byte fosc f m lo hi two enough small) in
    let x_word : x % 2 ^ 16 ≡ x = omega (arith, part_word fosc f m lo hi two enough small) in
    let flo = flo_lem fosc f m lo hi two enough small (omega arith) in
    let product = mul-add fosc (z * 65536) x in
    let next = mul-add fosc (z * 65536 + x) 1 in
    let low = whole-le fosc f m lo hi two enough small in
    let low_part = part-le fosc f m lo hi two enough small in
    let high_part = part-lt fosc f m lo hi two enough small in
    let scaled_z = mul_assoc fosc z 65536 in
    (
      params_with row fosc f,
      rw (valid_clock fosc lo hi) refl,
      record {
        z_fits = omega arith;
        x_fits = omega arith;
        r_idx_fits = row_byte f;
        below = rw (z_byte, x_word) (omega (arith, product, scaled_z, low, low_part));
        above = rw (z_byte, x_word) (omega (arith, product, scaled_z, next, high_part, low));
        flo_low = rw (z_byte, x_word, flo) (flo-le fosc f m lo hi two enough small);
        flo_high = rw (z_byte, x_word, flo) (omega (arith, scaled fosc f m lo hi two enough small));
      },
    )
