-- ===== src/Librtlsdr/Rate.antt =====
-- rtl-sdr/src/librtlsdr.c: the ratio that `rtlsdr_set_sample_rate` gives to the resampler.
use native.Mathlib.Nat.{
  le-div_iff_mul-le, div-lt_iff_lt-mul, div-eq_of_lt-le, div-mul-le_self, lt-div-mul-add,
  mul-le-mul_left,
}
use rtl_tcp_pi.Common.{
  ℕ, ◌+◌, ◌-◌, ◌*◌, ◌/◌, ◌^◌, ◌≤◌, ◌<◌, ◌≡◌, ◌∙◌, arith, true, ◌⊎◌, inl, inr, bit_and,
}
use rtl_tcp_pi.Common.Bits.{bit_and-digit}
use rtl_tcp_pi.Common.Masks.{bit_and_ones, bit_and_one, bit_or_disjoint}
use rtl_tcp_pi.Librtlsdr.Demod.{ratio_22}
use rtl_tcp_pi.Librtlsdr.Control.{rate_supported, rsamp_ratio, real_rsamp_ratio}

-- The mask keeps bits 2 to 27.
mask_lem : (n q r : ℕ) → r < 2 ^ 26 → n / 4 ≡ q * 2 ^ 26 + r → bit_and n 0x0ffffffc ≡ r * 4
mask_lem n q r lt e =
    let quarter : n / 2 / 2 ≡ n / 4 = omega arith in
    let low : bit_and (n / 2 / 2) 0x3ffffff ≡ r = rw quarter (bit_and_ones 26 (n / 4) q r lt e) in
    bit_and-digit n 0x0ffffffc ∙ rw (bit_and-digit (n / 2) 0x07fffffe, low) (omega arith)

-- The ratios that the mask does not change for good: below 2^27, or with bits 27 and 28.
abbrev pub Fits : ℕ → Type 0
Fits n = (n < 2 ^ 27) ⊎ ((3 * 2 ^ 27 ≤ n) × (n < 2 ^ 29))

real_ratio_low : (a : ℕ) → a < 2 ^ 27 → real_rsamp_ratio a ≡ a
unfolding real_rsamp_ratio
real_ratio_low a lt =
    rw (bit_and_one 27 a 0 0 a (omega arith) (omega arith) (omega arith))
      (bit_or_disjoint 28 a 0 (omega arith) ∙ omega arith)

real_ratio_high : (a : ℕ) → 2 ^ 27 ≤ a → a < 2 ^ 28 → real_rsamp_ratio a ≡ a + 2 ^ 28
unfolding real_rsamp_ratio
real_ratio_high a lo hi =
    rw (bit_and_one 27 a 0 1 (a - 2 ^ 27) (omega arith) (omega arith) (omega arith))
      (bit_or_disjoint 28 a 1 (omega arith))

-- What the resampler makes of a ratio that fits is the ratio cut to a multiple of 4.
pub real_ratio-Fits :
    (rtl_xtal samp_rate : ℕ)
    → Fits (ratio_22 rtl_xtal samp_rate)
    → real_rsamp_ratio (rsamp_ratio rtl_xtal samp_rate) ≡ ratio_22 rtl_xtal samp_rate / 4 * 4
unfolding rsamp_ratio
real_ratio-Fits rtl_xtal samp_rate (inl lt) =
    let n = ratio_22 rtl_xtal samp_rate in
    rw (mask_lem n 0 (n / 4) (omega arith) (omega arith)) (real_ratio_low (n / 4 * 4) (omega arith))
real_ratio-Fits rtl_xtal samp_rate (inr (lo, hi)) =
    let n = ratio_22 rtl_xtal samp_rate in
    let r = n / 4 - 2 ^ 26 in
    rw (mask_lem n 1 r (omega arith) (omega arith))
      (real_ratio_high (r * 4) (omega arith) (omega arith) ∙ omega arith)

supported_lem :
    (r : ℕ)
    → rate_supported r ≡ true
    → ((225000 < r) × (r ≤ 300000)) ⊎ ((900000 < r) × (r ≤ 3200000))
unfolding rate_supported
supported_lem r h = ground arith

-- At 28.8 MHz the ratio of a supported rate fits, and is more than four times the rate.
ratio_lem :
    (r : ℕ)
    → rate_supported r ≡ true
    → Fits (ratio_22 28800000 r) × (4 * r + 3 ≤ ratio_22 28800000 r)
unfolding ratio_22
ratio_lem r h =
    let pos : 0 < r = elim (supported_lem r h) [
      | inl b ↦ omega (arith, b.0)
      | inr b ↦ omega (arith, b.0)
    ] in
    let high : r ≤ 3200000 = elim (supported_lem r h) [
      | inl b ↦ omega (arith, b.1)
      | inr b ↦ b.1
    ] in
    let large : 12800003 ≤ 28800000 * 2 ^ 22 / r = (le-div_iff_mul-le pos).1 (omega arith) in
    (
      elim (supported_lem r h) [
        | inl b ↦ inr (
          (le-div_iff_mul-le pos).1 (omega (arith, b.1)),
          (div-lt_iff_lt-mul pos).1 (omega (arith, b.0)),
        )
        | inr b ↦ inl ((div-lt_iff_lt-mul pos).1 (omega (arith, b.0)))
      ],
      omega arith,
    )

cut_lem : (x r : ℕ) → 0 < r → 4 * r + 3 ≤ x / r → x / (x / r / 4 * 4) ≡ r
cut_lem x r lt large =
    let t = x / r / 4 * 4 in
    let near : x / r ≤ t + 3 = omega arith in
    let few : 4 * r ≤ t = omega (arith, large) in
    let low : r * t ≤ r * (x / r) = mul-le-mul_left r (omega arith) in
    let most : r * (x / r) ≤ r * t + r * 3 = omega (arith, mul-le-mul_left r near) in
    div-eq_of_lt-le t (omega (arith, low, div-mul-le_self x r))
      (omega (arith, most, lt-div-mul-add {a = x} lt, few))

-- With the crystal of 28.8 MHz the rate that the resampler has for a supported rate, cut to whole
-- samples per second, is the rate that was asked for.
pub sample_rate_exact :
    (samp_rate : ℕ)
    → rate_supported samp_rate ≡ true
    → ratio_22 28800000 (real_rsamp_ratio (rsamp_ratio 28800000 samp_rate)) ≡ samp_rate
unfolding ratio_22
sample_rate_exact r h =
    let fits = ratio_lem r h in
    let pos : 0 < r = elim (supported_lem r h) [
      | inl b ↦ omega (arith, b.0)
      | inr b ↦ omega (arith, b.0)
    ] in
    rw (real_ratio-Fits 28800000 r fits.0) (cut_lem (28800000 * 2 ^ 22) r pos fits.1)
