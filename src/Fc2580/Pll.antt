-- ===== src/Fc2580/Pll.antt =====
-- rtl-sdr/src/tuner_fc2580.c: the numbers that `fc2580_set_freq` programs. Frequencies are in kHz.
use rtl_tcp_pi.Common.{
  ℕ, ◌+◌, ◌-◌, ◌*◌, ◌/◌, ◌%◌, ◌^◌, ◌≤◌, ◌<◌, ◌≡◌, arith, ltb, leb, if◌then◌else◌, Bool-cases, inl,
  inr,
}

-- `fc2580_band_type` without FC2580_NO_BAND, which is not used.
pub data Band : Type 0 where
  uhf_band l_band vhf_band : Band

unfoldable pub band_of : ℕ → Band
band_of f_lo = if ltb 1000000 f_lo then l_band else if ltb 400000 f_lo then uhf_band else vhf_band

unfoldable pub multiple : Band → ℕ
multiple uhf_band = 4
multiple l_band = 2
multiple vhf_band = 12

unfoldable pub fc2580_vco : ℕ → ℕ
fc2580_vco f_lo = f_lo * multiple (band_of f_lo) % 2 ^ 32

unfoldable pub r_val : ℕ → ℕ → ℕ
r_val freq_xtal f_vco =
    if leb (2 * 76 * freq_xtal) f_vco then 1 else if leb (76 * freq_xtal) f_vco then 2 else 4

pub record Fc2580Pll : Type 0 where
  pub f_comp : ℕ
  pub n_val : ℕ
  pub k_val : ℕ

-- `pre_shift_bits` is 4.
unfoldable pub divide : ℕ → ℕ → Fc2580Pll
divide f_comp f_vco =
    let n = f_vco / 2 / f_comp in
    let f_diff_shifted = (f_vco - 2 * f_comp * n) * 2 ^ 16 % 2 ^ 32 in
    let unit = 2 * f_comp / 2 ^ 4 in
    let k = f_diff_shifted / unit in
    record {
      f_comp = f_comp;
      n_val = n;
      k_val = if leb (f_comp / 2 ^ 4) (f_diff_shifted - k * unit) then k + 1 else k;
    }

unfoldable pub fc2580_pll : ℕ → ℕ → Fc2580Pll
fc2580_pll f_lo freq_xtal =
    let f_vco = fc2580_vco f_lo in divide (freq_xtal / r_val freq_xtal f_vco) f_vco

-- The dividers fit their registers, and the frequency that they make is that of the VCO.
pub record IsExact (f_vco : ℕ) (p : Fc2580Pll) : Type 0 where
  pub n_fits : p.n_val < 2 ^ 8
  pub k_fits : p.k_val < 2 ^ 20
  pub exact : 2 * p.f_comp * (p.n_val * 2 ^ 20 + p.k_val) ≡ f_vco * 2 ^ 20

divide_whole : (f : ℕ) → f < 8388608 → IsExact f (divide 16384 f)
unfolding divide
divide_whole f lt = record { n_fits = omega arith; k_fits = ground arith; exact = ground arith }

divide_half : (f : ℕ) → f < 2490368 → IsExact f (divide 8192 f)
unfolding divide
divide_half f lt = record { n_fits = omega arith; k_fits = ground arith; exact = ground arith }

divide_quarter : (f : ℕ) → f < 1245184 → IsExact f (divide 4096 f)
unfolding divide
divide_quarter f lt = record { n_fits = omega arith; k_fits = ground arith; exact = ground arith }

vco_lt : (f_lo : ℕ) → f_lo < 4194304 → fc2580_vco f_lo < 8388608
unfolding fc2580_vco multiple band_of
vco_lt f_lo lt = elim (Bool-cases (ltb 1000000 f_lo)) [
  | inl e ↦ rw e (omega arith)
  | inr e ↦
      let low : f_lo ≤ 1000000 = ground arith in
      elim (Bool-cases (ltb 400000 f_lo)) [
        | inl e' ↦ rw (e, e') (omega arith)
        | inr e' ↦ let lower : f_lo ≤ 400000 = ground arith in rw (e, e') (omega arith)
      ]
]

divided : (f : ℕ) → f < 8388608 → IsExact f (divide (16384 / r_val 16384 f) f)
unfolding r_val
divided f lt = elim (Bool-cases (leb 2490368 f)) [
  | inl e ↦ rw e (divide_whole f lt)
  | inr e ↦
      let low : f < 2490368 = ground arith in
      elim (Bool-cases (leb 1245184 f)) [
        | inl e' ↦ rw (e, e') (divide_half f low)
        | inr e' ↦ let lower : f < 1245184 = ground arith in rw (e, e') (divide_quarter f lower)
      ]
]

-- With the crystal of 16.384 MHz that the driver is written for, for every frequency up to 4.19 GHz
-- the numbers of `fc2580_set_freq` fit their registers, and the frequency that they make is exactly
-- that of the VCO: no rounding takes place.
pub fc2580_pll-IsExact :
    (f_lo : ℕ) → f_lo < 4194304 → IsExact (fc2580_vco f_lo) (fc2580_pll f_lo 16384)
unfolding fc2580_pll
fc2580_pll-IsExact f_lo lt = divided (fc2580_vco f_lo) (vco_lt f_lo lt)
