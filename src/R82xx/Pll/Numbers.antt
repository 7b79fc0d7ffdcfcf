-- ===== src/R82xx/Pll/Numbers.antt =====
-- rtl-sdr/src/tuner_r82xx.c: the output divider and the numbers that `r82xx_set_pll` writes.
use rtl_tcp_pi.Common.{ℕ, ◌+◌, ◌-◌, ◌*◌, ◌/◌, ◌^◌, ◌≤◌, ◌<◌, ◌≡◌, refl, arith}
use rtl_tcp_pi.R82xx.Pll.{
  Divider, halvings, find_divider, pll_ni, pll_si, pll_nint, pll_fra, u32, Sdm, result, sdm_loop,
}
use rtl_tcp_pi.R82xx.Pll.Fraction.{IsClose, sdm_loop-IsClose}
use native.Mathlib.Nat.{mul-le-mul_right}

-- `d` brings the frequency into the range of the VCO, and is the power of two that it is coded as.
pub record IsDivider (freq_khz : ℕ) (d : Divider) : Type 0 where
  pub low : 1770000 ≤ freq_khz * d.mix_div
  pub high : freq_khz * d.mix_div < 3540000
  pub code : d.mix_div ≡ 2 ^ (d.div_num + 1)
  pub code_low : d.div_num ≤ 5
  pub small : d.mix_div ≤ 64

-- From 27.657 MHz up to, and without, 1770 MHz, the divider loop finds a divider up to 64 that
-- brings the frequency into the range of the VCO, and a code of which it is the power of two.
pub find_divider-IsDivider :
    (freq_khz : ℕ)
    → 27657 ≤ freq_khz
    → freq_khz < 1770000
    → IsDivider freq_khz (find_divider 7 freq_khz 2)
unfolding find_divider halvings
find_divider-IsDivider freq_khz lo hi = ground arith

-- From 13 to 127, the integer part of the divider is coded without loss: the two fields of
-- register 0x14 give it back, and fit the register.
pub pll_code :
    (nint : ℕ)
    → 13 ≤ nint
    → nint ≤ 127
    → (4 * pll_ni nint + pll_si nint + 13 ≡ nint)
      × (pll_si nint < 4)
      × (pll_ni nint + pll_si nint * 2 ^ 6 < 256)
unfolding pll_ni pll_si
pll_code nint lo hi = ground arith

-- The VCO frequency is near the range of the VCO.
vco_bounds :
    (freq freq_khz : ℕ) (d : Divider)
    → freq_khz ≡ (freq + 500) / 1000
    → IsDivider freq_khz d
    → (1769968000 ≤ freq * d.mix_div) × (freq * d.mix_div ≤ 3540032000)
vco_bounds freq freq_khz d e h =
    let lower : 1000 * freq_khz * d.mix_div ≤ (freq + 500) * d.mix_div =
      mul-le-mul_right d.mix_div (omega arith) in
    let upper : (freq + 500) * d.mix_div ≤ (1000 * freq_khz + 999) * d.mix_div =
      mul-le-mul_right d.mix_div (omega arith) in
    (omega (arith, h.low, h.small), omega (arith, h.high, h.small))

-- What is programmed at the nominal crystal of 28.8 MHz: the VCO runs at
-- `57600000 * (nint + sdm / 65536)` Hz.
pub record IsTunedTo (vco_freq : ℕ) (nint : ℕ) (s : Sdm) : Type 0 where
  pub sdm : ℕ
  pub rest : ℕ
  pub returns : s ≡ result sdm rest
  pub fits : sdm < 65536
  pub nint_low : 13 ≤ nint
  pub nint_high : nint ≤ 63
  pub not_below : 65536 * vco_freq ≤ 57600000 * (65536 * nint + sdm) + 65536 * 17000
  pub not_above : 57600000 * (65536 * nint + sdm) ≤ 65536 * (vco_freq + 15000)

tuned :
    (vco_freq : ℕ)
    → 1769968000 ≤ vco_freq
    → vco_freq ≤ 3540032000
    → let nint = pll_nint 28800000 vco_freq in
      IsTunedTo vco_freq nint (sdm_loop 17 28800 2 0 (pll_fra 28800000 vco_freq nint))
unfolding pll_nint pll_fra
tuned vco_freq lo hi = record {
  sdm = c.sdm';
  rest = c.rest;
  returns = c.returns;
  fits = c.fits;
  nint_low = omega (arith, nint_is);
  nint_high = omega (arith, nint_is);
  not_below = omega (arith, nint_is, fra_is, c.not_below, c.small_rest);
  not_above = omega (arith, nint_is, fra_is, c.not_above);
}
  where
    nint : ℕ
    nint = pll_nint 28800000 vco_freq

    nint_is : nint ≡ vco_freq / 57600000
    nint_is = omega arith

    fra_is : pll_fra 28800000 vco_freq nint ≡ (vco_freq - 57600000 * nint) / 1000
    fra_is = rw nint_is (omega arith)

    c :
        IsClose 57600 14 0 0
          (pll_fra 28800000 vco_freq nint)
          (sdm_loop 17 28800 2 0 (pll_fra 28800000 vco_freq nint))
    c =
        sdm_loop-IsClose 28800 (omega arith) 17 14 1 (2 ^ 14) 0 0 (pll_fra 28800000 vco_freq nint)
          (omega arith) refl refl (omega arith) (omega (arith, nint_is, fra_is))

-- At the nominal crystal of 28.8 MHz, from 27.657 MHz up to, and without, 1769.9995 MHz, the
-- loop of the fraction returns 16 bits, the integer part is from 13 to 63, and with them the
-- VCO runs at most 17 kHz below and 15 kHz above the frequency asked for times the divider.
pub pll_accuracy :
    (freq : ℕ)
    → 27657000 ≤ freq
    → freq < 1769999500
    → let d = find_divider 7 (u32 (freq + 500) / 1000) 2 in
      let nint = pll_nint 28800000 (freq * d.mix_div) in
      IsTunedTo
        (freq * d.mix_div)
        nint
        (sdm_loop 17 (u32 (28800000 + 500) / 1000) 2 0 (pll_fra 28800000 (freq * d.mix_div) nint))
pll_accuracy freq lo hi =
    let freq_khz = u32 (freq + 500) / 1000 in
    let e : freq_khz ≡ (freq + 500) / 1000 = omega arith in
    let d = find_divider 7 freq_khz 2 in
    let bounds =
      vco_bounds freq freq_khz d e (find_divider-IsDivider freq_khz (omega arith) (omega arith)) in
    tuned (freq * d.mix_div) bounds.0 bounds.1
