-- ===== src/Fc0013/Pll/Accuracy.antt =====
-- rtl-sdr/src/tuner_fc0013.c: the divider of `fc0013_set_params` and its code.
use rtl_tcp_pi.Common.{ℕ, ◌+◌, ◌*◌, ◌%◌, ◌^◌, ◌≤◌, ◌<◌, ◌≡◌, refl, arith, ltb_of_le, ◌⊎◌, inl, inr}
use rtl_tcp_pi.Fc0012.Pll.{Registers, Pll, registers, no_combination, fc0012_xdiv, fc0012_am_pm}
use rtl_tcp_pi.Fc0012.Pll.Accuracy.{xdiv-nearest, am_pm-code}
use rtl_tcp_pi.Fc0013.Pll.{fc0013_multiplier, fc0013_vco, fc0013_registers, fc0013_pll}

-- The frequency that the VCO is to have.
abbrev pub vco : ℕ → ℕ
vco freq = freq * (fc0013_multiplier freq).multi

-- The frequencies that the driver reaches with a crystal of 28.8 MHz.
abbrev pub InRange : ℕ → Type 0
InRange freq = ((24720000 ≤ freq) × (freq < 948600000)) ⊎ ((950000000 ≤ freq) × (freq < 1897200000))

vco_bounds : (freq : ℕ) → InRange freq → (1900000000 ≤ vco freq) × (vco freq ≤ 3794399999)
unfolding fc0013_multiplier
vco_bounds freq (inl (lo, hi)) = ground arith
vco_bounds freq (inr (lo, hi)) = ground arith

-- What is programmed at the crystal of 28.8 MHz: the integer divider `reg1 + 8 * reg2` of the VCO
-- frequency by 14.4 MHz.
pub record IsTuned (freq : ℕ) (p : Pll) : Type 0 where
  pub r : Registers
  pub found : p ≡ registers r
  pub am_fits : r.reg1 ≤ 15
  pub pm_low : 11 ≤ r.reg2
  pub pm_fits : r.reg2 ≤ 31
  pub not_below : vco freq ≤ 14400000 * (r.reg1 + 8 * r.reg2) + 7200000
  pub not_above : 14400000 * (r.reg1 + 8 * r.reg2) ≤ vco freq + 7200000

-- At the crystal of 28.8 MHz, for every bandwidth and every frequency from 24.72 MHz to below
-- 948.6 MHz or from 950 MHz to below 1897.2 MHz, `fc0013_set_params` finds a combination that
-- fits the registers, and its integer divider is at most half of a step of 14.4 MHz away from the
-- VCO frequency.
pub fc0013_pll-IsTuned :
    (freq bandwidth : ℕ) → InRange freq → IsTuned freq (fc0013_pll 14400000 freq bandwidth)
unfolding fc0013_pll fc0013_registers fc0013_vco
fc0013_pll-IsTuned freq bandwidth range =
    let b = vco_bounds freq range in
    let small : vco freq % 2 ^ 32 ≡ vco freq = omega (arith, b.0, b.1) in
    let xdiv = fc0012_xdiv 14400000 (vco freq) in
    let near = xdiv-nearest (vco freq) b.0 b.1 in
    let code = am_pm-code xdiv (omega (arith, near.0, b.0)) (omega (arith, near.1, b.1)) in
    rw (small, ltb_of_le 15 (fc0012_am_pm xdiv).0 code.1, ltb_of_le (fc0012_am_pm xdiv).1 11 code.2)
      (record {
        r = _;
        found = refl;
        am_fits = code.1;
        pm_low = code.2;
        pm_fits = code.3;
        not_below = omega (arith, near.0, code.0);
        not_above = omega (arith, near.1, code.0);
      })

gap_bounds :
    (freq : ℕ)
    → 948600000 ≤ freq
    → freq < 950000000
    → (3794400000 ≤ vco freq) × (vco freq < 3800000000)
unfolding fc0013_multiplier
gap_bounds freq lo hi = ground arith

xdiv_gap : (f : ℕ) → 3794400000 ≤ f → f < 3800000000 → fc0012_xdiv 14400000 f ≡ 264
unfolding fc0012_xdiv
xdiv_gap f lo hi = ground arith

-- At the crystal of 28.8 MHz the frequencies from 948.6 MHz to below 950 MHz are refused, for every
-- bandwidth: the multiplier 4 makes a divider that does not fit the registers.
pub fc0013_pll-gap :
    (freq bandwidth : ℕ)
    → 948600000 ≤ freq
    → freq < 950000000
    → fc0013_pll 14400000 freq bandwidth ≡ no_combination
unfolding fc0013_pll fc0013_registers fc0013_vco fc0012_am_pm
fc0013_pll-gap freq bandwidth lo hi =
    let b = gap_bounds freq lo hi in
    let small : vco freq % 2 ^ 32 ≡ vco freq = omega (arith, b.0, b.1) in
    let far = xdiv_gap (vco freq) b.0 b.1 in rw (small, far) refl
