-- ===== src/Fc0012/Pll/Accuracy.antt =====
-- rtl-sdr/src/tuner_fc0012.c: the divider of `fc0012_set_params` and its code.
use rtl_tcp_pi.Common.{ℕ, ◌+◌, ◌*◌, ◌%◌, ◌^◌, ◌≤◌, ◌≡◌, refl, arith, ltb_of_le}
use rtl_tcp_pi.Fc0012.Pll.{
  multiplier, fc0012_vco, fc0012_xdiv, fc0012_am_pm, fc0012_registers, fc0012_pll, Registers, Pll,
  registers,
}

-- The frequency that the VCO is to have.
abbrev pub vco : ℕ → ℕ
vco freq = freq * (multiplier freq).multi

vco_bounds :
    (freq : ℕ)
    → 24720000 ≤ freq
    → freq ≤ 940000000
    → (2373120000 ≤ vco freq) × (vco freq ≤ 3760000000)
unfolding multiplier
vco_bounds freq lo hi = ground arith

pub xdiv-nearest :
    (f : ℕ)
    → 1900000000 ≤ f
    → f ≤ 3794399999
    → let xdiv = fc0012_xdiv 14400000 f in
      (f ≤ 14400000 * xdiv + 7200000) × (14400000 * xdiv ≤ f + 7200000)
unfolding fc0012_xdiv
xdiv-nearest f lo hi = ground arith

pub am_pm-code :
    (xdiv : ℕ)
    → 131 ≤ xdiv
    → xdiv ≤ 263
    → let am_pm = fc0012_am_pm xdiv in
      (am_pm.0 + 8 * am_pm.1 ≡ xdiv) × (am_pm.0 ≤ 15) × (11 ≤ am_pm.1) × (am_pm.1 ≤ 31)
unfolding fc0012_am_pm
am_pm-code xdiv lo hi = ground arith

-- What is programmed at the crystal of 28.8 MHz: the integer divider `reg1 + 8 * reg2` of the VCO
-- frequency by 14.4 MHz.
pub record IsTuned (freq : ℕ) (p : Pll) : Type 0 where
  pub r : Registers
  pub found : p ≡ registers r
  pub am_fits : r.reg1 ≤ 15
  pub pm_low : 11 ≤ r.reg2
  pub pm_fits : r.reg2 ≤ 31
  pub not_below : vco freq ≤ 14400000 * (r.reg1 + 8 * r.reg2) + 7200000
  pub not_above : 14400000 * (r.reg1 + 8 * r.reg2) ≤ vco freq + 7200000

-- At the crystal of 28.8 MHz, from 24.72 MHz to 940 MHz and for every bandwidth,
-- `fc0012_set_params` finds a combination that fits the registers, and its integer divider is
-- the one nearest to the VCO frequency: it is at most half of a step of 14.4 MHz away.
pub fc0012_pll-IsTuned :
    (freq bandwidth : ℕ)
    → 24720000 ≤ freq
    → freq ≤ 940000000
    → IsTuned freq (fc0012_pll 14400000 freq bandwidth)
unfolding fc0012_pll fc0012_registers fc0012_vco
fc0012_pll-IsTuned freq bandwidth lo hi =
    let b = vco_bounds freq lo hi in
    let small : vco freq % 2 ^ 32 ≡ vco freq = omega (arith, b.0, b.1) in
    let xdiv = fc0012_xdiv 14400000 (vco freq) in
    let near = xdiv-nearest (vco freq) (omega (arith, b.0)) (omega (arith, b.1)) in
    let code = am_pm-code xdiv (omega (arith, near.0, b.0)) (omega (arith, near.1, b.1)) in
    rw (small, ltb_of_le 15 (fc0012_am_pm xdiv).0 code.1, ltb_of_le (fc0012_am_pm xdiv).1 11 code.2)
      (record {
        r = _;
        found = refl;
        am_fits = code.1;
        pm_low = code.2;
        pm_fits = code.3;
        not_below = omega (arith, near.0, code.0);
        not_above = omega (arith, near.1, code.0);
      })
