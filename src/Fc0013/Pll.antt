-- ===== src/Fc0013/Pll.antt =====
-- rtl-sdr/src/tuner_fc0013.c: the numbers that `fc0013_set_params` programs. The arithmetic that it
-- has in common with `fc0012_set_params` is used from there.
pub mod Accuracy
use rtl_tcp_pi.Common.{ℕ, ◌*◌, ◌/◌, ◌%◌, ◌^◌, ltb, leb, ◌==◌, ◌||◌, bit_and, bit_or, if◌then◌else◌}
use rtl_tcp_pi.Fc0012.Pll.{
  Multiplier, Registers, Pll, registers, no_combination, zero_div, fc0012_xdiv, fc0012_am_pm,
  fc0012_xin, bandwidth_bits,
}

abbrev by : ℕ → ℕ → ℕ → Multiplier
by m r5 r6 = record { multi = m; reg5 = r5; reg6 = r6 }

-- The `if` chain on `freq`.
unfoldable pub fc0013_multiplier : ℕ → Multiplier
fc0013_multiplier freq =
    if ltb freq 37084000
    then by 96 0x82 0x00
    else if ltb freq 55625000
    then by 64 0x02 0x02
    else if ltb freq 74167000
    then by 48 0x42 0x00
    else if ltb freq 111250000
    then by 32 0x82 0x02
    else if ltb freq 148334000
    then by 24 0x22 0x00
    else if ltb freq 222500000
    then by 16 0x42 0x02
    else if ltb freq 296667000
    then by 12 0x12 0x00
    else if ltb freq 445000000
    then by 8 0x22 0x02
    else if ltb freq 593334000
    then by 6 0x0a 0x00
    else if ltb freq 950000000
    then by 4 0x12 0x02
    else by 2 0x0a 0x02

-- `freq * multi` is a product of 32 bits.
unfoldable pub fc0013_vco : ℕ → ℕ
fc0013_vco freq = freq * (fc0013_multiplier freq).multi % 2 ^ 32

unfoldable pub fc0013_registers : ℕ → ℕ → ℕ → Registers
fc0013_registers half freq bandwidth =
    let m = fc0013_multiplier freq in
    let f_vco = fc0013_vco freq in
    let high = leb 3060000000 f_vco in
    let xin = fc0012_xin half f_vco in
    let am_pm = fc0012_am_pm (fc0012_xdiv half f_vco) in
    let reg6 = bit_or (if high then bit_or m.reg6 0x08 else m.reg6) 0x20 in
    record {
      reg1 = am_pm.0;
      reg2 = am_pm.1;
      reg3 = xin / 2 ^ 8;
      reg4 = xin % 2 ^ 8;
      reg5 = bit_or m.reg5 0x07;
      reg6 = bit_or (bit_and reg6 0x3f) (bandwidth_bits bandwidth);
      vco_select = high;
    }

unfoldable pub fc0013_pll : ℕ → ℕ → ℕ → Pll
fc0013_pll half freq bandwidth =
    let r = fc0013_registers half freq bandwidth in
    if half == 0
    then zero_div
    else if ltb 15 r.reg1 || ltb r.reg2 0x0b
    then no_combination
    else if half / 1000 == 0
    then zero_div
    else registers r
