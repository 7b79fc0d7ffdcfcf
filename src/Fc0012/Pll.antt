-- ===== src/Fc0012/Pll.antt =====
-- rtl-sdr/src/tuner_fc0012.c: the numbers that `fc0012_set_params` programs.
pub mod Accuracy
use rtl_tcp_pi.Common.{
  ℕ, ◌+◌, ◌-◌, ◌*◌, ◌/◌, ◌%◌, ◌^◌, ltb, leb, ◌==◌, ◌||◌, Bool, bit_and, bit_or, if◌then◌else◌,
}

pub record Multiplier : Type 0 where
  pub multi : ℕ
  pub reg5 : ℕ
  pub reg6 : ℕ

abbrev by : ℕ → ℕ → ℕ → Multiplier
by m r5 r6 = record { multi = m; reg5 = r5; reg6 = r6 }

-- The `if` chain on `freq`.
unfoldable pub multiplier : ℕ → Multiplier
multiplier freq =
    if ltb freq 37084000
    then by 96 0x82 0x00
    else if ltb freq 55625000
    then by 64 0x82 0x02
    else if ltb freq 74167000
    then by 48 0x42 0x00
    else if ltb freq 111250000
    then by 32 0x42 0x02
    else if ltb freq 148334000
    then by 24 0x22 0x00
    else if ltb freq 222500000
    then by 16 0x22 0x02
    else if ltb freq 296667000
    then by 12 0x12 0x00
    else if ltb freq 445000000
    then by 8 0x12 0x02
    else if ltb freq 593334000
    then by 6 0x0a 0x00
    else by 4 0x0a 0x02

-- `freq * multi` is a product of 32 bits.
unfoldable pub fc0012_vco : ℕ → ℕ
fc0012_vco freq = freq * (multiplier freq).multi % 2 ^ 32

-- The rounded quotient `xdiv`; `half` is `xtal_freq_div_2`.
unfoldable pub fc0012_xdiv : ℕ → ℕ → ℕ
fc0012_xdiv half f_vco =
    let xdiv = f_vco / half % 2 ^ 16 in
    let rest = (f_vco + 2 ^ 64 - xdiv * half % 2 ^ 32) % 2 ^ 64 in
    if leb (half / 2) rest then (xdiv + 1) % 2 ^ 16 else xdiv

-- `am` and `pm` in `reg[1]` and `reg[2]`.
unfoldable pub fc0012_am_pm : ℕ → ℕ × ℕ
fc0012_am_pm xdiv =
    let pm0 = xdiv / 8 % 2 ^ 8 in
    let am0 = (xdiv - 8 * pm0) % 2 ^ 8 in
    let am = if ltb am0 2 then am0 + 8 else am0 in
    let pm = if ltb am0 2 then (pm0 + 255) % 2 ^ 8 else pm0 in
    if ltb 31 pm then ((am + 8 * (pm - 31)) % 2 ^ 8, 31) else (am, pm)

unfoldable pub fc0012_xin : ℕ → ℕ → ℕ
fc0012_xin half f_vco =
    let khz = (f_vco - f_vco / half * half) / 1000 % 2 ^ 16 in
    let xin = khz * 2 ^ 15 / (half / 1000) % 2 ^ 16 in
    if leb 16384 xin then (xin + 32768) % 2 ^ 16 else xin

unfoldable pub bandwidth_bits : ℕ → ℕ
bandwidth_bits bandwidth =
    if bandwidth == 6000000 then 0x80 else if bandwidth == 7000000 then 0x40 else 0x00

pub record Registers : Type 0 where
  pub reg1 : ℕ
  pub reg2 : ℕ
  pub reg3 : ℕ
  pub reg4 : ℕ
  pub reg5 : ℕ
  pub reg6 : ℕ
  pub vco_select : Bool

-- The registers, or the error, or a division by zero.
pub data Pll : Type 0 where
  registers : Registers → Pll
  no_combination zero_div : Pll

unfoldable pub fc0012_registers : ℕ → ℕ → ℕ → Registers
fc0012_registers half freq bandwidth =
    let m = multiplier freq in
    let f_vco = fc0012_vco freq in
    let high = leb 3060000000 f_vco in
    let xin = fc0012_xin half f_vco in
    let am_pm = fc0012_am_pm (fc0012_xdiv half f_vco) in
    let reg6 = bit_or (if high then bit_or m.reg6 0x08 else m.reg6) 0x20 in
    record {
      reg1 = am_pm.0;
      reg2 = am_pm.1;
      reg3 = xin / 2 ^ 8;
      reg4 = xin % 2 ^ 8;
      reg5 = bit_or m.reg5 0x07;
      reg6 = bit_or (bit_and reg6 0x3f) (bandwidth_bits bandwidth);
      vco_select = high;
    }

unfoldable pub fc0012_pll : ℕ → ℕ → ℕ → Pll
fc0012_pll half freq bandwidth =
    let r = fc0012_registers half freq bandwidth in
    if half == 0
    then zero_div
    else if ltb 15 r.reg1 || ltb r.reg2 0x0b
    then no_combination
    else if half / 1000 == 0
    then zero_div
    else registers r
