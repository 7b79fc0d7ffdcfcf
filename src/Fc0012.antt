-- ===== src/Fc0012.antt =====
-- rtl-sdr/src/tuner_fc0012.c: the driver of the Fitipower FC0012 tuner.
pub mod Pll
mod Tests
use rtl_tcp_pi.Common.{
  ℕ, zero, suc, ◌+◌, ◌/◌, ◌%◌, ltb, ◌&&◌, bit_and, bit_or, if◌then◌else◌, List, [], ◌∷◌, ℤ, pos,
  negsuc, eq_ℤ, ◌-◌, get_or, Option, none, some,
}
use rtl_tcp_pi.State.{State}
use rtl_tcp_pi.Usb.{Usb, Bus, Reply, received, failed}
use rtl_tcp_pi.Librtlsdr.Access.{rtlsdr_i2c_write, rtlsdr_i2c_read}
use rtl_tcp_pi.Driver.{Driver, Outcome, ok, err, fault, pure, fail, hang, call, ◌>>=◌, ◌>>◌}
use rtl_tcp_pi.Fc0012.Pll.{Registers, registers, no_combination, zero_div, fc0012_pll}

abbrev pub fc0012_i2c_addr : ℕ
fc0012_i2c_addr = 0xc6

abbrev pub on_bus : {A : Type 0} → State Bus A → Driver Bus A
on_bus = call (λ bus. bus) (λ bus' bus. bus')

-- `if (... < 0) return -1; return 0;`
unfoldable pub checked : ℤ → Driver Bus (Unit {0})
checked (pos n) = pure tt
checked (negsuc n) = fail 0

-- The byte in `data` after a read that was asked for one byte; with no byte it keeps `reg`.
unfoldable pub read_byte : ℕ → Reply → Driver Bus ℕ
read_byte reg (received bytes) = pure (get_or bytes 0 reg)
read_byte reg (failed n) = fail 0

-- `reg` of `fc0012_init` from element 1 on, with the bits that are set below it.
abbrev pub fc0012_init_array : List ℕ
fc0012_init_array =
    0x05
    ∷ 0x10
    ∷ 0x00
    ∷ 0x00
    ∷ 0x0f
    ∷ 0x00
    ∷ bit_or 0x00 0x20
    ∷ 0xff
    ∷ 0x6e
    ∷ 0xb8
    ∷ 0x82
    ∷ bit_or 0xfc 0x02
    ∷ 0x02
    ∷ 0x00
    ∷ 0x00
    ∷ 0x00
    ∷ 0x00
    ∷ 0x1f
    ∷ 0x08
    ∷ 0x00
    ∷ 0x04
    ∷ []

unfoldable pub gain_bits : ℤ → ℕ
gain_bits gain =
    if eq_ℤ gain (negsuc 98)
    then 0x02
    else if eq_ℤ gain (negsuc 39)
    then 0x00
    else if eq_ℤ gain (pos 71)
    then 0x08
    else if eq_ℤ gain (pos 179)
    then 0x17
    else 0x10

-- What `tmp` holds after a read whose result is not looked at.
abbrev value_or : {A : Type 0} → A → Outcome A → Outcome A
value_or d (ok a) = ok a
value_or d (err n) = ok d
value_or d fault = fault

abbrev recover : {A : Type 0} → A → Driver Bus A → Driver Bus A
recover d m bus = let (r, bus') = m bus in (value_or d r, bus')

module _ (usb : Usb) where
  unfoldable pub fc0012_writereg : ℕ → ℕ → Driver Bus (Unit {0})
  fc0012_writereg reg val = do
    rc ← on_bus (rtlsdr_i2c_write usb fc0012_i2c_addr (reg ∷ val ∷ []))
    checked rc

  unfoldable pub fc0012_readreg : ℕ → Driver Bus ℕ
  fc0012_readreg reg = do
    rc ← on_bus (rtlsdr_i2c_write usb fc0012_i2c_addr (reg ∷ []))
    checked rc
    reply ← on_bus (rtlsdr_i2c_read usb fc0012_i2c_addr 1)
    read_byte reg reply

  -- Bytes for consecutive registers, each in a transfer of its own, until one fails.
  unfoldable pub write_from : ℕ → List ℕ → Driver Bus (Unit {0})
  write_from reg [] = pure tt
  write_from reg (val ∷ vals) = do fc0012_writereg reg val; write_from (reg + 1) vals

  unfoldable pub fc0012_init : Driver Bus (Unit {0})
  fc0012_init = write_from 1 fc0012_init_array

  -- The other range of the VCO, when the control voltage is at its end.
  unfoldable pub reselect_vco : ℕ → Driver Bus (Unit {0})
  reselect_vco reg6 = do
    fc0012_writereg 0x06 reg6
    fc0012_writereg 0x0e 0x80
    fc0012_writereg 0x0e 0x00

  unfoldable pub program_pll : Registers → Driver Bus (Unit {0})
  program_pll r = do
    write_from 1 (r.reg1 ∷ r.reg2 ∷ r.reg3 ∷ r.reg4 ∷ r.reg5 ∷ r.reg6 ∷ [])
    fc0012_writereg 0x0e 0x80
    fc0012_writereg 0x0e 0x00
    fc0012_writereg 0x0e 0x00
    read ← fc0012_readreg 0x0e
    let tmp = bit_and read 0x3f
    if r.vco_select
        then (if ltb 0x3c tmp then reselect_vco (bit_and r.reg6 (255 - 0x08)) else pure tt)
        else (if ltb tmp 0x02 then reselect_vco (bit_or r.reg6 0x08) else pure tt)

  -- `clock` is what `rtlsdr_get_tuner_clock` returns.
  unfoldable pub fc0012_set_params : ℕ → ℕ → ℕ → Driver Bus (Unit {0})
  fc0012_set_params clock freq bandwidth = elim (fc0012_pll (clock / 2) freq bandwidth) [
    | registers r ↦ program_pll r
    | no_combination ↦ fail 0
    | zero_div ↦ hang
  ]

  -- A failed read leaves the initial 0, and its result is dropped.
  unfoldable pub fc0012_set_gain : ℤ → Driver Bus (Unit {0})
  fc0012_set_gain gain = do
    tmp ← recover 0 (fc0012_readreg 0x13)
    fc0012_writereg 0x13 (bit_or (bit_and tmp 0xe0) (gain_bits gain))
