-- ===== src/Fc0013.antt =====
-- rtl-sdr/src/tuner_fc0013.c: the driver of the Fitipower FC0013 tuner.
pub mod Pll
pub mod Gain
mod Tests
use rtl_tcp_pi.Common.{
  ℕ, suc, ◌+◌, ◌/◌, ltb, leb, ◌==◌, ◌&&◌, Bool, true, false, bit_and, bit_or, if◌then◌else◌, List,
  [], ◌∷◌, ℤ, pos, negsuc, leb_ℤ, ◌+ℤ◌, ◌-◌,
}
use rtl_tcp_pi.Usb.{Usb, Bus}
use rtl_tcp_pi.Librtlsdr.Access.{rtlsdr_i2c_write, rtlsdr_i2c_read}
use rtl_tcp_pi.Driver.{Driver, Outcome, ok, err, fault, pure, fail, hang, ◌>>=◌, ◌>>◌}
use rtl_tcp_pi.Fc0012.{on_bus, checked, read_byte}
use rtl_tcp_pi.Fc0012.Pll.{Registers, registers, no_combination, zero_div}
use rtl_tcp_pi.Fc0013.Pll.{fc0013_multiplier, fc0013_pll}

abbrev pub fc0013_i2c_addr : ℕ
fc0013_i2c_addr = 0xc6

-- `reg` of `fc0013_init` from element 1 on, with the bits that are set below it.
abbrev pub fc0013_init_array : List ℕ
fc0013_init_array =
    0x09
    ∷ 0x16
    ∷ 0x00
    ∷ 0x00
    ∷ 0x17
    ∷ 0x02
    ∷ bit_or 0x0a 0x20
    ∷ 0xff
    ∷ 0x6e
    ∷ 0xb8
    ∷ 0x82
    ∷ bit_or 0xfc 0x02
    ∷ 0x01
    ∷ 0x00
    ∷ 0x00
    ∷ 0x00
    ∷ 0x00
    ∷ 0x00
    ∷ 0x00
    ∷ 0x50
    ∷ 0x01
    ∷ []

-- The bits of the VHF track filter.
unfoldable pub vhf_track : ℕ → ℕ
vhf_track freq =
    if leb freq 177500000
    then 0x1c
    else if leb freq 184500000
    then 0x18
    else if leb freq 191500000
    then 0x14
    else if leb freq 198500000
    then 0x10
    else if leb freq 205500000
    then 0x0c
    else if leb freq 219500000
    then 0x08
    else if ltb freq 300000000
    then 0x04
    else 0x1c

-- The byte for register 0x10 from the sum of the calibration value and the correction.
unfoldable pub rc_cal_byte : ℤ → ℕ
rc_cal_byte (pos val) = if ltb 15 val then 0x0f else val
rc_cal_byte (negsuc val) = 0x00

abbrev attempted : {A : Type 0} → A → Outcome A → Outcome (Bool × A)
attempted d (ok a) = ok (true, a)
attempted d (err n) = ok (false, d)
attempted d fault = fault

-- `ret |= f(...)`, where the results are 0 and -1: whether the call succeeded, and its value.
unfoldable pub attempt : {A : Type 0} → A → Driver Bus A → Driver Bus (Bool × A)
attempt d m bus = let (r, bus') = m bus in (attempted d r, bus')

unfoldable pub all_done : Bool → Driver Bus (Unit {0})
all_done true = pure tt
all_done false = fail 0

-- `fc0013_lna_gains`
abbrev pub fc0013_lna_gains : List (ℤ × ℕ)
fc0013_lna_gains =
    (negsuc 98, 0x02)
    ∷ (negsuc 72, 0x03)
    ∷ (negsuc 64, 0x05)
    ∷ (negsuc 62, 0x04)
    ∷ (negsuc 62, 0x00)
    ∷ (negsuc 59, 0x07)
    ∷ (negsuc 57, 0x01)
    ∷ (negsuc 53, 0x06)
    ∷ (pos 58, 0x0f)
    ∷ (pos 61, 0x0e)
    ∷ (pos 63, 0x0d)
    ∷ (pos 65, 0x0c)
    ∷ (pos 67, 0x0b)
    ∷ (pos 68, 0x0a)
    ∷ (pos 70, 0x09)
    ∷ (pos 71, 0x08)
    ∷ (pos 179, 0x17)
    ∷ (pos 181, 0x16)
    ∷ (pos 182, 0x15)
    ∷ (pos 184, 0x14)
    ∷ (pos 186, 0x13)
    ∷ (pos 188, 0x12)
    ∷ (pos 191, 0x11)
    ∷ (pos 197, 0x10)
    ∷ []

-- The entry that the loop of `fc0013_set_lna_gain` takes.
unfoldable pub lna_entry : List (ℤ × ℕ) → ℤ → ℤ × ℕ
lna_entry [] gain = (pos 0, 0)
lna_entry (entry ∷ []) gain = entry
lna_entry (entry ∷ next ∷ rest) gain =
    let later = lna_entry (next ∷ rest) gain in if leb_ℤ gain entry.0 then entry else later

module _ (usb : Usb) where
  unfoldable pub fc0013_writereg : ℕ → ℕ → Driver Bus (Unit {0})
  fc0013_writereg reg val = do
    rc ← on_bus (rtlsdr_i2c_write usb fc0013_i2c_addr (reg ∷ val ∷ []))
    checked rc

  unfoldable pub fc0013_readreg : ℕ → Driver Bus ℕ
  fc0013_readreg reg = do
    rc ← on_bus (rtlsdr_i2c_write usb fc0013_i2c_addr (reg ∷ []))
    checked rc
    reply ← on_bus (rtlsdr_i2c_read usb fc0013_i2c_addr 1)
    read_byte reg reply

  -- Bytes for consecutive registers, each in a transfer of its own, until one fails.
  unfoldable pub fc0013_write_from : ℕ → List ℕ → Driver Bus (Unit {0})
  fc0013_write_from reg [] = pure tt
  fc0013_write_from reg (val ∷ vals) = do fc0013_writereg reg val; fc0013_write_from (reg + 1) vals

  unfoldable pub fc0013_init : Driver Bus (Unit {0})
  fc0013_init = fc0013_write_from 1 fc0013_init_array

  unfoldable pub fc0013_rc_cal_add : ℤ → Driver Bus (Unit {0})
  fc0013_rc_cal_add rc_val = do
    fc0013_writereg 0x10 0x00
    rc_cal ← fc0013_readreg 0x10
    fc0013_writereg 0x0d 0x11
    fc0013_writereg 0x10 (rc_cal_byte (pos (bit_and rc_cal 0x0f) +ℤ rc_val))

  unfoldable pub fc0013_rc_cal_reset : Driver Bus (Unit {0})
  fc0013_rc_cal_reset = do fc0013_writereg 0x0d 0x01; fc0013_writereg 0x10 0x00

  unfoldable pub fc0013_set_vhf_track : ℕ → Driver Bus (Unit {0})
  fc0013_set_vhf_track freq = do
    tmp ← fc0013_readreg 0x1d
    fc0013_writereg 0x1d (bit_or (bit_and tmp 0xe3) (vhf_track freq))

  -- The VHF filter, and the UHF and GPS inputs.
  unfoldable pub select_band : ℕ → Driver Bus (Unit {0})
  select_band freq = do
    tmp ← fc0013_readreg 0x07
    fc0013_writereg 0x07 (if ltb freq 300000000 then bit_or tmp 0x10 else bit_and tmp 0xef)
    tmp' ← fc0013_readreg 0x14
    fc0013_writereg 0x14 (
        if ltb freq 300000000
        then bit_and tmp' 0x1f
        else bit_or (bit_and tmp' 0x1f) (if leb freq 862000000 then 0x40 else 0x20))

  -- The other range of the VCO, when the control voltage is at its end.
  unfoldable pub fc0013_reselect_vco : ℕ → Driver Bus (Unit {0})
  fc0013_reselect_vco reg6 = do
    fc0013_writereg 0x06 reg6
    fc0013_writereg 0x0e 0x80
    fc0013_writereg 0x0e 0x00

  unfoldable pub fc0013_program_pll : ℕ → Registers → Driver Bus (Unit {0})
  fc0013_program_pll multi r = do
    fc0013_write_from 1 (r.reg1 ∷ r.reg2 ∷ r.reg3 ∷ r.reg4 ∷ r.reg5 ∷ r.reg6 ∷ [])
    tmp ← fc0013_readreg 0x11
    fc0013_writereg 0x11 (if multi == 64 then bit_or tmp 0x04 else bit_and tmp 0xfb)
    fc0013_writereg 0x0e 0x80
    fc0013_writereg 0x0e 0x00
    fc0013_writereg 0x0e 0x00
    read ← fc0013_readreg 0x0e
    let tmp' = bit_and read 0x3f
    if r.vco_select
        then (if ltb 0x3c tmp' then fc0013_reselect_vco (bit_and r.reg6 (255 - 0x08)) else pure tt)
        else (if ltb tmp' 0x02 then fc0013_reselect_vco (bit_or r.reg6 0x08) else pure tt)

  -- `clock` is what `rtlsdr_get_tuner_clock` returns.
  unfoldable pub fc0013_set_params : ℕ → ℕ → ℕ → Driver Bus (Unit {0})
  fc0013_set_params clock freq bandwidth = do
    fc0013_set_vhf_track freq
    select_band freq
    elim (fc0013_pll (clock / 2) freq bandwidth) [
      | registers r ↦ fc0013_program_pll (fc0013_multiplier freq).multi r
      | no_combination ↦ fail 0
      | zero_div ↦ hang
    ]

  unfoldable pub fc0013_set_gain_mode : Bool → Driver Bus (Unit {0})
  fc0013_set_gain_mode manual = do
    read ← attempt 0 (fc0013_readreg 0x0d)
    wrote ←
        attempt tt (
          fc0013_writereg 0x0d (if manual then bit_or read.1 0x08 else bit_and read.1 (255 - 0x08)))
    wrote' ← attempt tt (fc0013_writereg 0x13 0x0a)
    all_done (read.0 && wrote.0 && wrote'.0)

  unfoldable pub fc0013_set_lna_gain : ℤ → Driver Bus (Unit {0})
  fc0013_set_lna_gain gain = do
    read ← attempt 0 (fc0013_readreg 0x14)
    wrote ←
        attempt tt
          (fc0013_writereg 0x14 (bit_or (bit_and read.1 0xe0) (lna_entry fc0013_lna_gains gain).1))
    all_done (read.0 && wrote.0)
