-- ===== src/E4k.antt =====
-- rtl-sdr/src/tuner_e4k.c: DC offsets, standby and initialisation of the Elonics E4000 tuner.
pub mod Types
pub mod Registers
pub mod Filters
pub mod Pll
pub mod Gain
pub mod Chip
pub mod Nearest
pub mod Fields
pub mod Bandwidth
pub mod Accuracy
pub mod Faults
pub mod Programmed
pub mod Tuned
mod Tests
use rtl_tcp_pi.Common.{
  ℕ, ◌+◌, ◌*◌, ◌/◌, ◌%◌, ◌^◌, bit_and, bit_or, ltb_ℤ, Bool, true, false, ◌||◌, if◌then◌else◌, List,
  [], ◌∷◌, ℤ, pos, negsuc,
}
use rtl_tcp_pi.State.{pure, ◌>>=◌, ◌>>◌}
use rtl_tcp_pi.Usb.{Usb}
use rtl_tcp_pi.Librtlsdr.Fir.{low_byte}
use rtl_tcp_pi.E4k.Types.{
  E4k, if_filter_mix, if_filter_chan, if_filter_rc, reg_master1, reg_clk_inp, reg_ref_clk, reg_agc1,
  reg_agc4, reg_agc5, reg_agc6, reg_agc7, reg_dc1, reg_dc2, reg_dc3, reg_dc4, reg_dc5, reg_dctime1,
  reg_dctime2, reg_clkout_pwdn,
}
use rtl_tcp_pi.E4k.Registers.{e4k_reg_write, e4k_reg_read, e4k_reg_set_mask}
use rtl_tcp_pi.E4k.Filters.{e4k_if_filter_bw_set, e4k_if_filter_chan_enable}
use rtl_tcp_pi.E4k.Gain.{e4k_enable_manual_gain, e4k_if_gain_set, e4k_mixer_gain_set}

-- `(x < 0x00) || (x > limit)`
unfoldable pub is_outside : ℤ → ℕ → Bool
is_outside x limit = ltb_ℤ x (pos 0) || ltb_ℤ (pos limit) x

pub record GainComb : Type 0 where
  pub mixer_gain : ℤ
  pub if1_gain : ℤ
  pub reg : ℕ

abbrev pub dc_gain_comb : List GainComb
dc_gain_comb =
    record { mixer_gain = pos 4; if1_gain = negsuc 2; reg = 0x50 }
    ∷ record { mixer_gain = pos 4; if1_gain = pos 6; reg = 0x51 }
    ∷ record { mixer_gain = pos 12; if1_gain = negsuc 2; reg = 0x52 }
    ∷ record { mixer_gain = pos 12; if1_gain = pos 6; reg = 0x53 }
    ∷ []

-- Stages 2 to 6 with `if_gains_max`.
abbrev pub if_gains_max : List (ℕ × ℤ)
if_gains_max = (2, pos 9) ∷ (3, pos 9) ∷ (4, pos 2) ∷ (5, pos 15) ∷ (6, pos 15) ∷ []

-- The stages with the moderate gains of `e4k_init`.
abbrev pub if_gains_moderate : List (ℕ × ℤ)
if_gains_moderate = (1, pos 6) ∷ (2, pos 0) ∷ (3, pos 0) ∷ (4, pos 0) ∷ (5, pos 9) ∷ (6, pos 9) ∷ []

-- The registers of `magic_init`.
abbrev pub magic_registers : List (ℕ × ℕ)
magic_registers =
    (0x7e, 0x01)
    ∷ (0x7f, 0xfe)
    ∷ (0x82, 0x00)
    ∷ (0x86, 0x50)
    ∷ (0x87, 0x20)
    ∷ (0x88, 0x01)
    ∷ (0x9f, 0x7f)
    ∷ (0xa0, 0x07)
    ∷ []

unfoldable pub to_lut : ℕ → ℕ → ℕ
to_lut offset range = bit_or offset (range * 2 ^ 6) % 2 ^ 8

module _ (usb : Usb) where
  unfoldable pub e4k_manual_dc_offset : ℤ → ℤ → ℤ → ℤ → E4k ℤ
  e4k_manual_dc_offset iofs irange qofs qrange =
      if is_outside iofs 0x3f
        || is_outside irange 0x03
        || is_outside qofs 0x3f
        || is_outside qrange 0x03
      then pure (negsuc 21)
      else do
        res ← e4k_reg_set_mask usb reg_dc2 0x3f (low_byte iofs)
        if ltb_ℤ res (pos 0) then pure res else do
          res' ← e4k_reg_set_mask usb reg_dc3 0x3f (low_byte qofs)
          if ltb_ℤ res' (pos 0)
              then pure res'
              else e4k_reg_set_mask usb reg_dc4 0x33
                  (bit_or (low_byte qrange * 2 ^ 4) (low_byte irange))

  unfoldable pub e4k_dc_offset_calibrate : E4k ℤ
  e4k_dc_offset_calibrate = do
    e4k_reg_set_mask usb reg_dc5 0x04 0x04
    e4k_reg_write usb reg_dc1 0x01

  -- The gains of stages of the IF, one after another; the return values are dropped.
  unfoldable pub set_if_gains : List (ℕ × ℤ) → E4k (Unit {0})
  set_if_gains [] = pure tt
  set_if_gains (stage ∷ rest) = do e4k_if_gain_set usb stage.0 stage.1; set_if_gains rest

  -- The calibration with one combination of gains.
  unfoldable pub calibrate_comb : GainComb → E4k ℤ
  calibrate_comb comb = do
    e4k_mixer_gain_set usb comb.mixer_gain
    e4k_if_gain_set usb 1 comb.if1_gain
    e4k_dc_offset_calibrate
    i ← e4k_reg_read usb reg_dc2
    q ← e4k_reg_read usb reg_dc3
    range ← e4k_reg_read usb reg_dc4
    let range_i = bit_and (low_byte range) 0x3
    let range_q = bit_and (low_byte range / 2 ^ 4) 0x3
    e4k_reg_write usb comb.reg (to_lut (bit_and (low_byte q) 0x3f) range_q)
    e4k_reg_write usb (comb.reg + 0x10) (to_lut (bit_and (low_byte i) 0x3f) range_i)

  unfoldable pub calibrate_combs : List GainComb → E4k (Unit {0})
  calibrate_combs [] = pure tt
  calibrate_combs (comb ∷ rest) = do calibrate_comb comb; calibrate_combs rest

  unfoldable pub e4k_dc_offset_gen_table : E4k ℤ
  e4k_dc_offset_gen_table = do
    e4k_reg_set_mask usb reg_agc7 0x01 0
    e4k_reg_set_mask usb reg_agc1 0xf 0x0
    set_if_gains if_gains_max
    calibrate_combs dc_gain_comb
    pure (pos 0)

  unfoldable pub e4k_standby : Bool → E4k ℤ
  e4k_standby enable = do
    e4k_reg_set_mask usb reg_master1 0x02 (if enable then 0 else 0x02)
    pure (pos 0)

  -- Writes of registers whose return values are dropped.
  unfoldable pub write_all : List (ℕ × ℕ) → E4k (Unit {0})
  write_all [] = pure tt
  write_all (register ∷ rest) = do e4k_reg_write usb register.0 register.1; write_all rest

  unfoldable pub magic_init : E4k ℤ
  magic_init = do write_all magic_registers; pure (pos 0)

  -- The parts under `#if 0` are left out, as the compiler does.
  unfoldable pub e4k_init : E4k ℤ
  e4k_init = do
    e4k_reg_read usb 0
    e4k_reg_write usb reg_master1 0x07
    e4k_reg_write usb reg_clk_inp 0x00
    e4k_reg_write usb reg_ref_clk 0x00
    e4k_reg_write usb reg_clkout_pwdn 0x96
    magic_init
    e4k_reg_write usb reg_agc4 0x10
    e4k_reg_write usb reg_agc5 0x04
    e4k_reg_write usb reg_agc6 0x1a
    e4k_reg_set_mask usb reg_agc1 0xf 0x0
    e4k_reg_set_mask usb reg_agc7 0x01 0
    e4k_enable_manual_gain usb false
    set_if_gains if_gains_moderate
    e4k_if_filter_bw_set usb if_filter_mix 1900000
    e4k_if_filter_bw_set usb if_filter_rc 1000000
    e4k_if_filter_bw_set usb if_filter_chan 2150000
    e4k_if_filter_chan_enable usb true
    e4k_reg_set_mask usb reg_dc5 0x03 0
    e4k_reg_set_mask usb reg_dctime1 0x03 0
    e4k_reg_set_mask usb reg_dctime2 0x03 0
    pure (pos 0)
