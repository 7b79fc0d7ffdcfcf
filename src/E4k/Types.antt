-- ===== src/E4k/Types.antt =====
-- rtl-sdr/include/tuner_e4k.h: the state of the Elonics E4000 driver and its registers.
use rtl_tcp_pi.Common.{ℕ}
use rtl_tcp_pi.State.{State}
use rtl_tcp_pi.Usb.{Bus}

-- `enum e4k_band`
pub data E4kBand : Type 0 where
  band_vhf2 band_vhf3 band_uhf band_l : E4kBand

abbrev pub band_code : E4kBand → ℕ
band_code band_vhf2 = 0
band_code band_vhf3 = 1
band_code band_uhf = 2
band_code band_l = 3

-- `enum e4k_if_filter`
pub data IfFilter : Type 0 where
  if_filter_mix if_filter_chan if_filter_rc : IfFilter

-- `struct e4k_pll_params`
pub record PllParams : Type 0 where
  pub fosc : ℕ
  pub intended_flo : ℕ
  pub flo : ℕ
  pub x : ℕ
  pub z : ℕ
  pub r : ℕ
  pub r_idx : ℕ
  pub threephase : ℕ

-- `struct e4k_state`; `rtl_dev` is the traffic of the device that it points to.
pub record E4kState : Type 0 where
  pub i2c_addr : ℕ
  pub band : E4kBand
  pub vco : PllParams
  pub rtl_dev : Bus

abbrev pub E4k : Type 0 → Type 0
E4k A = State E4kState A

-- `struct reg_field`
pub record RegField : Type 0 where
  pub reg : ℕ
  pub shift : ℕ
  pub width : ℕ

abbrev pub e4k_i2c_addr : ℕ
e4k_i2c_addr = 0xc8

-- The registers of `enum e4k_reg` that the driver uses.
abbrev pub reg_master1 : ℕ
reg_master1 = 0x00

abbrev pub reg_clk_inp : ℕ
reg_clk_inp = 0x05

abbrev pub reg_ref_clk : ℕ
reg_ref_clk = 0x06

abbrev pub reg_synth1 : ℕ
reg_synth1 = 0x07

abbrev pub reg_synth3 : ℕ
reg_synth3 = 0x09

abbrev pub reg_synth4 : ℕ
reg_synth4 = 0x0a

abbrev pub reg_synth5 : ℕ
reg_synth5 = 0x0b

abbrev pub reg_synth7 : ℕ
reg_synth7 = 0x0d

abbrev pub reg_filt1 : ℕ
reg_filt1 = 0x10

abbrev pub reg_filt2 : ℕ
reg_filt2 = 0x11

abbrev pub reg_filt3 : ℕ
reg_filt3 = 0x12

abbrev pub reg_gain1 : ℕ
reg_gain1 = 0x14

abbrev pub reg_gain2 : ℕ
reg_gain2 = 0x15

abbrev pub reg_gain3 : ℕ
reg_gain3 = 0x16

abbrev pub reg_gain4 : ℕ
reg_gain4 = 0x17

abbrev pub reg_agc1 : ℕ
reg_agc1 = 0x1a

abbrev pub reg_agc4 : ℕ
reg_agc4 = 0x1d

abbrev pub reg_agc5 : ℕ
reg_agc5 = 0x1e

abbrev pub reg_agc6 : ℕ
reg_agc6 = 0x1f

abbrev pub reg_agc7 : ℕ
reg_agc7 = 0x20

abbrev pub reg_agc11 : ℕ
reg_agc11 = 0x24

abbrev pub reg_dc1 : ℕ
reg_dc1 = 0x29

abbrev pub reg_dc2 : ℕ
reg_dc2 = 0x2a

abbrev pub reg_dc3 : ℕ
reg_dc3 = 0x2b

abbrev pub reg_dc4 : ℕ
reg_dc4 = 0x2c

abbrev pub reg_dc5 : ℕ
reg_dc5 = 0x2d

abbrev pub reg_dc7 : ℕ
reg_dc7 = 0x2f

abbrev pub reg_dctime1 : ℕ
reg_dctime1 = 0x70

abbrev pub reg_dctime2 : ℕ
reg_dctime2 = 0x71

abbrev pub reg_bias : ℕ
reg_bias = 0x78

abbrev pub reg_clkout_pwdn : ℕ
reg_clkout_pwdn = 0x7a
