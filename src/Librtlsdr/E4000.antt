-- ===== src/Librtlsdr/E4000.antt =====
-- rtl-sdr/src/librtlsdr.c: the entry of `tuners` for the Elonics E4000.
pub mod Gains
pub mod Programs
mod Tests
use rtl_tcp_pi.Common.{
  ℕ, ◌+◌, ◌-◌, ◌*◌, ◌/◌, ◌%◌, ◌^◌, ltb, ltb_ℤ, eq_ℤ, true, Bool, if◌then◌else◌, some, ℤ, pos,
  negsuc, ◌+ℤ◌,
}
use rtl_tcp_pi.Usb.{Usb}
use rtl_tcp_pi.Driver.{pure, modify, ◌>>=◌, ◌>>◌, call}
use rtl_tcp_pi.Librtlsdr.Fir.{low_byte}
use rtl_tcp_pi.Librtlsdr.Device.{Device, Dev, TunerIface, PpmCorr, or_with}
use rtl_tcp_pi.Librtlsdr.Demod.{rtlsdr_get_tuner_clock, negated}
use rtl_tcp_pi.E4k.Types.{E4k, E4kState, e4k_i2c_addr, if_filter_mix, if_filter_chan, if_filter_rc}
use rtl_tcp_pi.E4k.Filters.{e4k_if_filter_bw_set}
use rtl_tcp_pi.E4k.Pll.{e4k_tune_freq}
use rtl_tcp_pi.E4k.Gain.{
  e4k_set_lna_gain, e4k_mixer_gain_set, e4k_if_gain_set, e4k_enable_manual_gain,
}
use rtl_tcp_pi.E4k.{e4k_init, e4k_standby}

-- A call of the E4000 driver on its part of the device, which points to the device's traffic.
abbrev pub on_e4k : {A : Type 0} → E4k A → Dev A
on_e4k =
    call (λ d. record d.e4k_s { rtl_dev = d.bus }) (λ e d. record d { bus = e.rtl_dev; e4k_s = e })

-- `gain / 10` is cut towards zero.
unfoldable pub tenth : ℤ → ℤ
tenth (pos n) = pos (n / 10)
tenth (negsuc n) = negated ((n + 1) / 10)

-- `(int8_t)`
unfoldable pub int8 : ℤ → ℤ
int8 v = let byte = low_byte v in if ltb byte 128 then pos byte else negsuc (255 - byte)

-- The gain of the mixer, in dB, and that of the LNA, in tenths, for a gain of the tuner.
unfoldable pub mixgain : ℤ → ℤ
mixgain gain = if ltb_ℤ (pos 340) gain then pos 12 else pos 4

unfoldable pub lna_part : ℤ → ℤ
lna_part gain =
    let rest = gain +ℤ (if ltb_ℤ (pos 340) gain then negsuc 119 else negsuc 39) in
    if ltb_ℤ (pos 300) rest then pos 300 else rest

module _ (usb : Usb) (ppm_corr : PpmCorr) where
  unfoldable pub e4000_init : Dev ℤ
  e4000_init = do
    modify (λ d. record d {
      e4k_s = record d.e4k_s {
        i2c_addr = e4k_i2c_addr;
        vco = record d.e4k_s.vco { fosc = rtlsdr_get_tuner_clock usb ppm_corr d };
      };
    })
    on_e4k (e4k_init usb)

  unfoldable pub e4000_set_bw : ℕ → Dev ℤ
  e4000_set_bw bw = do
    r ← or_with (pos 0) (on_e4k (e4k_if_filter_bw_set usb if_filter_mix bw))
    r' ← or_with r (on_e4k (e4k_if_filter_bw_set usb if_filter_rc bw))
    or_with r' (on_e4k (e4k_if_filter_bw_set usb if_filter_chan bw))

  unfoldable pub e4000_set_gain : ℤ → Dev ℤ
  e4000_set_gain gain = do
    r ← on_e4k (e4k_set_lna_gain usb (lna_part gain))
    if eq_ℤ r (negsuc 21) then pure (negsuc 0) else do
      r' ← on_e4k (e4k_mixer_gain_set usb (mixgain gain))
      pure (if eq_ℤ r' (negsuc 21) then negsuc 0 else pos 0)

  unfoldable pub e4000_set_if_gain : ℤ → ℤ → Dev ℤ
  e4000_set_if_gain stage gain = on_e4k (e4k_if_gain_set usb (low_byte stage) (int8 (tenth gain)))

  unfoldable pub e4000 : TunerIface
  e4000 = record {
    init = some e4000_init;
    exit = some (on_e4k (e4k_standby usb true));
    set_freq = some (λ freq. on_e4k (e4k_tune_freq usb freq));
    set_bw = some e4000_set_bw;
    set_gain = some e4000_set_gain;
    set_if_gain = some e4000_set_if_gain;
    set_gain_mode = some (λ manual. on_e4k (e4k_enable_manual_gain usb manual));
  }
