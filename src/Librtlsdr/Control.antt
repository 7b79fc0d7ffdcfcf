-- ===== src/Librtlsdr/Control.antt =====
-- rtl-sdr/src/librtlsdr.c: the functions that set and read the state of a device.
use rtl_tcp_pi.Common.{
  ℕ, ◌+◌, ◌-◌, ◌*◌, ◌/◌, ◌%◌, ◌^◌, ltb, leb, ◌==◌, not, ◌||◌, ◌&&◌, bit_and, bit_or, Bool,
  if◌then◌else◌, ℤ, pos, negsuc, eq_ℤ,
}
use mathlib.Core.Option
use rtl_tcp_pi.Usb.{Usb}
use rtl_tcp_pi.Driver.{pure, gets, modify, ◌>>=◌, ◌>>◌}
use rtl_tcp_pi.Librtlsdr.Gains.{Tuner, tuner_r820t, tuner_r828d}
use rtl_tcp_pi.Librtlsdr.Device.{Dev, TunerIface, PpmCorr, or_with, or_code, demod_write, repeated}
use rtl_tcp_pi.Librtlsdr.Demod.{
  ratio_22, rtlsdr_get_tuner_clock, rtlsdr_set_if_freq, rtlsdr_set_sample_freq_correction,
}

-- The sample rates that the resampler is given.
unfoldable pub rate_supported : ℕ → Bool
rate_supported samp_rate =
    not (
      leb samp_rate 225000 || ltb 3200000 samp_rate || ltb 300000 samp_rate && leb samp_rate 900000)

-- `rsamp_ratio`, and what the resampler makes of it.
unfoldable pub rsamp_ratio : ℕ → ℕ → ℕ
rsamp_ratio rtl_xtal samp_rate = bit_and (ratio_22 rtl_xtal samp_rate) 0x0ffffffc

unfoldable pub real_rsamp_ratio : ℕ → ℕ
real_rsamp_ratio ratio = bit_or ratio (bit_and ratio 0x08000000 * 2)

-- The test for the tuners with an intermediate frequency of their own.
unfoldable pub is_r82xx : Tuner → Bool
is_r82xx tuner_r820t = Bool.true
is_r82xx tuner_r828d = Bool.true
is_r82xx other = Bool.false

abbrev pub r82xx_if_freq : ℕ
r82xx_if_freq = 3570000

module _ (usb : Usb) (ppm_corr : PpmCorr) (tuner : TunerIface) where
  -- The body of `rtlsdr_set_center_freq` up to the bookkeeping.
  unfoldable pub tune : ℕ → Dev ℤ
  tune freq = do
    d ← gets (λ d. d)
    if d.direct_sampling == 0
        then repeated usb
            (Option.map (λ set_freq. set_freq ((freq + 2 ^ 32 - d.offs_freq) % 2 ^ 32))
              tuner.set_freq)
            (negsuc 0)
        else rtlsdr_set_if_freq usb ppm_corr freq

  unfoldable pub rtlsdr_set_center_freq : ℕ → Dev ℤ
  rtlsdr_set_center_freq freq = do
    r ← tune freq
    modify (λ d. record d { freq = if eq_ℤ r (pos 0) then freq else 0 })
    pure r

  -- The corrected clock goes into the structures of the E4000 and the R82XX.
  unfoldable pub update_clocks : Dev (Unit {0})
  update_clocks = modify (λ d. record d {
    e4k_s = record d.e4k_s {
      vco = record d.e4k_s.vco { fosc = rtlsdr_get_tuner_clock usb ppm_corr d };
    };
    r82xx_p = record d.r82xx_p {
      cfg = record d.r82xx_p.cfg { xtal = rtlsdr_get_tuner_clock usb ppm_corr d };
    };
  })

  -- Retuning, if a frequency is set.
  unfoldable pub retune : ℤ → Dev ℤ
  retune r = do
    freq ← gets (λ d. d.freq)
    if freq == 0 then pure r else or_with r (rtlsdr_set_center_freq freq)

  -- What `rtlsdr_set_freq_correction` does once the correction is stored.
  unfoldable pub apply_correction : ℤ → Dev ℤ
  apply_correction ppm = do
    r ← or_with (pos 0) (rtlsdr_set_sample_freq_correction usb ppm_corr ppm)
    update_clocks
    retune r

  unfoldable pub rtlsdr_set_freq_correction : ℤ → Dev ℤ
  rtlsdr_set_freq_correction ppm = do
    corr ← gets (λ d. d.corr)
    if eq_ℤ corr ppm
        then pure (negsuc 1)
        else do modify (λ d. record d { corr = ppm }); apply_correction ppm

  unfoldable pub rtlsdr_set_tuner_gain : ℤ → Dev ℤ
  rtlsdr_set_tuner_gain gain = do
    r ← repeated usb (Option.map (λ set_gain. set_gain gain) tuner.set_gain) (pos 0)
    modify (λ d. record d { gain = if eq_ℤ r (pos 0) then gain else pos 0 })
    pure r

  unfoldable pub rtlsdr_set_tuner_if_gain : ℤ → ℤ → Dev ℤ
  rtlsdr_set_tuner_if_gain stage gain =
      repeated usb (Option.map (λ set_if_gain. set_if_gain stage gain) tuner.set_if_gain) (pos 0)

  unfoldable pub rtlsdr_set_tuner_gain_mode : Bool → Dev ℤ
  rtlsdr_set_tuner_gain_mode mode =
      repeated usb (Option.map (λ set_gain_mode. set_gain_mode mode) tuner.set_gain_mode) (pos 0)

  -- `set_bw` between the switches of the repeater; its result is dropped.
  unfoldable pub call_set_bw : ℕ → Dev ℤ
  call_set_bw bw = repeated usb (Option.map (λ set_bw. set_bw bw) tuner.set_bw) (pos 0)

  unfoldable pub rtlsdr_set_offset_tuning : Bool → Dev ℤ
  rtlsdr_set_offset_tuning on = do
    d ← gets (λ d. d)
    if is_r82xx d.tuner_type
        then pure (negsuc 1)
        else if not (d.direct_sampling == 0)
        then pure (negsuc 2)
        else do
          let offs = if on then d.rate / 2 * 170 % 2 ^ 32 / 100 else 0
          modify (λ d. record d { offs_freq = offs })
          r ← or_with (pos 0) (rtlsdr_set_if_freq usb ppm_corr offs)
          call_set_bw (if on then 2 * offs % 2 ^ 32 else d.rate)
          d' ← gets (λ d. d)
          if ltb d'.offs_freq d'.freq then or_with r (rtlsdr_set_center_freq d'.freq) else pure r

  -- The writes of `rtlsdr_set_sample_rate`, from the ratio on.
  unfoldable pub write_ratio : ℕ → Dev ℤ
  write_ratio ratio = do
    r ← or_with (pos 0) (demod_write usb 1 0x9f (ratio / 2 ^ 16) 2)
    r' ← or_with r (demod_write usb 1 0xa1 (bit_and ratio 0xffff) 2)
    corr ← gets (λ d. d.corr)
    r'' ← or_with r' (rtlsdr_set_sample_freq_correction usb ppm_corr corr)
    r''' ← or_with r'' (demod_write usb 1 0x01 0x14 1)
    or_with r''' (demod_write usb 1 0x01 0x10 1)

  unfoldable pub rtlsdr_set_sample_rate : ℕ → Dev ℤ
  rtlsdr_set_sample_rate samp_rate = if not (rate_supported samp_rate) then pure (negsuc 21) else do
    rtl_xtal ← gets (λ d. d.rtl_xtal)
    let ratio = rsamp_ratio rtl_xtal samp_rate
    let real_rate = ratio_22 rtl_xtal (real_rsamp_ratio ratio)
    call_set_bw real_rate
    modify (λ d. record d { rate = real_rate })
    r ← write_ratio ratio
    offs ← gets (λ d. d.offs_freq)
    if offs == 0 then pure r else do rtlsdr_set_offset_tuning Bool.true; pure r

  -- The crystal of the demodulator, when it changes.
  unfoldable pub change_rtl_xtal : ℕ → Dev ℤ
  change_rtl_xtal rtl_freq = do
    rtl_xtal ← gets (λ d. d.rtl_xtal)
    if not (rtl_freq == 0) && not (rtl_xtal == rtl_freq)
        then (do
          modify (λ d. record d { rtl_xtal = rtl_freq })
          rate ← gets (λ d. d.rate)
          if rate == 0 then pure (pos 0) else rtlsdr_set_sample_rate rate)
        else pure (pos 0)

  unfoldable pub update_tuner : ℤ → Dev ℤ
  update_tuner r = do
    update_clocks
    freq ← gets (λ d. d.freq)
    if freq == 0 then pure r else rtlsdr_set_center_freq freq

  -- The crystal of the tuner, when it changes; 0 stands for the demodulator's.
  unfoldable pub change_tun_xtal : ℕ → ℤ → Dev ℤ
  change_tun_xtal tuner_freq r = do
    tun_xtal ← gets (λ d. d.tun_xtal)
    if tun_xtal == tuner_freq then pure r else do
      modify (λ d. record d { tun_xtal = if tuner_freq == 0 then d.rtl_xtal else tuner_freq })
      update_tuner r

  unfoldable pub rtlsdr_set_xtal_freq : ℕ → ℕ → Dev ℤ
  rtlsdr_set_xtal_freq rtl_freq tuner_freq =
      if not (rtl_freq == 0) && (ltb rtl_freq 28799000 || ltb 28801000 rtl_freq)
      then pure (negsuc 1)
      else do r ← change_rtl_xtal rtl_freq; change_tun_xtal tuner_freq r

  unfoldable pub rtlsdr_set_testmode : Bool → Dev ℤ
  rtlsdr_set_testmode on = demod_write usb 0 0x19 (if on then 0x03 else 0x05) 1

  unfoldable pub rtlsdr_set_agc_mode : Bool → Dev ℤ
  rtlsdr_set_agc_mode on = demod_write usb 0 0x19 (if on then 0x25 else 0x05) 1

  -- The two branches of `rtlsdr_set_direct_sampling`.
  unfoldable pub enable_direct : ℕ → Dev ℤ
  enable_direct on = do
    r ← repeated usb tuner.exit (pos 0)
    r1 ← or_with r (demod_write usb 1 0xb1 0x1a 1)
    r2 ← or_with r1 (demod_write usb 1 0x15 0x00 1)
    r3 ← or_with r2 (demod_write usb 0 0x08 0x4d 1)
    r4 ← or_with r3 (demod_write usb 0 0x06 (if ltb 1 on then 0x90 else 0x80) 1)
    modify (λ d. record d { direct_sampling = on })
    pure r4

  unfoldable pub if_mode : ℤ → Dev ℤ
  if_mode r = do
    r1 ← or_with r (rtlsdr_set_if_freq usb ppm_corr r82xx_if_freq)
    or_with r1 (demod_write usb 1 0x15 0x01 1)

  unfoldable pub zero_if_mode : ℤ → Dev ℤ
  zero_if_mode r = do
    r1 ← or_with r (rtlsdr_set_if_freq usb ppm_corr 0)
    r2 ← or_with r1 (demod_write usb 0 0x08 0xcd 1)
    or_with r2 (demod_write usb 1 0xb1 0x1b 1)

  unfoldable pub disable_direct : Dev ℤ
  disable_direct = do
    r ← repeated usb tuner.init (pos 0)
    type ← gets (λ d. d.tuner_type)
    r1 ← (if is_r82xx type then if_mode (or_code (pos 0) r) else zero_if_mode (or_code (pos 0) r))
    r2 ← or_with r1 (demod_write usb 0 0x06 0x80 1)
    modify (λ d. record d { direct_sampling = 0 })
    pure r2

  unfoldable pub rtlsdr_set_direct_sampling : ℕ → Dev ℤ
  rtlsdr_set_direct_sampling on = do
    r ← (if on == 0 then disable_direct else enable_direct on)
    freq ← gets (λ d. d.freq)
    or_with r (rtlsdr_set_center_freq freq)
