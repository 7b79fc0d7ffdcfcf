-- ===== src/Librtlsdr/Api.antt =====
-- rtl-sdr/src/librtlsdr.c: sequences of calls of the library on a device with an R820T or R828D.
use rtl_tcp_pi.Common.{ℕ, ◌≢◌, Bool, ℤ}
use rtl_tcp_pi.Usb.{Usb}
use rtl_tcp_pi.Driver.{fault}
use rtl_tcp_pi.Driver.Safe.{any-Post, Safe}
use rtl_tcp_pi.Librtlsdr.Device.{Device, Dev, TunerIface, PpmCorr}
use rtl_tcp_pi.Librtlsdr.Control.{
  rtlsdr_set_center_freq, rtlsdr_set_freq_correction, rtlsdr_set_tuner_gain,
  rtlsdr_set_tuner_if_gain, rtlsdr_set_tuner_gain_mode, rtlsdr_set_offset_tuning,
  rtlsdr_set_sample_rate, rtlsdr_set_xtal_freq, rtlsdr_set_testmode, rtlsdr_set_agc_mode,
  rtlsdr_set_direct_sampling,
}
use rtl_tcp_pi.Librtlsdr.Sound.{
  IsCorr, IsKept, center_freq-Safe, freq_correction-Safe, tuner_gain-Safe, tuner_if_gain-Safe,
  tuner_gain_mode-Safe, offset_tuning-Safe, sample_rate-Safe, testmode-Safe, agc_mode-Safe,
  direct_sampling-Safe, IsClockArg, xtal_freq-Safe,
}
use rtl_tcp_pi.Librtlsdr.Tuners.{r820t}
use rtl_tcp_pi.Librtlsdr.R820t.{IsModerate, IsSound, r820t-IsKept}

-- The calls of an application, with the arguments that are documented.
pub data Request : Type 0 where
  center_freq : ℕ → Request
  freq_correction : (ppm : ℤ) → IsCorr ppm → Request
  xtal_freq : (rtl tuner : ℕ) → IsClockArg tuner → Request
  sample_rate : ℕ → Request
  tuner_gain : ℤ → Request
  tuner_if_gain : ℤ → ℤ → Request
  tuner_gain_mode : Bool → Request
  offset_tuning : Bool → Request
  direct_sampling : ℕ → Request
  testmode : Bool → Request
  agc_mode : Bool → Request

module _ (usb : Usb) (ppm_corr : PpmCorr) where
  unfoldable pub perform : TunerIface → Request → Dev ℤ
  perform tuner (center_freq freq) = rtlsdr_set_center_freq usb ppm_corr tuner freq
  perform tuner (freq_correction ppm h) = rtlsdr_set_freq_correction usb ppm_corr tuner ppm
  perform tuner (xtal_freq rtl tuner_freq h) =
      rtlsdr_set_xtal_freq usb ppm_corr tuner rtl tuner_freq
  perform tuner (sample_rate rate) = rtlsdr_set_sample_rate usb ppm_corr tuner rate
  perform tuner (tuner_gain gain) = rtlsdr_set_tuner_gain usb ppm_corr tuner gain
  perform tuner (tuner_if_gain stage gain) = rtlsdr_set_tuner_if_gain usb ppm_corr tuner stage gain
  perform tuner (tuner_gain_mode mode) = rtlsdr_set_tuner_gain_mode usb ppm_corr tuner mode
  perform tuner (offset_tuning on) = rtlsdr_set_offset_tuning usb ppm_corr tuner on
  perform tuner (direct_sampling on) = rtlsdr_set_direct_sampling usb ppm_corr tuner on
  perform tuner (testmode on) = rtlsdr_set_testmode usb ppm_corr tuner on
  perform tuner (agc_mode on) = rtlsdr_set_agc_mode usb ppm_corr tuner on

  pub perform-Safe :
      (tuner : TunerIface) (P R : Device → Type 0)
      → IsKept usb ppm_corr tuner P R
      → (request : Request) → Safe P P (perform tuner request)
  unfolding perform
  perform-Safe tuner P R kept (center_freq freq) = center_freq-Safe usb ppm_corr tuner P R kept freq
  perform-Safe tuner P R kept (freq_correction ppm h) =
      freq_correction-Safe usb ppm_corr tuner P R kept ppm h
  perform-Safe tuner P R kept (xtal_freq rtl tuner_freq h) =
      xtal_freq-Safe usb ppm_corr tuner P R kept rtl tuner_freq h
  perform-Safe tuner P R kept (sample_rate rate) = sample_rate-Safe usb ppm_corr tuner P R kept rate
  perform-Safe tuner P R kept (tuner_gain gain) = tuner_gain-Safe usb ppm_corr tuner P R kept gain
  perform-Safe tuner P R kept (tuner_if_gain stage gain) =
      tuner_if_gain-Safe usb ppm_corr tuner P R kept stage gain
  perform-Safe tuner P R kept (tuner_gain_mode mode) =
      tuner_gain_mode-Safe usb ppm_corr tuner P R kept mode
  perform-Safe tuner P R kept (offset_tuning on) = offset_tuning-Safe usb ppm_corr tuner P R kept on
  perform-Safe tuner P R kept (direct_sampling on) =
      direct_sampling-Safe usb ppm_corr tuner P R kept on
  perform-Safe tuner P R kept (testmode on) = testmode-Safe usb ppm_corr tuner P R kept on
  perform-Safe tuner P R kept (agc_mode on) = agc_mode-Safe usb ppm_corr tuner P R kept on

  -- Requests in a row, whatever they have returned.
  pub data Use (tuner : TunerIface) (d : Device) : Device → Type 0 where
    begin : Use tuner d d
    then_request :
        {e : Device} (request : Request) → Use tuner d e → Use tuner d (perform tuner request e).1

-- On a sound device with an R820T or R828D tuner, after any sequence of requests, failed ones too,
-- whose corrections are of at most 10000 ppm and whose clocks for the tuner are 0 or from 1 kHz to
-- below 32 MHz, the device is sound and the next such request returns, if the correction of a
-- clock by so much gives a clock above 0 and below 32.7675 MHz.
pub Use-returns :
    (usb : Usb) (ppm_corr : PpmCorr) {d e : Device} (request : Request)
    → IsModerate ppm_corr
    → IsSound d
    → Use usb ppm_corr (r820t usb ppm_corr) d e
    → IsSound e × ((perform usb ppm_corr (r820t usb ppm_corr) request e).0 ≢ fault)
Use-returns usb ppm_corr {d} {e} request moderate h requests =
    (sound requests, (step request e (sound requests)).1)
  where
    step :
        (request : Request) (e : Device)
        → IsSound e
        → IsSound (perform usb ppm_corr (r820t usb ppm_corr) request e).1
          × ((perform usb ppm_corr (r820t usb ppm_corr) request e).0 ≢ fault)
    step request e h = any-Post IsSound _ _ (
        (perform-Safe usb ppm_corr (r820t usb ppm_corr) IsSound IsSound
            (r820t-IsKept usb ppm_corr moderate) request).at
          e h)

    sound : {e : Device} → Use usb ppm_corr (r820t usb ppm_corr) d e → IsSound e
    sound begin = h
    sound (then_request {e = e} request earlier) = (step request e (sound earlier)).0
