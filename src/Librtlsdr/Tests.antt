-- ===== src/Librtlsdr/Tests.antt =====
-- rtl-sdr/src/librtlsdr.c: dongles on which the library is used.
use rtl_tcp_pi.Common.{
  some, none, ℤ, ap, Option, Bool, false, ◌&&◌, if◌then◌else◌, ◌==◌, ◌-◌, ◌≤◌, pos_part, neg_part,
  ℕ, zero, suc, ◌≡◌, ◌≢◌, refl, arith, false, length, ◌+◌, ◌*◌, ◌/◌, List, [], ◌∷◌, pos, negsuc,
}
use rtl_tcp_pi.Librtlsdr.Fir.{fir_default}
use rtl_tcp_pi.Usb.{Usb, Bus, Reply, wrote, received, failed}
use rtl_tcp_pi.Driver.{fault}
use rtl_tcp_pi.R82xx.Types.{Priv, low_cap_30p, sys_undefined, unset}
use rtl_tcp_pi.E4k.Types.{E4kState, band_vhf2, e4k_i2c_addr}
use rtl_tcp_pi.R82xx.Standard.{r82xx_init_array}
use rtl_tcp_pi.R82xx.Sync.Setup.{init_array-IsBytes}
use rtl_tcp_pi.Librtlsdr.Gains.{tuner_r820t, tuner_fc2580}
use rtl_tcp_pi.Librtlsdr.Device.{Device, PpmCorr}
use rtl_tcp_pi.Librtlsdr.Demod.{rtlsdr_get_tuner_clock, ratio_22, ppm_offset}
use rtl_tcp_pi.Librtlsdr.Demod.Bytes.{offset_word, signed_14, offset_word-exact}
use rtl_tcp_pi.Librtlsdr.Control.{rate_supported, rsamp_ratio, real_rsamp_ratio}
use rtl_tcp_pi.Librtlsdr.Clock.{IsTimed, Use-IsTimed}
use native.Mathlib.Nat.{mul-le-mul_left}
use rtl_tcp_pi.Librtlsdr.Rate.{sample_rate_exact}
use rtl_tcp_pi.Librtlsdr.Open.{probe_tuners}
use rtl_tcp_pi.Librtlsdr.Probe.{was_reset, IsWired, Identifies, probe_tuners-Identifies}
use rtl_tcp_pi.Librtlsdr.Tuners.{r820t, r820t_config}
use rtl_tcp_pi.Librtlsdr.R820t.{IsModerate, IsSound}
use rtl_tcp_pi.Librtlsdr.Api.{
  freq_correction, Use-returns, perform, begin, then_request, direct_sampling, sample_rate,
  center_freq,
}

-- A dongle that acknowledges every write and answers reads with the lock bit.
abbrev locked_bytes : ℕ → List ℕ
locked_bytes zero = []
locked_bytes (suc n) = 0x02 ∷ locked_bytes n

abbrev acknowledging : Usb
acknowledging = record {
  out_status = λ bus index addr bytes. pos (length bytes);
  in_reply = λ bus index addr len. received (locked_bytes len);
  uninit = λ bus. [];
}

abbrev idle_priv : Priv
idle_priv = record {
  cfg = r820t_config tuner_r820t 28800000;
  regs = r82xx_init_array;
  xtal_cap_sel = low_cap_30p;
  int_freq = 0;
  fil_cal_code = 0;
  input = 0;
  has_lock = false;
  init_done = false;
  delsys = sys_undefined;
  type = unset;
  bw = 0;
  rtl_dev = [];
}

abbrev idle_e4k : E4kState
idle_e4k = record {
  i2c_addr = e4k_i2c_addr;
  band = band_vhf2;
  vco = record {
    fosc = 28800000;
    intended_flo = 0;
    flo = 0;
    x = 0;
    z = 0;
    r = 0;
    r_idx = 0;
    threephase = 0;
  };
  rtl_dev = [];
}

abbrev pub idle_device : Device
idle_device = record {
  bus = [];
  rate = 0;
  rtl_xtal = 28800000;
  fir = fir_default;
  direct_sampling = 0;
  tuner_type = tuner_r820t;
  tun_xtal = 28800000;
  freq = 0;
  offs_freq = 0;
  corr = pos 0;
  gain = pos 0;
  e4k_s = idle_e4k;
  r82xx_p = idle_priv;
}

idle_device-IsSound : IsSound idle_device
unfolding r820t_config
idle_device-IsSound = record {
  formed = record {
    regs_length = refl;
    regs_bytes = init_array-IsBytes;
    usable = record {
      msg_low = omega arith;
      msg_high = omega arith;
      xtal_low = omega arith;
      xtal_high = omega arith;
    };
  };
  rtl = (omega arith, omega arith);
  tun = (omega arith, omega arith);
  corrected = omega arith;
}

-- The correction in whole numbers.
abbrev corrected_by : PpmCorr
corrected_by v c = v + v * pos_part c / 1000000 - v * neg_part c / 1000000

corrected_by-IsModerate : IsModerate corrected_by
corrected_by-IsModerate v c hv hc =
    let more : v * pos_part c ≤ v * 10000 = mul-le-mul_left v (omega (arith, hc)) in
    let less : v * neg_part c ≤ v * 10000 = mul-le-mul_left v (omega (arith, hc)) in
    (omega (arith, less, hv.0), omega (arith, more, hv.1))

Use-returns_example :
    let tuner = r820t acknowledging corrected_by in
    let direct = (perform acknowledging corrected_by tuner (direct_sampling 0) idle_device).1 in
    let used = (perform acknowledging corrected_by tuner (sample_rate 2048000) direct).1 in
    IsSound used
    × ((perform acknowledging corrected_by tuner (center_freq 100000000) used).0 ≢ fault)
Use-returns_example =
    Use-returns acknowledging corrected_by (center_freq 100000000) corrected_by-IsModerate
      idle_device-IsSound
      (then_request (sample_rate 2048000) (then_request (direct_sampling 0) begin))

sample_rate_exact_example :
    ratio_22 28800000 (real_rsamp_ratio (rsamp_ratio 28800000 2048000)) ≡ 2048000
unfolding rate_supported
sample_rate_exact_example = sample_rate_exact 2048000 refl

offset_word-exact_example :
    signed_14 (offset_word (ppm_offset (negsuc 51))) ≡ ppm_offset (negsuc 51)
offset_word-exact_example = offset_word-exact (negsuc 51) (omega arith)

idle_device-IsTimed : IsTimed acknowledging corrected_by idle_device
unfolding rtlsdr_get_tuner_clock r820t_config
idle_device-IsTimed = record { sound = idle_device-IsSound; timed = refl }

Use-IsTimed_example :
    let tuner = r820t acknowledging corrected_by in
    let tuned = (perform acknowledging corrected_by tuner (center_freq 100000000) idle_device).1 in
    IsTimed acknowledging corrected_by
      (perform acknowledging corrected_by tuner (freq_correction (negsuc 51) (omega arith)) tuned).1
Use-IsTimed_example =
    Use-IsTimed acknowledging corrected_by corrected_by-IsModerate idle_device-IsTimed (
      then_request (freq_correction (negsuc 51) (omega arith))
        (then_request (center_freq 100000000) begin))

-- An FC2580 that answers only after the reset, with the top bit of its number set; no other chip is there.
abbrev fc2580_chip : Bool → ℕ → ℕ → Option ℕ
fc2580_chip reset at reg = if reset && at == 0xac then some 0xd6 else none

abbrev status_of : Option ℕ → ℤ
status_of none = negsuc 8
status_of (some v) = pos 1

abbrev reply_of : Option ℕ → Reply
reply_of none = failed 8
reply_of (some v) = received (v ∷ [])

abbrev register_reply : Bus → Reply
register_reply (wrote index at (reg ∷ bytes) rc ∷ bus) =
    reply_of (fc2580_chip (was_reset bus) at reg)
register_reply bus = received []

abbrev with_fc2580 : Usb
with_fc2580 = record {
  out_status = λ bus index addr bytes. status_of (fc2580_chip (was_reset bus) addr 0);
  in_reply = λ bus index addr len. register_reply bus;
  uninit = λ bus. [];
}

with_fc2580-IsWired : IsWired with_fc2580 fc2580_chip
with_fc2580-IsWired = record {
  acknowledges = λ bus at reg v e. ap status_of e;
  answers = λ bus at reg v e. ap reply_of e;
  code = λ bus at reg. 8;
  refuses = λ bus at reg e. ap status_of e;
  is_silent = λ bus at reg n e. ap reply_of e;
}

probe_tuners-Identifies_example :
    Identifies (probe_tuners with_fc2580 corrected_by) idle_device tuner_fc2580
probe_tuners-Identifies_example =
    probe_tuners-Identifies with_fc2580 corrected_by fc2580_chip idle_device with_fc2580-IsWired
      refl
