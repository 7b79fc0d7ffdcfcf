-- ===== src/E4k/Tests.antt =====
-- rtl-sdr/src/tuner_e4k.c: a tuner that keeps its registers, and concrete frequencies and bandwidths.
use rtl_tcp_pi.Common.{◌≡◌, refl, arith, [], ◌∷◌, length, some, pos, negsuc}
use rtl_tcp_pi.Usb.{Usb, received, failed}
use rtl_tcp_pi.E4k.Types.{E4kState, PllParams, band_vhf2, band_l, if_filter_rc}
use rtl_tcp_pi.E4k.Filters.{find_if_bw, e4k_if_filter_bw_set, rf_filt_center_uhf, closest_arr_idx}
use rtl_tcp_pi.E4k.Pll.{band_for, e4k_compute_pll_params, e4k_tune_freq}
use rtl_tcp_pi.E4k.Chip.{TunerChip, IsTuner, tuner}
use rtl_tcp_pi.E4k.Nearest.{IsNearest, closest_arr_idx-IsNearest}
use rtl_tcp_pi.E4k.Bandwidth.{IsBandwidth, bw_set-IsBandwidth}
use rtl_tcp_pi.E4k.Tuned.{IsTunedTo, tune_freq-IsTunedTo}
use rtl_tcp_pi.E4k.Faults.{IsDead, tune_freq-IsDead, pll_params-wraps}

-- A tuner whose registers are all 0x55.
abbrev start : TunerChip
start = record { regs = λ k. 0x55; selected = 0 }

abbrev keeping : Usb
keeping = record {
  out_status = λ bus index addr bytes. pos (length bytes);
  in_reply = λ bus index addr len.
      received ((tuner 0xc8 start bus).regs (tuner 0xc8 start bus).selected ∷ []);
  uninit = λ bus. [];
}

keeping-IsTuner : IsTuner keeping 0xc8 start
keeping-IsTuner = record { acknowledges = λ bus bytes. refl; hands_over = λ bus. refl }

abbrev dead_dongle : Usb
dead_dongle = record {
  out_status = λ bus index addr bytes. negsuc 3;
  in_reply = λ bus index addr len. failed 3;
  uninit = λ bus. [];
}

dead_dongle-IsDead : IsDead dead_dongle
dead_dongle-IsDead = record {
  code = λ bus index addr bytes. 3;
  refuses = λ bus index addr bytes. refl;
}

abbrev idle : E4kState
idle = record {
  i2c_addr = 0xc8;
  band = band_vhf2;
  vco = record {
    fosc = 28800000;
    intended_flo = 0;
    flo = 0;
    x = 0;
    z = 0;
    r = 0;
    r_idx = 0;
    threephase = 0;
  };
  rtl_dev = [];
}

closest_arr_idx-IsNearest_example :
    IsNearest rf_filt_center_uhf 500000000 (closest_arr_idx rf_filt_center_uhf 500000000)
closest_arr_idx-IsNearest_example =
    closest_arr_idx-IsNearest rf_filt_center_uhf 500000000 (omega arith) (omega arith) (omega arith)

bw_set-IsBandwidth_example :
    IsBandwidth keeping if_filter_rc 6000000
      (find_if_bw if_filter_rc 6000000)
      idle
      (e4k_if_filter_bw_set keeping if_filter_rc 6000000 idle).1
bw_set-IsBandwidth_example =
    bw_set-IsBandwidth keeping 0xc8 start keeping-IsTuner if_filter_rc 6000000 idle refl
      (λ k. omega arith) (omega arith)

tune_freq-IsTunedTo_example :
    (p : PllParams) × IsTunedTo keeping 0xc8 start keeping-IsTuner 100000000 p idle
      (e4k_tune_freq keeping 100000000 idle)
tune_freq-IsTunedTo_example =
    tune_freq-IsTunedTo keeping 0xc8 start keeping-IsTuner 100000000 idle refl (λ k. omega arith)
      (omega arith) (omega arith) (omega arith) (omega arith)

tune_freq-IsDead_example : (e4k_tune_freq dead_dongle 100000000 idle).0 ≡ pos 0
tune_freq-IsDead_example =
    tune_freq-IsDead dead_dongle 100000000 idle dead_dongle-IsDead (omega arith) (omega arith)
      (omega arith) (omega arith)

pll_params-wraps_example :
    (p : PllParams) × (e4k_compute_pll_params 28800000 5 ≡ some p)
    × (p.flo ≡ 4294967274)
    × (band_for p.flo ≡ band_l)
pll_params-wraps_example = pll_params-wraps 28800000 5 (omega arith) (omega arith) (omega arith)
