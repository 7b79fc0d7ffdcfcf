-- ===== src/Librtlsdr/Tuners.antt =====
-- rtl-sdr/src/librtlsdr.c: the entries of `tuners` for the tuners whose drivers are modelled.
use rtl_tcp_pi.Common.{ℕ, ltb, true, false, none, some, ℤ, pos, Bool}
use rtl_tcp_pi.Usb.{Bus, Usb}
use rtl_tcp_pi.Driver.{Driver, pure, gets, modify, ◌>>=◌, ◌>>◌}
use rtl_tcp_pi.Librtlsdr.Access.{rtlsdr_set_gpio_bit}
use rtl_tcp_pi.Librtlsdr.Gains.{Tuner, tuner_r828d}
use rtl_tcp_pi.Librtlsdr.Device.{Device, Dev, TunerIface, PpmCorr, code_of, on_bus}
use rtl_tcp_pi.Librtlsdr.Demod.{rtlsdr_get_tuner_clock}
use rtl_tcp_pi.R82xx.Types.{Priv, R82xx, Config, chip_r820t, chip_r828d}
use rtl_tcp_pi.R82xx.Tune.{r82xx_init, r82xx_standby, r82xx_set_freq}
use rtl_tcp_pi.R82xx.Gain.{r82xx_set_gain}
use rtl_tcp_pi.State.{State}
use rtl_tcp_pi.Fc2580.{fc2580_initialize, fc2580_set_rf_freq_hz, fc2580_set_bandwidth_mode}
use rtl_tcp_pi.Fc0013.{fc0013_init, fc0013_set_params, fc0013_set_lna_gain, fc0013_set_gain_mode}
use rtl_tcp_pi.Fc0012.{fc0012_init, fc0012_set_params, fc0012_set_gain}

-- The state that the R82XX driver works on: its own, and the traffic of the dongle.
abbrev pub linked : Device → Priv
linked d = record d.r82xx_p { rtl_dev = d.bus }

-- A call of the R82XX driver on its part of the device.
unfoldable pub on_r82xx : {A : Type 0} → R82xx A → Dev ℤ
on_r82xx m d = let (r, p) = m (linked d) in (code_of r, record d { bus = p.rtl_dev; r82xx_p = p })

-- A call of a driver whose only state is the traffic.
unfoldable pub on_traffic : {A : Type 0} → Driver Bus A → Dev ℤ
on_traffic m d = let (r, bus) = m d.bus in (code_of r, record d { bus = bus })

-- The address and the chip that `r820t_init` chooses.
unfoldable pub r820t_config : Tuner → ℕ → Config
r820t_config tuner_r828d xtal = record {
  i2c_addr = 0x74;
  xtal = xtal;
  rafael_chip = chip_r828d;
  max_i2c_msg_len = 8;
  use_predetect = false;
}
r820t_config other xtal = record {
  i2c_addr = 0x34;
  xtal = xtal;
  rafael_chip = chip_r820t;
  max_i2c_msg_len = 8;
  use_predetect = false;
}

module _ (usb : Usb) (ppm_corr : PpmCorr) where
  unfoldable pub r820t_init : Dev ℤ
  r820t_init = do
    modify (λ d. record d {
      r82xx_p = record d.r82xx_p {
        cfg = r820t_config d.tuner_type (rtlsdr_get_tuner_clock usb ppm_corr d);
      };
    })
    on_r82xx (r82xx_init usb)

  -- Both entries of `tuners` for Rafael Micro tuners.
  unfoldable pub r820t : TunerIface
  r820t = record {
    init = some r820t_init;
    exit = some (on_r82xx (r82xx_standby usb));
    set_freq = some (λ freq. on_r82xx (r82xx_set_freq usb freq));
    set_bw = some (λ bw. pure (pos 0));
    set_gain = some (λ gain. on_r82xx (r82xx_set_gain usb true gain));
    set_if_gain = none;
    set_gain_mode = some (λ manual. on_r82xx (r82xx_set_gain usb manual (pos 0)));
  }

  -- The V-band and U-band filters of the FC0012 hang on GPIO 6.
  unfoldable pub fc0012_set_freq : ℕ → Dev ℤ
  fc0012_set_freq freq = do
    on_bus (rtlsdr_set_gpio_bit usb 6 (ltb 300000000 freq))
    clock ← gets (rtlsdr_get_tuner_clock usb ppm_corr)
    on_traffic (fc0012_set_params usb clock freq 6000000)

  unfoldable pub fc0012 : TunerIface
  fc0012 = record {
    init = some (on_traffic (fc0012_init usb));
    exit = some (pure (pos 0));
    set_freq = some fc0012_set_freq;
    set_bw = some (λ bw. pure (pos 0));
    set_gain = some (λ gain. on_traffic (fc0012_set_gain usb gain));
    set_if_gain = none;
    set_gain_mode = some (λ manual. pure (pos 0));
  }

module _ (usb : Usb) (ppm_corr : PpmCorr) where
  unfoldable pub fc0013_set_freq : ℕ → Dev ℤ
  fc0013_set_freq freq = do
    clock ← gets (rtlsdr_get_tuner_clock usb ppm_corr)
    on_traffic (fc0013_set_params usb clock freq 6000000)

  unfoldable pub fc0013 : TunerIface
  fc0013 = record {
    init = some (on_traffic (fc0013_init usb));
    exit = some (pure (pos 0));
    set_freq = some fc0013_set_freq;
    set_bw = some (λ bw. pure (pos 0));
    set_gain = some (λ gain. on_traffic (fc0013_set_lna_gain usb gain));
    set_if_gain = none;
    set_gain_mode = some (λ manual. on_traffic (fc0013_set_gain_mode usb manual));
  }

-- FUNCTION_SUCCESS or FUNCTION_ERROR.
unfoldable pub function_status : Bool → ℤ
function_status true = pos 0
function_status false = pos 1

module _ (usb : Usb) where
  unfoldable pub fc2580_call : State Bus Bool → Dev ℤ
  fc2580_call m = do done ← on_bus m; pure (function_status done)

  -- The bandwidth is always FC2580_BANDWIDTH_1530000HZ.
  unfoldable pub fc2580 : TunerIface
  fc2580 = record {
    init = some (fc2580_call (fc2580_initialize usb));
    exit = some (pure (pos 0));
    set_freq = some (λ freq. fc2580_call (fc2580_set_rf_freq_hz usb freq));
    set_bw = some (λ bw. fc2580_call (fc2580_set_bandwidth_mode usb 1));
    set_gain = some (λ gain. pure (pos 0));
    set_if_gain = none;
    set_gain_mode = some (λ manual. pure (pos 0));
  }

-- The entry for a device without a known tuner.
unfoldable pub no_tuner : TunerIface
no_tuner = record {
  init = none;
  exit = none;
  set_freq = none;
  set_bw = none;
  set_gain = none;
  set_if_gain = none;
  set_gain_mode = none;
}
