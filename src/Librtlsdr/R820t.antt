-- ===== src/Librtlsdr/R820t.antt =====
-- rtl-sdr/src/librtlsdr.c: a device with an R820T or R828D, and what the functions of this tuner keep.
use rtl_tcp_pi.Common.{ℕ, ◌≤◌, ◌<◌, ◌≡◌, refl, arith, Bool, ℤ, pos}
use rtl_tcp_pi.Usb.{Usb}
use rtl_tcp_pi.Driver.{Outcome, ok, err, fault}
use rtl_tcp_pi.Driver.Safe.{Post, Safe, Safe-bind, Safe-pure, Triple-modify}
use rtl_tcp_pi.R82xx.Types.{Priv, R82xx, Config}
use rtl_tcp_pi.R82xx.Tune.{r82xx_init, r82xx_set_freq, r82xx_standby}
use rtl_tcp_pi.R82xx.Gain.{r82xx_set_gain}
use rtl_tcp_pi.R82xx.Sync.{IsWellFormed}
use rtl_tcp_pi.R82xx.Sync.Calls.{set_freq-Safe, set_gain-Safe, standby-Safe}
use rtl_tcp_pi.R82xx.Sync.Api.{IsWellFormed-invariant}
use rtl_tcp_pi.R82xx.Sync.Setup.{init-IsWellFormed}
use rtl_tcp_pi.Librtlsdr.Gains.{Tuner, tuner_r828d}
use rtl_tcp_pi.Librtlsdr.Device.{Device, PpmCorr, code_of}
use rtl_tcp_pi.Librtlsdr.Demod.{rtlsdr_get_tuner_clock}
use rtl_tcp_pi.Librtlsdr.Control.{update_clocks}
use rtl_tcp_pi.Librtlsdr.Sound.{IsClock, IsCorr, IsKept}
use rtl_tcp_pi.Librtlsdr.Tuners.{linked, on_r82xx, r820t_config, r820t_init, r820t}

-- What the library relies on in the floating-point correction of a clock by up to 1 percent.
abbrev pub IsModerate : PpmCorr → Type 0
IsModerate ppm_corr =
    (v : ℕ) (c : ℤ) → IsClock v → IsCorr c → (0 < ppm_corr v c) × (ppm_corr v c < 32767500)

-- A device in use: the tuner's state is well formed, and the clocks are those of a crystal.
pub record IsSound (d : Device) : Type 0 where
  pub formed : IsWellFormed d.r82xx_p
  pub rtl : IsClock d.rtl_xtal
  pub tun : IsClock d.tun_xtal
  pub corrected : IsCorr d.corr

module _ (usb : Usb) where
  pub others-IsSound :
      (d d' : Device)
      → d'.r82xx_p ≡ d.r82xx_p
      → d'.rtl_xtal ≡ d.rtl_xtal
      → d'.tun_xtal ≡ d.tun_xtal
      → d'.corr ≡ d.corr
      → IsSound d
      → IsSound d'
  others-IsSound d d' p r t c h = record {
    formed = rw p h.formed;
    rtl = rw r h.rtl;
    tun = rw t h.tun;
    corrected = rw c h.corrected;
  }

  pub linked-IsWellFormed : (d : Device) → IsSound d → IsWellFormed (linked d)
  linked-IsWellFormed d h = record {
    regs_length = h.formed.regs_length;
    regs_bytes = h.formed.regs_bytes;
    usable = h.formed.usable;
  }

  code-Post :
      {A : Type 0} (d : Device) (r : Outcome A) (p : Priv)
      → IsSound d
      → Post (λ _. IsWellFormed) IsWellFormed r p
      → Post (λ _. IsSound) IsSound (code_of r) (record d { bus = p.rtl_dev; r82xx_p = p })
  unfolding code_of
  code-Post d (ok a) p h w = record {
    formed = w;
    rtl = h.rtl;
    tun = h.tun;
    corrected = h.corrected;
  }
  code-Post d (err n) p h w = record {
    formed = w;
    rtl = h.rtl;
    tun = h.tun;
    corrected = h.corrected;
  }
  code-Post d fault p h w = w

  on_r82xx-Safe :
      {A : Type 0} (m : R82xx A)
      → Safe IsWellFormed IsWellFormed m
      → Safe IsSound IsSound (on_r82xx m)
  unfolding on_r82xx
  on_r82xx-Safe m hm = record {
    at = λ d h.
        let (r, p) = m (linked d) in code-Post d r p h (hm.at (linked d) (linked-IsWellFormed d h));
  }

module _ (usb : Usb) (ppm_corr : PpmCorr) (moderate : IsModerate ppm_corr) where
  pub with_config :
      (d : Device) (cfg : Config)
      → 2 ≤ cfg.max_i2c_msg_len
      → cfg.max_i2c_msg_len ≤ 31
      → cfg.xtal ≡ rtlsdr_get_tuner_clock usb ppm_corr d
      → IsSound d
      → IsWellFormed (record d.r82xx_p { cfg = cfg })
  unfolding rtlsdr_get_tuner_clock
  with_config d cfg lo hi clock h =
      let bounds = moderate d.tun_xtal d.corr h.tun h.corrected in
      record {
        regs_length = h.formed.regs_length;
        regs_bytes = h.formed.regs_bytes;
        usable = record {
          msg_low = lo;
          msg_high = hi;
          xtal_low = omega (arith, clock, bounds.0);
          xtal_high = omega (arith, clock, bounds.1);
        };
      }

  pub config_lem :
      (type : Tuner) (xtal : ℕ)
      → ((r820t_config type xtal).max_i2c_msg_len ≡ 8) × ((r820t_config type xtal).xtal ≡ xtal)
  unfolding r820t_config
  config_lem tuner_r828d xtal = (refl, refl)
  config_lem other xtal = (refl, refl)

  init-IsSound : Safe IsSound IsSound (r820t_init usb ppm_corr)
  unfolding r820t_init
  init-IsSound =
      Safe-bind _ _
        (Triple-modify _ (λ d h.
          let c = config_lem d.tuner_type (rtlsdr_get_tuner_clock usb ppm_corr d) in
          record {
            formed = with_config d _ (omega (arith, c.0)) (omega (arith, c.0)) c.1 h;
            rtl = h.rtl;
            tun = h.tun;
            corrected = h.corrected;
          }))
        (λ _. on_r82xx-Safe usb (r82xx_init usb) (init-IsWellFormed usb))

  -- The functions of the R82XX tuners keep the state of the device sound.
  pub r820t-IsKept : IsKept usb ppm_corr (r820t usb ppm_corr) IsSound IsSound
  unfolding r820t update_clocks
  r820t-IsKept =
      let inv = IsWellFormed-invariant usb in
      record {
        init = init-IsSound;
        exit =
            on_r82xx-Safe usb (r82xx_standby usb) (standby-Safe usb IsWellFormed IsWellFormed inv);
        set_freq = λ freq.
            on_r82xx-Safe usb (r82xx_set_freq usb freq)
              (set_freq-Safe usb IsWellFormed IsWellFormed inv freq);
        set_bw = λ bw. Safe-pure (pos 0);
        set_gain = λ gain.
            on_r82xx-Safe usb (r82xx_set_gain usb Bool.true gain)
              (set_gain-Safe usb IsWellFormed IsWellFormed inv Bool.true gain);
        set_if_gain = λ stage gain. tt;
        set_gain_mode = λ mode.
            on_r82xx-Safe usb (r82xx_set_gain usb mode (pos 0))
              (set_gain-Safe usb IsWellFormed IsWellFormed inv mode (pos 0));
        others = others-IsSound usb;
        stale_others = others-IsSound usb;
        set_corr =
            λ d c hc h. record { formed = h.formed; rtl = h.rtl; tun = h.tun; corrected = hc };
        set_rtl = λ d v hv h. record {
          formed = h.formed;
          rtl = hv;
          tun = h.tun;
          corrected = h.corrected;
        };
        set_tun = λ d v hv h. record {
          formed = h.formed;
          rtl = h.rtl;
          tun = hv;
          corrected = h.corrected;
        };
        rtl_clock = λ d h. h.rtl;
        clocks = Triple-modify _ (λ d h. record {
          formed = with_config d _ h.formed.usable.msg_low h.formed.usable.msg_high refl h;
          rtl = h.rtl;
          tun = h.tun;
          corrected = h.corrected;
        });
      }
