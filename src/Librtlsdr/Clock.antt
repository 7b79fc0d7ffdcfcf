-- ===== src/Librtlsdr/Clock.antt =====
-- rtl-sdr/src/librtlsdr.c: the clock that the driver of the R82XX tuners computes with.
use rtl_tcp_pi.Common.{◌≡◌, refl, arith, Bool, pos}
use rtl_tcp_pi.Usb.{Usb}
use rtl_tcp_pi.Driver.{Outcome, ok, err, fault}
use rtl_tcp_pi.Driver.Safe.{Post, any-Post, Safe, Safe-bind, Safe-pure, Triple-modify}
use rtl_tcp_pi.R82xx.Types.{Priv, R82xx, Config}
use rtl_tcp_pi.R82xx.Tune.{r82xx_init, r82xx_set_freq, r82xx_standby}
use rtl_tcp_pi.R82xx.Gain.{r82xx_set_gain}
use rtl_tcp_pi.R82xx.Sync.Calls.{set_freq-Safe, set_gain-Safe, standby-Safe}
use rtl_tcp_pi.R82xx.Sync.Clock.{IsConfigured, IsConfigured-invariant, init-IsConfigured}
use rtl_tcp_pi.Librtlsdr.Device.{Device, PpmCorr, code_of}
use rtl_tcp_pi.Librtlsdr.Demod.{rtlsdr_get_tuner_clock}
use rtl_tcp_pi.Librtlsdr.Control.{update_clocks}
use rtl_tcp_pi.Librtlsdr.Sound.{IsKept}
use rtl_tcp_pi.Librtlsdr.Tuners.{linked, on_r82xx, r820t_init, r820t}
use rtl_tcp_pi.Librtlsdr.R820t.{
  IsModerate, IsSound, others-IsSound, linked-IsWellFormed, with_config, config_lem, r820t-IsKept,
}
use rtl_tcp_pi.Librtlsdr.Api.{perform-Safe, Use, begin, then_request}

-- A sound device whose tuner driver has the corrected clock of the tuner.
pub record IsTimed (usb : Usb) (ppm_corr : PpmCorr) (d : Device) : Type 0 where
  pub sound : IsSound d
  pub timed : d.r82xx_p.cfg.xtal ≡ rtlsdr_get_tuner_clock usb ppm_corr d

module _ (usb : Usb) (ppm_corr : PpmCorr) where
  abbrev Timed : Device → Type 0
  Timed = IsTimed usb ppm_corr

  others-IsTimed :
      (d d' : Device)
      → d'.r82xx_p ≡ d.r82xx_p
      → d'.rtl_xtal ≡ d.rtl_xtal
      → d'.tun_xtal ≡ d.tun_xtal
      → d'.corr ≡ d.corr
      → Timed d
      → Timed d'
  unfolding rtlsdr_get_tuner_clock
  others-IsTimed d d' p r t c h = record {
    sound = others-IsSound usb d d' p r t c h.sound;
    timed = rw (p, t, c) h.timed;
  }

  after :
      (d : Device) (p : Priv)
      → Timed d
      → IsConfigured d.r82xx_p.cfg p
      → Timed (record d { bus = p.rtl_dev; r82xx_p = p })
  unfolding rtlsdr_get_tuner_clock
  after d p h w = record {
    sound = record {
      formed = w.formed;
      rtl = h.sound.rtl;
      tun = h.sound.tun;
      corrected = h.sound.corrected;
    };
    timed = rw w.configured h.timed;
  }

  code-IsTimed :
      {A : Type 0} (d : Device) (r : Outcome A) (p : Priv)
      → Timed d
      → Post (λ _. IsConfigured d.r82xx_p.cfg) (IsConfigured d.r82xx_p.cfg) r p
      → Post (λ _. Timed) Timed (code_of r) (record d { bus = p.rtl_dev; r82xx_p = p })
  unfolding code_of
  code-IsTimed d (ok a) p h w = after d p h w
  code-IsTimed d (err n) p h w = after d p h w
  code-IsTimed d fault p h w = w

  on_r82xx-IsTimed :
      {A : Type 0} (m : R82xx A)
      → ((cfg : Config) → Safe (IsConfigured cfg) (IsConfigured cfg) m)
      → Safe Timed Timed (on_r82xx m)
  unfolding on_r82xx
  on_r82xx-IsTimed m hm = record {
    at = λ d h.
        let (r, p) = m (linked d) in
        code-IsTimed d r p h (
          (hm d.r82xx_p.cfg).at (linked d)
            (record { formed = linked-IsWellFormed usb d h.sound; configured = refl }));
  }

module _ (usb : Usb) (ppm_corr : PpmCorr) (moderate : IsModerate ppm_corr) where
  init-IsTimed : Safe (IsTimed usb ppm_corr) (IsTimed usb ppm_corr) (r820t_init usb ppm_corr)
  unfolding r820t_init rtlsdr_get_tuner_clock
  init-IsTimed =
      Safe-bind _ _
        (Triple-modify _ (λ d h.
          let c =
            config_lem usb ppm_corr moderate d.tuner_type (rtlsdr_get_tuner_clock usb ppm_corr d) in
          record {
            sound = record {
              formed =
                  with_config usb ppm_corr moderate d _ (omega (arith, c.0)) (omega (arith, c.0))
                    c.1 h.sound;
              rtl = h.sound.rtl;
              tun = h.sound.tun;
              corrected = h.sound.corrected;
            };
            timed = c.1;
          }))
        (λ _. on_r82xx-IsTimed usb ppm_corr (r82xx_init usb) (init-IsConfigured usb))

  -- The functions of the R82XX tuners keep the clock; a new crystal or correction leaves the device sound
  -- until the clocks are updated.
  r820t-IsTimed : IsKept usb ppm_corr (r820t usb ppm_corr) (IsTimed usb ppm_corr) IsSound
  unfolding r820t update_clocks rtlsdr_get_tuner_clock
  r820t-IsTimed =
      let base = r820t-IsKept usb ppm_corr moderate in
      let inv = IsConfigured-invariant usb in
      let call = on_r82xx-IsTimed usb ppm_corr in
      record {
        init = init-IsTimed;
        exit = call (r82xx_standby usb) (λ cfg. standby-Safe usb _ _ (inv cfg));
        set_freq =
            λ freq. call (r82xx_set_freq usb freq) (λ cfg. set_freq-Safe usb _ _ (inv cfg) freq);
        set_bw = λ bw. Safe-pure (pos 0);
        set_gain = λ gain.
            call (r82xx_set_gain usb Bool.true gain)
              (λ cfg. set_gain-Safe usb _ _ (inv cfg) Bool.true gain);
        set_if_gain = λ stage gain. tt;
        set_gain_mode = λ mode.
            call (r82xx_set_gain usb mode (pos 0))
              (λ cfg. set_gain-Safe usb _ _ (inv cfg) mode (pos 0));
        others = others-IsTimed usb ppm_corr;
        stale_others = others-IsSound usb;
        set_corr = λ d c hc h. base.set_corr d c hc h.sound;
        set_rtl = λ d v hv h. record { sound = base.set_rtl d v hv h.sound; timed = h.timed };
        set_tun = λ d v hv h. base.set_tun d v hv h.sound;
        rtl_clock = λ d h. h.sound.rtl;
        clocks = Triple-modify _ (λ d h. record {
          sound = record {
            formed =
                with_config usb ppm_corr moderate d _ h.formed.usable.msg_low
                  h.formed.usable.msg_high refl h;
            rtl = h.rtl;
            tun = h.tun;
            corrected = h.corrected;
          };
          timed = refl;
        });
      }

-- On a sound device with an R820T or R828D tuner whose driver has the corrected clock of the tuner,
-- after any sequence of requests, failed ones too, whose corrections are of at most 10000 ppm and
-- whose clocks for the tuner are 0 or from 1 kHz to below 32 MHz, the device is sound and its driver
-- has the clock that rtlsdr_get_tuner_clock gives for the crystal and the correction of then, if the correction of a
-- clock by so much gives a clock above 0 and below 32.7675 MHz.
pub Use-IsTimed :
    (usb : Usb) (ppm_corr : PpmCorr) {d e : Device}
    → IsModerate ppm_corr
    → IsTimed usb ppm_corr d
    → Use usb ppm_corr (r820t usb ppm_corr) d e
    → IsTimed usb ppm_corr e
Use-IsTimed usb ppm_corr moderate h begin = h
Use-IsTimed usb ppm_corr moderate h (then_request {e = e} request earlier) =
    (any-Post (IsTimed usb ppm_corr) _ _ (
      (perform-Safe usb ppm_corr (r820t usb ppm_corr) (IsTimed usb ppm_corr) IsSound
          (r820t-IsTimed usb ppm_corr moderate) request).at
        e (Use-IsTimed usb ppm_corr moderate h earlier))).0
