-- ===== src/Librtlsdr/Sound.antt =====
-- rtl-sdr/src/librtlsdr.c: what every function that controls a device keeps, from what its tuner keeps.
use rtl_tcp_pi.Common.{
  eq_ℤ, negsuc, ltb, ◌||◌, not, ◌&&◌, true, ℕ, ◌+◌, ◌≤◌, ◌<◌, ◌≡◌, refl, ◌==◌, arith, Bool,
  if◌then◌else◌, Bool-cases, inl, inr, ◌⊎◌, Option, none, some, ℤ, pos, pos_part, neg_part,
}
use mathlib.Core.Option
use rtl_tcp_pi.State.{State}
use rtl_tcp_pi.Usb.{Bus, Usb}
use rtl_tcp_pi.Driver.{pure, gets, modify, call, ◌>>=◌}
use rtl_tcp_pi.Driver.Safe.{
  Safe, Safe-bind, Safe-pure, Safe-gets, Triple-if, Triple-modify, safe_rules, Triple, Triple-bind,
}
use rtl_tcp_pi.Librtlsdr.Device.{Device, Dev, TunerIface, PpmCorr, on_bus, demod_write, repeated}
use rtl_tcp_pi.Librtlsdr.Demod.{rtlsdr_set_if_freq, rtlsdr_set_sample_freq_correction}
use rtl_tcp_pi.Librtlsdr.Control.{
  tune, rtlsdr_set_center_freq, update_clocks, retune, apply_correction, rtlsdr_set_freq_correction,
  rtlsdr_set_tuner_gain, rtlsdr_set_tuner_if_gain, rtlsdr_set_tuner_gain_mode, call_set_bw,
  rtlsdr_set_offset_tuning, write_ratio, rtlsdr_set_sample_rate, change_rtl_xtal, change_tun_xtal,
  update_tuner, rtlsdr_set_xtal_freq, rtlsdr_set_testmode, rtlsdr_set_agc_mode, enable_direct,
  if_mode, zero_if_mode, disable_direct, rtlsdr_set_direct_sampling,
}

-- The frequencies of a crystal, in Hz, and the corrections, in ppm, that the library is used with.
abbrev pub IsClock : ℕ → Type 0
IsClock v = (1000 ≤ v) × (v < 32000000)

abbrev pub IsCorr : ℤ → Type 0
IsCorr c = pos_part c + neg_part c ≤ 10000

-- An argument that is 0, or a clock.
abbrev pub IsClockArg : ℕ → Type 0
IsClockArg v = (v ≡ 0) ⊎ IsClock v

abbrev pub KeptBy : (Device → Type 0) → Option (Dev ℤ) → Type 0
KeptBy P none = Unit
KeptBy P (some m) = Safe P P m

-- A property `P` of devices that the tuner's functions keep and that depends on the clocks only, and
-- what is left of it, `R`, when a clock has changed that the driver is not told yet.
pub record IsKept (usb : Usb) (ppm_corr : PpmCorr) (tuner : TunerIface) (P R : Device → Type 0)
    : Type 0 where
  pub init : KeptBy P tuner.init
  pub exit : KeptBy P tuner.exit
  pub set_freq : (freq : ℕ) → KeptBy P (Option.map (λ f. f freq) tuner.set_freq)
  pub set_bw : (bw : ℕ) → KeptBy P (Option.map (λ f. f bw) tuner.set_bw)
  pub set_gain : (gain : ℤ) → KeptBy P (Option.map (λ f. f gain) tuner.set_gain)
  pub set_if_gain : (stage gain : ℤ) → KeptBy P (Option.map (λ f. f stage gain) tuner.set_if_gain)
  pub set_gain_mode : (mode : Bool) → KeptBy P (Option.map (λ f. f mode) tuner.set_gain_mode)
  pub others :
      (d d' : Device)
      → d'.r82xx_p ≡ d.r82xx_p
      → d'.rtl_xtal ≡ d.rtl_xtal
      → d'.tun_xtal ≡ d.tun_xtal
      → d'.corr ≡ d.corr
      → P d
      → P d'
  pub stale_others :
      (d d' : Device)
      → d'.r82xx_p ≡ d.r82xx_p
      → d'.rtl_xtal ≡ d.rtl_xtal
      → d'.tun_xtal ≡ d.tun_xtal
      → d'.corr ≡ d.corr
      → R d
      → R d'
  pub set_corr : (d : Device) (c : ℤ) → IsCorr c → P d → R (record d { corr = c })
  pub set_rtl : (d : Device) (v : ℕ) → IsClock v → P d → P (record d { rtl_xtal = v })
  pub set_tun : (d : Device) (v : ℕ) → IsClock v → P d → R (record d { tun_xtal = v })
  pub rtl_clock : (d : Device) → P d → IsClock d.rtl_xtal
  pub clocks : Triple R P (update_clocks usb ppm_corr tuner) (λ _. P)

module _ (usb : Usb) (ppm_corr : PpmCorr) (tuner : TunerIface) (P R : Device → Type 0)
    (kept : IsKept usb ppm_corr tuner P R) where
  open kept use {others, stale_others}

  on_bus-Safe : {A : Type 0} (m : State Bus A) → Safe P P (on_bus m)
  unfolding call
  on_bus-Safe m = record {
    at = λ d h. others d (record d { bus = (m d.bus).1 }) refl refl refl refl h;
  }

  demod_write-Safe : (page addr val len : ℕ) → Safe P P (demod_write usb page addr val len)
  unfolding demod_write
  demod_write-Safe page addr val len = on_bus-Safe _

  repeated-Safe : (m : Option (Dev ℤ)) (r : ℤ) → KeptBy P m → Safe P P (repeated usb m r)
  unfolding repeated
  repeated-Safe none r h = Safe-pure r
  repeated-Safe (some m) r h =
      Safe-bind _ _ (on_bus-Safe _)
        λ _. Safe-bind _ _ h λ r'. Safe-bind _ _ (on_bus-Safe _) λ _. Safe-pure r'

  if_freq-Safe : (freq : ℕ) → Safe P P (rtlsdr_set_if_freq usb ppm_corr freq)
  unfolding rtlsdr_set_if_freq
  if_freq-Safe freq = search (safe_rules, demod_write-Safe) depth 20

  correction-Safe : (ppm : ℤ) → Safe P P (rtlsdr_set_sample_freq_correction usb ppm_corr ppm)
  unfolding rtlsdr_set_sample_freq_correction
  correction-Safe ppm = search (safe_rules, demod_write-Safe) depth 20

  set_freq-Safe :
      (freq : ℕ) (r : ℤ) → Safe P P (repeated usb (Option.map (λ f. f freq) tuner.set_freq) r)
  set_freq-Safe freq r = repeated-Safe _ r (kept.set_freq freq)

  tune-Safe : (freq : ℕ) → Safe P P (tune usb ppm_corr tuner freq)
  unfolding tune
  tune-Safe freq = search (safe_rules, set_freq-Safe, if_freq-Safe) depth 20

  pub center_freq-Safe : (freq : ℕ) → Safe P P (rtlsdr_set_center_freq usb ppm_corr tuner freq)
  unfolding rtlsdr_set_center_freq
  center_freq-Safe freq = Safe-bind _ _ (tune-Safe freq) λ r.
      Safe-bind _ _ (Triple-modify _ (λ d h. others d _ refl refl refl refl h)) λ _. Safe-pure r

  retune-Safe : (r : ℤ) → Safe P P (retune usb ppm_corr tuner r)
  unfolding retune
  retune-Safe r = search (safe_rules, center_freq-Safe) depth 20

  stale_write-Safe : (page addr val len : ℕ) → Safe R P (demod_write usb page addr val len)
  unfolding demod_write call
  stale_write-Safe page addr val len = record {
    at = λ d h. stale_others d (record d { bus = _ }) refl refl refl refl h;
  }

  stale_correction-Safe : (ppm : ℤ) → Safe R P (rtlsdr_set_sample_freq_correction usb ppm_corr ppm)
  unfolding rtlsdr_set_sample_freq_correction
  stale_correction-Safe ppm = search (safe_rules, stale_write-Safe) depth 20

  corrected-Safe : (ppm : ℤ) → Triple R P (apply_correction usb ppm_corr tuner ppm) (λ _. P)
  unfolding apply_correction
  corrected-Safe ppm =
      Triple-bind (λ _. R) _ _ (Safe-bind _ _ (stale_correction-Safe ppm) (λ r. Safe-pure _))
        λ r. Triple-bind (λ _. P) _ _ kept.clocks λ _. retune-Safe r

  pub freq_correction-Safe :
      (ppm : ℤ) → IsCorr ppm → Safe P P (rtlsdr_set_freq_correction usb ppm_corr tuner ppm)
  unfolding rtlsdr_set_freq_correction
  freq_correction-Safe ppm h = Safe-bind _ _ (Safe-gets _) λ corr.
      Triple-if (eq_ℤ corr ppm) (pure (negsuc 1)) _ (λ _. Safe-pure (negsuc 1))
        λ _.
          Triple-bind (λ _. R) _ _ (Triple-modify _ (λ d. kept.set_corr d ppm h))
            λ _. corrected-Safe ppm

  pub tuner_gain-Safe : (gain : ℤ) → Safe P P (rtlsdr_set_tuner_gain usb ppm_corr tuner gain)
  unfolding rtlsdr_set_tuner_gain
  tuner_gain-Safe gain = Safe-bind _ _ (repeated-Safe _ _ (kept.set_gain gain)) λ r.
      Safe-bind _ _ (Triple-modify _ (λ d h. others d _ refl refl refl refl h)) λ _. Safe-pure r

  pub tuner_if_gain-Safe :
      (stage gain : ℤ) → Safe P P (rtlsdr_set_tuner_if_gain usb ppm_corr tuner stage gain)
  unfolding rtlsdr_set_tuner_if_gain
  tuner_if_gain-Safe stage gain = repeated-Safe _ _ (kept.set_if_gain stage gain)

  pub tuner_gain_mode-Safe :
      (mode : Bool) → Safe P P (rtlsdr_set_tuner_gain_mode usb ppm_corr tuner mode)
  unfolding rtlsdr_set_tuner_gain_mode
  tuner_gain_mode-Safe mode = repeated-Safe _ _ (kept.set_gain_mode mode)

  call_set_bw-Safe : (bw : ℕ) → Safe P P (call_set_bw usb ppm_corr tuner bw)
  unfolding call_set_bw
  call_set_bw-Safe bw = repeated-Safe _ _ (kept.set_bw bw)

  set_offs-Safe : (v : ℕ) → Safe P P (modify (λ d. record d { offs_freq = v }))
  set_offs-Safe v = Triple-modify _ (λ d h. others d _ refl refl refl refl h)

  set_rate-Safe : (v : ℕ) → Safe P P (modify (λ d. record d { rate = v }))
  set_rate-Safe v = Triple-modify _ (λ d h. others d _ refl refl refl refl h)

  set_direct-Safe : (v : ℕ) → Safe P P (modify (λ d. record d { direct_sampling = v }))
  set_direct-Safe v = Triple-modify _ (λ d h. others d _ refl refl refl refl h)

  pub offset_tuning-Safe : (on : Bool) → Safe P P (rtlsdr_set_offset_tuning usb ppm_corr tuner on)
  unfolding rtlsdr_set_offset_tuning
  offset_tuning-Safe on =
      search (safe_rules, set_offs-Safe, if_freq-Safe, call_set_bw-Safe, center_freq-Safe) depth 30

  write_ratio-Safe : (ratio : ℕ) → Safe P P (write_ratio usb ppm_corr tuner ratio)
  unfolding write_ratio
  write_ratio-Safe ratio = search (safe_rules, demod_write-Safe, correction-Safe) depth 30

  pub sample_rate-Safe :
      (samp_rate : ℕ) → Safe P P (rtlsdr_set_sample_rate usb ppm_corr tuner samp_rate)
  unfolding rtlsdr_set_sample_rate
  sample_rate-Safe samp_rate =
      search (safe_rules, call_set_bw-Safe, set_rate-Safe, write_ratio-Safe, offset_tuning-Safe)
        depth 30

  pub testmode-Safe : (on : Bool) → Safe P P (rtlsdr_set_testmode usb ppm_corr tuner on)
  unfolding rtlsdr_set_testmode
  testmode-Safe on = demod_write-Safe _ _ _ _

  pub agc_mode-Safe : (on : Bool) → Safe P P (rtlsdr_set_agc_mode usb ppm_corr tuner on)
  unfolding rtlsdr_set_agc_mode
  agc_mode-Safe on = demod_write-Safe _ _ _ _

  exit-Safe : (r : ℤ) → Safe P P (repeated usb tuner.exit r)
  exit-Safe r = repeated-Safe _ r kept.exit

  init-Safe : (r : ℤ) → Safe P P (repeated usb tuner.init r)
  init-Safe r = repeated-Safe _ r kept.init

  enable_direct-Safe : (on : ℕ) → Safe P P (enable_direct usb ppm_corr tuner on)
  unfolding enable_direct
  enable_direct-Safe on = search (safe_rules, exit-Safe, demod_write-Safe, set_direct-Safe) depth 40

  if_mode-Safe : (r : ℤ) → Safe P P (if_mode usb ppm_corr tuner r)
  unfolding if_mode
  if_mode-Safe r = search (safe_rules, if_freq-Safe, demod_write-Safe) depth 30

  zero_if_mode-Safe : (r : ℤ) → Safe P P (zero_if_mode usb ppm_corr tuner r)
  unfolding zero_if_mode
  zero_if_mode-Safe r = search (safe_rules, if_freq-Safe, demod_write-Safe) depth 30

  disable_direct-Safe : Safe P P (disable_direct usb ppm_corr tuner)
  unfolding disable_direct
  disable_direct-Safe =
      search
        (safe_rules, init-Safe, if_mode-Safe, zero_if_mode-Safe, demod_write-Safe, set_direct-Safe)
        depth 40

  pub direct_sampling-Safe : (on : ℕ) → Safe P P (rtlsdr_set_direct_sampling usb ppm_corr tuner on)
  unfolding rtlsdr_set_direct_sampling
  direct_sampling-Safe on =
      search (safe_rules, disable_direct-Safe, enable_direct-Safe, center_freq-Safe) depth 30

  set_rtl-Safe : (v : ℕ) → IsClock v → Safe P P (modify (λ d. record d { rtl_xtal = v }))
  set_rtl-Safe v h = Triple-modify _ (λ d. kept.set_rtl d v h)

  set_tun-Safe :
      (v : ℕ)
      → IsClockArg v
      → Triple P P (modify (λ d. record d { tun_xtal = if v == 0 then d.rtl_xtal else v })) (λ _. R)
  set_tun-Safe v h = Triple-modify _ (λ d p. elim (Bool-cases (v == 0)) [
    | inl e ↦ rw e (kept.set_tun d d.rtl_xtal (kept.rtl_clock d p) p)
    | inr e ↦ rw e (kept.set_tun d v (ground arith) p)
  ])

  change_rtl-Safe : (v : ℕ) → IsClockArg v → Safe P P (change_rtl_xtal usb ppm_corr tuner v)
  unfolding change_rtl_xtal
  change_rtl-Safe v h = Safe-bind _ _ (Safe-gets _) λ rtl_xtal.
      Triple-if (not (v == 0) && not (rtl_xtal == v)) _ (pure (pos 0)) (changes rtl_xtal)
        (λ _. Safe-pure (pos 0))
    where
      rerate : Safe P P (
          gets (λ d. d.rate) >>= λ rate.
          if rate == 0 then pure (pos 0) else rtlsdr_set_sample_rate usb ppm_corr tuner rate)
      rerate = search (safe_rules, sample_rate-Safe) depth 20

      changes :
          (rtl_xtal : ℕ)
          → (not (v == 0) && not (rtl_xtal == v)) ≡ true
          → Safe P P (
              modify (λ d. record d { rtl_xtal = v }) >>= λ _.
              (gets (λ d. d.rate) >>= λ rate.
              if rate == 0 then pure (pos 0) else rtlsdr_set_sample_rate usb ppm_corr tuner rate))
      changes rtl_xtal e = Safe-bind _ _ (set_rtl-Safe v (ground arith)) λ _. rerate

  update_tuner-Safe : (r : ℤ) → Triple R P (update_tuner usb ppm_corr tuner r) (λ _. P)
  unfolding update_tuner
  update_tuner-Safe r =
      Triple-bind (λ _. P) _ _ kept.clocks
        λ _.
          Safe-bind _ _ (Safe-gets _)
            λ freq. Triple-if (freq == 0) (pure r) _ (λ _. Safe-pure r) (λ _. center_freq-Safe freq)

  change_tun-Safe :
      (v : ℕ) (r : ℤ) → IsClockArg v → Safe P P (change_tun_xtal usb ppm_corr tuner v r)
  unfolding change_tun_xtal
  change_tun-Safe v r h = Safe-bind _ _ (Safe-gets _) λ tun_xtal.
      Triple-if (tun_xtal == v) (pure r) _ (λ _. Safe-pure r)
        λ _. Triple-bind (λ _. R) _ _ (set_tun-Safe v h) λ _. update_tuner-Safe r

  pub xtal_freq-Safe :
      (rtl_freq tuner_freq : ℕ)
      → IsClockArg tuner_freq
      → Safe P P (rtlsdr_set_xtal_freq usb ppm_corr tuner rtl_freq tuner_freq)
  unfolding rtlsdr_set_xtal_freq
  xtal_freq-Safe rtl_freq tuner_freq h =
      Triple-if (not (rtl_freq == 0) && (ltb rtl_freq 28799000 || ltb 28801000 rtl_freq))
        (pure (negsuc 1)) _ (λ _. Safe-pure (negsuc 1))
        λ e.
          Safe-bind _ _ (change_rtl-Safe rtl_freq (ground arith))
            λ r. change_tun-Safe tuner_freq r h
