-- ===== src/R82xx/Sync/Calls.antt =====
-- rtl-sdr/src/tuner_r82xx.c: what calls keep, from what their register accesses keep.
use rtl_tcp_pi.Common.{ℕ, ◌+◌, ◌*◌, ◌/◌, ◌^◌, ◌≡◌, refl, arith, List, ◌==◌, ℤ, Bool, eq_of_==}
use rtl_tcp_pi.Usb.{Usb}
use rtl_tcp_pi.Driver.{Driver, modify, gets, fail, finally, ◌>>=◌}
use rtl_tcp_pi.Driver.Safe.{
  Safe, Safe-bind, Safe-pure, Safe-gets, Triple-if, Triple-modify, Triple-fail, Triple-bind,
  Triple-gets, Triple-given, Safe-finally, safe_rules,
}
use rtl_tcp_pi.R82xx.Types.{Priv, Config, TunerType, DeliverySystem}
use rtl_tcp_pi.R82xx.Shadow.{r82xx_write_reg, r82xx_write_reg_mask, r82xx_read}
use rtl_tcp_pi.R82xx.Mux.{r82xx_set_mux}
use rtl_tcp_pi.R82xx.Pll.{result, sdm_loop, wait_lock, write_sdm, program_pll, r82xx_set_pll, u32}
use rtl_tcp_pi.R82xx.Pll.Fraction.{sdm_loop-IsClose}
use rtl_tcp_pi.R82xx.Sysfreq.{SysfreqValues, set_lna, r82xx_sysfreq_sel}
use rtl_tcp_pi.R82xx.Standard.{
  read_calibration, calibration_round, calibrate, write_standard, StandardValues,
}
use rtl_tcp_pi.R82xx.Gain.{set_manual_gain, r82xx_set_gain}
use rtl_tcp_pi.R82xx.Tune.{select_input, r82xx_set_freq, write_standby, r82xx_standby}
use rtl_tcp_pi.R82xx.Sync.{IsUsable}

-- The register accesses keep `P`, or leave `E` after an error; the other fields do not matter.
pub record IsInvariant (usb : Usb) (P E : Priv → Type 0) : Type 0 where
  pub write_reg : (reg v : ℕ) → Safe P E (r82xx_write_reg usb reg v)
  pub write_reg_mask : (reg v m : ℕ) → Safe P E (r82xx_write_reg_mask usb reg v m)
  pub read : (reg len : ℕ) (val : List ℕ) → Safe P E (r82xx_read usb reg len val)
  pub usable : (s : Priv) → P s → IsUsable s.cfg
  pub weaken : (s : Priv) → P s → E s
  pub others :
      (s s' : Priv) → s'.cfg ≡ s.cfg → s'.regs ≡ s.regs → s'.rtl_dev ≡ s.rtl_dev → P s → P s'
  pub others_err :
      (s s' : Priv) → s'.cfg ≡ s.cfg → s'.regs ≡ s.regs → s'.rtl_dev ≡ s.rtl_dev → E s → E s'

module _ (usb : Usb) (P E : Priv → Type 0) (inv : IsInvariant usb P E) where
  open inv use {write_reg, write_reg_mask, read, usable, weaken, others, others_err}

  Safe-fail : {A : Type 0} (n : ℕ) → Safe P E (fail {A = A} n)
  Safe-fail n = Triple-fail n weaken

  pub Safe-modify :
      (f : Priv → Priv)
      → ((s : Priv) → ((f s).cfg ≡ s.cfg) × ((f s).regs ≡ s.regs) × ((f s).rtl_dev ≡ s.rtl_dev))
      → Safe P E (modify f)
  Safe-modify f same = Triple-modify f (λ s h. let (c, r, d) = same s in others s (f s) c r d h)

  pub set_mux-Safe : (freq : ℕ) → Safe P E (r82xx_set_mux usb freq)
  unfolding r82xx_set_mux
  set_mux-Safe freq = search (safe_rules, write_reg, write_reg_mask) depth 20

  wait_lock-Safe : (array : List ℕ) → Safe P E (wait_lock usb array)
  unfolding wait_lock
  wait_lock-Safe array = search (safe_rules, read, write_reg_mask) depth 20

  -- The rest of a call that has read the configuration.
  with_cfg :
      {A : Type 0} (f : Config → Driver Priv A)
      → ((cfg : Config) → IsUsable cfg → Safe P E (f cfg))
      → Safe P E (gets (λ s. s.cfg) >>= f)
  with_cfg f h =
      Triple-bind (λ cfg s. P s × IsUsable cfg) (gets (λ s. s.cfg)) f
        (Triple-gets (λ s. s.cfg) (λ s p. (p, usable s p))) (λ cfg. Triple-given (f cfg) (h cfg))

  write_sdm-Safe : (sdm rest : ℕ) → Safe P E (write_sdm usb (result sdm rest))
  unfolding write_sdm
  write_sdm-Safe sdm rest = search (safe_rules, write_reg) depth 20

  -- The loop ends on every crystal that the driver may have.
  sdm-Safe :
      (cfg : Config) (fra : ℕ)
      → IsUsable cfg
      → Safe P E (write_sdm usb (sdm_loop 17 (u32 (cfg.xtal + 500) / 1000) 2 0 fra))
  sdm-Safe cfg fra u =
      let c =
        sdm_loop-IsClose (u32 (cfg.xtal + 500) / 1000) (omega (arith, u.xtal_high)) 17 14 1 (2 ^ 14)
          fra 0 fra (omega arith) refl refl (omega arith) (omega arith) in
      rw (c.returns) (write_sdm-Safe c.sdm' c.rest)

  program_pll-Safe :
      (array : List ℕ) (nint vco_freq : ℕ) → Safe P E (program_pll usb array nint vco_freq)
  unfolding program_pll
  program_pll-Safe array nint vco_freq = with_cfg _ λ cfg u. Safe-bind _ _ (write_reg _ _) λ _.
      Safe-bind _ _ (write_reg_mask _ _ _) λ _. Safe-bind _ _ (sdm-Safe cfg _ u) λ _.
        Safe-bind _ _ (wait_lock-Safe array) λ locked.
          Safe-bind _ _ (Safe-modify _ (λ s. (refl, refl, refl)))
            λ _. Triple-if locked _ _ (λ _. write_reg_mask _ _ _) (λ _. Safe-pure tt)

  pub set_pll-Safe : (freq : ℕ) → Safe P E (r82xx_set_pll usb freq)
  unfolding r82xx_set_pll
  set_pll-Safe freq = with_cfg _ λ cfg u. Safe-bind _ _ (write_reg_mask _ _ _) λ _.
      Safe-bind _ _ (write_reg_mask _ _ _) λ _. Safe-bind _ _ (write_reg_mask _ _ _) λ _.
        Safe-bind _ _ (Safe-gets _) λ stale. Safe-bind _ _ (read _ _ _) λ status.
          Safe-bind _ _ (write_reg_mask _ _ _) λ _.
            Triple-if (u32 (2 * cfg.xtal) == 0) _ _
              (λ zero_ref.
                absurd (
                  omega (arith, u.xtal_low, u.xtal_high, eq_of_== (u32 (2 * cfg.xtal)) 0 zero_ref)))
              (λ _. search (Triple-if, Safe-fail, program_pll-Safe))

  set_lna-Safe : (type : TunerType) (v : SysfreqValues) → Safe P E (set_lna usb type v)
  unfolding set_lna
  set_lna-Safe type v = search (safe_rules, write_reg_mask) depth 20

  pub sysfreq_sel-Safe :
      (freq : ℕ) (type : TunerType) (delsys : DeliverySystem)
      → Safe P E (r82xx_sysfreq_sel usb freq type delsys)
  unfolding r82xx_sysfreq_sel
  sysfreq_sel-Safe freq type delsys =
      search (safe_rules, write_reg, write_reg_mask, set_lna-Safe, Safe-modify) depth 40

  pub Safe-then :
      {A : Type 0} (f : Priv → Priv) (m : Driver Priv A)
      → ((s : Priv) → ((f s).cfg ≡ s.cfg) × ((f s).regs ≡ s.regs) × ((f s).rtl_dev ≡ s.rtl_dev))
      → Safe P E m
      → Safe P E (finally f m)
  Safe-then f m same h =
      Safe-finally f m (λ s p. let (c, r, d) = same s in others s (f s) c r d p)
        (λ s e. let (c, r, d) = same s in others_err s (f s) c r d e) h

  read_calibration-Safe : Safe P E (read_calibration usb)
  unfolding read_calibration
  read_calibration-Safe = search (safe_rules, read, write_reg_mask, Safe-modify) depth 40

  calibration_round-Safe : (v : StandardValues) → Safe P E (calibration_round usb v)
  unfolding calibration_round
  calibration_round-Safe v =
      search (safe_rules, write_reg_mask, set_pll-Safe, read_calibration-Safe) depth 40

  pub calibrate-Safe : (v : StandardValues) → Safe P E (calibrate usb v)
  unfolding calibrate
  calibrate-Safe v = search (safe_rules, calibration_round-Safe) depth 40

  pub write_standard-Safe : (v : StandardValues) → Safe P E (write_standard usb v)
  unfolding write_standard
  write_standard-Safe v = search (safe_rules, write_reg_mask, Safe-modify) depth 40

  set_manual_gain-Safe : (gain : ℤ) → Safe P E (set_manual_gain usb gain)
  unfolding set_manual_gain
  set_manual_gain-Safe gain = search (safe_rules, read, write_reg_mask) depth 40

  pub set_gain-Safe : (manual : Bool) (gain : ℤ) → Safe P E (r82xx_set_gain usb manual gain)
  unfolding r82xx_set_gain
  set_gain-Safe manual gain = search (safe_rules, write_reg_mask, set_manual_gain-Safe) depth 40

  select_input-Safe : (freq : ℕ) → Safe P E (select_input usb freq)
  unfolding select_input
  select_input-Safe freq = search (safe_rules, write_reg_mask, Safe-modify) depth 40

  pub set_freq-Safe : (freq : ℕ) → Safe P E (r82xx_set_freq usb freq)
  unfolding r82xx_set_freq
  set_freq-Safe freq = search (safe_rules, set_mux-Safe, set_pll-Safe, select_input-Safe) depth 40

  write_standby-Safe : Safe P E (write_standby usb)
  unfolding write_standby
  write_standby-Safe = search (safe_rules, write_reg) depth 40

  pub standby-Safe : Safe P E (r82xx_standby usb)
  unfolding r82xx_standby
  standby-Safe = search (safe_rules, write_reg, write_standby-Safe, Safe-then) depth 40
