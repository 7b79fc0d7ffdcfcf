-- ===== src/R82xx/Sync/Clock.antt =====
-- rtl-sdr/src/tuner_r82xx.c: the configuration of the driver, which its calls read only.
use rtl_tcp_pi.Common.{
  true, ℕ, zero, suc, ◌≡◌, refl, ◌∙◌, arith, Bool, List, ℤ, pos, negsuc, if◌then◌else◌,
}
use rtl_tcp_pi.Usb.{Bus, Usb, Reply, received, failed}
use rtl_tcp_pi.Driver.{
  Outcome, ok, err, fault, continue, pure, fail, hang, gets, modify, call, ◌>>=◌,
}
use rtl_tcp_pi.Driver.Safe.{Post, Post-map, Safe, Safe-bind, Safe-ignore, Triple-modify}
use rtl_tcp_pi.R82xx.Types.{Priv, Config, R82xx}
use rtl_tcp_pi.R82xx.Shadow.{
  fail_with, write_chunks, r82xx_write, r82xx_write_reg, r82xx_write_reg_mask, r82xx_read_cache_reg,
  r82xx_read, read_after, read_into,
}
use rtl_tcp_pi.State.{State}
use rtl_tcp_pi.R82xx.Shadow.{on_bus}
use rtl_tcp_pi.R82xx.Standard.{r82xx_init_array}
use rtl_tcp_pi.R82xx.Tune.{finish_init, r82xx_init}
use rtl_tcp_pi.R82xx.Sync.{IsWellFormed}
use rtl_tcp_pi.R82xx.Sync.Write.{r82xx_write-IsWellFormed}
use rtl_tcp_pi.R82xx.Sync.Setup.{init_array-IsBytes, tv_standard-Safe, reset_formed}
use rtl_tcp_pi.R82xx.Sync.Calls.{IsInvariant, Safe-then, sysfreq_sel-Safe}
use rtl_tcp_pi.R82xx.Sync.Api.{IsWellFormed-invariant}

-- A call leaves the configuration as it is.
pub record Keeps {A : Type 0} (m : R82xx A) : Type 0 where
  pub same : (s : Priv) → (m s).1.cfg ≡ s.cfg

module _ {A B : Type 0} where
  continue-cfg :
      (f : A → R82xx B) (cfg : Config) (r : Outcome A) (s : Priv)
      → ((a : A) → Keeps (f a))
      → s.cfg ≡ cfg
      → (continue r f s).1.cfg ≡ cfg
  continue-cfg f cfg (ok a) s hf h = (hf a).same s ∙ h
  continue-cfg f cfg (err n) s hf h = h
  continue-cfg f cfg fault s hf h = h

  Keeps-bind : (m : R82xx A) (f : A → R82xx B) → Keeps m → ((a : A) → Keeps (f a)) → Keeps (m >>= f)
  unfolding ◌>>=◌
  Keeps-bind m f hm hf = record {
    same = λ s. let (r, s') = m s in continue-cfg f s.cfg r s' hf (hm.same s);
  }

module _ {A : Type 0} where
  Keeps-if : (b : Bool) (m n : R82xx A) → Keeps m → Keeps n → Keeps (if b then m else n)
  Keeps-if Bool.true m n hm hn = hm
  Keeps-if Bool.false m n hm hn = hn

  Keeps-pure : (a : A) → Keeps (pure a)
  unfolding pure
  Keeps-pure a = record { same = λ s. refl }

  Keeps-fail : (n : ℕ) → Keeps (fail {A = A} n)
  unfolding fail
  Keeps-fail n = record { same = λ s. refl }

  Keeps-hang : Keeps (hang {A = A})
  unfolding hang
  Keeps-hang = record { same = λ s. refl }

  Keeps-gets : (f : Priv → A) → Keeps (gets f)
  unfolding gets
  Keeps-gets f = record { same = λ s. refl }

  Keeps-call : (m : State Bus A) → Keeps (on_bus m)
  unfolding call
  Keeps-call m = record { same = λ s. refl }

  Keeps-fail_with : (rc : ℤ) → Keeps (fail_with {A = A} rc)
  Keeps-fail_with (pos n) = Keeps-fail 0
  Keeps-fail_with (negsuc n) = Keeps-fail n

Keeps-modify : (f : Priv → Priv) → ((s : Priv) → (f s).cfg ≡ s.cfg) → Keeps (modify f)
unfolding modify
Keeps-modify f h = record { same = h }

module _ (usb : Usb) where
  write_chunks-Keeps :
      (fuel addr max_msg reg : ℕ) (val : List ℕ)
      → Keeps (write_chunks usb fuel addr max_msg reg val)
  unfolding write_chunks
  write_chunks-Keeps zero addr max_msg reg val = Keeps-hang
  write_chunks-Keeps (suc fuel) addr max_msg reg val =
      let rest = write_chunks-Keeps fuel addr max_msg in
      Keeps-bind _ _ (Keeps-call _)
        λ rc. Keeps-if _ _ _ (Keeps-if _ _ _ (Keeps-pure tt) (rest _ _)) (Keeps-fail_with rc)

  write-Keeps : (reg : ℕ) (val : List ℕ) → Keeps (r82xx_write usb reg val)
  unfolding r82xx_write
  write-Keeps reg val =
      Keeps-bind _ _ (Keeps-modify _ (λ s. refl))
        λ _. Keeps-bind _ _ (Keeps-gets _) λ cfg. write_chunks-Keeps _ _ _ _ _

  write_reg-Keeps : (reg v : ℕ) → Keeps (r82xx_write_reg usb reg v)
  unfolding r82xx_write_reg
  write_reg-Keeps reg v = write-Keeps _ _

  cache-Keeps : (reg : ℕ) → Keeps (r82xx_read_cache_reg reg)
  unfolding r82xx_read_cache_reg
  cache-Keeps reg = record { same = λ s. (Keeps-if _ _ _ (Keeps-pure _) (Keeps-fail 0)).same s }

  write_reg_mask-Keeps : (reg v m : ℕ) → Keeps (r82xx_write_reg_mask usb reg v m)
  unfolding r82xx_write_reg_mask
  write_reg_mask-Keeps reg v m = Keeps-bind _ _ (cache-Keeps _) λ rc. write-Keeps _ _

  read_into-Keeps : (len : ℕ) (val : List ℕ) (reply : Reply) → Keeps (read_into len val reply)
  unfolding read_into
  read_into-Keeps len val (received bytes) = Keeps-if _ _ _ (Keeps-pure _) (Keeps-fail 0)
  read_into-Keeps len val (failed n) = Keeps-fail n

  read_after-Keeps : (len : ℕ) (val : List ℕ) (rc : ℤ) → Keeps (read_after usb len val rc)
  unfolding read_after
  read_after-Keeps len val (negsuc n) = Keeps-fail n
  read_after-Keeps len val (pos zero) = Keeps-pure val
  read_after-Keeps len val (pos (suc n)) =
      Keeps-bind _ _ (Keeps-gets _)
        λ cfg. Keeps-bind _ _ (Keeps-call _) λ reply. read_into-Keeps len val reply

  read-Keeps : (reg len : ℕ) (val : List ℕ) → Keeps (r82xx_read usb reg len val)
  unfolding r82xx_read
  read-Keeps reg len val =
      Keeps-bind _ _ (Keeps-gets _)
        λ cfg. Keeps-bind _ _ (Keeps-call _) λ rc. read_after-Keeps len val rc

-- A well-formed state with a given configuration.
pub record IsConfigured (cfg : Config) (s : Priv) : Type 0 where
  pub formed : IsWellFormed s
  pub configured : s.cfg ≡ cfg

IsConfigured-Post :
    {A : Type 0} (cfg : Config) (r : Outcome A) (s : Priv)
    → s.cfg ≡ cfg
    → Post (λ _. IsWellFormed) IsWellFormed r s
    → Post (λ _. IsConfigured cfg) (IsConfigured cfg) r s
IsConfigured-Post cfg r s e h =
    Post-map _ _ _ _ r s (λ a w. record { formed = w; configured = e })
      (λ w. record { formed = w; configured = e }) h

both-Safe :
    {A : Type 0} (cfg : Config) (m : R82xx A)
    → Safe IsWellFormed IsWellFormed m
    → Keeps m
    → Safe (IsConfigured cfg) (IsConfigured cfg) m
both-Safe cfg m h keeps = record {
  at = λ s p.
      let (r, s') = m s in
      IsConfigured-Post cfg r s' (keeps.same s ∙ p.configured) (h.at s p.formed);
}

module _ (usb : Usb) (cfg : Config) where
  pub IsConfigured-invariant : IsInvariant usb (IsConfigured cfg) (IsConfigured cfg)
  IsConfigured-invariant =
      let inv = IsWellFormed-invariant usb in
      record {
        write_reg = λ reg v. both-Safe cfg _ (inv.write_reg reg v) (write_reg-Keeps usb reg v);
        write_reg_mask = λ reg v m.
            both-Safe cfg _ (inv.write_reg_mask reg v m) (write_reg_mask-Keeps usb reg v m);
        read = λ reg len val. both-Safe cfg _ (inv.read reg len val) (read-Keeps usb reg len val);
        usable = λ s h. h.formed.usable;
        weaken = λ s h. h;
        others = λ s s' c r d h. record {
          formed = inv.others s s' c r d h.formed;
          configured = c ∙ h.configured;
        };
        others_err = λ s s' c r d h. record {
          formed = inv.others s s' c r d h.formed;
          configured = c ∙ h.configured;
        };
      }

  pub init-IsConfigured : Safe (IsConfigured cfg) (IsConfigured cfg) (r82xx_init usb)
  unfolding r82xx_init finish_init
  init-IsConfigured =
      let P = IsConfigured cfg in
      let inv = IsConfigured-invariant in
      Safe-bind _ _ (Triple-modify _ (λ s h. inv.others s _ refl refl refl h)) λ _.
        Safe-bind _ _
          (Safe-ignore _ (
            both-Safe cfg _
              (r82xx_write-IsWellFormed usb 0x05 r82xx_init_array (omega arith) init_array-IsBytes)
              (write-Keeps usb 0x05 r82xx_init_array)))
          λ _.
            Safe-bind _ _
              (tv_standard-Safe usb P P inv P
                (λ s h. record { formed = reset_formed s h.formed; configured = h.configured }) _ _
                _)
              (λ _.
                Safe-then usb P P inv (λ s. record s { init_done = true }) _
                  (λ t. (refl, refl, refl)) (sysfreq_sel-Safe usb P P inv _ _ _))
