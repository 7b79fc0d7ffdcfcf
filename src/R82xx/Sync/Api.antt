-- ===== src/R82xx/Sync/Api.antt =====
-- rtl-sdr/src/tuner_r82xx.c: sequences of the calls that librtlsdr makes.
use rtl_tcp_pi.Common.{ℕ, ◌+◌, ◌≡◌, ◌∙◌, ◌≢◌, ℤ, Bool}
use rtl_tcp_pi.Usb.{Usb}
use rtl_tcp_pi.Driver.{Outcome, ok, err, fault}
use rtl_tcp_pi.Driver.Safe.{Post, ok-Post, any-Post, Safe}
use rtl_tcp_pi.R82xx.Types.{Priv, R82xx}
use rtl_tcp_pi.R82xx.Gain.{r82xx_set_gain}
use rtl_tcp_pi.R82xx.Tune.{r82xx_set_freq, r82xx_standby}
use rtl_tcp_pi.R82xx.Sync.{IsWellFormed, IsSynced}
use rtl_tcp_pi.R82xx.Sync.Read.{IsQuiet, r82xx_read-IsQuiet}
use rtl_tcp_pi.R82xx.Sync.Write.{
  Safe-write_reg, Safe-write_reg_mask, write_reg-IsWellFormed, write_reg_mask-IsWellFormed,
}
use rtl_tcp_pi.R82xx.Sync.Calls.{IsInvariant, set_freq-Safe, set_gain-Safe, standby-Safe}

others-IsWellFormed :
    (s s' : Priv)
    → s'.cfg ≡ s.cfg
    → s'.regs ≡ s.regs
    → s'.rtl_dev ≡ s.rtl_dev
    → IsWellFormed s
    → IsWellFormed s'
others-IsWellFormed s s' c r d h = record {
  regs_length = rw r h.regs_length;
  regs_bytes = λ i. rw r (h.regs_bytes i);
  usable = rw c h.usable;
}

others-IsSynced :
    (s s' : Priv)
    → s'.cfg ≡ s.cfg
    → s'.regs ≡ s.regs
    → s'.rtl_dev ≡ s.rtl_dev
    → IsSynced s
    → IsSynced s'
others-IsSynced s s' c r d h = record {
  formed = others-IsWellFormed s s' c r d h.formed;
  agree = λ i below. rw (c, r, d) (h.agree i below);
}

IsQuiet-IsWellFormed :
    {addr : ℕ} {s s' : Priv} → IsWellFormed s → IsQuiet addr s s' → IsWellFormed s'
IsQuiet-IsWellFormed h q =
    rw q.same (record { regs_length = h.regs_length; regs_bytes = h.regs_bytes; usable = h.usable })

IsQuiet-IsSynced : {s s' : Priv} → IsSynced s → IsQuiet s.cfg.i2c_addr s s' → IsSynced s'
IsQuiet-IsSynced h q = rw q.same (record {
  formed = record {
    regs_length = h.formed.regs_length;
    regs_bytes = h.formed.regs_bytes;
    usable = h.formed.usable;
  };
  agree = λ i below. q.stores_nothing (5 + i) ∙ h.agree i below;
})

read_result :
    {A : Type 0} (P : Priv → Type 0) (s : Priv) (r : Outcome A) (s' : Priv)
    → (IsQuiet s.cfg.i2c_addr s s' → P s')
    → (P s' → IsWellFormed s')
    → Post (λ _. IsQuiet s.cfg.i2c_addr s) (IsQuiet s.cfg.i2c_addr s) r s'
    → Post (λ _. P) IsWellFormed r s'
read_result P s (ok a) s' f g h = f h
read_result P s (err n) s' f g h = g (f h)
read_result P s fault s' f g h = h

module _ (usb : Usb) where
  -- The shadow registers are those of the tuner until a call fails.
  pub IsSynced-invariant : IsInvariant usb IsSynced IsWellFormed
  IsSynced-invariant = record {
    write_reg = Safe-write_reg usb;
    write_reg_mask = Safe-write_reg_mask usb;
    read = λ reg len val. record {
      at = λ s h.
          read_result IsSynced s _ _ (IsQuiet-IsSynced h) (λ t. t.formed)
            (r82xx_read-IsQuiet usb s.cfg.i2c_addr len val reg s);
    };
    usable = λ s h. h.formed.usable;
    weaken = λ s h. h.formed;
    others = others-IsSynced;
    others_err = others-IsWellFormed;
  }

  -- The limits of the state survive errors too.
  pub IsWellFormed-invariant : IsInvariant usb IsWellFormed IsWellFormed
  IsWellFormed-invariant = record {
    write_reg = write_reg-IsWellFormed usb;
    write_reg_mask = write_reg_mask-IsWellFormed usb;
    read = λ reg len val. record {
      at = λ s h.
          read_result IsWellFormed s _ _ (IsQuiet-IsWellFormed h) (λ t. t)
            (r82xx_read-IsQuiet usb s.cfg.i2c_addr len val reg s);
    };
    usable = λ s h. h.usable;
    weaken = λ s h. h;
    others = others-IsWellFormed;
    others_err = others-IsWellFormed;
  }

-- The calls of librtlsdr on a tuner that is initialised.
pub data Call : Type 0 where
  set_freq : ℕ → Call
  set_gain : Bool → ℤ → Call
  standby : Call

module _ (usb : Usb) where
  unfoldable pub run : Call → R82xx (Unit {0})
  run (set_freq freq) = r82xx_set_freq usb freq
  run (set_gain manual gain) = r82xx_set_gain usb manual gain
  run standby = r82xx_standby usb

  -- Calls in a row, each of which has returned 0.
  pub data Session (s : Priv) : Priv → Type 0 where
    begin : Session s s
    then_call : {t : Priv} (c : Call) → Session s t → (run c t).0 ≡ ok tt → Session s (run c t).1

  -- Any calls in a row, whatever they have returned.
  pub data History (s : Priv) : Priv → Type 0 where
    begin : History s s
    then_call : {t : Priv} (c : Call) → History s t → History s (run c t).1

  run-Safe : (P E : Priv → Type 0) → IsInvariant usb P E → (c : Call) → Safe P E (run c)
  unfolding run
  run-Safe P E inv (set_freq freq) = set_freq-Safe usb P E inv freq
  run-Safe P E inv (set_gain manual gain) = set_gain-Safe usb P E inv manual gain
  run-Safe P E inv standby = standby-Safe usb P E inv

  -- From a state in which the shadow registers are those of the tuner, every sequence of tuning,
  -- gain and standby calls that return 0 ends in such a state.
  pub Session-IsSynced : {s t : Priv} → IsSynced s → Session s t → IsSynced t
  Session-IsSynced h begin = h
  Session-IsSynced h (then_call {t = t} c earlier success) =
      ok-Post IsSynced IsWellFormed (run c t).0 (run c t).1 success (
        (run-Safe IsSynced IsWellFormed (IsSynced-invariant usb) c).at t
          (Session-IsSynced h earlier))

  -- From a well-formed state, after any calls, failed ones too, the state is well formed and the
  -- next call returns.
  pub History-returns :
      {s t : Priv} (c : Call)
      → IsWellFormed s
      → History s t
      → IsWellFormed t × ((run c t).0 ≢ fault)
  History-returns {s} {t} c h calls = (formed calls, (step c t (formed calls)).1)
    where
      step :
          (c : Call) (t : Priv) → IsWellFormed t → IsWellFormed (run c t).1 × ((run c t).0 ≢ fault)
      step c t h =
          any-Post IsWellFormed (run c t).0 (run c t).1
            ((run-Safe IsWellFormed IsWellFormed (IsWellFormed-invariant usb) c).at t h)

      formed : {t : Priv} → History s t → IsWellFormed t
      formed begin = h
      formed (then_call {t = t} c earlier) = (step c t (formed earlier)).0
