-- ===== src/R82xx/Sync/Setup.antt =====
-- rtl-sdr/src/tuner_r82xx.c: the state after `r82xx_init`.
use rtl_tcp_pi.Common.{
  inl, ℕ, suc, zero, ◌<◌, ◌≡◌, refl, ◌∙◌, sym, arith, List, [], ◌∷◌, length, ap, get_or, get_or_ext,
  some, true,
}
use rtl_tcp_pi.Usb.{Usb}
use rtl_tcp_pi.Driver.{Outcome, ok, ◌>>=◌, modify}
use rtl_tcp_pi.Driver.Safe.{
  Post, ok-Post, Triple, Safe, Safe-bind, Safe-ignore, Triple-bind, Triple-modify, safe_rules,
}
use rtl_tcp_pi.R82xx.Types.{Priv, TunerType, DeliverySystem, high_cap_0p}
use rtl_tcp_pi.R82xx.Shadow.{shadow_store, r82xx_write}
use rtl_tcp_pi.R82xx.Standard.{r82xx_init_array, r82xx_set_tv_standard}
use rtl_tcp_pi.R82xx.Tune.{finish_init, r82xx_init}
use rtl_tcp_pi.R82xx.Sync.{IsWellFormed, IsSynced}
use rtl_tcp_pi.R82xx.Sync.Write.{
  shadow_store_inside, length-shadow_store, IsBytes, AgreesBut, regs-r82xx_write,
  r82xx_write-IsSynced, r82xx_write-IsWellFormed,
}
use rtl_tcp_pi.R82xx.Sync.Calls.{
  IsInvariant, Safe-modify, Safe-then, calibrate-Safe, write_standard-Safe, sysfreq_sel-Safe,
}
use rtl_tcp_pi.R82xx.Sync.Api.{IsSynced-invariant, IsWellFormed-invariant}

abbrev AllBytes : List ℕ → Type 0
AllBytes [] = Unit
AllBytes (x ∷ xs) = (x < 256) × AllBytes xs

AllBytes-IsBytes : (xs : List ℕ) → AllBytes xs → IsBytes xs
AllBytes-IsBytes [] h i = omega arith
AllBytes-IsBytes (x ∷ xs) h zero = h.0
AllBytes-IsBytes (x ∷ xs) h (suc i) = AllBytes-IsBytes xs h.1 i

pub init_array-IsBytes : IsBytes r82xx_init_array
init_array-IsBytes = AllBytes-IsBytes r82xx_init_array (omega arith)

-- The whole file of shadow registers is replaced.
shadow_store_all :
    (val regs : List ℕ) → length val ≡ 30 → length regs ≡ 30 → shadow_store 5 val regs ≡ val
shadow_store_all val regs hv hr =
    get_or_ext 0 (shadow_store 5 val regs) val (length-shadow_store 5 val regs ∙ hr ∙ sym hv)
      λ i below.
        shadow_store_inside 5 val regs i (inl (omega arith)) hr
          (omega (arith, length-shadow_store 5 val regs)) (omega arith)
          (omega (arith, length-shadow_store 5 val regs))
        ∙ ap (λ k. get_or val k 0) (omega arith)

module _ (usb : Usb) (P E : Priv → Type 0) (inv : IsInvariant usb P E) where
  -- What follows the reset of the shadow registers.
  pub tv_standard-Safe :
      (Q : Priv → Type 0)
      → ((s : Priv) → Q s → P (record s { regs = r82xx_init_array }))
      → (bw : ℕ) (type : TunerType) (delsys : DeliverySystem)
      → Triple Q E (r82xx_set_tv_standard usb bw type delsys) (λ _. P)
  unfolding r82xx_set_tv_standard
  tv_standard-Safe Q reset bw type delsys =
      Triple-bind (λ _. P) _ _ (Triple-modify _ reset)
        λ _.
          search
            (
              safe_rules,
              inv.write_reg_mask,
              Safe-modify usb P E inv,
              calibrate-Safe usb P E inv,
              write_standard-Safe usb P E inv,
            )
            depth 40

-- The state that the first write of `r82xx_init` starts from.
abbrev pub cleared : Priv → Priv
cleared s = record s { xtal_cap_sel = high_cap_0p }

-- In agreement, with the initial values.
abbrev IsInitial : Priv → Type 0
IsInitial s = IsSynced s × (s.regs ≡ r82xx_init_array)

reset_initial : (s : Priv) → IsInitial s → IsSynced (record s { regs = r82xx_init_array })
reset_initial s (h, e) = record {
  formed = record { regs_length = refl; regs_bytes = init_array-IsBytes; usable = h.formed.usable };
  agree = λ i below. h.agree i below ∙ ap (λ regs. some (get_or regs i 0)) e;
}

pub reset_formed : (s : Priv) → IsWellFormed s → IsWellFormed (record s { regs = r82xx_init_array })
reset_formed s h = record { regs_length = refl; regs_bytes = init_array-IsBytes; usable = h.usable }

module _ (usb : Usb) where
  abbrev first_write : Priv → Outcome (Unit {0}) × Priv
  first_write s = r82xx_write usb 0x05 r82xx_init_array (cleared s)

  first_write-IsInitial :
      (s : Priv) → IsWellFormed s → (first_write s).0 ≡ ok tt → IsInitial (first_write s).1
  first_write-IsInitial s h e = (
    ok-Post IsSynced IsWellFormed (first_write s).0 (first_write s).1 e (
        (r82xx_write-IsSynced usb 0x05 r82xx_init_array (inl (omega arith)) (omega arith)
            init_array-IsBytes).at
          (cleared s) all_covered),
    regs-r82xx_write usb 0x05 r82xx_init_array (cleared s) (omega arith) init_array-IsBytes formed
        ∙ shadow_store_all r82xx_init_array s.regs refl h.regs_length,
  )
    where
      formed : IsWellFormed (cleared s)
      formed = record { regs_length = h.regs_length; regs_bytes = h.regs_bytes; usable = h.usable }

      all_covered : AgreesBut 5 30 (cleared s)
      all_covered = record { formed = formed; agree = λ i below out. absurd (omega arith) }

  finish_init-Safe : Triple IsInitial IsWellFormed (finish_init usb) (λ _. IsSynced)
  unfolding finish_init
  finish_init-Safe =
      Triple-bind (λ _. IsSynced) _ _
        (tv_standard-Safe usb IsSynced IsWellFormed (IsSynced-invariant usb) IsInitial reset_initial
          _ _ _)
        (λ _.
          Safe-then usb IsSynced IsWellFormed (IsSynced-invariant usb)
            (λ s. record s { init_done = true }) _ (λ t. (refl, refl, refl))
            (sysfreq_sel-Safe usb IsSynced IsWellFormed (IsSynced-invariant usb) _ _ _))

  -- From a well-formed state, if the tuner acknowledges the first write, `r82xx_init` returns,
  -- and when it returns 0 the shadow registers are those of the tuner; after an error the state
  -- is well formed.
  pub init-IsSynced :
      (s : Priv)
      → IsWellFormed s
      → (r82xx_write usb 0x05 r82xx_init_array (cleared s)).0 ≡ ok tt
      → Post (λ _. IsSynced) IsWellFormed (r82xx_init usb s).0 (r82xx_init usb s).1
  unfolding r82xx_init ◌>>=◌ modify
  init-IsSynced s h e =
      let rest = finish_init-Safe.at (first_write s).1 (first_write-IsInitial s h e) in rw e rest

  finish_init-IsWellFormed : Safe IsWellFormed IsWellFormed (finish_init usb)
  unfolding finish_init
  finish_init-IsWellFormed =
      Safe-bind _ _
        (tv_standard-Safe usb IsWellFormed IsWellFormed (IsWellFormed-invariant usb) IsWellFormed
          reset_formed _ _ _)
        (λ _.
          Safe-then usb IsWellFormed IsWellFormed (IsWellFormed-invariant usb)
            (λ s. record s { init_done = true }) _ (λ t. (refl, refl, refl))
            (sysfreq_sel-Safe usb IsWellFormed IsWellFormed (IsWellFormed-invariant usb) _ _ _))

  -- Whatever the tuner answers, the state stays well formed, and `r82xx_init` returns.
  pub init-IsWellFormed : Safe IsWellFormed IsWellFormed (r82xx_init usb)
  unfolding r82xx_init
  init-IsWellFormed =
      Safe-bind _ _
        (Triple-modify _ (λ s h. record {
          regs_length = h.regs_length;
          regs_bytes = h.regs_bytes;
          usable = h.usable;
        }))
        λ _.
          Safe-bind _ _
            (Safe-ignore _
              (r82xx_write-IsWellFormed usb 0x05 r82xx_init_array (omega arith) init_array-IsBytes))
            λ _. finish_init-IsWellFormed
