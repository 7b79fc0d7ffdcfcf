-- ===== src/R82xx/Sync/Write.antt =====
-- rtl-sdr/src/tuner_r82xx.c: the state after `r82xx_write` and the calls on one register.
use rtl_tcp_pi.Common.{
  ℕ, ◌+◌, ◌-◌, ◌≤◌, ◌<◌, ◌%◌, ◌≡◌, ◌∙◌, ◌⊎◌, inl, inr, arith, some, List, [], ◌∷◌, length, get_or,
  get_or-past, sym, take, length-splice, length-take, get_or-take, get_or-splice_inside,
  get_or-splice_outside, Bool-cases, ltb, leb, ◌&&◌, min, ap, suc,
}
use rtl_tcp_pi.Usb.{Usb}
use rtl_tcp_pi.Driver.{Outcome, ok, err, fault, ◌>>=◌, modify, gets, pure, fail}
use rtl_tcp_pi.Driver.Safe.{Post, Triple, Safe, Safe-bind}
use rtl_tcp_pi.R82xx.Types.{Priv, num_regs, reg_shadow_start}
use rtl_tcp_pi.R82xx.Shadow.{
  shadow_store, r82xx_write, r82xx_write_reg, r82xx_read_cache_reg, r82xx_write_reg_mask,
}
use rtl_tcp_pi.R82xx.Sync.{chip, IsWellFormed, IsSynced}
use rtl_tcp_pi.R82xx.Sync.Chunks.{IsTold, OnlyTraffic, write_chunks-IsTold}

-- The bytes of `val` that `shadow_store` copies.
abbrev copied : ℕ → List ℕ → List ℕ
copied reg val = take (30 - (reg - 5)) (take (length val - (5 - reg)) val)

length-copied :
    (reg : ℕ) (val : List ℕ)
    → length (copied reg val) ≡ min (30 - (reg - 5)) (length val - (5 - reg))
length-copied reg val = omega (
  arith,
  length-take (30 - (reg - 5)) (take (length val - (5 - reg)) val),
  length-take (length val - (5 - reg)) val,
)

shadow_store_window :
    (reg : ℕ) (val regs : List ℕ) (i : ℕ)
    → length regs ≡ num_regs
    → i < num_regs
    → reg - 5 ≤ i
    → i - (reg - 5) < length val - (5 - reg)
    → get_or (shadow_store reg val regs) i 0 ≡ get_or val (i - (reg - 5)) 0
unfolding shadow_store
shadow_store_window reg val regs i e h lo hi =
    get_or-splice_inside regs (reg - 5) (copied reg val) i 0 lo
      (omega (arith, length-copied reg val)) (omega arith)
    ∙ get_or-take (30 - (reg - 5)) (take (length val - (5 - reg)) val) (i - (reg - 5)) 0
        (omega arith)
    ∙ get_or-take (length val - (5 - reg)) val (i - (reg - 5)) 0 hi

shadow_store_beyond :
    (reg : ℕ) (val regs : List ℕ) (i : ℕ)
    → (i < reg - 5) ⊎ (reg - 5 + (length val - (5 - reg)) ≤ i)
    → get_or (shadow_store reg val regs) i 0 ≡ get_or regs i 0
unfolding shadow_store
shadow_store_beyond reg val regs i out =
    get_or-splice_outside regs (reg - 5) (copied reg val) i 0 (omega (arith, length-copied reg val))

-- A write that does not reach from below the shadow registers into them.
abbrev pub IsApart : ℕ → ℕ → Type 0
IsApart reg len = (reg_shadow_start ≤ reg) ⊎ (reg + len ≤ reg_shadow_start)

pub shadow_store_inside :
    (reg : ℕ) (val regs : List ℕ) (i : ℕ)
    → IsApart reg (length val)
    → length regs ≡ num_regs
    → i < num_regs
    → reg ≤ reg_shadow_start + i
    → reg_shadow_start + i < reg + length val
    → get_or (shadow_store reg val regs) i 0 ≡ get_or val (reg_shadow_start + i - reg) 0
shadow_store_inside reg val regs i apart e h lo hi =
    shadow_store_window reg val regs i e h (omega arith) (omega arith)
    ∙ ap (λ k. get_or val k 0) (omega arith)

shadow_store_outside :
    (reg : ℕ) (val regs : List ℕ) (i : ℕ)
    → (reg_shadow_start + i < reg) ⊎ (reg + length val ≤ reg_shadow_start + i)
    → get_or (shadow_store reg val regs) i 0 ≡ get_or regs i 0
shadow_store_outside reg val regs i out = shadow_store_beyond reg val regs i (omega arith)

pub length-shadow_store :
    (reg : ℕ) (val regs : List ℕ) → length (shadow_store reg val regs) ≡ length regs
unfolding shadow_store
length-shadow_store reg val regs = length-splice regs (reg - 5) (copied reg val)

abbrev pub IsBytes : List ℕ → Type 0
IsBytes val = (i : ℕ) → get_or val i 0 < 256

shadow_store-IsBytes :
    (reg : ℕ) (val regs : List ℕ)
    → length regs ≡ num_regs
    → IsBytes val
    → IsBytes regs
    → IsBytes (shadow_store reg val regs)
shadow_store-IsBytes reg val regs e hv hr i = elim (Bool-cases (ltb i 30)) [
  | inl near ↦ elim (Bool-cases (leb (reg - 5) i && ltb (i - (reg - 5)) (length val - (5 - reg)))) [
    | inl within ↦
        rw (shadow_store_window reg val regs i e (ground arith) (ground arith) (ground arith))
          (hv (i - (reg - 5)))
    | inr beyond ↦ rw (shadow_store_beyond reg val regs i (ground arith)) (hr i)
  ]
  | inr far ↦
      rw
        (get_or-past (shadow_store reg val regs) i 0
          (ground (arith, length-shadow_store reg val regs)))
        (omega arith)
]

-- The shadow registers are those of the tuner outside the `len` registers from `reg` on.
pub record AgreesBut (reg len : ℕ) (s : Priv) : Type 0 where
  pub formed : IsWellFormed s
  pub agree :
      (i : ℕ)
      → i < num_regs
      → (reg_shadow_start + i < reg) ⊎ (reg + len ≤ reg_shadow_start + i)
      → chip s.cfg.i2c_addr s.rtl_dev (reg_shadow_start + i) ≡ some (get_or s.regs i 0)

module _ (reg : ℕ) (val : List ℕ) (bytes : IsBytes val) (s : Priv) where
  abbrev stored_state : Priv
  stored_state = record s { regs = shadow_store reg val s.regs }

  stored_state-IsWellFormed : IsWellFormed s → IsWellFormed stored_state
  stored_state-IsWellFormed h = record {
    regs_length = length-shadow_store reg val s.regs ∙ h.regs_length;
    regs_bytes = shadow_store-IsBytes reg val s.regs h.regs_length bytes h.regs_bytes;
    usable = h.usable;
  }

  IsTold-IsSynced :
      {s' : Priv}
      → IsApart reg (length val)
      → AgreesBut reg (length val) s
      → IsTold s.cfg.i2c_addr reg val stored_state s'
      → IsSynced s'
  IsTold-IsSynced apart h told = rw (told.same) (record {
    formed = record {
      regs_length = (stored_state-IsWellFormed h.formed).regs_length;
      regs_bytes = (stored_state-IsWellFormed h.formed).regs_bytes;
      usable = h.formed.usable;
    };
    agree = λ i below. elim (Bool-cases (leb reg (5 + i) && ltb (5 + i) (reg + length val))) [
      | inl within ↦
          told.inside (5 + i) (ground arith) (ground arith)
          ∙ ap some (
              sym (
                shadow_store_inside reg val s.regs i apart h.formed.regs_length below (ground arith)
                  (ground arith)))
      | inr beyond ↦
          told.outside (5 + i) (ground arith)
          ∙ h.agree i below (ground arith)
          ∙ ap some (sym (shadow_store_outside reg val s.regs i (ground arith)))
    ];
  })

  OnlyTraffic-IsWellFormed :
      {s' : Priv} → IsWellFormed s → OnlyTraffic stored_state s' → IsWellFormed s'
  OnlyTraffic-IsWellFormed h t = rw t.same (record {
    regs_length = (stored_state-IsWellFormed h).regs_length;
    regs_bytes = (stored_state-IsWellFormed h).regs_bytes;
    usable = h.usable;
  })

  told_result :
      (r : Outcome (Unit {0})) (s' : Priv)
      → IsApart reg (length val)
      → AgreesBut reg (length val) s
      → Post (λ _. IsTold s.cfg.i2c_addr reg val stored_state) (OnlyTraffic stored_state) r s'
      → Post (λ _. IsSynced) IsWellFormed r s'
  told_result (ok a) s' apart h told = IsTold-IsSynced apart h told
  told_result (err n) s' apart h traffic = OnlyTraffic-IsWellFormed h.formed traffic
  told_result fault s' apart h no_fault = no_fault

module _ (usb : Usb) where
  -- A write brings the registers that it covers into agreement, and breaks no other.
  pub r82xx_write-IsSynced :
      (reg : ℕ) (val : List ℕ)
      → IsApart reg (length val)
      → reg + length val ≤ 256
      → IsBytes val
      → Triple (AgreesBut reg (length val)) IsWellFormed (r82xx_write usb reg val) (λ _. IsSynced)
  unfolding r82xx_write ◌>>=◌ modify gets
  r82xx_write-IsSynced reg val apart fits bytes = record {
    at = λ s h. told_result reg val bytes s _ _ apart h (
        write_chunks-IsTold usb s.cfg.i2c_addr s.cfg.max_i2c_msg_len h.formed.usable.msg_low
          h.formed.usable.msg_high (suc (length val)) reg val (stored_state reg val bytes s)
          (omega arith) fits);
  }

  IsSynced-AgreesBut : (reg len : ℕ) {s : Priv} → IsSynced s → AgreesBut reg len s
  IsSynced-AgreesBut reg len h = record {
    formed = h.formed;
    agree = λ i below out. h.agree i below;
  }

  pub one_byte : (v : ℕ) → v < 256 → IsBytes (v ∷ [])
  one_byte v h i = ground arith

  one-IsApart : (reg : ℕ) → IsApart reg 1
  one-IsApart reg = ground arith

  pub Safe-write_byte :
      (reg v : ℕ) → reg < 256 → v < 256 → Safe IsSynced IsWellFormed (r82xx_write usb reg (v ∷ []))
  Safe-write_byte reg v hr hv = record {
    at = λ s h.
        (r82xx_write-IsSynced reg (v ∷ []) (one-IsApart reg) (omega arith) (one_byte v hv)).at s
          (IsSynced-AgreesBut reg 1 h);
  }

  pub Safe-write_reg : (reg v : ℕ) → Safe IsSynced IsWellFormed (r82xx_write_reg usb reg v)
  unfolding r82xx_write_reg
  Safe-write_reg reg v = Safe-write_byte (reg % 256) (v % 256) (omega arith) (omega arith)

  cache_reg-Triple :
      (reg : ℕ) → Triple IsSynced IsWellFormed (r82xx_read_cache_reg reg) (λ rc s. IsSynced s)
  unfolding r82xx_read_cache_reg pure fail
  cache_reg-Triple reg = record {
    at = λ s h. elim (Bool-cases (leb 5 reg && ltb (reg - 5) 30)) [
      | inl e ↦ rw e h
      | inr e ↦ rw e h.formed
    ];
  }

  pub Safe-write_reg_mask :
      (reg v m : ℕ) → Safe IsSynced IsWellFormed (r82xx_write_reg_mask usb reg v m)
  unfolding r82xx_write_reg_mask
  Safe-write_reg_mask reg v m =
      Safe-bind _ _ (cache_reg-Triple (reg % 256))
        λ rc. Safe-write_byte (reg % 256) _ (omega arith) (omega arith)

module _ (usb : Usb) where
  told_formed :
      (reg : ℕ) (val : List ℕ) (bytes : IsBytes val) (s : Priv) (r : Outcome (Unit {0})) (s' : Priv)
      → IsWellFormed s
      → Post
          (λ _. IsTold s.cfg.i2c_addr reg val (stored_state reg val bytes s))
          (OnlyTraffic (stored_state reg val bytes s))
          r
          s'
      → Post (λ _. IsWellFormed) IsWellFormed r s'
  told_formed reg val bytes s (ok a) s' h told =
      OnlyTraffic-IsWellFormed reg val bytes s h (record { bus = told.bus; same = told.same })
  told_formed reg val bytes s (err n) s' h traffic =
      OnlyTraffic-IsWellFormed reg val bytes s h traffic
  told_formed reg val bytes s fault s' h no_fault = no_fault

  pub r82xx_write-IsWellFormed :
      (reg : ℕ) (val : List ℕ)
      → reg + length val ≤ 256
      → IsBytes val
      → Safe IsWellFormed IsWellFormed (r82xx_write usb reg val)
  unfolding r82xx_write ◌>>=◌ modify gets
  r82xx_write-IsWellFormed reg val fits bytes = record {
    at = λ s h. told_formed reg val bytes s _ _ h (
        write_chunks-IsTold usb s.cfg.i2c_addr s.cfg.max_i2c_msg_len h.usable.msg_low
          h.usable.msg_high (suc (length val)) reg val (stored_state reg val bytes s) (omega arith)
          fits);
  }

  told_regs :
      (reg : ℕ) (val : List ℕ) (bytes : IsBytes val) (s : Priv) (r : Outcome (Unit {0})) (s' : Priv)
      → Post
          (λ _. IsTold s.cfg.i2c_addr reg val (stored_state reg val bytes s))
          (OnlyTraffic (stored_state reg val bytes s))
          r
          s'
      → s'.regs ≡ shadow_store reg val s.regs
  told_regs reg val bytes s (ok a) s' told = ap (λ (t : Priv). t.regs) told.same
  told_regs reg val bytes s (err n) s' traffic = ap (λ (t : Priv). t.regs) traffic.same
  told_regs reg val bytes s fault s' no_fault = absurd no_fault

  -- The shadow registers are written whatever becomes of the transfers.
  pub regs-r82xx_write :
      (reg : ℕ) (val : List ℕ) (s : Priv)
      → reg + length val ≤ 256
      → IsBytes val
      → IsWellFormed s
      → (r82xx_write usb reg val s).1.regs ≡ shadow_store reg val s.regs
  unfolding r82xx_write ◌>>=◌ modify gets
  regs-r82xx_write reg val s fits bytes h = told_regs reg val bytes s _ _ (
      write_chunks-IsTold usb s.cfg.i2c_addr s.cfg.max_i2c_msg_len h.usable.msg_low
        h.usable.msg_high (suc (length val)) reg val (stored_state reg val bytes s) (omega arith)
        fits)

  pub write_reg-IsWellFormed :
      (reg v : ℕ) → Safe IsWellFormed IsWellFormed (r82xx_write_reg usb reg v)
  unfolding r82xx_write_reg
  write_reg-IsWellFormed reg v =
      r82xx_write-IsWellFormed (reg % 256) (v % 256 ∷ []) (omega arith)
        (one_byte usb (v % 256) (omega arith))

  cache_reg-IsWellFormed : (reg : ℕ) → Safe IsWellFormed IsWellFormed (r82xx_read_cache_reg reg)
  unfolding r82xx_read_cache_reg pure fail
  cache_reg-IsWellFormed reg = record {
    at = λ s h. elim (Bool-cases (leb 5 reg && ltb (reg - 5) 30)) [
      | inl e ↦ rw e h
      | inr e ↦ rw e h
    ];
  }

  pub write_reg_mask-IsWellFormed :
      (reg v m : ℕ) → Safe IsWellFormed IsWellFormed (r82xx_write_reg_mask usb reg v m)
  unfolding r82xx_write_reg_mask
  write_reg_mask-IsWellFormed reg v m =
      Safe-bind _ _ (cache_reg-IsWellFormed (reg % 256))
        λ rc. r82xx_write-IsWellFormed (reg % 256) _ (omega arith) (one_byte usb _ (omega arith))
