-- ===== src/R82xx/Sync/Chunks.antt =====
-- rtl-sdr/src/tuner_r82xx.c: the loop of `r82xx_write`.
use rtl_tcp_pi.Common.{
  ℕ, zero, suc, ◌+◌, ◌-◌, ◌≤◌, ◌<◌, ◌≡◌, refl, ◌∙◌, ◌⊎◌, inl, inr, arith, some, List, ◌∷◌, ℤ, pos,
  negsuc, eq_ℤ, ◌%◌, ◌==◌, if◌then◌else◌, take-all, length-take, length-drop, get_or-take,
  get_or-drop, lt_of_ltb, le_of_ltb, eq_of_==, eq_of_eq_ℤ, ◌≢◌, ap, length, get_or, take, drop,
  true, Bool-cases, ltb, min,
}
use rtl_tcp_pi.Usb.{wrote, Bus, Usb, control_out}
use rtl_tcp_pi.Librtlsdr.Access.{rtlsdr_i2c_write}
use rtl_tcp_pi.Driver.{Outcome, ok, err, fault, pure, call, fail}
use rtl_tcp_pi.Driver.Safe.{Post, bind-ok}
use rtl_tcp_pi.R82xx.Types.{Priv}
use rtl_tcp_pi.R82xx.Shadow.{on_bus, fail_with, chunk_size, write_chunks}
use rtl_tcp_pi.R82xx.Sync.{stored, chip}

module _ (addr first : ℕ) (vals : List ℕ) {status : ℤ} (bus : Bus)
    (acked : status ≡ pos (length vals + 1)) where
  abbrev told : Bus
  told = wrote 0x610 addr (first ∷ vals) status ∷ bus

  pub chip-wrote_inside :
      (r : ℕ)
      → first ≤ r
      → r < first + length vals
      → chip addr told r ≡ some (get_or vals (r - first) 0)
  unfolding chip stored
  chip-wrote_inside r lo hi = ground arith

  pub chip-wrote_outside :
      (r : ℕ) → (r < first) ⊎ (first + length vals ≤ r) → chip addr told r ≡ chip addr bus r
  unfolding chip stored
  chip-wrote_outside r out = ground arith

-- Nothing but the traffic differs.
pub record OnlyTraffic (s s' : Priv) : Type 0 where
  pub bus : Bus
  pub same : s' ≡ record s { rtl_dev = bus }

-- `val` has arrived in the registers from `reg` on, and no other register has changed.
pub record IsTold (addr reg : ℕ) (val : List ℕ) (s s' : Priv) : Type 0 where
  pub bus : Bus
  pub same : s' ≡ record s { rtl_dev = bus }
  pub inside :
      (r : ℕ) → reg ≤ r → r < reg + length val → chip addr bus r ≡ some (get_or val (r - reg) 0)
  pub outside :
      (r : ℕ) → (r < reg) ⊎ (reg + length val ≤ r) → chip addr bus r ≡ chip addr s.rtl_dev r

module _ (usb : Usb) where
  abbrev pub answer : ℕ → List ℕ → Priv → ℤ
  answer addr bytes s = usb.out_status s.rtl_dev 0x610 addr bytes

  abbrev pub after_write : ℕ → List ℕ → Priv → Priv
  after_write addr bytes s = record s {
    rtl_dev = wrote 0x610 addr bytes (answer addr bytes s) ∷ s.rtl_dev;
  }

  pub i2c_write-run :
      (addr : ℕ) (bytes : List ℕ) (s : Priv)
      → length bytes < 256
      → on_bus (rtlsdr_i2c_write usb addr bytes) s
        ≡ (ok (answer addr bytes s), after_write addr bytes s)
  unfolding call rtlsdr_i2c_write control_out
  i2c_write-run addr bytes s h =
      let e : take (length bytes % 256) bytes ≡ bytes =
        take-all (length bytes % 256) bytes (omega arith) in
      rw e refl

  -- A round of the loop: a transfer, and what its answer leads to.
  write_chunks-suc :
      (fuel addr max_msg reg : ℕ) (val : List ℕ) (s : Priv)
      → let size = chunk_size max_msg (length val) in
        let bytes = reg ∷ take size val in
        length bytes < 256
        → write_chunks usb (suc fuel) addr max_msg reg val s
          ≡ (if eq_ℤ (answer addr bytes s) (pos (size + 1))
                then (if length (drop size val) == 0
                    then pure tt
                    else write_chunks usb fuel addr max_msg ((reg + size) % 256) (drop size val))
                else fail_with (answer addr bytes s))
              (after_write addr bytes s)
  unfolding write_chunks
  write_chunks-suc fuel addr max_msg reg val s h =
      bind-ok
        (on_bus (rtlsdr_i2c_write usb addr (reg ∷ take (chunk_size max_msg (length val)) val))) _
        (i2c_write-run addr (reg ∷ take (chunk_size max_msg (length val)) val) s h)

chunk_size_lem :
    (max_msg len : ℕ) → 2 ≤ max_msg → max_msg ≤ 31 → chunk_size max_msg len ≡ min (max_msg - 1) len
unfolding chunk_size
chunk_size_lem max_msg len lo hi = ground arith

fail_with-Post :
    {A : Type 0} (Q : A → Priv → Type 0) (E : Priv → Type 0) (rc : ℤ) (s : Priv)
    → E s
    → Post Q E (fail_with {A = A} rc s).0 (fail_with {A = A} rc s).1
unfolding fail
fail_with-Post Q E (pos n) s h = h
fail_with-Post Q E (negsuc n) s h = h

module _ (usb : Usb) (addr reg size : ℕ) (val : List ℕ) (s : Priv) (fits : size ≤ length val)
    (acked : answer usb addr (reg ∷ take size val) s ≡ pos (size + 1)) where
  abbrev s₁ : Priv
  s₁ = after_write usb addr (reg ∷ take size val) s

  acked' : answer usb addr (reg ∷ take size val) s ≡ pos (length (take size val) + 1)
  acked' = acked ∙ ap pos (omega (arith, length-take size val))

  chunk_inside :
      (r : ℕ) → reg ≤ r → r < reg + size → chip addr s₁.rtl_dev r ≡ some (get_or val (r - reg) 0)
  chunk_inside r lo hi =
      chip-wrote_inside addr reg (take size val) s.rtl_dev acked' r lo
        (omega (arith, length-take size val))
      ∙ ap some (get_or-take size val (r - reg) 0 (omega arith))

  chunk_outside :
      (r : ℕ) → (r < reg) ⊎ (reg + size ≤ r) → chip addr s₁.rtl_dev r ≡ chip addr s.rtl_dev r
  chunk_outside r out =
      chip-wrote_outside addr reg (take size val) s.rtl_dev acked' r
        (omega (arith, length-take size val))

  -- The last message of a write.
  IsTold-last : length val ≤ size → IsTold addr reg val s s₁
  IsTold-last all = record {
    bus = s₁.rtl_dev;
    same = refl;
    inside = λ r lo hi. chunk_inside r lo (omega arith);
    outside = λ r out. chunk_outside r (omega arith);
  }

  -- A message, and then the rest of the write.
  IsTold-more :
      {s' : Priv} → IsTold addr (reg + size) (drop size val) s₁ s' → IsTold addr reg val s s'
  IsTold-more rest = record {
    bus = rest.bus;
    same = rest.same;
    inside = λ r lo hi. elim (Bool-cases (ltb r (reg + size))) [
      | inl near ↦
          rest.outside r (inl (lt_of_ltb r (reg + size) near))
          ∙ chunk_inside r lo (lt_of_ltb r (reg + size) near)
      | inr far ↦
          let past : reg + size ≤ r = le_of_ltb r (reg + size) far in
          rest.inside r past (omega (arith, length-drop size val))
          ∙ ap some
              (get_or-drop size val (r - (reg + size)) 0 ∙ ap (λ i. get_or val i 0) (omega arith))
    ];
    outside = λ r out.
        rest.outside r (omega (arith, length-drop size val)) ∙ chunk_outside r (omega arith);
  }

OnlyTraffic-trans : {s t u : Priv} → OnlyTraffic s t → OnlyTraffic t u → OnlyTraffic s u
OnlyTraffic-trans {s} p q = record {
  bus = q.bus;
  same = q.same ∙ ap (λ (v : Priv). record v { rtl_dev = q.bus }) p.same;
}

module _ (usb : Usb) (addr max_msg : ℕ) (lo : 2 ≤ max_msg) (hi : max_msg ≤ 31) where
  abbrev Written : ℕ → List ℕ → Priv → Outcome (Unit {0}) × Priv → Type 0
  Written reg val s r = Post (λ _. IsTold addr reg val s) (OnlyTraffic s) r.0 r.1

  Written-weaker :
      (reg size : ℕ) (val : List ℕ) (s : Priv) (r : Outcome (Unit {0})) (s' : Priv)
      → size ≤ length val
      → answer usb addr (reg ∷ take size val) s ≡ pos (size + 1)
      → Written (reg + size) (drop size val) (after_write usb addr (reg ∷ take size val) s) (r, s')
      → Written reg val s (r, s')
  Written-weaker reg size val s (ok a) s' fits acked h =
      IsTold-more usb addr reg size val s fits acked h
  Written-weaker reg size val s (err n) s' fits acked h =
      OnlyTraffic-trans (record { bus = _; same = refl }) h
  Written-weaker reg size val s fault s' fits acked h = h

  pub write_chunks-IsTold :
      (fuel reg : ℕ) (val : List ℕ) (s : Priv)
      → length val < fuel
      → reg + length val ≤ 256
      → Written reg val s (write_chunks usb fuel addr max_msg reg val s)
  unfolding pure
  write_chunks-IsTold zero reg val s h fits = absurd (omega arith)
  write_chunks-IsTold (suc fuel) reg val s h fits =
      rw
        (write_chunks-suc usb fuel addr max_msg reg val s
          (omega (arith, length-take size val, bound)))
        (elim (Bool-cases (eq_ℤ (answer usb addr bytes s) (pos (size + 1)))) [
          | inl acked ↦ rw acked (elim (Bool-cases (length (drop size val) == 0)) [
            | inl last ↦ rw last (
                IsTold-last usb addr reg size val s at_most (arrived acked)
                  (omega (arith, length-drop size val, eq_of_== (length (drop size val)) 0 last)))
            | inr more ↦ rw more (
                let left : length (drop size val) ≢ 0 = ground arith in
                let next : (reg + size) % 256 ≡ reg + size = omega (arith, length-drop size val) in
                rw next (
                  Written-weaker reg size val s _ _ at_most (arrived acked) (
                    write_chunks-IsTold fuel (reg + size) (drop size val)
                      (after_write usb addr bytes s) (omega (arith, length-drop size val, bound))
                      (omega (arith, length-drop size val)))))
          ])
          | inr refused ↦ rw refused (
              fail_with-Post (λ _. IsTold addr reg val s) (OnlyTraffic s) (answer usb addr bytes s)
                _ (record { bus = _; same = refl }))
        ])
    where
      size : ℕ
      size = chunk_size max_msg (length val)

      bytes : List ℕ
      bytes = reg ∷ take size val

      bound : size ≡ min (max_msg - 1) (length val)
      bound = chunk_size_lem max_msg (length val) lo hi

      at_most : size ≤ length val
      at_most = omega (arith, bound)

      arrived :
          eq_ℤ (answer usb addr bytes s) (pos (size + 1)) ≡ true
          → answer usb addr bytes s ≡ pos (size + 1)
      arrived = eq_of_eq_ℤ (answer usb addr bytes s) (pos (size + 1))
