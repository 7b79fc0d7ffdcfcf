-- ===== src/RtlTcp/Order.antt =====
-- rtl-sdr/src/rtl_tcp.c: which buffers the queue holds, and in which order.
use rtl_tcp_pi.Common.{
  ℕ, zero, suc, ◌+◌, ◌-◌, ◌≤◌, ◌<◌, ◌≡◌, refl, ◌∙◌, ap, arith, true, false, List, [], ◌∷◌, ◌++◌,
  pos, length, drop, length-append, length-drop, Option, some, Bool-cases, inl, inr, ltb, lt_of_ltb,
  le_of_ltb, ◌+ℤ◌,
}
use rtl_tcp_pi.RtlTcp.{Buffers, Queue, is_full, link_last, enqueue, rtlsdr_callback, callbacks}

append_assoc : {A : Type 0} (xs ys zs : List A) → (xs ++ ys) ++ zs ≡ xs ++ (ys ++ zs)
append_assoc [] ys zs = refl
append_assoc (x ∷ xs) ys zs = ap (λ t. x ∷ t) (append_assoc xs ys zs)

module _ (n : ℕ) (positive : 1 ≤ n) where
  -- What the queue holds after one more buffer.
  abbrev pub latest : Buffers → Buffers
  latest xs = drop (length xs - (n + 3)) xs

  is_full-false : (k : ℕ) → k < n + 2 → is_full (pos n) k ≡ false
  unfolding is_full ◌+ℤ◌
  is_full-false k h = ground arith

  is_full-true : (k : ℕ) → k ≡ n + 2 → is_full (pos n) k ≡ true
  unfolding is_full ◌+ℤ◌
  is_full-true k h = ground arith

  enqueue-latest :
      (rpt : List ℕ) (xs : Buffers)
      → length xs ≤ n + 3
      → enqueue rpt (pos n) xs ≡ some (latest (xs ++ (rpt ∷ [])))
  unfolding enqueue link_last
  enqueue-latest rpt [] h = let e : 1 - (n + 3) ≡ 0 = omega arith in rw e refl
  enqueue-latest rpt (first ∷ rest) h = elim (Bool-cases (ltb (length rest) (n + 2))) [
    | inl room ↦
        let e : suc (length (rest ++ (rpt ∷ []))) - (n + 3) ≡ 0 =
          omega (arith, lt_of_ltb (length rest) (n + 2) room, length-append rest (rpt ∷ [])) in
        rw (is_full-false (length rest) (lt_of_ltb (length rest) (n + 2) room), e) refl
    | inr full ↦ drop_first rest (omega (arith, le_of_ltb (length rest) (n + 2) full, h))
  ]
    where
      drop_first :
          (rest : Buffers)
          → length rest ≡ n + 2
          → enqueue rpt (pos n) (first ∷ rest) ≡ some (latest ((first ∷ rest) ++ (rpt ∷ [])))
      drop_first [] e = absurd (omega arith)
      drop_first (next ∷ rest) e =
          let one : suc (suc (length (rest ++ (rpt ∷ [])))) - (n + 3) ≡ 1 =
            omega (arith, e, length-append rest (rpt ∷ [])) in
          rw (is_full-true (suc (length rest)) e, one) refl

append-nil : {A : Type 0} (xs : List A) → xs ++ [] ≡ xs
append-nil [] = refl
append-nil (x ∷ xs) = ap (λ t. x ∷ t) (append-nil xs)

drop-drop : {A : Type 0} (a b c : ℕ) (xs : List A) → c ≡ b + a → drop a (drop b xs) ≡ drop c xs
drop-drop a zero c xs e = let same : c ≡ a = omega arith in rw same refl
drop-drop zero (suc b) zero [] e = refl
drop-drop zero (suc b) (suc c) [] e = refl
drop-drop (suc a) (suc b) zero [] e = refl
drop-drop (suc a) (suc b) (suc c) [] e = refl
drop-drop a (suc b) zero (x ∷ xs) e = absurd (omega arith)
drop-drop a (suc b) (suc c) (x ∷ xs) e = drop-drop a b c xs (omega arith)

drop-append :
    {A : Type 0} (k : ℕ) (ys zs : List A) → k ≤ length ys → drop k ys ++ zs ≡ drop k (ys ++ zs)
drop-append zero ys zs h = refl
drop-append (suc k) [] zs h = absurd (omega arith)
drop-append (suc k) (y ∷ ys) zs h = drop-append k ys zs (omega arith)

module _ (n : ℕ) (positive : 1 ≤ n) where
  latest-latest :
      (ys zs : Buffers)
      → latest n positive (latest n positive ys ++ zs) ≡ latest n positive (ys ++ zs)
  latest-latest ys zs =
      let k = length ys - (n + 3) in
      let e = drop-append k ys zs (omega arith) in
      let len = length-drop k (ys ++ zs) in
      rw e (
        drop-drop (length (drop k (ys ++ zs)) - (n + 3)) k (length (ys ++ zs) - (n + 3)) (ys ++ zs)
          (omega (arith, len, length-append ys zs)))

  length-latest : (ys : Buffers) → length (latest n positive ys) ≤ n + 3
  length-latest ys = omega (arith, length-drop (length ys - (n + 3)) ys)

  -- The queue while the program runs: at most `n + 3` buffers.
  pub record IsRunning (q : Queue) : Type 0 where
    pub limit : q.llbuf_num ≡ pos n
    pub running : q.do_exit ≡ 0
    pub few : length q.ll_buffers ≤ n + 3

  -- A running queue that holds the buffers `xs`.
  pub record Holds (xs : Buffers) (r : Option Queue) : Type 0 where
    pub q : Queue
    pub returns : r ≡ some q
    pub is_running : IsRunning q
    pub buffers : q.ll_buffers ≡ xs

  callback-Holds :
      (buf : List ℕ) (q : Queue)
      → IsRunning q
      → Holds (latest n positive (q.ll_buffers ++ (buf ∷ []))) (rtlsdr_callback buf q)
  unfolding rtlsdr_callback
  callback-Holds buf q h =
      rw (h.running, h.limit, enqueue-latest n positive buf q.ll_buffers h.few)
        (record {
          q = _;
          returns = refl;
          is_running = record {
            limit = refl;
            running = refl;
            few = length-latest (q.ll_buffers ++ (buf ∷ []));
          };
          buffers = refl;
        })

  -- With a limit `n` of at least 1 and a running queue of at most `n + 3` buffers, any number of
  -- callbacks before the queue is taken leaves in it, in the order of their arrival, the latest
  -- `n + 3` of the buffers that were there and those that came, or all of them when they are
  -- fewer.
  pub callbacks-Holds :
      (bufs : List (List ℕ)) (q : Queue)
      → IsRunning q
      → Holds (latest n positive (q.ll_buffers ++ bufs)) (callbacks bufs q)
  unfolding callbacks
  callbacks-Holds [] q h = record {
    q = q;
    returns = refl;
    is_running = h;
    buffers =
        let e : length q.ll_buffers - (n + 3) ≡ 0 = omega (arith, h.few) in
        rw (append-nil q.ll_buffers, e) refl;
  }
  callbacks-Holds (buf ∷ bufs) q h =
      let first = callback-Holds buf q h in
      let rest = callbacks-Holds bufs first.q first.is_running in
      rw (callbacks, first.returns)
        (record {
          q = rest.q;
          returns = rest.returns;
          is_running = rest.is_running;
          buffers =
              rest.buffers
              ∙ ap (λ t. latest n positive (t ++ bufs)) first.buffers
              ∙ latest-latest (q.ll_buffers ++ (buf ∷ [])) bufs
              ∙ ap (latest n positive) (append_assoc q.ll_buffers (buf ∷ []) bufs);
        })
