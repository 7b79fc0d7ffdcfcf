-- ===== src/Driver/Safe.antt =====
-- Hoare rules for driver calls, one for each way to build a call.
use rtl_tcp_pi.Common.{ℕ, Bool, true, false, if◌then◌else◌, ◌≡◌, ◌≢◌, refl}
use rtl_tcp_pi.Driver.{
  Outcome, ok, err, fault, Driver, continue, pure, fail, gets, modify, finally, ignored, ignore,
  ◌>>=◌,
}

-- What holds after a call: `Q` of the value it returns, or `E` after an error. It returns.
abbrev pub Post : {S A : Type 0} → (A → S → Type 0) → (S → Type 0) → Outcome A → S → Type 0
Post Q E (ok a) s = Q a s
Post Q E (err n) s = E s
Post Q E fault s = ⊥

pub Post-map :
    {S A : Type 0} (Q Q' : A → S → Type 0) (E E' : S → Type 0) (r : Outcome A) (s : S)
    → ((a : A) → Q a s → Q' a s)
    → (E s → E' s)
    → Post Q E r s
    → Post Q' E' r s
Post-map Q Q' E E' (ok a) s f g h = f a h
Post-map Q Q' E E' (err n) s f g h = g h
Post-map Q Q' E E' fault s f g h = h

pub ok-Post :
    {S A : Type 0} (P E : S → Type 0) (r : Outcome A) (s : S) {a : A}
    → r ≡ ok a
    → Post (λ _. P) E r s
    → P s
ok-Post P E (ok a) s e h = h
ok-Post P E (err n) s e h = cc
ok-Post P E fault s e h = cc

pub any-Post :
    {S A : Type 0} (P : S → Type 0) (r : Outcome A) (s : S)
    → Post (λ _. P) P r s
    → P s × (r ≢ fault)
any-Post P (ok a) s h = (h, λ e. cc)
any-Post P (err n) s h = (h, λ e. cc)
any-Post P fault s h = absurd h

pub record Triple {S A : Type 0} (P : S → Type 0) (E : S → Type 0) (m : Driver S A)
    (Q : A → S → Type 0) : Type 0 where
  pub at : (s : S) → P s → Post Q E (m s).0 (m s).1

-- `m` keeps `P` when it succeeds, leaves `E` when it fails, and returns in either case.
abbrev pub Safe : {S A : Type 0} → (S → Type 0) → (S → Type 0) → Driver S A → Type 0
Safe P E m = Triple P E m (λ _. P)

module _ {S A : Type 0} {P E : S → Type 0} {Q : A → S → Type 0} where
  pub Triple-pure : (a : A) → ((s : S) → P s → Q a s) → Triple P E (pure a) Q
  unfolding pure
  Triple-pure a h = record { at = h }

  pub Triple-fail : (n : ℕ) → ((s : S) → P s → E s) → Triple P E (fail {A = A} n) Q
  unfolding fail
  Triple-fail n h = record { at = h }

  pub Triple-gets : (f : S → A) → ((s : S) → P s → Q (f s) s) → Triple P E (gets f) Q
  unfolding gets
  Triple-gets f h = record { at = h }

  pub Triple-if :
      (b : Bool) (m n : Driver S A)
      → (b ≡ true → Triple P E m Q)
      → (b ≡ false → Triple P E n Q)
      → Triple P E (if b then m else n) Q
  Triple-if true m n hm hn = hm refl
  Triple-if false m n hm hn = hn refl

pub Triple-modify :
    {S : Type 0} {P E : S → Type 0} {Q : Unit {0} → S → Type 0} (f : S → S)
    → ((s : S) → P s → Q tt (f s))
    → Triple P E (modify f) Q
unfolding modify
Triple-modify f h = record { at = h }

module _ {S A B : Type 0} where
  pub bind-ok :
      (m : Driver S A) (f : A → Driver S B) {s s' : S} {a : A}
      → m s ≡ (ok a, s')
      → (m >>= f) s ≡ f a s'
  unfolding ◌>>=◌
  bind-ok m f e = rw e refl

module _ {S A B : Type 0} {E : S → Type 0} {Q : B → S → Type 0} where
  continue-Post :
      (R : A → S → Type 0) (f : A → Driver S B) (r : Outcome A) (s : S)
      → ((a : A) → Triple (R a) E (f a) Q)
      → Post R E r s
      → Post Q E (continue r f s).0 (continue r f s).1
  continue-Post R f (ok a) s hf h = (hf a).at s h
  continue-Post R f (err n) s hf h = h
  continue-Post R f fault s hf h = h

  pub Triple-bind :
      {P : S → Type 0} (R : A → S → Type 0) (m : Driver S A) (f : A → Driver S B)
      → Triple P E m R
      → ((a : A) → Triple (R a) E (f a) Q)
      → Triple P E (m >>= f) Q
  unfolding ◌>>=◌
  Triple-bind R m f hm hf = record {
    at = λ s h. let (r, s') = m s in continue-Post R f r s' hf (hm.at s h);
  }

module _ {S A B : Type 0} {P E : S → Type 0} where
  pub Safe-bind :
      (m : Driver S A) (f : A → Driver S B)
      → Safe P E m
      → ((a : A) → Safe P E (f a))
      → Safe P E (m >>= f)
  Safe-bind m f hm hf = Triple-bind (λ _. P) m f hm hf

module _ {S A : Type 0} {P E : S → Type 0} where
  pub Safe-pure : (a : A) → Safe P E (pure a)
  Safe-pure a = Triple-pure a (λ s h. h)

  pub Safe-gets : (f : S → A) → Safe P E (gets f)
  Safe-gets f = Triple-gets f (λ s h. h)

pub ruleset safe_rules = (Safe-pure, Safe-gets, Safe-bind, Triple-if)

-- A fact that does not depend on the state, used in the rest of the call.
pub Triple-given :
    {S A : Type 0} {P E : S → Type 0} {Q : A → S → Type 0} {C : Type 0} (m : Driver S A)
    → (C → Triple P E m Q)
    → Triple (λ s. P s × C) E m Q
Triple-given m f = record { at = λ s h. (f h.1).at s h.0 }

finally-Post :
    {S A : Type 0} (P E : S → Type 0) (f : S → S) (r : Outcome A) (s : S)
    → ((s : S) → P s → P (f s))
    → ((s : S) → E s → E (f s))
    → Post (λ _. P) E r s
    → Post (λ _. P) E r (f s)
finally-Post P E f (ok a) s hp he h = hp s h
finally-Post P E f (err n) s hp he h = he s h
finally-Post P E f fault s hp he h = h

pub Safe-finally :
    {S A : Type 0} {P E : S → Type 0} (f : S → S) (m : Driver S A)
    → ((s : S) → P s → P (f s))
    → ((s : S) → E s → E (f s))
    → Safe P E m
    → Safe P E (finally f m)
Safe-finally {P = P} {E = E} f m hp he h = record {
  at = λ s p. let (r, s') = m s in finally-Post P E f r s' hp he (h.at s p);
}

ignored-Post :
    {S A : Type 0} (P : S → Type 0) (r : Outcome A) (s : S)
    → Post (λ _. P) P r s
    → Post (λ _. P) P (ignored r) s
ignored-Post P (ok a) s h = h
ignored-Post P (err n) s h = h
ignored-Post P fault s h = h

pub Safe-ignore :
    {S A : Type 0} {P : S → Type 0} (m : Driver S A) → Safe P P m → Safe P P (ignore m)
Safe-ignore {P = P} m h = record { at = λ s p. let (r, s') = m s in ignored-Post P r s' (h.at s p) }
