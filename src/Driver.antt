-- ===== src/Driver.antt =====
-- The calling convention of the tuner drivers: `rc = f(...); if (rc < 0) return rc;`. A call
-- updates the driver's state, which stays updated when it returns early with an error code.
pub mod Safe
use rtl_tcp_pi.Common.{ℕ}

-- `err n` is the return value -(n + 1). `fault` is a call that does not return: a loop without
-- end or a division by zero.
pub data Outcome (A : Type 0) : Type 0 where
  ok : A → Outcome A
  err : ℕ → Outcome A
  fault : Outcome A

abbrev pub Driver : Type 0 → Type 0 → Type 0
Driver S A = S → Outcome A × S

module _ {S A : Type 0} where
  unfoldable pub pure : A → Driver S A
  pure a s = (ok a, s)

  unfoldable pub fail : ℕ → Driver S A
  fail n s = (err n, s)

  unfoldable pub hang : Driver S A
  hang s = (fault, s)

  unfoldable pub gets : (S → A) → Driver S A
  gets f s = (ok (f s), s)

unfoldable pub modify : {S : Type 0} → (S → S) → Driver S (Unit {0})
modify f s = (ok tt, f s)

-- A call of a lower layer on a part of the state; it hands its return value over as it is.
unfoldable pub call : {S T A : Type 0} → (S → T) → (T → S → S) → (T → A × T) → Driver S A
call get put m s = let (a, t) = m (get s) in (ok a, put t s)

module _ {S A B : Type 0} where
  abbrev pub continue : Outcome A → (A → Driver S B) → Driver S B
  continue (ok a) f s = f a s
  continue (err n) f s = (err n, s)
  continue fault f s = (fault, s)

  infixl 10 ◌>>=◌ ◌>>◌
  unfoldable pub ◌>>=◌ : Driver S A → (A → Driver S B) → Driver S B
  ◌>>=◌ m f s = let (r, s') = m s in continue r f s'

  abbrev pub ◌>>◌ : Driver S A → Driver S B → Driver S B
  m >> n = m >>= λ _. n

-- A call whose return value is kept while `f` updates the state behind it.
abbrev pub finally : {S A : Type 0} → (S → S) → Driver S A → Driver S A
finally f m s = let (r, s') = m s in (r, f s')

abbrev pub ignored : {A : Type 0} → Outcome A → Outcome (Unit {0})
ignored (ok a) = ok tt
ignored (err n) = ok tt
ignored fault = fault

-- A call whose return value is dropped.
abbrev pub ignore : {S A : Type 0} → Driver S A → Driver S (Unit {0})
ignore m s = let (r, s') = m s in (ignored r, s')
