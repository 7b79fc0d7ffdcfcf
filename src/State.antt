-- ===== src/State.antt =====
-- Functions of librtlsdr.c that update an object and return a plain value: state passing.

abbrev pub State : Type 0 → Type 0 → Type 0
State S A = S → A × S

module _ {S A : Type 0} where
  abbrev pub pure : A → State S A
  pure a s = (a, s)

  abbrev pub gets : (S → A) → State S A
  gets f s = (f s, s)

module _ {S A B : Type 0} where
  infixl 10 ◌>>=◌ ◌>>◌
  abbrev pub ◌>>=◌ : State S A → (A → State S B) → State S B
  ◌>>=◌ m f s = let (a, s') = m s in f a s'

  -- The value of the first call is dropped, as the source drops a return value.
  abbrev pub ◌>>◌ : State S A → State S B → State S B
  m >> n = m >>= λ _. n

abbrev pub modify : {S : Type 0} → (S → S) → State S (Unit {0})
modify f s = (tt, f s)
