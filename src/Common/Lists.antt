-- ===== src/Common/Lists.antt =====
-- C arrays as lists with native indices. A write out of range changes nothing.
use Prim.Native.Nat.{ℕ, zero, suc, ◌+◌, ◌-◌, ◌<◌, ◌≤◌, min}
use mathlib.Core.Path.{◌≡◌, refl, sym, ap, ap₂, ◌∙◌}
use mathlib.Core.Logic.{◌≢◌, ◌⊎◌, inl, inr}
use mathlib.Core.List.{List, [], ◌∷◌, ◌++◌}
use native.Mathlib.Omega.{arith}
use rtl_tcp_pi.Common.Tests.{Bool-cases, ◌==◌, eq_of_==}

module _ {ℓ} {A : Type ℓ} where
  abbrev pub length : List A → ℕ
  length [] = 0
  length (x ∷ xs) = suc (length xs)

  abbrev pub get_or : List A → ℕ → A → A
  get_or [] i d = d
  get_or (x ∷ xs) zero d = x
  get_or (x ∷ xs) (suc i) d = get_or xs i d

  abbrev pub set : List A → ℕ → A → List A
  set [] i v = []
  set (x ∷ xs) zero v = v ∷ xs
  set (x ∷ xs) (suc i) v = x ∷ set xs i v

  abbrev pub take : ℕ → List A → List A
  take zero xs = []
  take (suc n) [] = []
  take (suc n) (x ∷ xs) = x ∷ take n xs

  abbrev pub drop : ℕ → List A → List A
  drop zero xs = xs
  drop (suc n) [] = []
  drop (suc n) (x ∷ xs) = drop n xs

  -- `memcpy(&xs[i], ys, length ys)`
  abbrev pub splice : List A → ℕ → List A → List A
  splice xs i [] = xs
  splice xs i (y ∷ ys) = splice (set xs i y) (i + 1) ys

  pub length-set : (xs : List A) (i : ℕ) (v : A) → length (set xs i v) ≡ length xs
  length-set [] i v = refl
  length-set (x ∷ xs) zero v = refl
  length-set (x ∷ xs) (suc i) v = ap suc (length-set xs i v)

  pub get_or-set_self :
      (xs : List A) (i : ℕ) (v d : A) → i < length xs → get_or (set xs i v) i d ≡ v
  get_or-set_self [] i v d h = absurd (omega arith)
  get_or-set_self (x ∷ xs) zero v d h = refl
  get_or-set_self (x ∷ xs) (suc i) v d h = get_or-set_self xs i v d (omega arith)

  pub get_or-set_ne :
      (xs : List A) (i j : ℕ) (v d : A) → i ≢ j → get_or (set xs i v) j d ≡ get_or xs j d
  get_or-set_ne [] i j v d h = refl
  get_or-set_ne (x ∷ xs) zero zero v d h = absurd (h refl)
  get_or-set_ne (x ∷ xs) zero (suc j) v d h = refl
  get_or-set_ne (x ∷ xs) (suc i) zero v d h = refl
  get_or-set_ne (x ∷ xs) (suc i) (suc j) v d h = get_or-set_ne xs i j v d (λ e. h (ap suc e))

  pub length-append : (xs ys : List A) → length (xs ++ ys) ≡ length xs + length ys
  length-append [] ys = omega arith
  length-append (x ∷ xs) ys = omega (arith, length-append xs ys)

  pub length-take : (n : ℕ) (xs : List A) → length (take n xs) ≡ min n (length xs)
  length-take zero xs = omega arith
  length-take (suc n) [] = omega arith
  length-take (suc n) (x ∷ xs) = omega (arith, length-take n xs)

  pub length-drop : (n : ℕ) (xs : List A) → length (drop n xs) ≡ length xs - n
  length-drop zero xs = omega arith
  length-drop (suc n) [] = omega arith
  length-drop (suc n) (x ∷ xs) = omega (arith, length-drop n xs)

  pub length-splice : (xs : List A) (i : ℕ) (ys : List A) → length (splice xs i ys) ≡ length xs
  length-splice xs i [] = refl
  length-splice xs i (y ∷ ys) =
      omega (arith, length-splice (set xs i y) (i + 1) ys, length-set xs i y)

  pub get_or-take :
      (n : ℕ) (xs : List A) (i : ℕ) (d : A) → i < n → get_or (take n xs) i d ≡ get_or xs i d
  get_or-take zero xs i d h = absurd (omega arith)
  get_or-take (suc n) [] i d h = refl
  get_or-take (suc n) (x ∷ xs) zero d h = refl
  get_or-take (suc n) (x ∷ xs) (suc i) d h = get_or-take n xs i d (omega arith)

  pub get_or-drop :
      (n : ℕ) (xs : List A) (i : ℕ) (d : A) → get_or (drop n xs) i d ≡ get_or xs (n + i) d
  get_or-drop zero xs i d = ap (λ k. get_or xs k d) (omega arith)
  get_or-drop (suc n) [] i d = refl
  get_or-drop (suc n) (x ∷ xs) i d =
      get_or-drop n xs i d
      ∙ ap (λ k. get_or (x ∷ xs) k d) (let e : suc (n + i) ≡ suc n + i = omega arith in e)

  pub take-all : (n : ℕ) (xs : List A) → length xs ≤ n → take n xs ≡ xs
  take-all zero [] h = refl
  take-all zero (x ∷ xs) h = absurd (omega arith)
  take-all (suc n) [] h = refl
  take-all (suc n) (x ∷ xs) h = ap (λ ys. x ∷ ys) (take-all n xs (omega arith))

  pub get_or-splice_outside :
      (xs : List A) (i : ℕ) (ys : List A) (j : ℕ) (d : A)
      → (j < i) ⊎ (i + length ys ≤ j)
      → get_or (splice xs i ys) j d ≡ get_or xs j d
  get_or-splice_outside xs i [] j d h = refl
  get_or-splice_outside xs i (y ∷ ys) j d h =
      get_or-splice_outside (set xs i y) (i + 1) ys j d (omega arith)
      ∙ get_or-set_ne xs i j y d (omega arith)

  pub get_or-splice_inside :
      (xs : List A) (i : ℕ) (ys : List A) (j : ℕ) (d : A)
      → i ≤ j
      → j < i + length ys
      → j < length xs
      → get_or (splice xs i ys) j d ≡ get_or ys (j - i) d
  get_or-splice_inside xs i [] j d lo hi h = absurd (omega arith)
  get_or-splice_inside xs i (y ∷ ys) j d lo hi h = elim (Bool-cases (i == j)) [
    | inl e ↦
        get_or-splice_outside (set xs i y) (i + 1) ys j d (omega (arith, eq_of_== i j e))
        ∙ ap (λ k. get_or (set xs i y) k d) (sym (eq_of_== i j e))
        ∙ get_or-set_self xs i y d (omega (arith, eq_of_== i j e))
        ∙ ap (λ k. get_or (y ∷ ys) k d) (let z : 0 ≡ j - i = omega (arith, eq_of_== i j e) in z)
    | inr e ↦
        get_or-splice_inside (set xs i y) (i + 1) ys j d (ground arith) (omega arith)
          (omega (arith, length-set xs i y))
        ∙ ap (λ k. get_or (y ∷ ys) k d) (let z : suc (j - (i + 1)) ≡ j - i = ground arith in z)
  ]

  pub get_or-past : (xs : List A) (i : ℕ) (d : A) → length xs ≤ i → get_or xs i d ≡ d
  get_or-past [] i d h = refl
  get_or-past (x ∷ xs) zero d h = absurd (omega arith)
  get_or-past (x ∷ xs) (suc i) d h = get_or-past xs i d (omega arith)

  pub get_or_ext :
      (d : A) (xs ys : List A)
      → length xs ≡ length ys
      → ((i : ℕ) → i < length xs → get_or xs i d ≡ get_or ys i d)
      → xs ≡ ys
  get_or_ext d [] [] e h = refl
  get_or_ext d [] (y ∷ ys) e h = absurd (omega arith)
  get_or_ext d (x ∷ xs) [] e h = absurd (omega arith)
  get_or_ext d (x ∷ xs) (y ∷ ys) e h =
      ap₂ ◌∷◌ (h 0 (omega arith))
        (get_or_ext d xs ys (omega arith) (λ i below. h (suc i) (omega arith)))
