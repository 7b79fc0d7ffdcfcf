-- ===== src/Common/Bits.antt =====
-- `&` and `|` by their lowest digits: bounds, and what a write under a mask keeps and changes.
use Prim.Native.Nat.{
  ℕ, zero, suc, ◌+◌, ◌-◌, ◌*◌, ◌/◌, ◌%◌, ◌^◌, ◌≤◌, ◌<◌, min, max, bit_and, bit_or, digits, bitwise,
  bit_and-bitwise, bit_or-bitwise,
}
use mathlib.Core.Path.{◌≡◌, refl}
use mathlib.Core.Bool.{Bool, true, ◌&&◌}
use native.Mathlib.Nat.{pow-suc}
use native.Mathlib.Omega.{arith}

-- A predicate on the numbers below `n`, checked by evaluation.
unfoldable pub all_below : ℕ → (ℕ → Bool) → Bool
all_below zero p = true
all_below (suc n) p = p n && all_below n p

pub all_below-at : (n : ℕ) (p : ℕ → Bool) (x : ℕ) → all_below n p ≡ true → x < n → p x ≡ true
unfolding all_below
all_below-at zero p x h lt = absurd (omega arith)
all_below-at (suc n) p x h lt = ground (arith, all_below-at n p x)

-- The fuel of `digits` is enough from its first argument on.
module _ (z : ℕ → ℕ) (f : ℕ → ℕ → ℕ) where
  digits-enough : (n m a b : ℕ) → a ≤ n → a ≤ m → digits z f n a b ≡ digits z f m a b
  digits-enough n m zero b p q = both_zero n m
    where
      both_zero : (n m : ℕ) → digits z f n 0 b ≡ digits z f m 0 b
      both_zero zero zero = refl
      both_zero zero (suc m) = refl
      both_zero (suc n) zero = refl
      both_zero (suc n) (suc m) = refl
  digits-enough zero m (suc a) b p q = absurd (omega arith)
  digits-enough (suc n) zero (suc a) b p q = absurd (omega arith)
  digits-enough (suc n) (suc m) (suc a) b p q =
      rw (digits-enough n m (suc a / 2) (b / 2) (omega arith) (omega arith))

  bitwise-digit :
      (a b : ℕ)
      → bitwise z f (suc a) b ≡ bitwise z f (suc a / 2) (b / 2) * 2 + f (suc a % 2) (b % 2)
  bitwise-digit a b =
      omega (arith, digits-enough a (suc a / 2) (suc a / 2) (b / 2) (omega arith) (omega arith))

pub bit_or-digit : (a b : ℕ) → bit_or a b ≡ bit_or (a / 2) (b / 2) * 2 + max (a % 2) (b % 2)
bit_or-digit zero b = simp bit_or-bitwise (omega arith)
bit_or-digit (suc a) b = simp bit_or-bitwise (bitwise-digit (λ y. y) max a b)

pub bit_and-digit : (a b : ℕ) → bit_and a b ≡ bit_and (a / 2) (b / 2) * 2 + min (a % 2) (b % 2)
bit_and-digit zero b = simp bit_and-bitwise (omega arith)
bit_and-digit (suc a) b = simp bit_and-bitwise (bitwise-digit (λ y. 0) min a b)

pub bit_or-lt : (k a b : ℕ) → a < 2 ^ k → b < 2 ^ k → bit_or a b < 2 ^ k
bit_or-lt zero a b p q =
    let e : a ≡ 0 = omega arith in let e' : b ≡ 0 = omega arith in rw (e, e') (omega arith)
bit_or-lt (suc k) a b p q = omega (
  arith,
  bit_or-digit a b,
  pow-suc 2 k,
  bit_or-lt k (a / 2) (b / 2) (omega (arith, pow-suc 2 k)) (omega (arith, pow-suc 2 k)),
)

pub bit_and-lt : (k a b : ℕ) → a < 2 ^ k → bit_and a b < 2 ^ k
bit_and-lt zero a b p = let e : a ≡ 0 = omega arith in rw (e) (omega (arith, bit_and-bitwise 0 b))
bit_and-lt (suc k) a b p = omega (
  arith,
  bit_and-digit a b,
  pow-suc 2 k,
  bit_and-lt k (a / 2) (b / 2) (omega (arith, pow-suc 2 k)),
)

bit_or-half : (a b : ℕ) → bit_or a b / 2 ≡ bit_or (a / 2) (b / 2)
bit_or-half a b = omega (arith, bit_or-digit a b)

bit_or-mod : (a b : ℕ) → bit_or a b % 2 ≡ max (a % 2) (b % 2)
bit_or-mod a b = omega (arith, bit_or-digit a b)

bit_and-half : (a b : ℕ) → bit_and a b / 2 ≡ bit_and (a / 2) (b / 2)
bit_and-half a b = omega (arith, bit_and-digit a b)

bit_and-mod : (a b : ℕ) → bit_and a b % 2 ≡ min (a % 2) (b % 2)
bit_and-mod a b = omega (arith, bit_and-digit a b)

-- The bits of a `k`-bit number that are not in `m`.
abbrev pub complement : ℕ → ℕ → ℕ
complement k m = 2 ^ k - 1 - m

complement-half : (k m : ℕ) → complement (suc k) m / 2 ≡ complement k (m / 2)
complement-half k m = omega (arith, pow-suc 2 k)

complement-mod : (k m : ℕ) → m < 2 ^ suc k → complement (suc k) m % 2 + m % 2 ≡ 1
complement-mod k m h = omega (arith, pow-suc 2 k)

-- `(a & ~m) | (v & m)`: the bits of `v` in the mask, those of `a` outside it.
abbrev pub merge : ℕ → ℕ → ℕ → ℕ → ℕ
merge k a v m = bit_or (bit_and a (complement k m)) (bit_and v m)

merge-half : (k a v m : ℕ) → merge (suc k) a v m / 2 ≡ merge k (a / 2) (v / 2) (m / 2)
merge-half k a v m =
    rw (bit_or-half, bit_and-half a (complement (suc k) m), bit_and-half v m, complement-half) refl

merge-mod :
    (k a v m : ℕ)
    → merge (suc k) a v m % 2 ≡ max (min (a % 2) (complement (suc k) m % 2)) (min (v % 2) (m % 2))
merge-mod k a v m = rw (bit_or-mod, bit_and-mod a (complement (suc k) m), bit_and-mod v m) refl

bit_and-zero_below : (n a : ℕ) → a ≤ n → bit_and a 0 ≡ 0
bit_and-zero_below n zero h = bit_and-bitwise 0 0
bit_and-zero_below zero (suc a) h = absurd (omega arith)
bit_and-zero_below (suc n) (suc a) h =
    omega (arith, bit_and-digit (suc a) 0, bit_and-zero_below n (suc a / 2) (omega arith))

pub bit_and-zero : (a : ℕ) → bit_and a 0 ≡ 0
bit_and-zero a = bit_and-zero_below a a (omega arith)

-- Inside the mask a merge has the bits of `v`.
pub merge-inside : (k a v m : ℕ) → m < 2 ^ k → bit_and (merge k a v m) m ≡ bit_and v m
merge-inside zero a v m h =
    let e : m ≡ 0 = omega arith in rw (e, bit_and-zero (merge 0 a v 0), bit_and-zero v) refl
merge-inside (suc k) a v m h =
    let below : bit_and (merge (suc k) a v m / 2) (m / 2) ≡ bit_and (v / 2) (m / 2) =
      rw (merge-half k a v m)
        (merge-inside k (a / 2) (v / 2) (m / 2) (omega (arith, pow-suc 2 k))) in
    omega (
      arith,
      bit_and-digit (merge (suc k) a v m) m,
      bit_and-digit v m,
      merge-mod k a v m,
      complement-mod k m h,
      below,
    )

-- Outside the mask it keeps the bits of `a`.
pub merge-outside :
    (k a v m : ℕ)
    → m < 2 ^ k
    → bit_and (merge k a v m) (complement k m) ≡ bit_and a (complement k m)
merge-outside zero a v m h =
    let e : complement 0 m ≡ 0 = omega arith in
    rw (e, bit_and-zero (bit_or (bit_and a 0) (bit_and v m)), bit_and-zero a) refl
merge-outside (suc k) a v m h =
    let below : bit_and (merge (suc k) a v m / 2) (complement (suc k) m / 2)
        ≡ bit_and (a / 2) (complement (suc k) m / 2) =
      rw (merge-half k a v m, complement-half)
        (merge-outside k (a / 2) (v / 2) (m / 2) (omega (arith, pow-suc 2 k))) in
    omega (
      arith,
      bit_and-digit (merge (suc k) a v m) (complement (suc k) m),
      bit_and-digit a (complement (suc k) m),
      merge-mod k a v m,
      complement-mod k m h,
      below,
    )

-- A merge of a number with its own bits.
pub merge_self : (k a m : ℕ) → a < 2 ^ k → m < 2 ^ k → merge k a a m ≡ a
merge_self zero a m ha h =
    let e : m ≡ 0 = omega arith in
    let e' : a ≡ 0 = omega arith in rw (e, e') (rw (bit_and-zero 0, bit_or-bitwise 0 0) refl)
merge_self (suc k) a m ha h = omega (
  arith,
  merge-half k a a m,
  merge-mod k a a m,
  complement-mod k m h,
  merge_self k (a / 2) (m / 2) (omega (arith, pow-suc 2 k)) (omega (arith, pow-suc 2 k)),
)

pub merge-lt : (k a v m : ℕ) → a < 2 ^ k → v < 2 ^ k → merge k a v m < 2 ^ k
merge-lt k a v m ha hv =
    bit_or-lt k (bit_and a (complement k m)) (bit_and v m) (bit_and-lt k a (complement k m) ha)
      (bit_and-lt k v m hv)
