-- ===== src/Common/Masks.antt =====
-- `&` with a run of ones or a single one, and `|` of numbers without a common digit.
use Prim.Native.Nat.{
  ℕ, zero, suc, ◌+◌, ◌-◌, ◌*◌, ◌/◌, ◌%◌, ◌^◌, ◌<◌, bit_and, bit_or, bit_or-bitwise,
}
use mathlib.Core.Path.{◌≡◌, ◌∙◌}
use native.Mathlib.Nat.{pow-suc, mul_assoc}
use native.Mathlib.Omega.{arith}
use rtl_tcp_pi.Common.Bits.{bit_and-digit, bit_or-digit, bit_and-zero}

pow_pos : (k : ℕ) → 0 < 2 ^ k
pow_pos zero = omega arith
pow_pos (suc k) = omega (arith, pow-suc 2 k, pow_pos k)

times_double : (q k : ℕ) → q * 2 ^ suc k ≡ 2 * (q * 2 ^ k)
times_double q k = rw (pow-suc 2 k) (omega (arith, mul_assoc q (2 ^ k) 2))

pub bit_and_ones : (k x q r : ℕ) → r < 2 ^ k → x ≡ q * 2 ^ k + r → bit_and x (2 ^ k - 1) ≡ r
bit_and_ones zero x q r lt e = bit_and-zero x ∙ omega arith
bit_and_ones (suc k) x q r lt e =
    let half : (2 ^ suc k - 1) / 2 ≡ 2 ^ k - 1 = omega (arith, pow-suc 2 k, pow_pos k) in
    let odd : (2 ^ suc k - 1) % 2 ≡ 1 = omega (arith, pow-suc 2 k, pow_pos k) in
    let double = times_double q k in
    let rest =
      bit_and_ones k (x / 2) q (r / 2) (omega (arith, pow-suc 2 k)) (omega (arith, double)) in
    bit_and-digit x (2 ^ suc k - 1) ∙ rw (half, odd, rest) (omega (arith, double))

pub bit_and_one :
    (k x q b r : ℕ)
    → b < 2
    → r < 2 ^ k
    → x ≡ (q * 2 + b) * 2 ^ k + r
    → bit_and x (2 ^ k) ≡ b * 2 ^ k
bit_and_one zero x q b r hb lt e = bit_and-digit x 1 ∙ rw (bit_and-zero (x / 2)) (omega arith)
bit_and_one (suc k) x q b r hb lt e =
    let half : 2 ^ suc k / 2 ≡ 2 ^ k = omega (arith, pow-suc 2 k) in
    let even : 2 ^ suc k % 2 ≡ 0 = omega (arith, pow-suc 2 k) in
    let double = times_double (q * 2 + b) k in
    let rest =
      bit_and_one k (x / 2) q b (r / 2) hb (omega (arith, pow-suc 2 k)) (omega (arith, double)) in
    bit_and-digit x (2 ^ suc k) ∙ rw (half, even, rest) (omega (arith, times_double b k))

pub bit_or_disjoint : (k a c : ℕ) → a < 2 ^ k → bit_or a (c * 2 ^ k) ≡ a + c * 2 ^ k
bit_or_disjoint zero a c lt =
    let none : a ≡ 0 = omega arith in rw none (simp bit_or-bitwise (omega arith))
bit_or_disjoint (suc k) a c lt =
    let double = times_double c k in
    let half : c * 2 ^ suc k / 2 ≡ c * 2 ^ k = omega (arith, double) in
    let even : c * 2 ^ suc k % 2 ≡ 0 = omega (arith, double) in
    let rest = bit_or_disjoint k (a / 2) c (omega (arith, pow-suc 2 k)) in
    bit_or-digit a (c * 2 ^ suc k) ∙ rw (half, even, rest) (omega (arith, double))
