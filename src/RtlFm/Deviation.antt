-- ===== src/RtlFm/Deviation.antt =====
-- rtl-sdr/src/rtl_fm.c: `mad` on a signal that does not vary.
use rtl_tcp_pi.Common.{
  ℕ, zero, suc, ◌+◌, ◌*◌, ◌/◌, ◌<◌, ◌≡◌, refl, ap, ◌∙◌, arith, ◌==◌, ==_of_ne, false, List, [], ◌∷◌,
  ℤ, pos, ◌+ℤ◌, sub_ℤ, quot_ℤ, magnitude,
}
use native.Mathlib.Nat.{suc-mul, mul_comm, mul_assoc, mul-div_cancel, mul-div_cancel_left}
use rtl_tcp_pi.RtlFm.Squelch.{every_second, total, deviations, mad}

-- The samples of a constant signal, two for each step of the loop.
abbrev pub constant : ℕ → ℤ → List ℤ
constant zero v = []
constant (suc n) v = v ∷ v ∷ constant n v

abbrev copies : ℕ → ℤ → List ℤ
copies zero v = []
copies (suc n) v = v ∷ copies n v

picked : (n : ℕ) (v : ℤ) → every_second (constant n v) ≡ copies n v
unfolding every_second
picked zero v = refl
picked (suc n) v = ap (λ l. v ∷ l) (picked n v)

add_pos : (a b : ℕ) → pos a +ℤ pos b ≡ pos (a + b)
unfolding ◌+ℤ◌
add_pos a b = ground arith

total-copies : (n a : ℕ) → total (copies n (pos a)) ≡ pos (n * a)
unfolding total
total-copies zero a = ap pos (omega arith)
total-copies (suc n) a =
    rw (total-copies n a) (add_pos a (n * a) ∙ ap pos (omega (arith, suc-mul n a)))

deviations-copies : (n : ℕ) (ave v : ℤ) → deviations ave (copies n v) ≡ n * magnitude (sub_ℤ v ave)
unfolding deviations
deviations-copies zero ave v = omega arith
deviations-copies (suc n) ave v =
    omega (arith, deviations-copies n ave v, suc-mul n (magnitude (sub_ℤ v ave)))

quarter : (n k : ℕ) → 0 < n → quot_ℤ (pos (n * (4 * k))) (2 * n * 2) ≡ pos k
unfolding quot_ℤ
quarter n k some =
    let four : n * (4 * k) ≡ k * (2 * n * 2) = omega (arith, mul_comm n k, mul_assoc n 4 k) in
    let whole : n * (4 * k) / (2 * n * 2) ≡ k = rw four (mul-div_cancel k (omega arith)) in
    let none : 0 / (2 * n * 2) ≡ 0 =
      ap (λ m. m / (2 * n * 2)) (let z : 0 ≡ 0 * (2 * n * 2) = omega arith in z)
      ∙ mul-div_cancel 0 {n = 2 * n * 2} (omega arith) in
    rw (whole, none) (ground arith)

three_quarters : (k : ℕ) → magnitude (sub_ℤ (pos (4 * k)) (pos k)) ≡ 3 * k
unfolding sub_ℤ
three_quarters k = ground arith

-- For a signal that has the value 4 k throughout, `mad` is 3 k and not 0: the sum of the samples is
-- divided by twice the length, where their number is half of it.
pub mad-biased : (n k : ℕ) → 0 < n → mad (2 * n) (constant n (pos (4 * k))) ≡ 3 * k
unfolding mad
mad-biased n k some =
    let half : 2 * n / 2 ≡ n = omega arith in
    let zero_mul : 2 * n == 0 ≡ false = ==_of_ne (2 * n) 0 (omega arith) in
    rw (zero_mul, picked n (pos (4 * k)), half)
      (rw (total-copies n (4 * k)) (
        rw (quarter n k some) (
          rw (deviations-copies n (pos k) (pos (4 * k)), three_quarters k)
            (mul-div_cancel_left (3 * k) some))))
