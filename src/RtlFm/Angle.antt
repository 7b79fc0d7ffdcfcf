-- ===== src/RtlFm/Angle.antt =====
-- rtl-sdr/src/rtl_fm.c: the quadrant of the angle that `fast_atan2` computes.
use rtl_tcp_pi.Common.{
  ◌+ℤ◌, refl, ap, ◌∙◌, if◌then◌else◌, ℕ, zero, suc, ◌+◌, ◌-◌, ◌*◌, ◌/◌, ◌≤◌, ◌<◌, ◌≡◌, inl, inr,
  arith, true, false, eq_ℤ, ltb_ℤ, ◌&&◌, Bool-cases, ℤ, pos, negsuc, sub_ℤ, neg_ℤ, ◌*ℤ◌, quot_ℤ,
  ◌≤ℤ◌, ◌<ℤ◌, magnitude,
}
use native.Mathlib.Nat.{div-lt_iff_lt-mul, add-mul}
use rtl_tcp_pi.RtlFm.Demod.{int32, quot_int, right_angle, left_angle, upper_angle, fast_atan2}

quotient-le : (a d k : ℕ) → 0 < d → a ≤ k * d → a / d ≤ k
quotient-le a d k positive le = omega (
  arith,
  (div-lt_iff_lt-mul {k = d} {x = a} {y = k + 1} positive).1 (omega (arith, add-mul k 1 d)),
)

-- A quotient of at most `k` in size.
abbrev Within : ℤ → ℕ → Type 0
Within a k = magnitude a ≤ k

quot-Within : (a : ℤ) (d k : ℕ) → 0 < d → magnitude a ≤ k * d → Within (quot_ℤ a d) k
unfolding quot_ℤ
quot-Within (pos n) d k positive le =
    ground
      (arith, quotient-le n d k positive (omega arith), quotient-le 0 d 0 positive (omega arith))
quot-Within (negsuc n) d k positive le = ground (
  arith,
  quotient-le (suc n) d k positive (omega arith),
  quotient-le 0 d 0 positive (omega arith),
)

product-Within : (x y : ℕ) → Within (pos 4096 *ℤ sub_ℤ (pos x) (pos y)) (4096 * (x + y))
unfolding ◌*ℤ◌ sub_ℤ
product-Within x y = ground arith

-- From `lo` to `hi`.
abbrev Between : ℕ → ℕ → ℤ → Type 0
Between lo hi a = (pos lo ≤ℤ a) × (a ≤ℤ pos hi)

around : (c k : ℕ) (q : ℤ) → k ≤ c → Within q k → Between (c - k) (c + k) (sub_ℤ (pos c) q)
unfolding sub_ℤ
around c k (pos n) le h = (ground arith, ground arith)
around c k (negsuc n) le h = (ground arith, ground arith)

-- The angles without overflow: for `x`, and for -(m + 1).
exact_right : ℕ → ℕ → ℤ
exact_right x yabs = sub_ℤ (pos 4096) (quot_ℤ (pos 4096 *ℤ sub_ℤ (pos x) (pos yabs)) (x + yabs))

exact_left : ℕ → ℕ → ℤ
exact_left m yabs =
    sub_ℤ (pos 12288) (quot_ℤ (pos 4096 *ℤ sub_ℤ (pos yabs) (pos (m + 1))) (yabs + (m + 1)))

right-Between : (x yabs : ℕ) → 0 < x + yabs → Between 0 8192 (exact_right x yabs)
unfolding exact_right
right-Between x yabs some =
    around 4096 4096 _ (omega arith) (quot-Within _ (x + yabs) 4096 some (product-Within x yabs))

left-Between : (m yabs : ℕ) → Between 8192 16384 (exact_left m yabs)
unfolding exact_left
left-Between m yabs =
    around 12288 4096 _ (omega arith)
      (quot-Within _ (yabs + (m + 1)) 4096 (omega arith) (product-Within yabs (m + 1)))

Between-magnitude : (lo hi : ℕ) (a : ℤ) → Between lo hi a → (lo ≤ magnitude a) × (magnitude a ≤ hi)
Between-magnitude lo hi (pos n) h = (omega arith, omega arith)
Between-magnitude lo hi (negsuc n) h = absurd (omega arith)

int32_id : (a : ℤ) → magnitude a < 2147483648 → int32 a ≡ a
unfolding int32
int32_id (pos n) h = ground arith
int32_id (negsuc n) h = ground arith

product_small : (a : ℤ) → magnitude a < 524288 → magnitude (pos 4096 *ℤ a) < 2147483648
unfolding ◌*ℤ◌
product_small a h = ground arith

difference_small : (x y : ℕ) → x + y < 524288 → magnitude (sub_ℤ (pos x) (pos y)) < 524288
unfolding sub_ℤ
difference_small x y h = ground arith

right_exact :
    (x yabs : ℕ)
    → 0 < x + yabs
    → x + yabs < 524288
    → right_angle (pos x) (pos yabs) ≡ exact_right x yabs
unfolding right_angle quot_int exact_right ◌+ℤ◌
right_exact x yabs some small =
    let d = difference_small x yabs small in
    let size = Between-magnitude 0 8192 (exact_right x yabs) (right-Between x yabs some) in
    let sum : pos x +ℤ pos yabs ≡ pos (x + yabs) = ground arith in
    rw
      (
        sum,
        int32_id (sub_ℤ (pos x) (pos yabs)) (omega (arith, d)),
        int32_id (pos 4096 *ℤ sub_ℤ (pos x) (pos yabs)) (product_small _ d),
        int32_id (pos (x + yabs)) (omega arith),
        int32_id (exact_right x yabs) (omega (arith, size.1)),
      )
      refl

left_exact :
    (m yabs : ℕ) → yabs + (m + 1) < 524288 → left_angle (negsuc m) (pos yabs) ≡ exact_left m yabs
unfolding left_angle quot_int exact_left ◌+ℤ◌ sub_ℤ
left_exact m yabs small =
    let d = difference_small yabs (m + 1) small in
    let size = Between-magnitude 8192 16384 (exact_left m yabs) (left-Between m yabs) in
    let sum : negsuc m +ℤ pos yabs ≡ sub_ℤ (pos yabs) (pos (m + 1)) = ground arith in
    let difference : sub_ℤ (pos yabs) (negsuc m) ≡ pos (yabs + (m + 1)) = ground arith in
    rw
      (
        sum,
        difference,
        int32_id (sub_ℤ (pos yabs) (pos (m + 1))) (omega (arith, d)),
        int32_id (pos 4096 *ℤ sub_ℤ (pos yabs) (pos (m + 1))) (product_small _ d),
        int32_id (pos (yabs + (m + 1))) (omega arith),
        int32_id (exact_left m yabs) (omega (arith, size.1)),
      )
      refl

-- The angle lies in the quadrant of the point, in units of pi / 16384.
pub record IsInQuadrant (y x angle : ℤ) : Type 0 where
  pub right : pos 0 ≤ℤ x → magnitude angle ≤ 8192
  pub left : x <ℤ pos 0 → (8192 ≤ magnitude angle) × (magnitude angle ≤ 16384)
  pub upper : pos 0 ≤ℤ y → pos 0 ≤ℤ angle
  pub lower : y <ℤ pos 0 → angle ≤ℤ pos 0

-- The angle of a point that is not the origin, before its sign.
InUpperHalf : ℤ → ℤ → Type 0
InUpperHalf x angle =
    (pos 0 ≤ℤ angle)
    × (pos 0 ≤ℤ x → magnitude angle ≤ 8192)
    × (x <ℤ pos 0 → (8192 ≤ magnitude angle) × (magnitude angle ≤ 16384))
    × (magnitude angle ≤ 16384)

not_below : (x : ℕ) → ltb_ℤ (pos x) (pos 0) ≡ false
not_below x = ground arith

below_zero : (m : ℕ) → ltb_ℤ (negsuc m) (pos 0) ≡ true
below_zero m = ground arith

upper-InUpperHalf :
    (yabs : ℕ) (x : ℤ)
    → 0 < magnitude x + yabs
    → magnitude x + yabs < 524288
    → InUpperHalf x (upper_angle (pos yabs) x)
unfolding upper_angle InUpperHalf
upper-InUpperHalf yabs (pos x) some small =
    let b = right-Between x yabs (omega arith) in
    let size = Between-magnitude 0 8192 (exact_right x yabs) b in
    rw (not_below x) (
      rw (right_exact x yabs (omega arith) (omega arith))
        (b.0, λ h. size.1, λ h. absurd (omega (arith, h)), omega (arith, size.1)))
upper-InUpperHalf yabs (negsuc m) some small =
    let b = left-Between m yabs in
    let size = Between-magnitude 8192 16384 (exact_left m yabs) b in
    rw (below_zero m) (
      rw (left_exact m yabs (omega arith))
        (omega (arith, b.0), λ h. absurd (omega (arith, h)), λ h. size, size.1))

-- `yabs` without overflow.
yabs_exact :
    (y : ℤ)
    → magnitude y < 524288
    → (if ltb_ℤ y (pos 0) then int32 (neg_ℤ y) else y) ≡ pos (magnitude y)
yabs_exact (pos n) h = rw (not_below n) (ap pos (omega arith))
yabs_exact (negsuc n) h =
    rw (below_zero n) (int32_id (pos (suc n)) (omega arith) ∙ ap pos (omega arith))

negated-Upper : (a : ℤ) → pos 0 ≤ℤ a → (neg_ℤ a ≤ℤ pos 0) × (magnitude (neg_ℤ a) ≡ magnitude a)
negated-Upper (pos zero) h = (omega arith, omega arith)
negated-Upper (pos (suc n)) h = (omega arith, omega arith)
negated-Upper (negsuc n) h = absurd (omega arith)

at_origin : (y x : ℤ) → (eq_ℤ x (pos 0) && eq_ℤ y (pos 0)) ≡ true → x <ℤ pos 0 → ⊥
at_origin y x e h = ground arith

off_origin : (y x : ℤ) → (eq_ℤ x (pos 0) && eq_ℤ y (pos 0)) ≡ false → 0 < magnitude x + magnitude y
off_origin y x e = ground arith

wrong_sign : (y : ℤ) → ltb_ℤ y (pos 0) ≡ true → pos 0 ≤ℤ y → ⊥
wrong_sign y e h = ground arith

other_sign : (y : ℤ) → ltb_ℤ y (pos 0) ≡ false → y <ℤ pos 0 → ⊥
other_sign y e h = ground arith

-- Where |x| + |y| is below 2^19, so that nothing overflows, the angle that `fast_atan2` computes
-- has the sign of `y`; it is at most a quarter turn in size
-- where `x` is not negative, and from a quarter to half a turn where it is. A half turn is
-- 16384.
pub fast_atan2-IsInQuadrant :
    (y x : ℤ) → magnitude x + magnitude y < 524288 → IsInQuadrant y x (fast_atan2 y x)
unfolding fast_atan2 InUpperHalf
fast_atan2-IsInQuadrant y x small = elim (Bool-cases (eq_ℤ x (pos 0) && eq_ℤ y (pos 0))) [
  | inl origin ↦ rw origin (record {
    right = λ h. omega arith;
    left = λ h. absurd (at_origin y x origin h);
    upper = λ h. omega arith;
    lower = λ h. omega arith;
  })
  | inr other ↦
      let up = upper-InUpperHalf (magnitude y) x (off_origin y x other) small in
      let angle = upper_angle (pos (magnitude y)) x in
      let flip = negated-Upper angle up.0 in
      let kept : int32 (neg_ℤ angle) ≡ neg_ℤ angle =
        int32_id (neg_ℤ angle) (omega (arith, flip.1, up.3)) in
      rw (other, yabs_exact y (omega arith))
        (elim (Bool-cases (ltb_ℤ y (pos 0))) [
          | inl below ↦
              rw (below, kept)
                (record {
                  right = λ h. omega (arith, flip.1, up.1 h);
                  left = λ h. let far = up.2 h in (omega (arith, flip.1), omega (arith, flip.1));
                  upper = λ h. absurd (wrong_sign y below h);
                  lower = λ h. flip.0;
                })
          | inr above ↦ rw above (record {
            right = up.1;
            left = up.2;
            upper = λ h. up.0;
            lower = λ h. absurd (other_sign y above h);
          })
        ])
]
