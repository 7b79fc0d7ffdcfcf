-- ===== src/RtlPower/Scale.antt =====
-- rtl-sdr/src/rtl_power.c: the rounding of `FIX_MPY`.
use rtl_tcp_pi.Common.{◌*◌, ◌≤◌, ◌≡◌, arith, ℤ, pos, negsuc, ◌+ℤ◌, sub_ℤ, ◌*ℤ◌, magnitude}
use native.Mathlib.Nat.{mul-le-mul}
use rtl_tcp_pi.Librtlsdr.Fir.{shift_right}
use rtl_tcp_pi.RtlFm.Demod.{int16}
use rtl_tcp_pi.RtlPower.{low_bit, fix_mpy}

-- The rounding of a product, before it is cut to 16 bits.
abbrev pub rounded : ℤ → ℤ
rounded p = let c = shift_right p 14 in shift_right c 1 +ℤ low_bit c

-- At most half a unit of 2^15 away: -2^14 < p - 2^15 r ≤ 2^14, or the like.
rounded-near : (p : ℤ) → magnitude (sub_ℤ p (pos 32768 *ℤ rounded p)) ≤ 16384
unfolding shift_right low_bit ◌+ℤ◌ ◌*ℤ◌ sub_ℤ
rounded-near (pos n) = ground arith
rounded-near (negsuc n) = ground arith

int16-fits : (v : ℤ) → magnitude v ≤ 32767 → int16 v ≡ v
unfolding int16
int16-fits (pos n) h = ground arith
int16-fits (negsuc n) h = ground arith

rounded-le : (p : ℤ) → magnitude p ≤ 1073709056 → magnitude (rounded p) ≤ 32767
unfolding shift_right low_bit ◌+ℤ◌
rounded-le (pos n) h = ground arith
rounded-le (negsuc n) h = ground arith

product_magnitude : (a b : ℤ) → magnitude (a *ℤ b) ≡ magnitude a * magnitude b
unfolding ◌*ℤ◌
product_magnitude (pos a) (pos b) = ground arith
product_magnitude (pos a) (negsuc b) = ground arith
product_magnitude (negsuc a) (pos b) = ground arith
product_magnitude (negsuc a) (negsuc b) = ground arith

-- For factors of 16 bits, the second one not -32768, `FIX_MPY` does not overflow, and 2^15 times its result
-- is at most 2^14 away from the product: it is rounded to the nearest.
pub fix_mpy-rounds :
    (a b : ℤ)
    → magnitude a ≤ 32768
    → magnitude b ≤ 32767
    → (fix_mpy a b ≡ rounded (a *ℤ b))
      × (magnitude (sub_ℤ (a *ℤ b) (pos 32768 *ℤ fix_mpy a b)) ≤ 16384)
unfolding fix_mpy
fix_mpy-rounds a b ha hb =
    let small : magnitude (a *ℤ b) ≤ 1073709056 =
      omega (arith, product_magnitude a b, mul-le-mul ha hb) in
    let exact = int16-fits (rounded (a *ℤ b)) (rounded-le (a *ℤ b) small) in
    (exact, rw exact (rounded-near (a *ℤ b)))
