-- ===== src/RtlAdsb/Samples.antt =====
-- rtl-sdr/src/rtl_adsb.c: what the sample functions return.
use rtl_tcp_pi.Common.{
  ℕ, zero, suc, ◌+◌, ◌*◌, ◌≤◌, ◌<◌, ◌≡◌, refl, arith, Bool, true, ltb, leb, ◌==◌, ◌&&◌, ◌⊎◌,
  if◌then◌else◌, List, [], ◌∷◌, length, get_or,
}
use rtl_tcp_pi.Common.Bits.{all_below, all_below-at}
use rtl_tcp_pi.RtlAdsb.Manchester.{abs8, square, magnitute, single_manchester, bad_sample}

-- For every quality and all samples, `single_manchester` answers with the bit that the current pair
-- of samples shows, or refuses the pair.
pub single_manchester-answers :
    (quality a b c d : ℕ)
    → (single_manchester quality a b c d ≡ (if ltb d c then 1 else 0))
      ⊎ (single_manchester quality a b c d ≡ bad_sample)
unfolding single_manchester
single_manchester-answers quality a b c d = ground arith

is_square : ℕ → Bool
is_square x = square x + 256 * x == x * x + 16384 && leb (square x) 16384

square_table : all_below 256 is_square ≡ true
unfolding all_below is_square square abs8
square_table = refl

-- `square x` is (x - 128)² for a byte.
square-exact : (x : ℕ) → x < 256 → (square x + 256 * x ≡ x * x + 16384) × (square x ≤ 16384)
unfolding is_square
square-exact x h = let t = all_below-at 256 is_square x square_table h in ground arith

-- For a buffer of bytes, the value that `magnitute` computes of the bytes at 2k and 2k + 1 is the
-- sum of the squares of their distances from 128, with no overflow.
pub magnitute-exact :
    (buf : List ℕ) (k : ℕ)
    → ((j : ℕ) → get_or buf j 0 < 256)
    → 2 * k + 1 < length buf
    → let i = get_or buf (2 * k) 0 in
      let q = get_or buf (2 * k + 1) 0 in
      get_or (magnitute buf) k 0 + 256 * i + 256 * q ≡ i * i + q * q + 32768
unfolding magnitute
magnitute-exact [] k bytes h = absurd (omega arith)
magnitute-exact (x ∷ []) k bytes h = absurd (omega arith)
magnitute-exact (x ∷ y ∷ rest) zero bytes h =
    let ex = square-exact x (bytes 0) in
    let ey = square-exact y (bytes 1) in omega (arith, ex.0, ex.1, ey.0, ey.1)
magnitute-exact (x ∷ y ∷ rest) (suc k) bytes h =
    let odd : 2 * suc k + 1 ≡ suc (suc (2 * k + 1)) = omega arith in
    let even : 2 * suc k ≡ suc (suc (2 * k)) = omega arith in
    rw (odd, even) (magnitute-exact rest k (λ j. bytes (suc (suc j))) (omega arith))
