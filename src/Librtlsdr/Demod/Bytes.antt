-- ===== src/Librtlsdr/Demod/Bytes.antt =====
-- rtl-sdr/src/librtlsdr.c: the bytes of the intermediate frequency and of the correction.
use rtl_tcp_pi.Common.{
  ℕ, zero, suc, ◌+◌, ◌-◌, ◌*◌, ◌/◌, ◌%◌, ◌^◌, ◌≤◌, ◌<◌, ◌≡◌, refl, arith, bit_and, ℤ, pos, negsuc,
  ltb, ltb_of_lt, ltb_of_le, if◌then◌else◌, pos_part, neg_part,
}
use rtl_tcp_pi.Common.Masks.{bit_and_ones}
use rtl_tcp_pi.Librtlsdr.Fir.{low_byte, shift_right}
use rtl_tcp_pi.Librtlsdr.Demod.{negated, ppm_offset, if_high, if_middle, offset_high}

low_six : (x : ℕ) → bit_and x 0x3f ≡ x % 64
low_six x = bit_and_ones 6 x (x / 64) (x % 64) (omega arith) (omega arith)

-- The value that the demodulator reads from the three bytes, and from the two bytes.
abbrev pub if_word : ℤ → ℕ
if_word f = if_high f * 2 ^ 16 + if_middle f * 2 ^ 8 + low_byte f

abbrev pub offset_word : ℤ → ℕ
offset_word offs = offset_high offs * 2 ^ 8 + low_byte offs

-- The three bytes that `rtlsdr_set_if_freq` writes for a ratio hold its negation in 22 bits, in
-- two's complement: with the ratio added they are a multiple of 2^22.
pub if_word-negates :
    (ratio : ℕ)
    → (if_word (negated ratio) < 2 ^ 22) × ((if_word (negated ratio) + ratio) % 2 ^ 22 ≡ 0)
unfolding negated if_high if_middle low_byte shift_right
if_word-negates zero = (omega (arith, low_six 0), omega (arith, low_six 0))
if_word-negates (suc m) =
    let six = low_six (255 - m / 2 ^ 16 % 256) in (omega (arith, six), omega (arith, six))

-- The number that 14 bits hold in two's complement.
abbrev pub signed_14 : ℕ → ℤ
signed_14 w = if ltb w (2 ^ 13) then pos w else negsuc (2 ^ 14 - 1 - w)

word_of_pos : (n : ℕ) → n < 2 ^ 13 → signed_14 (offset_word (pos n)) ≡ pos n
unfolding offset_high low_byte shift_right
word_of_pos n lt =
    let same : offset_word (pos n) ≡ n = omega (arith, low_six (n / 2 ^ 8 % 256)) in
    rw (same, ltb_of_lt n (2 ^ 13) lt) refl

word_of_negsuc : (n : ℕ) → n < 2 ^ 13 → signed_14 (offset_word (negsuc n)) ≡ negsuc n
unfolding offset_high low_byte shift_right
word_of_negsuc n lt =
    let same : offset_word (negsuc n) ≡ 2 ^ 14 - 1 - n =
      omega (arith, low_six (255 - n / 2 ^ 8 % 256)) in
    let back : 2 ^ 14 - 1 - (2 ^ 14 - 1 - n) ≡ n = omega arith in
    rw (same, ltb_of_le (2 ^ 14 - 1 - n) (2 ^ 13) (omega arith), back) refl

negated-word : (n : ℕ) → n < 2 ^ 13 → signed_14 (offset_word (negated n)) ≡ negated n
unfolding negated
negated-word zero lt = word_of_pos 0 lt
negated-word (suc n) lt = word_of_negsuc n (omega arith)

-- For a correction of at most 488 ppm the two bytes that `rtlsdr_set_sample_freq_correction`
-- writes hold the offset, in 14 bits and two's complement.
pub offset_word-exact :
    (ppm : ℤ)
    → pos_part ppm + neg_part ppm ≤ 488
    → signed_14 (offset_word (ppm_offset ppm)) ≡ ppm_offset ppm
unfolding ppm_offset
offset_word-exact (pos n) small = negated-word (n * 2 ^ 24 / 1000000) (omega arith)
offset_word-exact (negsuc n) small = word_of_pos ((n + 1) * 2 ^ 24 / 1000000) (omega arith)
