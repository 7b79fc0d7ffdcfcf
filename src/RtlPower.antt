-- ===== src/RtlPower.antt =====
-- rtl-sdr/src/rtl_power.c: the nearest gain and the arithmetic of 16 bits.
pub mod Nearest
pub mod Scale
mod Tests
use rtl_tcp_pi.Common.{
  eq_ℤ, ℕ, zero, suc, ◌+◌, ◌*◌, ◌/◌, ◌%◌, ◌^◌, ltb, if◌then◌else◌, List, [], ◌∷◌, ℤ, pos, negsuc,
  ◌+ℤ◌, sub_ℤ, ◌*ℤ◌, quot_ℤ, magnitude, length,
}
use rtl_tcp_pi.Librtlsdr.Fir.{shift_right}
use rtl_tcp_pi.Librtlsdr.Gains.{Tuner, rtlsdr_get_tuner_gains}
use rtl_tcp_pi.RtlFm.Demod.{int16}

-- The distance of two gains.
abbrev pub gain_error : ℤ → ℤ → ℕ
gain_error target_gain gain = magnitude (sub_ℤ target_gain gain)

unfoldable pub nearest_loop : ℤ → ℤ → List ℤ → ℤ
nearest_loop target_gain close_gain [] = close_gain
nearest_loop target_gain close_gain (gain ∷ gains) =
    nearest_loop target_gain
      (if ltb (gain_error target_gain gain) (gain_error target_gain close_gain)
        then gain
        else close_gain)
      gains

-- `gains[0]` and the loop over all gains, or 0 where there are none.
unfoldable pub nearest_of : ℤ → List ℤ → ℤ
nearest_of target_gain [] = pos 0
nearest_of target_gain (gain ∷ gains) = nearest_loop target_gain gain (gain ∷ gains)

unfoldable pub nearest_gain : Tuner → ℤ → ℤ
nearest_gain tuner target_gain = nearest_of target_gain (rtlsdr_get_tuner_gains tuner)

-- `c & 0x01` of an `int`.
unfoldable pub low_bit : ℤ → ℤ
low_bit (pos n) = pos (n % 2)
low_bit (negsuc n) = pos ((n + 1) % 2)

-- `FIX_MPY`: the product over 2^15, rounded, cut to 16 bits.
unfoldable pub fix_mpy : ℤ → ℤ → ℤ
fix_mpy a b = let c = shift_right (a *ℤ b) 14 in int16 (shift_right c 1 +ℤ low_bit c)

-- The loop of `remove_dc` over half of the interleaved samples. `length` counts both halves.
unfoldable pub half_sum : List ℤ → ℤ
half_sum [] = pos 0
half_sum (x ∷ []) = x
half_sum (x ∷ y ∷ samples) = x +ℤ half_sum samples

unfoldable pub subtract_half : ℤ → List ℤ → List ℤ
subtract_half ave [] = []
subtract_half ave (x ∷ []) = int16 (sub_ℤ x ave) ∷ []
subtract_half ave (x ∷ y ∷ samples) = int16 (sub_ℤ x ave) ∷ y ∷ subtract_half ave samples

-- With its early return for an average of 0.
unfoldable pub remove_dc : List ℤ → List ℤ
remove_dc samples =
    let ave = int16 (quot_ℤ (half_sum samples) (length samples)) in
    if eq_ℤ ave (pos 0) then samples else subtract_half ave samples
