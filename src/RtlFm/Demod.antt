-- ===== src/RtlFm/Demod.antt =====
-- rtl-sdr/src/rtl_fm.c: the demodulators that compute with integers.
use rtl_tcp_pi.Common.{
  ◌+◌, ◌-◌, ◌%◌, ◌^◌, ltb, eq_ℤ, ltb_ℤ, ◌&&◌, if◌then◌else◌, List, [], ◌∷◌, ℤ, pos, negsuc, ◌+ℤ◌,
  sub_ℤ, neg_ℤ, ◌*ℤ◌, quot_ℤ,
}

-- `(int16_t)`
unfoldable pub int16 : ℤ → ℤ
int16 (pos n) = let w = n % 2 ^ 16 in if ltb w 32768 then pos w else negsuc (65535 - w)
int16 (negsuc n) = let w = n % 2 ^ 16 in if ltb w 32768 then negsuc w else pos (65535 - w)

-- An `int` of 32 bits that wraps around.
unfoldable pub int32 : ℤ → ℤ
int32 (pos n) = let w = n % 2 ^ 32 in if ltb w 2147483648 then pos w else negsuc (4294967295 - w)
int32 (negsuc n) = let w = n % 2 ^ 32 in if ltb w 2147483648 then negsuc w else pos (4294967295 - w)

-- `a / b`, cut towards zero.
unfoldable pub quot_int : ℤ → ℤ → ℤ
quot_int a (pos d) = quot_ℤ a d
quot_int a (negsuc d) = neg_ℤ (quot_ℤ a (d + 1))

-- Complex multiplication: the real and the imaginary part.
unfoldable pub multiply : ℤ → ℤ → ℤ → ℤ → ℤ × ℤ
multiply ar aj br bj = (
  int32 (sub_ℤ (int32 (ar *ℤ br)) (int32 (aj *ℤ bj))),
  int32 (int32 (aj *ℤ br) +ℤ int32 (ar *ℤ bj)),
)

-- The angle for `x >= 0`, and for `x < 0`.
unfoldable pub right_angle : ℤ → ℤ → ℤ
right_angle x yabs =
    int32
      (sub_ℤ (pos 4096) (quot_int (int32 (pos 4096 *ℤ int32 (sub_ℤ x yabs))) (int32 (x +ℤ yabs))))

unfoldable pub left_angle : ℤ → ℤ → ℤ
left_angle x yabs =
    int32
      (sub_ℤ (pos 12288) (quot_int (int32 (pos 4096 *ℤ int32 (x +ℤ yabs))) (int32 (sub_ℤ yabs x))))

unfoldable pub upper_angle : ℤ → ℤ → ℤ
upper_angle yabs x = if ltb_ℤ x (pos 0) then left_angle x yabs else right_angle x yabs

unfoldable pub fast_atan2 : ℤ → ℤ → ℤ
fast_atan2 y x =
    if eq_ℤ x (pos 0) && eq_ℤ y (pos 0)
    then pos 0
    else let angle = upper_angle (if ltb_ℤ y (pos 0) then int32 (neg_ℤ y) else y) x in
      if ltb_ℤ y (pos 0) then int32 (neg_ℤ angle) else angle

unfoldable pub polar_disc_fast : ℤ → ℤ → ℤ → ℤ → ℤ
polar_disc_fast ar aj br bj = let c = multiply ar aj br (int32 (neg_ℤ bj)) in fast_atan2 c.1 c.0

-- The loop of `usb_demod`, `lsb_demod` and `raw_demod` over the pairs of `signal`.
unfoldable pub usb_demod : ℤ → List ℤ → List ℤ
usb_demod output_scale (i ∷ q ∷ signal) =
    int16 (int16 (i +ℤ q) *ℤ output_scale) ∷ usb_demod output_scale signal
usb_demod output_scale signal = []

unfoldable pub lsb_demod : ℤ → List ℤ → List ℤ
lsb_demod output_scale (i ∷ q ∷ signal) =
    int16 (int16 (sub_ℤ i q) *ℤ output_scale) ∷ lsb_demod output_scale signal
lsb_demod output_scale signal = []

unfoldable pub raw_demod : List ℤ → List ℤ
raw_demod [] = []
raw_demod (x ∷ signal) = int16 x ∷ raw_demod signal
