-- ===== src/R82xx/Shadow/Bitrev.antt =====
-- rtl-sdr/src/tuner_r82xx.c: `r82xx_bitrev`.
use rtl_tcp_pi.Common.{ℕ, ◌-◌, ◌/◌, ◌%◌, ◌^◌, ◌<◌, ◌≡◌, refl, Bool, true, ◌==◌, eq_of_==}
use rtl_tcp_pi.Common.Bits.{all_below, all_below-at}
use rtl_tcp_pi.R82xx.Shadow.{r82xx_bitrev}

is_reversed : ℕ → ℕ → Bool
is_reversed j b = r82xx_bitrev b / 2 ^ j % 2 == b / 2 ^ (7 - j) % 2

all_reversed : ℕ → Bool
all_reversed j = all_below 256 (is_reversed j)

reversed_table : all_below 8 all_reversed ≡ true
unfolding all_below all_reversed is_reversed r82xx_bitrev
reversed_table = refl

is_involution : ℕ → Bool
is_involution b = r82xx_bitrev (r82xx_bitrev b) == b

involution_table : all_below 256 is_involution ≡ true
unfolding all_below is_involution r82xx_bitrev
involution_table = refl

-- Bit j of the byte that `r82xx_bitrev` returns is bit 7 - j of its argument, and reversing twice
-- gives the argument back.
pub bitrev-reverses :
    (b j : ℕ)
    → b < 256
    → j < 8
    → (r82xx_bitrev b / 2 ^ j % 2 ≡ b / 2 ^ (7 - j) % 2) × (r82xx_bitrev (r82xx_bitrev b) ≡ b)
unfolding is_reversed all_reversed is_involution
bitrev-reverses b j hb hj = (
  eq_of_== _ _
      (all_below-at 256 (is_reversed j) b (all_below-at 8 all_reversed j reversed_table hj) hb),
  eq_of_== _ _ (all_below-at 256 is_involution b involution_table hb),
)
