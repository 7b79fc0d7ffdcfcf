-- ===== src/R82xx/Gain/Advertised.antt =====
-- rtl-sdr/src/tuner_r82xx.c and rtl-sdr/src/librtlsdr.c: the gains of the library and the settings.
use rtl_tcp_pi.Common.{
  arith, ◌+◌, ◌==◌, ◌||◌, ◌&&◌, ◌⊎◌, ℕ, ◌<◌, ◌≡◌, refl, Bool, true, ℤ, pos, ◌+ℤ◌, eq_ℤ, eq_of_eq_ℤ,
  length, get_or,
}
use rtl_tcp_pi.Common.Bits.{all_below, all_below-at}
use rtl_tcp_pi.Librtlsdr.Gains.{tuner_r820t, rtlsdr_get_tuner_gains}
use rtl_tcp_pi.R82xx.Gain.{gain_loop, gain_index}
use rtl_tcp_pi.R82xx.Gain.Steps.{gain_of, steps_up_to}

abbrev advertised : ℕ → ℤ
unfolding rtlsdr_get_tuner_gains
advertised i = get_or (rtlsdr_get_tuner_gains tuner_r820t) i (pos 0)

is_exact : ℕ → Bool
is_exact i =
    let g = gain_index (advertised i) in
    eq_ℤ (gain_of g.lna_index g.mix_index) (advertised i)
    && (g.lna_index == g.mix_index || g.lna_index == g.mix_index + 1)

exact_table : all_below 29 is_exact ≡ true
unfolding all_below is_exact gain_index gain_loop ◌+ℤ◌ rtlsdr_get_tuner_gains gain_of steps_up_to
exact_table = refl

and_left : (a b : Bool) → (a && b) ≡ true → a ≡ true
and_left a b h = ground arith

alternating : (a b : ℕ) (c : Bool) → (c && (a == b || a == b + 1)) ≡ true → (a ≡ b) ⊎ (a ≡ b + 1)
alternating a b c h = ground arith

-- For each gain that `rtlsdr_get_tuner_gains` lists for the R820T, the two indices that `r82xx_set_gain`
-- picks have steps in the two tables that
-- add up to this gain exactly, and the LNA is at the step of the mixer or one step ahead.
pub gain_index-exact :
    (i : ℕ)
    → i < length (rtlsdr_get_tuner_gains tuner_r820t)
    → let gain = get_or (rtlsdr_get_tuner_gains tuner_r820t) i (pos 0) in
      let g = gain_index gain in
      (gain_of g.lna_index g.mix_index ≡ gain)
      × ((g.lna_index ≡ g.mix_index) ⊎ (g.lna_index ≡ g.mix_index + 1))
unfolding is_exact rtlsdr_get_tuner_gains
gain_index-exact i h =
    let g = gain_index (advertised i) in
    let t = all_below-at 29 is_exact i exact_table h in
    (
      eq_of_eq_ℤ (gain_of g.lna_index g.mix_index) (advertised i) (and_left _ _ t),
      alternating g.lna_index g.mix_index _ t,
    )
