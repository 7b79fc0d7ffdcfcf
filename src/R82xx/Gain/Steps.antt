-- ===== src/R82xx/Gain/Steps.antt =====
-- rtl-sdr/src/tuner_r82xx.c: the steps that a manual gain selects.
use rtl_tcp_pi.Common.{
  ℕ, zero, suc, ◌+◌, ◌-◌, ◌≤◌, ◌≡◌, refl, arith, Bool, true, ltb, ◌==◌, ◌&&◌, ◌||◌, if◌then◌else◌,
  List, ℤ, pos, ◌+ℤ◌, ◌≤ℤ◌, ◌<ℤ◌, leb_ℤ, ltb_ℤ, eq_ℤ, eq_of_eq_ℤ, get_or, Bool-cases, inl, inr, ◌⊎◌,
}
use rtl_tcp_pi.Common.Bits.{all_below, all_below-at}
use rtl_tcp_pi.R82xx.Gain.{
  r82xx_lna_gain_steps, r82xx_mixer_gain_steps, GainIndex, gain_loop, gain_index,
}

-- The sum of the steps of a table up to an index.
unfoldable pub steps_up_to : List ℤ → ℕ → ℤ
steps_up_to table zero = get_or table 0 (pos 0)
steps_up_to table (suc n) = steps_up_to table n +ℤ get_or table (suc n) (pos 0)

-- The gain of two indices, in tenths of a dB.
unfoldable pub gain_of : ℕ → ℕ → ℤ
unfolding steps_up_to
gain_of lna mix = steps_up_to r82xx_lna_gain_steps lna +ℤ steps_up_to r82xx_mixer_gain_steps mix

-- The gain one step before, where the LNA moves first.
unfoldable pub gain_before : ℕ → ℕ → ℤ
gain_before lna mix = if ltb mix lna then gain_of (lna - 1) mix else gain_of lna (mix - 1)

pub record IsLeast (gain : ℕ) (g : GainIndex) : Type 0 where
  pub total : g.total_gain ≡ gain_of g.lna_index g.mix_index
  pub enough : pos gain ≤ℤ g.total_gain
  pub no_step_less : (gain ≡ 0) ⊎ (gain_before g.lna_index g.mix_index <ℤ pos gain)

is_least : ℕ → Bool
is_least gain =
    let g = gain_index (pos gain) in
    eq_ℤ g.total_gain (gain_of g.lna_index g.mix_index)
    && leb_ℤ (pos gain) g.total_gain
    && (gain == 0 || ltb_ℤ (gain_before g.lna_index g.mix_index) (pos gain))

least_table : all_below 497 is_least ≡ true
unfolding all_below is_least gain_index gain_loop ◌+ℤ◌ gain_of gain_before steps_up_to
least_table = refl

left_true : (a b : Bool) → (a && b) ≡ true → a ≡ true
left_true a b h = ground arith

right_true : (a b : Bool) → (a && b) ≡ true → b ≡ true
right_true a b h = ground arith

le_of_leb_ℤ : (a b : ℤ) → leb_ℤ a b ≡ true → a ≤ℤ b
le_of_leb_ℤ a b h = ground arith

less_of_test :
    (gain : ℕ) (b : ℤ) → (gain == 0 || ltb_ℤ b (pos gain)) ≡ true → (gain ≡ 0) ⊎ (b <ℤ pos gain)
less_of_test gain b h = ground arith

-- For every gain from 0 to 49.6 dB, the setting that `r82xx_set_gain` picks has the gain that
-- it has summed up, which is no less than the gain asked for, and, unless that is 0, the
-- setting one step before has less.
pub gain_index-IsLeast : (gain : ℕ) → gain ≤ 496 → IsLeast gain (gain_index (pos gain))
unfolding is_least
gain_index-IsLeast gain h =
    let g = gain_index (pos gain) in
    let t = all_below-at 497 is_least gain least_table (omega arith) in
    record {
      total =
          eq_of_eq_ℤ g.total_gain (gain_of g.lna_index g.mix_index)
            (left_true _ _ (left_true _ _ t));
      enough = le_of_leb_ℤ (pos gain) g.total_gain (right_true _ _ (left_true _ _ t));
      no_step_less = less_of_test gain (gain_before g.lna_index g.mix_index) (right_true _ _ t);
    }

loop_bounds :
    (n : ℕ) (gain : ℤ) (g : GainIndex)
    → (gain_loop n gain g).lna_index ≤ g.lna_index + n
      × (gain_loop n gain g).mix_index ≤ g.mix_index + n
unfolding gain_loop
loop_bounds zero gain g = (omega arith, omega arith)
loop_bounds (suc n) gain g =
    let lna = g.lna_index + 1 in
    let mix = g.mix_index + 1 in
    let with_lna = g.total_gain +ℤ get_or r82xx_lna_gain_steps lna (pos 0) in
    let with_mix = with_lna +ℤ get_or r82xx_mixer_gain_steps mix (pos 0) in
    let rest =
      loop_bounds n gain (record { total_gain = with_mix; lna_index = lna; mix_index = mix }) in
    elim (Bool-cases (leb_ℤ gain g.total_gain)) [
      | inl e ↦ rw e (omega arith, omega arith)
      | inr e ↦ elim (Bool-cases (leb_ℤ gain with_lna)) [
        | inl e' ↦ rw (e, e') (omega arith, omega arith)
        | inr e' ↦ rw (e, e') (omega (arith, rest.0), omega (arith, rest.1))
      ]
    ]

-- For every gain, also one that no setting reaches, the indices fit their four bits.
pub gain_index-fits :
    (gain : ℤ) → (gain_index gain).lna_index ≤ 15 × (gain_index gain).mix_index ≤ 15
unfolding gain_index
gain_index-fits gain = loop_bounds 15 gain _
