-- ===== src/RtlFm/Resample.antt =====
-- rtl-sdr/src/rtl_fm.c: the rate of the samples that `low_pass_real` puts out, and their positions.
use rtl_tcp_pi.Common.{
  ℕ, ◌+◌, ◌*◌, ◌≤◌, ◌<◌, ◌≡◌, refl, arith, ltb, lt_of_ltb, le_of_ltb, Bool-cases, inl, inr, List,
  [], ◌∷◌, length, ℤ,
}
use native.Mathlib.Nat.{suc-mul}
use rtl_tcp_pi.RtlFm.Audio.{
  Resampler, take_sample, is_waiting, next_output, put_output, low_pass_real,
}

module _ (fast slow : ℕ) (slower : slow ≤ fast) where
  -- The phase after a sample, and the number of outputs it gives.
  step :
      (now : Resampler) (rest : List ℤ)
      → now.prev_lpr_index < fast + slow
      → ((next_output fast slow now).prev_lpr_index < fast)
        × (length (put_output fast slow now rest) * fast
              + (next_output fast slow now).prev_lpr_index
            ≡ length rest * fast + now.prev_lpr_index)
  unfolding next_output put_output is_waiting
  step now rest lt = elim (Bool-cases (ltb now.prev_lpr_index fast)) [
    | inl e ↦ rw e (lt_of_ltb now.prev_lpr_index fast e, refl)
    | inr e ↦
        let le = le_of_ltb now.prev_lpr_index fast e in
        rw e (omega arith, omega (arith, suc-mul (length rest) fast))
  ]

  -- The number of outputs and the phase that is left.
  pub record KeepsRate (fm : Resampler) (signal2 : List ℤ) (r : Resampler × List ℤ) : Type 0 where
    pub phase : r.0.prev_lpr_index < fast
    pub rate : length r.1 * fast + r.0.prev_lpr_index ≡ fm.prev_lpr_index + length signal2 * slow

  keeps_rate :
      (fm : Resampler) (signal2 : List ℤ)
      → fm.prev_lpr_index < fast
      → KeepsRate fm signal2 (low_pass_real fast slow fm signal2)
  unfolding low_pass_real take_sample
  keeps_rate fm [] lt = record { phase = lt; rate = omega arith }
  keeps_rate fm (x ∷ signal2) lt =
      let now = take_sample fast slow fm x in
      let next = next_output fast slow now in
      let (small, same) = step now [] (omega arith) in
      let ih = keeps_rate next signal2 small in
      let (small', count) = step now (low_pass_real fast slow next signal2).1 (omega arith) in
      record {
        phase = ih.phase;
        rate = omega (arith, ih.rate, count, same, suc-mul (length signal2) slow);
      }

-- Where the output rate is not above the rate of the samples, `low_pass_real` keeps the ratio of the
-- rates exactly, without drift: the outputs times the one rate plus the phase that is left, which
-- is below that rate, are the phase at the start plus the inputs times the output rate.
pub low_pass_real-KeepsRate :
    (fast slow : ℕ) (fm : Resampler) (signal2 : List ℤ) (slower : slow ≤ fast)
    → fm.prev_lpr_index < fast
    → KeepsRate fast slow slower fm signal2 (low_pass_real fast slow fm signal2)
low_pass_real-KeepsRate fast slow fm signal2 slower lt = keeps_rate fast slow slower fm signal2 lt
