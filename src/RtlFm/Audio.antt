-- ===== src/RtlFm/Audio.antt =====
-- rtl-sdr/src/rtl_fm.c: the filters of the demodulated signal.
use rtl_tcp_pi.Common.{
  ℕ, ◌+◌, ◌-◌, ◌/◌, ltb, ltb_ℤ, Bool, if◌then◌else◌, List, [], ◌∷◌, length, ℤ, pos, ◌+ℤ◌, sub_ℤ,
  ◌*ℤ◌, quot_ℤ,
}
use rtl_tcp_pi.RtlFm.Demod.{int16}
use rtl_tcp_pi.RtlFm.Squelch.{total}

-- The fields of `struct fm_state` that `low_pass_real` carries from one buffer to the next.
pub record Resampler : Type 0 where
  pub now_lpr : ℤ
  pub prev_lpr_index : ℕ

module _ (fast slow : ℕ) where
  unfoldable pub take_sample : Resampler → ℤ → Resampler
  take_sample fm x = record { now_lpr = fm.now_lpr +ℤ x; prev_lpr_index = fm.prev_lpr_index + slow }

  -- `fm->prev_lpr_index < fast`
  unfoldable pub is_waiting : Resampler → Bool
  is_waiting fm = ltb fm.prev_lpr_index fast

  unfoldable pub next_output : Resampler → Resampler
  next_output fm =
      if is_waiting fm
      then fm
      else record { now_lpr = pos 0; prev_lpr_index = fm.prev_lpr_index - fast }

  unfoldable pub put_output : Resampler → List ℤ → List ℤ
  put_output fm signal2 =
      if is_waiting fm then signal2 else int16 (quot_ℤ fm.now_lpr (fast / slow)) ∷ signal2

  -- The loop of `low_pass_real`, for an output rate that is not above the rate of the samples. An
  -- output is never ahead of the sample that is read, so that writing in place changes nothing.
  unfoldable pub low_pass_real : Resampler → List ℤ → Resampler × List ℤ
  low_pass_real fm [] = (fm, [])
  low_pass_real fm (x ∷ signal2) =
      let now = take_sample fm x in
      let (fm', rest) = low_pass_real (next_output now) signal2 in (fm', put_output now rest)

-- The step of `deemph_filter` for one sample: `(d + a/2) / a`, or `(d - a/2) / a` for `d <= 0`.
unfoldable pub deemph_step : ℕ → ℤ → ℤ → ℤ
deemph_step deemph_a avg x =
    let d = sub_ℤ x avg in
    let half = pos (deemph_a / 2) in
    avg +ℤ quot_ℤ (if ltb_ℤ (pos 0) d then d +ℤ half else sub_ℤ d half) deemph_a

-- The average afterwards and the samples.
unfoldable pub deemph_filter : ℕ → ℤ → List ℤ → ℤ × List ℤ
deemph_filter deemph_a avg [] = (avg, [])
deemph_filter deemph_a avg (x ∷ signal2) =
    let avg' = deemph_step deemph_a avg x in
    let (last, rest) = deemph_filter deemph_a avg' signal2 in (last, int16 avg' ∷ rest)

unfoldable pub subtract_all : ℤ → List ℤ → List ℤ
subtract_all avg [] = []
subtract_all avg (x ∷ signal2) = int16 (sub_ℤ x avg) ∷ subtract_all avg signal2

-- The new `dc_avg` and the samples, of which there is one at least.
unfoldable pub dc_block_filter : ℤ → List ℤ → ℤ × List ℤ
dc_block_filter dc_avg signal2 =
    let avg = quot_ℤ (quot_ℤ (total signal2) (length signal2) +ℤ (dc_avg *ℤ pos 9)) 10 in
    (avg, subtract_all avg signal2)
