-- ===== src/RtlFm/Tests.antt =====
-- rtl-sdr/src/rtl_fm.c: concrete buffers and points.
use rtl_tcp_pi.Common.{ℕ, ℤ, ◌*◌, ◌≤◌, ◌≡◌, refl, arith, List, [], ◌∷◌, pos, negsuc}
use rtl_tcp_pi.RtlFm.Input.{rotate_90}
use rtl_tcp_pi.RtlFm.Demod.{fast_atan2}
use rtl_tcp_pi.RtlFm.Squelch.{mad}
use rtl_tcp_pi.RtlFm.Audio.{low_pass_real}
use rtl_tcp_pi.RtlFm.Sums.{stream, empty_sums, block_sums, low_pass-IsBoxcar}
use rtl_tcp_pi.RtlFm.Turns.{spun, no_group, group, rotate_90-turns}
use rtl_tcp_pi.RtlFm.Angle.{IsInQuadrant, fast_atan2-IsInQuadrant}
use rtl_tcp_pi.RtlFm.Resample.{KeepsRate, low_pass_real-KeepsRate}
use rtl_tcp_pi.RtlFm.Deviation.{constant, mad-biased}

-- Two blocks of two samples, cut into buffers of one and three samples.
abbrev two_buffers : List (List ℕ)
two_buffers = (10 ∷ 20 ∷ []) ∷ (30 ∷ 40 ∷ 50 ∷ 60 ∷ 70 ∷ 80 ∷ []) ∷ []

abbrev two_blocks : List (List ℕ)
two_blocks = (10 ∷ 20 ∷ 30 ∷ 40 ∷ []) ∷ (50 ∷ 60 ∷ 70 ∷ 80 ∷ []) ∷ []

low_pass-IsBoxcar_example : stream 2 empty_sums two_buffers ≡ (empty_sums, block_sums 2 two_blocks)
low_pass-IsBoxcar_example =
    low_pass-IsBoxcar 2 two_buffers two_blocks (omega arith) (tt, (tt, tt))
      (tt, refl, (tt, refl, tt)) refl

abbrev four_samples : List ℕ
four_samples = 1 ∷ 2 ∷ 3 ∷ 4 ∷ 5 ∷ 6 ∷ 7 ∷ 8 ∷ []

rotate_90-turns_example : rotate_90 four_samples ≡ spun 0 four_samples
rotate_90-turns_example = rotate_90-turns four_samples (group no_group) (omega arith)

fast_atan2-IsInQuadrant_example :
    IsInQuadrant (negsuc 2) (negsuc 4) (fast_atan2 (negsuc 2) (negsuc 4))
fast_atan2-IsInQuadrant_example = fast_atan2-IsInQuadrant (negsuc 2) (negsuc 4) (omega arith)

three_to_four : 3 ≤ 4
three_to_four = omega arith

low_pass_real-KeepsRate_example :
    KeepsRate 4 3 three_to_four
      (record { now_lpr = pos 0; prev_lpr_index = 1 })
      (pos 5 ∷ pos 6 ∷ pos 7 ∷ [])
      (low_pass_real 4 3
        (record { now_lpr = pos 0; prev_lpr_index = 1 })
        (pos 5 ∷ pos 6 ∷ pos 7 ∷ []))
low_pass_real-KeepsRate_example =
    low_pass_real-KeepsRate 4 3 (record { now_lpr = pos 0; prev_lpr_index = 1 })
      (pos 5 ∷ pos 6 ∷ pos 7 ∷ []) three_to_four (omega arith)

mad-biased_example : mad (2 * 3) (constant 3 (pos (4 * 2))) ≡ 3 * 2
mad-biased_example = mad-biased 3 2 (omega arith)

abbrev two_weights : List ℤ
two_weights = pos 20 ∷ pos 254 ∷ []
