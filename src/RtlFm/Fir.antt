-- ===== src/RtlFm/Fir.antt =====
-- rtl-sdr/src/rtl_fm.c: what `low_pass_fir` makes of blocks of samples.
use rtl_tcp_pi.Common.{ℕ, ◌+◌, List, [], ◌∷◌, ◌++◌, ℤ, pos, ◌+ℤ◌, ◌*ℤ◌, quot_ℤ, get_or}
use rtl_tcp_pi.RtlFm.Input.{LowPass, centered, low_pass_fir}

-- The sum of the real parts of the samples of a block, each times the weight of its place, where the
-- first sample has the place `i`; and that of the imaginary parts.
abbrev pub dot_r : List ℤ → ℕ → List ℕ → ℤ
dot_r fir i [] = pos 0
dot_r fir i (r ∷ []) = pos 0
dot_r fir i (r ∷ j ∷ buf) = centered r *ℤ get_or fir i (pos 0) +ℤ dot_r fir (i + 1) buf

abbrev pub dot_j : List ℤ → ℕ → List ℕ → ℤ
dot_j fir i [] = pos 0
dot_j fir i (r ∷ []) = pos 0
dot_j fir i (r ∷ j ∷ buf) = centered j *ℤ get_or fir i (pos 0) +ℤ dot_j fir (i + 1) buf

module _ (downsample : ℕ) (fir : List ℤ) (fir_sum : ℕ) where
  -- A weighted sum over the mean weight of a place.
  abbrev pub normalized : ℤ → ℤ
  normalized sum = quot_ℤ (sum *ℤ pos downsample) fir_sum

  abbrev pub block_dots : List (List ℕ) → List ℤ
  block_dots [] = []
  block_dots (block ∷ blocks) =
      normalized (dot_r fir 0 block) ∷ normalized (dot_j fir 0 block) ∷ block_dots blocks

  abbrev filtered : LowPass → List ℕ → LowPass × List ℤ
  filtered = low_pass_fir downsample fir fir_sum

  -- The buffers of a stream, filtered one after another, with all that they add to `signal`.
  abbrev pub stream_fir : LowPass → List (List ℕ) → LowPass × List ℤ
  stream_fir fm [] = (fm, [])
  stream_fir fm (buf ∷ bufs) =
      let one = filtered fm buf in
      let others = stream_fir one.0 bufs in (others.0, one.1 ++ others.1)
