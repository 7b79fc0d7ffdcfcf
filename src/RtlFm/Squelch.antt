-- ===== src/RtlFm/Squelch.antt =====
-- rtl-sdr/src/rtl_fm.c: the mean deviation and the squelch.
use rtl_tcp_pi.Common.{
  ℕ, ◌+◌, ◌*◌, ◌/◌, ltb_ℤ, ◌||◌, ◌==◌, if◌then◌else◌, List, [], ◌∷◌, ℤ, pos, ◌+ℤ◌, sub_ℤ, quot_ℤ,
  magnitude, Bool, true, false, drop,
}

-- Every second sample from the first on: `samples[i]` for i = 0, 2, 4, ...
unfoldable pub every_second : List ℤ → List ℤ
every_second [] = []
every_second (x ∷ []) = x ∷ []
every_second (x ∷ y ∷ samples) = x ∷ every_second samples

unfoldable pub total : List ℤ → ℤ
total [] = pos 0
total (x ∷ xs) = x +ℤ total xs

-- The sum of the distances from `ave`.
unfoldable pub deviations : ℤ → List ℤ → ℕ
deviations ave [] = 0
deviations ave (x ∷ xs) = magnitude (sub_ℤ x ave) + deviations ave xs

-- `mad` with `step` 2, as it is called, over the `len` elements from `samples` on.
unfoldable pub mad : ℕ → List ℤ → ℕ
mad len samples =
    if len == 0
    then 0
    else let picked = every_second samples in
      let ave = quot_ℤ (total picked) (len * 2) in deviations ave picked / (len / 2)

-- The result, 1 as `true`, and the new `squelch_hits`.
unfoldable pub post_squelch : ℕ → ℤ → ℕ → List ℤ → Bool × ℕ
post_squelch signal_len squelch_level squelch_hits signal =
    let dev_r = mad signal_len signal in
    let dev_j = mad signal_len (drop 1 signal) in
    if ltb_ℤ squelch_level (pos dev_r) || ltb_ℤ squelch_level (pos dev_j)
    then (true, 0)
    else (false, squelch_hits + 1)
