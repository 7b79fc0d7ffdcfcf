-- ===== src/RtlFm/Input.antt =====
-- rtl-sdr/src/rtl_fm.c: the samples of a buffer, turned by 90 degrees and averaged.
use rtl_tcp_pi.Common.{
  ℕ, ◌+◌, ◌-◌, ltb, Bool, if◌then◌else◌, List, [], ◌∷◌, ℤ, pos, negsuc, ◌+ℤ◌, ◌*ℤ◌, quot_ℤ, get_or,
}

-- Eight bytes in each turn of the loop: four samples of two bytes. Lengths are multiples of 8.
unfoldable pub rotate_90 : List ℕ → List ℕ
rotate_90 (b0 ∷ b1 ∷ b2 ∷ b3 ∷ b4 ∷ b5 ∷ b6 ∷ b7 ∷ buf) =
    b0 ∷ b1 ∷ (255 - b3) ∷ b2 ∷ (255 - b4) ∷ (255 - b5) ∷ b7 ∷ (255 - b6) ∷ rotate_90 buf
rotate_90 buf = buf

-- The fields of `struct fm_state` that `low_pass` carries from one buffer to the next.
pub record LowPass : Type 0 where
  pub now_r : ℤ
  pub now_j : ℤ
  pub prev_index : ℕ

-- `(int)buf[i] - 127`
abbrev pub centered : ℕ → ℤ
centered b = pos b +ℤ negsuc 126

module _ (downsample : ℕ) where
  -- One sample more in the sums.
  unfoldable pub accumulate : LowPass → ℕ → ℕ → LowPass
  accumulate fm r j = record {
    now_r = fm.now_r +ℤ centered r;
    now_j = fm.now_j +ℤ centered j;
    prev_index = fm.prev_index + 1;
  }

  -- `fm->prev_index < fm->downsample`
  unfoldable pub is_partial : LowPass → Bool
  is_partial fm = ltb fm.prev_index downsample

  -- The sums are kept, or start again.
  unfoldable pub carried : LowPass → LowPass
  carried fm = if is_partial fm then fm else record { now_r = pos 0; now_j = pos 0; prev_index = 0 }

  -- What the sums add to `signal` before the rest of it.
  unfoldable pub emitted : LowPass → List ℤ → List ℤ
  emitted fm signal = if is_partial fm then signal else fm.now_r ∷ fm.now_j ∷ signal

  -- The state afterwards and `signal`; its length is `signal_len`.
  unfoldable pub low_pass : LowPass → List ℕ → LowPass × List ℤ
  low_pass fm (r ∷ j ∷ buf) =
      let now = accumulate fm r j in
      let (fm', signal) = low_pass (carried now) buf in (fm', emitted now signal)
  low_pass fm buf = (fm, [])

  module _ (fir : List ℤ) (fir_sum : ℕ) where
    -- One sample more in the sums of `low_pass_fir`, with the weight of its place.
    unfoldable pub weigh : LowPass → ℕ → ℕ → LowPass
    weigh fm r j = record {
      now_r = fm.now_r +ℤ centered r *ℤ get_or fir fm.prev_index (pos 0);
      now_j = fm.now_j +ℤ centered j *ℤ get_or fir fm.prev_index (pos 0);
      prev_index = fm.prev_index + 1;
    }

    -- `now * downsample / fir_sum`
    unfoldable pub scaled : ℤ → ℤ
    scaled now = quot_ℤ (now *ℤ pos downsample) fir_sum

    unfoldable pub emitted_fir : LowPass → List ℤ → List ℤ
    emitted_fir fm signal =
        if is_partial fm then signal else scaled fm.now_r ∷ scaled fm.now_j ∷ signal

    unfoldable pub low_pass_fir : LowPass → List ℕ → LowPass × List ℤ
    low_pass_fir fm (r ∷ j ∷ buf) =
        let now = weigh fm r j in
        let (fm', signal) = low_pass_fir (carried now) buf in (fm', emitted_fir now signal)
    low_pass_fir fm buf = (fm, [])
