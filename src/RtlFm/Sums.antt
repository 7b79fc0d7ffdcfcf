-- ===== src/RtlFm/Sums.antt =====
-- rtl-sdr/src/rtl_fm.c: what `low_pass` makes of blocks of samples.
use rtl_tcp_pi.Common.{
  ℕ, ◌+◌, ◌≤◌, ◌<◌, ◌≡◌, refl, sym, ap, ap₂, ◌∙◌, arith, ltb_of_lt, ltb_of_le, true, false, List,
  [], ◌∷◌, ◌++◌, ℤ, pos, ◌+ℤ◌,
}
use rtl_tcp_pi.RtlFm.Input.{LowPass, centered, accumulate, is_partial, carried, emitted, low_pass}
use rtl_tcp_pi.RtlFm.Stream.{IsWhole, low_pass-append}

pub add_assoc : (a b c : ℤ) → (a +ℤ b) +ℤ c ≡ a +ℤ (b +ℤ c)
unfolding ◌+ℤ◌
add_assoc a b c = ground arith

pub add_zero : (a : ℤ) → a +ℤ pos 0 ≡ a
unfolding ◌+ℤ◌
add_zero a = ground arith

pub zero_add : (a : ℤ) → pos 0 +ℤ a ≡ a
unfolding ◌+ℤ◌
zero_add a = ground arith

-- The sums of the real and of the imaginary parts of the samples of a buffer.
abbrev pub sum_r : List ℕ → ℤ
sum_r [] = pos 0
sum_r (r ∷ []) = pos 0
sum_r (r ∷ j ∷ buf) = centered r +ℤ sum_r buf

abbrev pub sum_j : List ℕ → ℤ
sum_j [] = pos 0
sum_j (r ∷ []) = pos 0
sum_j (r ∷ j ∷ buf) = centered j +ℤ sum_j buf

-- The number of samples.
abbrev pub samples : List ℕ → ℕ
samples [] = 0
samples (r ∷ []) = 0
samples (r ∷ j ∷ buf) = samples buf + 1

-- The state at the start of a block.
abbrev pub empty_sums : LowPass
empty_sums = record { now_r = pos 0; now_j = pos 0; prev_index = 0 }

module _ (downsample : ℕ) where
  pub partial : (fm : LowPass) → fm.prev_index < downsample → is_partial downsample fm ≡ true
  unfolding is_partial
  partial fm lt = ltb_of_lt fm.prev_index downsample lt

  pub complete : (fm : LowPass) → downsample ≤ fm.prev_index → is_partial downsample fm ≡ false
  unfolding is_partial
  complete fm le = ltb_of_le fm.prev_index downsample le

  nothing : (fm : LowPass) → low_pass downsample fm [] ≡ (fm, [])
  unfolding low_pass
  nothing fm = refl

  one_more :
      (fm : LowPass) (r j : ℕ) (buf : List ℕ)
      → let now = accumulate downsample fm r j in
        let next = low_pass downsample (carried downsample now) buf in
        low_pass downsample fm (r ∷ j ∷ buf) ≡ (next.0, emitted downsample now next.1)
  unfolding low_pass
  one_more fm r j buf = refl

  within_block :
      (fm : LowPass) (r j : ℕ) (buf : List ℕ)
      → fm.prev_index + 1 < downsample
      → low_pass downsample fm (r ∷ j ∷ buf)
        ≡ low_pass downsample (accumulate downsample fm r j) buf
  unfolding carried emitted accumulate
  within_block fm r j buf lt =
      one_more fm r j buf ∙ rw (partial (accumulate downsample fm r j) lt) refl

  end_of_block :
      (fm : LowPass) (r j : ℕ) (buf : List ℕ)
      → downsample ≤ fm.prev_index + 1
      → let next = low_pass downsample empty_sums buf in
        low_pass downsample fm (r ∷ j ∷ buf)
        ≡ (next.0, (fm.now_r +ℤ centered r) ∷ (fm.now_j +ℤ centered j) ∷ next.1)
  unfolding carried emitted accumulate
  end_of_block fm r j buf le =
      one_more fm r j buf ∙ rw (complete (accumulate downsample fm r j) le) refl

  -- The samples that complete a block.
  rest_of_block :
      (buf : List ℕ) (fm : LowPass)
      → IsWhole buf
      → 0 < samples buf
      → fm.prev_index + samples buf ≡ downsample
      → low_pass downsample fm buf
        ≡ (empty_sums, (fm.now_r +ℤ sum_r buf) ∷ (fm.now_j +ℤ sum_j buf) ∷ [])
  unfolding accumulate
  rest_of_block [] fm h some_left e = absurd (omega arith)
  rest_of_block (r ∷ []) fm h some_left e = absurd h
  rest_of_block (r ∷ j ∷ []) fm h some_left e =
      end_of_block fm r j [] (omega arith)
      ∙ rw (nothing empty_sums) (rw (add_zero (centered r), add_zero (centered j)) refl)
  rest_of_block (r ∷ j ∷ r' ∷ []) fm h some_left e = absurd h
  rest_of_block (r ∷ j ∷ r' ∷ j' ∷ buf) fm h some_left e =
      within_block fm r j (r' ∷ j' ∷ buf) (omega arith)
      ∙ rest_of_block (r' ∷ j' ∷ buf) (accumulate downsample fm r j) h (omega arith) (omega arith)
      ∙ ap₂ (λ a b. (empty_sums, a ∷ b ∷ []))
          (add_assoc fm.now_r (centered r) (sum_r (r' ∷ j' ∷ buf)))
          (add_assoc fm.now_j (centered j) (sum_j (r' ∷ j' ∷ buf)))

  -- The sums of each block.
  abbrev pub block_sums : List (List ℕ) → List ℤ
  block_sums [] = []
  block_sums (block ∷ blocks) = sum_r block ∷ sum_j block ∷ block_sums blocks

  -- Blocks of `downsample` samples each.
  abbrev pub AreBlocks : List (List ℕ) → Type 0
  AreBlocks [] = Unit
  AreBlocks (block ∷ blocks) = IsWhole block × (samples block ≡ downsample) × AreBlocks blocks

  abbrev pub joined : List (List ℕ) → List ℕ
  joined [] = []
  joined (block ∷ blocks) = block ++ joined blocks

  low_pass-blocks :
      (blocks : List (List ℕ))
      → 0 < downsample
      → AreBlocks blocks
      → low_pass downsample empty_sums (joined blocks) ≡ (empty_sums, block_sums blocks)
  low_pass-blocks [] some_samples h = nothing empty_sums
  low_pass-blocks (block ∷ blocks) some_samples (whole, count, rest) =
      let one =
        rest_of_block block empty_sums whole (omega arith) (omega arith)
        ∙ ap₂ (λ a b. (empty_sums, a ∷ b ∷ [])) (zero_add (sum_r block)) (zero_add (sum_j block)) in
      low_pass-append downsample empty_sums block (joined blocks) whole
      ∙ rw one (rw (low_pass-blocks blocks some_samples rest) refl)

  -- The buffers of a stream, filtered one after another, with all that they add to `signal`.
  abbrev pub stream : LowPass → List (List ℕ) → LowPass × List ℤ
  stream fm [] = (fm, [])
  stream fm (buf ∷ bufs) =
      let one = low_pass downsample fm buf in
      let others = stream one.0 bufs in (others.0, one.1 ++ others.1)

  abbrev pub AreWhole : List (List ℕ) → Type 0
  AreWhole [] = Unit
  AreWhole (buf ∷ bufs) = IsWhole buf × AreWhole bufs

  stream-joined :
      (fm : LowPass) (bufs : List (List ℕ))
      → AreWhole bufs
      → stream fm bufs ≡ low_pass downsample fm (joined bufs)
  stream-joined fm [] h = rw (nothing fm) refl
  stream-joined fm (buf ∷ bufs) (whole, rest) =
      let one = low_pass downsample fm buf in
      ap (λ two. (two.0, one.1 ++ two.1)) (stream-joined one.0 bufs rest)
      ∙ sym (low_pass-append downsample fm buf (joined bufs) whole)

-- However a stream of whole samples is cut into buffers, where it consists of blocks of `downsample`
-- samples, `low_pass` on one buffer after another, from empty sums on, yields for each block the
-- sum of its real parts and the sum of its imaginary parts, and leaves empty sums.
pub low_pass-IsBoxcar :
    (downsample : ℕ) (bufs blocks : List (List ℕ))
    → 0 < downsample
    → AreWhole downsample bufs
    → AreBlocks downsample blocks
    → joined downsample bufs ≡ joined downsample blocks
    → stream downsample empty_sums bufs ≡ (empty_sums, block_sums downsample blocks)
low_pass-IsBoxcar downsample bufs blocks some_samples whole h e =
    stream-joined downsample empty_sums bufs whole
    ∙ ap (low_pass downsample empty_sums) e
    ∙ low_pass-blocks downsample blocks some_samples h
