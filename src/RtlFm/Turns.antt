-- ===== src/RtlFm/Turns.antt =====
-- rtl-sdr/src/rtl_fm.c: `rotate_90` as a multiplication of samples by powers of the imaginary unit.
use rtl_tcp_pi.Common.{ℕ, zero, suc, ◌-◌, ◌<◌, ◌≡◌, refl, ap, ap₂, arith, List, [], ◌∷◌}
use rtl_tcp_pi.RtlFm.Input.{rotate_90}

abbrev pub AllBytes : List ℕ → Type 0
AllBytes [] = Unit
AllBytes (b ∷ buf) = b < 256 × AllBytes buf

-- Groups of four samples of two bytes.
pub data AreGroups : List ℕ → Type 0 where
  no_group : AreGroups []
  group :
      {b0 b1 b2 b3 b4 b5 b6 b7 : ℕ} {buf : List ℕ}
      → AreGroups buf
      → AreGroups (b0 ∷ b1 ∷ b2 ∷ b3 ∷ b4 ∷ b5 ∷ b6 ∷ b7 ∷ buf)

-- A sample times the imaginary unit: zero stands at 127.5, so that `255 - x` is the negative of `x`.
abbrev pub quarter_turn : ℕ × ℕ → ℕ × ℕ
quarter_turn (re, im) = (255 - im, re)

abbrev pub quarter_turns : ℕ → ℕ × ℕ → ℕ × ℕ
quarter_turns zero sample = sample
quarter_turns (suc n) sample = quarter_turn (quarter_turns n sample)

-- Sample number `k` is turned `k` times.
abbrev pub spun : ℕ → List ℕ → List ℕ
spun k [] = []
spun k (re ∷ []) = []
spun k (re ∷ im ∷ buf) = let s = quarter_turns k (re, im) in s.0 ∷ s.1 ∷ spun (suc k) buf

quarter_turns-lt :
    (k re im : ℕ)
    → re < 256
    → im < 256
    → ((quarter_turns k (re, im)).0 < 256) × ((quarter_turns k (re, im)).1 < 256)
quarter_turns-lt zero re im hr hi = (hr, hi)
quarter_turns-lt (suc k) re im hr hi =
    let (a, b) = quarter_turns-lt k re im hr hi in (omega arith, a)

-- Four quarter turns are a whole one.
quarter_turns_four :
    (k re im : ℕ)
    → re < 256
    → im < 256
    → quarter_turns (suc (suc (suc (suc k)))) (re, im) ≡ quarter_turns k (re, im)
quarter_turns_four k re im hr hi =
    let (a, b) = quarter_turns-lt k re im hr hi in ap₂ (λ x y. (x, y)) (omega arith) (omega arith)

spun_four : (k : ℕ) (buf : List ℕ) → AllBytes buf → spun (suc (suc (suc (suc k)))) buf ≡ spun k buf
spun_four k [] h = refl
spun_four k (re ∷ []) h = refl
spun_four k (re ∷ im ∷ buf) (hr, (hi, rest)) =
    ap₂ (λ s tail. s.0 ∷ s.1 ∷ tail) (quarter_turns_four k re im hr hi) (spun_four (suc k) buf rest)

-- On a buffer of bytes, in groups of four samples, `rotate_90` multiplies sample number `k`, counted
-- from 0, by the `k`-th power of the imaginary unit, where the byte `x` stands for 2x - 255.
pub rotate_90-turns : (buf : List ℕ) → AreGroups buf → AllBytes buf → rotate_90 buf ≡ spun 0 buf
unfolding rotate_90
rotate_90-turns buf no_group h = refl
rotate_90-turns buf (group {b0} {b1} {b2} {b3} {b4} {b5} {b6} {b7} {buf = rest} groups)
      (h0, (h1, (h2, (h3, (h4, (h5, (h6, (h7, h)))))))) =
    let ih = rotate_90-turns rest groups h in
    let around = spun_four 0 rest h in
    let last : b7 ≡ 255 - (255 - b7) = omega arith in
    rw ih (
      rw around (
        ap (λ b. b0 ∷ b1 ∷ (255 - b3) ∷ b2 ∷ (255 - b4) ∷ (255 - b5) ∷ b ∷ (255 - b6) ∷ spun 0 rest)
          last))
