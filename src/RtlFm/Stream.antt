-- ===== src/RtlFm/Stream.antt =====
-- rtl-sdr/src/rtl_fm.c: `low_pass` over a stream of buffers.
use rtl_tcp_pi.Common.{ℕ, ◌≡◌, refl, Bool-cases, inl, inr, List, [], ◌∷◌, ◌++◌, ℤ}
use rtl_tcp_pi.RtlFm.Input.{LowPass, accumulate, is_partial, carried, emitted, low_pass}

-- Buffers of whole samples, two bytes each.
abbrev pub IsWhole : List ℕ → Type 0
IsWhole [] = Unit
IsWhole (r ∷ []) = ⊥
IsWhole (r ∷ j ∷ buf) = IsWhole buf

module _ (downsample : ℕ) where
  emitted-append :
      (fm : LowPass) (xs ys : List ℤ)
      → emitted downsample fm xs ++ ys ≡ emitted downsample fm (xs ++ ys)
  unfolding emitted
  emitted-append fm xs ys = elim (Bool-cases (is_partial downsample fm)) [
    | inl e ↦ rw e refl
    | inr e ↦ rw e refl
  ]

  -- Two buffers, one after another, are filtered like one buffer with the bytes of both.
  pub low_pass-append :
      (fm : LowPass) (xs ys : List ℕ)
      → IsWhole xs
      → let one = low_pass downsample fm xs in
        let two = low_pass downsample one.0 ys in
        low_pass downsample fm (xs ++ ys) ≡ (two.0, one.1 ++ two.1)
  unfolding low_pass
  low_pass-append fm [] ys h = refl
  low_pass-append fm (r ∷ []) ys h = absurd h
  low_pass-append fm (r ∷ j ∷ xs) ys h =
      let now = accumulate downsample fm r j in
      let ih = low_pass-append (carried downsample now) xs ys h in
      rw ih (
        rw
          (emitted-append now (low_pass downsample (carried downsample now) xs).1
            (low_pass downsample (low_pass downsample (carried downsample now) xs).0 ys).1)
          refl)
