-- ===== src/RtlAdsb/Tests.antt =====
-- rtl-sdr/src/rtl_adsb.c: the decoder on concrete samples.
use rtl_tcp_pi.Common.{ℕ, ◌≡◌, arith, some, List, [], ◌∷◌, length}
use rtl_tcp_pi.RtlAdsb.Manchester.{manchester}
use rtl_tcp_pi.RtlAdsb.Ends.{manchester-ends}

-- A preamble, and pairs of samples after it.
abbrev samples : List ℕ
samples = 9 ∷ 1 ∷ 9 ∷ 1 ∷ 1 ∷ 1 ∷ 1 ∷ 9 ∷ 1 ∷ 9 ∷ 1 ∷ 1 ∷ 1 ∷ 1 ∷ 1 ∷ 1 ∷ 9 ∷ 1 ∷ 1 ∷ 9 ∷ 9 ∷ 2 ∷ []

manchester-ends_example :
    (buf' : List ℕ) × (manchester 10 5 samples ≡ some buf') × (length buf' ≡ 22)
manchester-ends_example = manchester-ends 10 5 samples (omega arith)
