-- ===== src/R82xx/Mux/Ranges.antt =====
-- rtl-sdr/src/tuner_r82xx.c: the choice of a frequency range by `r82xx_set_mux`.
use rtl_tcp_pi.Common.{
  ℕ, ◌≤◌, ◌<◌, ◌≡◌, refl, arith, List, [], ◌∷◌, ◌⊎◌, inl, inr, ltb, Bool-cases, lt_of_ltb,
  le_of_ltb,
}
use rtl_tcp_pi.R82xx.Mux.{FreqRange, first_range, later_ranges, find_range}

-- The starts of the ranges grow along the table.
abbrev IsAscending : FreqRange → List FreqRange → Type 0
IsAscending here [] = Unit
IsAscending here (next ∷ rest) = (here.freq < next.freq) × IsAscending next rest

abbrev IsOneOf : FreqRange → List FreqRange → Type 0
IsOneOf r [] = ⊥
IsOneOf r (x ∷ xs) = (r ≡ x) ⊎ IsOneOf r xs

-- No range of the table that starts at or below `freq` starts after `r`.
abbrev IsLatest : ℕ → FreqRange → List FreqRange → Type 0
IsLatest freq r [] = Unit
IsLatest freq r (x ∷ xs) = (x.freq ≤ freq → x.freq ≤ r.freq) × IsLatest freq r xs

-- `r` is the last range of the table that starts at or below `freq` MHz.
pub record IsChosen (freq : ℕ) (table : List FreqRange) (r : FreqRange) : Type 0 where
  pub one_of : IsOneOf r table
  pub starts_below : r.freq ≤ freq
  pub latest : IsLatest freq r table

IsLatest-above :
    (freq : ℕ) (r here : FreqRange) (rest : List FreqRange)
    → freq < here.freq
    → IsAscending here rest
    → IsLatest freq r (here ∷ rest)
IsLatest-above freq r here [] h a = (λ below. absurd (omega arith), tt)
IsLatest-above freq r here (next ∷ rest) h a =
    (λ below. absurd (omega arith), IsLatest-above freq r next rest (omega arith) a.1)

find_range-IsChosen :
    (freq : ℕ) (here : FreqRange) (rest : List FreqRange)
    → here.freq ≤ freq
    → IsAscending here rest
    → IsChosen freq (here ∷ rest) (find_range freq here rest)
unfolding find_range
find_range-IsChosen freq here [] h a = record {
  one_of = inl refl;
  starts_below = h;
  latest = (λ below. omega arith, tt);
}
find_range-IsChosen freq here (next ∷ rest) h a = elim (Bool-cases (ltb freq next.freq)) [
  | inl stop ↦ rw stop (record {
    one_of = inl refl;
    starts_below = h;
    latest = (
      λ below. omega arith,
      IsLatest-above freq here next rest (lt_of_ltb freq next.freq stop) a.1,
    );
  })
  | inr go ↦
      let below : next.freq ≤ freq = le_of_ltb freq next.freq go in
      let c = find_range-IsChosen freq next rest below a.1 in
      rw go (record {
        one_of = inr c.one_of;
        starts_below = c.starts_below;
        latest = (λ _. omega (arith, c.latest.0 below, a.0), c.latest);
      })
]

-- For every frequency in MHz, the loop of `r82xx_set_mux` ends at the range of the table with the
-- greatest start that is not above the frequency.
pub set_mux_range :
    (freq : ℕ)
    → IsChosen freq (first_range ∷ later_ranges) (find_range freq first_range later_ranges)
set_mux_range freq = find_range-IsChosen freq first_range later_ranges (omega arith) (omega arith)
