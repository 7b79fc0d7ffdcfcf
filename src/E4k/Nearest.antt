-- ===== src/E4k/Nearest.antt =====
-- rtl-sdr/src/tuner_e4k.c: `closest_arr_idx` against the nearest entry of a table.
use rtl_tcp_pi.Common.{
  ℕ, zero, suc, ◌+◌, ◌^◌, ◌≤◌, ◌<◌, ◌≡◌, inl, inr, refl, subst, arith, ltb, lt_of_ltb, le_of_ltb,
  Bool-cases, List, [], ◌∷◌, length, get_or,
}
use rtl_tcp_pi.E4k.Filters.{unsigned_delta, closest_loop, closest_arr_idx}

-- The distance from a number to an entry.
abbrev pub delta : List ℕ → ℕ → ℕ → ℕ
delta arr freq i = unsigned_delta freq (get_or arr i 0)

-- The first of the entries with the least distance.
pub record IsNearest (arr : List ℕ) (freq i : ℕ) : Type 0 where
  pub within : i < length arr
  pub nearest : (j : ℕ) → j < length arr → delta arr freq i ≤ delta arr freq j
  pub first : (j : ℕ) → j < i → delta arr freq i < delta arr freq j

-- What the loop returns over the rest `arr`: an entry nearer than `best`, or what it has.
data Result (arr : List ℕ) (freq i bi best res : ℕ) : Type 0 where
  keeps :
      res ≡ bi
      → ((j : ℕ) → j < length arr → best ≤ delta arr freq j)
      → Result arr freq i bi best res
  finds :
      (k : ℕ)
      → res ≡ i + k
      → IsNearest arr freq k
      → delta arr freq k < best
      → Result arr freq i bi best res

module _ (freq : ℕ) where
  IsNearest-cons :
      (x : ℕ) (arr : List ℕ) (k : ℕ)
      → delta arr freq k < unsigned_delta freq x
      → IsNearest arr freq k
      → IsNearest (x ∷ arr) freq (suc k)
  IsNearest-cons x arr k lt h = record {
    within = omega (arith, h.within);
    nearest = λ j l. near j l;
    first = λ j l. before j l;
  }
    where
      near : (j : ℕ) → j < length (x ∷ arr) → delta arr freq k ≤ delta (x ∷ arr) freq j
      near zero l = omega arith
      near (suc j) l = h.nearest j (omega arith)

      before : (j : ℕ) → j < suc k → delta arr freq k < delta (x ∷ arr) freq j
      before zero l = lt
      before (suc j) l = h.first j (omega arith)

  -- An entry that is not nearer than the best so far, before the rest.
  skip :
      (x : ℕ) (arr : List ℕ) (i bi best res : ℕ)
      → best ≤ unsigned_delta freq x
      → Result arr freq (i + 1) bi best res
      → Result (x ∷ arr) freq i bi best res
  skip x arr i bi best res far (keeps e h) = keeps e (λ j lt. go j lt)
    where
      go : (j : ℕ) → j < length (x ∷ arr) → best ≤ delta (x ∷ arr) freq j
      go zero lt = far
      go (suc j) lt = h j (omega arith)
  skip x arr i bi best res far (finds k e h lt) =
      finds (suc k) (omega arith) (IsNearest-cons x arr k (omega arith) h) lt

  -- An entry that is nearer.
  better :
      (x : ℕ) (arr : List ℕ) (i bi best res : ℕ)
      → unsigned_delta freq x < best
      → Result arr freq (i + 1) i (unsigned_delta freq x) res
      → Result (x ∷ arr) freq i bi best res
  better x arr i bi best res near (keeps e h) =
      finds 0 (omega arith)
        (record {
          within = omega arith;
          nearest = λ j lt. go j lt;
          first = λ j lt. absurd (omega arith);
        })
        near
    where
      go : (j : ℕ) → j < length (x ∷ arr) → unsigned_delta freq x ≤ delta (x ∷ arr) freq j
      go zero lt = omega arith
      go (suc j) lt = h j (omega arith)
  better x arr i bi best res near (finds k e h lt) =
      finds (suc k) (omega arith) (IsNearest-cons x arr k lt h) (omega arith)

  loop-Result :
      (arr : List ℕ) (i bi best : ℕ) → Result arr freq i bi best (closest_loop arr freq i bi best)
  unfolding closest_loop
  loop-Result [] i bi best = keeps refl (λ j lt. absurd (omega (arith, lt)))
  loop-Result (x ∷ arr) i bi best = elim (Bool-cases (ltb (unsigned_delta freq x) best)) [
    | inl e ↦ rw e (better x arr i bi best _ (lt_of_ltb _ _ e) (loop-Result arr (i + 1) i _))
    | inr e ↦ rw e (skip x arr i bi best _ (le_of_ltb _ _ e) (loop-Result arr (i + 1) bi best))
  ]

  delta-lt : (x : ℕ) → freq < 2 ^ 32 → x < 2 ^ 32 → unsigned_delta freq x ≤ 0xffffffff
  unfolding unsigned_delta
  delta-lt x hf hx = ground arith

  nearest_of :
      (arr : List ℕ) (res : ℕ)
      → freq < 2 ^ 32
      → 0 < length arr
      → get_or arr 0 0 < 2 ^ 32
      → Result arr freq 0 0 0xffffffff res
      → IsNearest arr freq res
  nearest_of arr res hf some_entry hx (finds k e h lt) =
      let same : k ≡ res = omega arith in subst (IsNearest arr freq) same h
  nearest_of arr res hf some_entry hx (keeps e h) =
      let same : 0 ≡ res = omega arith in
      subst (IsNearest arr freq) same (record {
        within = some_entry;
        nearest = λ j lt. omega (arith, h j lt, delta-lt (get_or arr 0 0) hf hx);
        first = λ j lt. absurd (omega arith);
      })

-- In a table with an entry, the first one of 32 bits, `closest_arr_idx` returns for each number of 32
-- bits the index of an entry at the least distance from it, and the first such index.
pub closest_arr_idx-IsNearest :
    (arr : List ℕ) (freq : ℕ)
    → freq < 2 ^ 32
    → 0 < length arr
    → get_or arr 0 0 < 2 ^ 32
    → IsNearest arr freq (closest_arr_idx arr freq)
unfolding closest_arr_idx
closest_arr_idx-IsNearest arr freq hf some_entry hx =
    nearest_of freq arr _ hf some_entry hx (loop-Result freq arr 0 0 0xffffffff)
