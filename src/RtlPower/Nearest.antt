-- ===== src/RtlPower/Nearest.antt =====
-- rtl-sdr/src/rtl_power.c: the gain that `nearest_gain` finds.
use rtl_tcp_pi.Common.{
  ◌≤◌, ◌≡◌, ◌⊎◌, inl, inr, refl, arith, ltb, lt_of_ltb, le_of_ltb, Bool-cases, true, eq_ℤ_refl,
  List, [], ◌∷◌, ℤ,
}
use rtl_tcp_pi.RtlPower.{gain_error, nearest_loop, nearest_of, nearest_gain}
use rtl_tcp_pi.Librtlsdr.Gains.{Tuner, rtlsdr_get_tuner_gains}
use rtl_tcp_pi.Librtlsdr.E4000.Gains.{member}

-- Every gain is at least as far from the target as `best`.
abbrev pub NoneNearer : ℤ → ℤ → List ℤ → Type 0
NoneNearer target best [] = Unit
NoneNearer target best (gain ∷ gains) =
    (gain_error target best ≤ gain_error target gain) × NoneNearer target best gains

-- The nearest of `close` and the gains.
record Found (target close : ℤ) (gains : List ℤ) (res : ℤ) : Type 0 where
  chosen : (res ≡ close) ⊎ (member gains res ≡ true)
  no_worse : gain_error target res ≤ gain_error target close
  nearest : NoneNearer target res gains

later : (x : ℤ) (xs : List ℤ) (res : ℤ) → member xs res ≡ true → member (x ∷ xs) res ≡ true
later x xs res h = ground (arith, h)

loop-Found :
    (target close : ℤ) (gains : List ℤ) → Found target close gains (nearest_loop target close gains)
unfolding nearest_loop
loop-Found target close [] = record { chosen = inl refl; no_worse = omega arith; nearest = tt }
loop-Found target close (gain ∷ gains) =
    elim (Bool-cases (ltb (gain_error target gain) (gain_error target close))) [
      | inl e ↦
          let h = loop-Found target gain gains in
          let lt = lt_of_ltb (gain_error target gain) (gain_error target close) e in
          rw e (record {
            chosen = elim h.chosen [
              | inl same ↦ inr (here same)
              | inr there ↦ inr (later gain gains _ there)
            ];
            no_worse = omega (arith, h.no_worse);
            nearest = (h.no_worse, h.nearest);
          })
      | inr e ↦
          let h = loop-Found target close gains in
          let le = le_of_ltb (gain_error target gain) (gain_error target close) e in
          rw e (record {
            chosen = elim h.chosen [
              | inl same ↦ inl same
              | inr there ↦ inr (later gain gains _ there)
            ];
            no_worse = h.no_worse;
            nearest = (omega (arith, h.no_worse), h.nearest);
          })
    ]
  where
    here : {res : ℤ} → res ≡ gain → member (gain ∷ gains) res ≡ true
    here {res} same = rw same (rw (eq_ℤ_refl gain) refl)

-- The nearest of a list with a gain.
first-Found :
    (target gain : ℤ) (gains : List ℤ)
    → let res = nearest_of target (gain ∷ gains) in
      (member (gain ∷ gains) res ≡ true) × NoneNearer target res (gain ∷ gains)
unfolding nearest_of
first-Found target gain gains =
    let h = loop-Found target gain (gain ∷ gains) in
    (elim h.chosen [ inl same ↦ rw same (rw (eq_ℤ_refl gain) refl) | inr there ↦ there ], h.nearest)

-- For every tuner `nearest_gain` returns a gain that the library advertises for it, and no advertised gain is
-- nearer to the target.
pub nearest_gain-IsNearest :
    (tuner : Tuner) (target : ℤ)
    → (member (rtlsdr_get_tuner_gains tuner) (nearest_gain tuner target) ≡ true)
      × NoneNearer target (nearest_gain tuner target) (rtlsdr_get_tuner_gains tuner)
unfolding nearest_gain rtlsdr_get_tuner_gains
nearest_gain-IsNearest Tuner.tuner_unknown target = first-Found target _ _
nearest_gain-IsNearest Tuner.tuner_e4000 target = first-Found target _ _
nearest_gain-IsNearest Tuner.tuner_fc0012 target = first-Found target _ _
nearest_gain-IsNearest Tuner.tuner_fc0013 target = first-Found target _ _
nearest_gain-IsNearest Tuner.tuner_fc2580 target = first-Found target _ _
nearest_gain-IsNearest Tuner.tuner_r820t target = first-Found target _ _
nearest_gain-IsNearest Tuner.tuner_r828d target = first-Found target _ _
