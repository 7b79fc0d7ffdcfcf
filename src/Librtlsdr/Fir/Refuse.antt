-- ===== src/Librtlsdr/Fir/Refuse.antt =====
-- rtl-sdr/src/librtlsdr.c: FIR coefficients that are out of range.
use rtl_tcp_pi.Common.{
  ℕ, zero, suc, ◌+◌, ◌-◌, ◌≤◌, ◌<◌, ◌≡◌, refl, ◌∙◌, sym, ap, ◌⊎◌, arith, ◌&&◌, Bool, Bool-cases,
  inl, inr, true, false, ltb, lt_of_ltb, le_of_ltb, if◌then◌else◌, Option, none, some, List, [],
  ◌∷◌, ℤ, pos, negsuc, take, drop, length, get_or, length-drop, length-take, get_or-take,
  get_or-drop,
}
use rtl_tcp_pi.Usb.{Usb, Bus}
use rtl_tcp_pi.Librtlsdr.Fir.{
  in_range, fir_first, fir_second, both_parts, fir_bytes, rtlsdr_set_fir,
}

first-refuses :
    (vals : List ℤ) (i : ℕ)
    → i < length vals
    → in_range 128 (get_or vals i (pos 0)) ≡ false
    → fir_first vals ≡ none
unfolding fir_first
first-refuses [] i h out = absurd (omega arith)
first-refuses (v ∷ vs) zero h out = rw out refl
first-refuses (v ∷ vs) (suc i) h out =
    let rest = first-refuses vs i (omega arith) out in
    elim (Bool-cases (in_range 128 v)) [ inl e ↦ rw (e, rest) refl | inr e ↦ rw e refl ]

both-false : (b : Bool) → (b && false) ≡ false
both-false true = refl
both-false false = refl

second-refuses :
    (vals : List ℤ) (i : ℕ)
    → i < length vals
    → in_range 2048 (get_or vals i (pos 0)) ≡ false
    → fir_second vals ≡ none
unfolding fir_second
second-refuses [] i h out = absurd (omega arith)
second-refuses (v ∷ []) i h out = refl
second-refuses (v0 ∷ v1 ∷ vs) zero h out = rw out refl
second-refuses (v0 ∷ v1 ∷ vs) (suc zero) h out = rw (out, both-false (in_range 2048 v0)) refl
second-refuses (v0 ∷ v1 ∷ vs) (suc (suc i)) h out =
    let rest = second-refuses vs i (omega arith) out in
    elim (Bool-cases (in_range 2048 v0 && in_range 2048 v1)) [
      | inl e ↦ rw (e, rest) refl
      | inr e ↦ rw e refl
    ]

-- The bound of a coefficient: 8 bits for the first eight, 12 bits for the others.
abbrev pub bound_at : ℕ → ℕ
bound_at i = if ltb i 8 then 128 else 2048

either_none : (r : Option (List ℕ)) → both_parts r none ≡ none
unfolding both_parts
either_none none = refl
either_none (some first) = refl

-- A coefficient that does not fit its format.
abbrev pub IsTooWide : List ℤ → ℕ → Type 0
IsTooWide fir i = in_range (bound_at i) (get_or fir i (pos 0)) ≡ false

refused_below :
    (fir : List ℤ) (i : ℕ)
    → length fir ≡ 16
    → i < 8
    → in_range 128 (get_or fir i (pos 0)) ≡ false
    → fir_bytes fir ≡ none
unfolding fir_bytes both_parts
refused_below fir i e near out =
    let r =
      first-refuses (take 8 fir) i (omega (arith, length-take 8 fir))
        (ap (in_range 128) (get_or-take 8 fir i (pos 0) near) ∙ out) in
    rw (fir_bytes, r) refl

refused_above :
    (fir : List ℤ) (i : ℕ)
    → length fir ≡ 16
    → 8 ≤ i
    → i < 16
    → in_range 2048 (get_or fir i (pos 0)) ≡ false
    → fir_bytes fir ≡ none
unfolding fir_bytes both_parts
refused_above fir i e far h out =
    let same : 8 + (i - 8) ≡ i = omega arith in
    let at = get_or-drop 8 fir (i - 8) (pos 0) ∙ ap (λ k. get_or fir k (pos 0)) same in
    let r =
      second-refuses (drop 8 fir) (i - 8) (omega (arith, length-drop 8 fir))
        (ap (in_range 2048) at ∙ out) in
    rw (fir_bytes, r) (either_none (fir_first (take 8 fir)))

-- If one of the 16 coefficients does not fit its format, -128 to 127 for the first 8 and -2048 to 2047
-- for the others, `rtlsdr_set_fir` returns -1 and sends nothing.
pub set_fir-refuses :
    (usb : Usb) (fir : List ℤ) (i : ℕ) (bus : Bus)
    → length fir ≡ 16
    → i < 16
    → IsTooWide fir i
    → rtlsdr_set_fir usb fir bus ≡ (negsuc 0, bus)
unfolding rtlsdr_set_fir
set_fir-refuses usb fir i bus e h out = rw (rtlsdr_set_fir, refused (Bool-cases (ltb i 8))) refl
  where
    refused : (ltb i 8 ≡ true) ⊎ (ltb i 8 ≡ false) → fir_bytes fir ≡ none
    refused (inl near) =
        refused_below fir i e (lt_of_ltb i 8 near)
          (ap (λ b. in_range (if b then 128 else 2048) (get_or fir i (pos 0))) (sym near) ∙ out)
    refused (inr far) =
        refused_above fir i e (le_of_ltb i 8 far) h
          (ap (λ b. in_range (if b then 128 else 2048) (get_or fir i (pos 0))) (sym far) ∙ out)
