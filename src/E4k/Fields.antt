-- ===== src/E4k/Fields.antt =====
-- rtl-sdr/src/tuner_e4k.c: the fields of the IF filters in their registers.
use rtl_tcp_pi.Common.{
  ℕ, ◌*◌, ◌%◌, ◌^◌, ◌<◌, ◌≡◌, ◌≢◌, ◌⊎◌, inl, inr, refl, arith, ltb, ◌==◌, ◌&&◌, eq_of_==, true,
  Bool, bit_and,
}
use rtl_tcp_pi.Common.Bits.{all_below, all_below-at}
use rtl_tcp_pi.E4k.Types.{RegField, IfFilter, if_filter_mix, if_filter_chan, if_filter_rc}
use rtl_tcp_pi.E4k.Registers.{field_mask, field_bits, masked_byte}
use rtl_tcp_pi.E4k.Filters.{if_filter_fields}

-- The register of a field after the field was written.
abbrev pub with_field : RegField → ℕ → ℕ → ℕ
with_field field old val = masked_byte old (field_mask field) (val * 2 ^ field.shift % 2 ^ 8)

-- What a write of a field does to the byte of its register.
abbrev pub Holds : RegField → ℕ → ℕ → Type 0
Holds field old val =
    (field_bits field (with_field field old val) ≡ val)
    × (with_field field old val < 2 ^ 8)
    × (bit_and (val * 2 ^ field.shift % 2 ^ 8) (field_mask field) ≡ val * 2 ^ field.shift % 2 ^ 8)

abbrev holds? : RegField → ℕ → ℕ → Bool
holds? field old val =
    (field_bits field (with_field field old val) == val)
    && (ltb (with_field field old val) (2 ^ 8)
        && (bit_and (val * 2 ^ field.shift % 2 ^ 8) (field_mask field)
            == val * 2 ^ field.shift % 2 ^ 8))

all_hold :
    (filter : IfFilter)
    → all_below 256 (λ old.
      all_below (2 ^ (if_filter_fields filter).width) (holds? (if_filter_fields filter) old))
      ≡ true
unfolding all_below if_filter_fields field_bits field_mask masked_byte
all_hold if_filter_mix = refl
all_hold if_filter_chan = refl
all_hold if_filter_rc = refl

pub write-Holds :
    (filter : IfFilter) (old val : ℕ)
    → old < 256
    → val < 2 ^ (if_filter_fields filter).width
    → Holds (if_filter_fields filter) old val
write-Holds filter old val lt fits =
    let field = if_filter_fields filter in
    let row =
      all_below-at 256 (λ o. all_below (2 ^ field.width) (holds? field o)) old (all_hold filter)
        lt in
    let cell : holds? field old val ≡ true =
      all_below-at (2 ^ field.width) (holds? field old) val row fits in
    ground (arith, cell)

abbrev same_bits? : RegField → RegField → ℕ → ℕ → Bool
same_bits? field other old val = field_bits other (with_field field old val) == field_bits other old

abbrev all_apart : IfFilter → IfFilter → Bool
all_apart filter other = all_below 256 (λ old.
    all_below (2 ^ (if_filter_fields filter).width)
      (same_bits? (if_filter_fields filter) (if_filter_fields other) old))

mix-rc_apart : all_apart if_filter_mix if_filter_rc ≡ true
unfolding all_below if_filter_fields field_bits field_mask masked_byte
mix-rc_apart = refl

rc-mix_apart : all_apart if_filter_rc if_filter_mix ≡ true
unfolding all_below if_filter_fields field_bits field_mask masked_byte
rc-mix_apart = refl

-- Two filters whose fields are in different registers, or do not overlap.
pub filters_apart :
    (filter other : IfFilter)
    → other ≢ filter
    → ((if_filter_fields other).reg ≢ (if_filter_fields filter).reg)
      ⊎ (all_apart filter other ≡ true)
unfolding if_filter_fields
filters_apart if_filter_mix if_filter_mix ne = absurd (ne refl)
filters_apart if_filter_mix if_filter_chan ne = inl (omega arith)
filters_apart if_filter_mix if_filter_rc ne = inr mix-rc_apart
filters_apart if_filter_chan if_filter_mix ne = inl (omega arith)
filters_apart if_filter_chan if_filter_chan ne = absurd (ne refl)
filters_apart if_filter_chan if_filter_rc ne = inl (omega arith)
filters_apart if_filter_rc if_filter_mix ne = inr rc-mix_apart
filters_apart if_filter_rc if_filter_chan ne = inl (omega arith)
filters_apart if_filter_rc if_filter_rc ne = absurd (ne refl)

pub apart-bits :
    (filter other : IfFilter) (old val : ℕ)
    → all_apart filter other ≡ true
    → old < 256
    → val < 2 ^ (if_filter_fields filter).width
    → field_bits (if_filter_fields other) (with_field (if_filter_fields filter) old val)
      ≡ field_bits (if_filter_fields other) old
apart-bits filter other old val apart lt fits =
    let field = if_filter_fields filter in
    let goal? = same_bits? field (if_filter_fields other) in
    let row = all_below-at 256 (λ o. all_below (2 ^ field.width) (goal? o)) old apart lt in
    eq_of_== _ _ (all_below-at (2 ^ field.width) (goal? old) val row fits)
