-- ===== src/E4k/Gain.antt =====
-- rtl-sdr/src/tuner_e4k.c: the gains of the LNA, the mixer and the stages of the IF.
use rtl_tcp_pi.Common.{
  ℕ, ◌+◌, ◌*◌, ◌%◌, ◌^◌, ◌||◌, bit_or, ltb_ℤ, eq_ℤ, Bool, if◌then◌else◌, Option, none, some, List,
  [], ◌∷◌, ℤ, pos, negsuc,
}
use rtl_tcp_pi.State.{pure, ◌>>◌}
use rtl_tcp_pi.Usb.{Usb}
use rtl_tcp_pi.Librtlsdr.Fir.{low_byte}
use rtl_tcp_pi.E4k.Types.{
  E4k, RegField, reg_gain1, reg_gain2, reg_gain3, reg_gain4, reg_agc1, reg_agc7, reg_agc11, reg_dc7,
}
use rtl_tcp_pi.E4k.Registers.{field_mask, e4k_reg_set_mask}

abbrev if_stage1_gain : List ℤ
if_stage1_gain = negsuc 2 ∷ pos 6 ∷ []

abbrev if_stage23_gain : List ℤ
if_stage23_gain = pos 0 ∷ pos 3 ∷ pos 6 ∷ pos 9 ∷ []

abbrev if_stage4_gain : List ℤ
if_stage4_gain = pos 0 ∷ pos 1 ∷ pos 2 ∷ pos 2 ∷ []

abbrev if_stage56_gain : List ℤ
if_stage56_gain = pos 3 ∷ pos 6 ∷ pos 9 ∷ pos 12 ∷ pos 15 ∷ pos 15 ∷ pos 15 ∷ pos 15 ∷ []

-- The gains of a stage and its field, by number. Stage 0 has no gains.
abbrev pub if_stages : List (List ℤ × RegField)
if_stages =
    ([], record { reg = 0; shift = 0; width = 0 })
    ∷ (if_stage1_gain, record { reg = reg_gain3; shift = 0; width = 1 })
    ∷ (if_stage23_gain, record { reg = reg_gain3; shift = 1; width = 2 })
    ∷ (if_stage23_gain, record { reg = reg_gain3; shift = 3; width = 2 })
    ∷ (if_stage4_gain, record { reg = reg_gain3; shift = 5; width = 2 })
    ∷ (if_stage56_gain, record { reg = reg_gain4; shift = 0; width = 3 })
    ∷ (if_stage56_gain, record { reg = reg_gain4; shift = 3; width = 3 })
    ∷ []

-- The tables of a stage that there is.
unfoldable pub stage_at : List (List ℤ × RegField) → ℕ → Option (List ℤ × RegField)
stage_at [] i = none
stage_at (stage ∷ rest) ℕ.zero = some stage
stage_at (stage ∷ rest) (ℕ.suc i) = stage_at rest i

-- The index of the first element that is `val`, counted from `i`.
unfoldable pub index_of : List ℤ → ℤ → ℕ → Option ℕ
index_of [] val i = none
index_of (x ∷ arr) val i =
    let rest = index_of arr val (i + 1) in if eq_ℤ x val then some i else rest

-- `none` is -EINVAL.
unfoldable pub find_stage_gain : Option (List ℤ × RegField) → ℤ → Option (ℕ × RegField)
find_stage_gain none val = none
find_stage_gain (some (arr, field)) val = elim (index_of arr val 0) [
  | none ↦ none
  | some i ↦ some (i, field)
]

-- The gains of the LNA, in tenths of a dB, with their codes.
abbrev pub lnagain : List (ℤ × ℕ)
lnagain =
    (negsuc 49, 0)
    ∷ (negsuc 24, 1)
    ∷ (pos 0, 4)
    ∷ (pos 25, 5)
    ∷ (pos 50, 6)
    ∷ (pos 75, 7)
    ∷ (pos 100, 8)
    ∷ (pos 125, 9)
    ∷ (pos 150, 10)
    ∷ (pos 175, 11)
    ∷ (pos 200, 12)
    ∷ (pos 250, 13)
    ∷ (pos 300, 14)
    ∷ []

-- The code of a gain of the LNA.
unfoldable pub lna_code : List (ℤ × ℕ) → ℤ → Option ℕ
lna_code [] gain = none
lna_code (entry ∷ rest) gain =
    let later = lna_code rest gain in if eq_ℤ entry.0 gain then some entry.1 else later

abbrev pub enhgain : List ℤ
enhgain = pos 10 ∷ pos 30 ∷ pos 50 ∷ pos 70 ∷ []

-- The bit of a gain of the mixer, in dB.
unfoldable pub mixer_bit : ℤ → Option ℕ
mixer_bit value =
    if eq_ℤ value (pos 4) then some 0 else if eq_ℤ value (pos 12) then some 1 else none

module _ (usb : Usb) where
  unfoldable pub set_lna_code : ℤ → Option ℕ → E4k ℤ
  set_lna_code gain none = pure (negsuc 21)
  set_lna_code gain (some code) = do e4k_reg_set_mask usb reg_gain1 0xf code; pure gain

  unfoldable pub e4k_set_lna_gain : ℤ → E4k ℤ
  e4k_set_lna_gain gain = set_lna_code gain (lna_code lnagain gain)

  unfoldable pub set_enh_index : ℤ → Option ℕ → E4k ℤ
  set_enh_index gain (some i) = do
    e4k_reg_set_mask usb reg_agc11 0x7 (bit_or 0x01 (i * 2))
    pure gain
  set_enh_index gain none = do
    e4k_reg_set_mask usb reg_agc11 0x7 0
    pure (if eq_ℤ gain (pos 0) then pos 0 else negsuc 21)

  unfoldable pub e4k_set_enh_gain : ℤ → E4k ℤ
  e4k_set_enh_gain gain = set_enh_index gain (index_of enhgain gain 0)

  unfoldable pub manual_modes : E4k ℤ
  manual_modes = do
    e4k_reg_set_mask usb reg_agc1 0xf 0x0
    e4k_reg_set_mask usb reg_agc7 0x01 0
    pure (pos 0)

  unfoldable pub automatic_modes : E4k ℤ
  automatic_modes = do
    e4k_reg_set_mask usb reg_agc1 0xf 0x9
    e4k_reg_set_mask usb reg_agc7 0x01 1
    e4k_reg_set_mask usb reg_agc11 0x7 0
    pure (pos 0)

  unfoldable pub e4k_enable_manual_gain : Bool → E4k ℤ
  e4k_enable_manual_gain manual = if manual then manual_modes else automatic_modes

  unfoldable pub set_stage_gain : Option (ℕ × RegField) → E4k ℤ
  set_stage_gain none = pure (negsuc 21)
  set_stage_gain (some (rc, field)) =
      e4k_reg_set_mask usb field.reg (field_mask field) (rc * 2 ^ field.shift % 2 ^ 8)

  unfoldable pub e4k_if_gain_set : ℕ → ℤ → E4k ℤ
  e4k_if_gain_set stage value = set_stage_gain (find_stage_gain (stage_at if_stages stage) value)

  unfoldable pub set_mixer_bit : Option ℕ → E4k ℤ
  set_mixer_bit none = pure (negsuc 21)
  set_mixer_bit (some bit) = e4k_reg_set_mask usb reg_gain2 1 bit

  unfoldable pub e4k_mixer_gain_set : ℤ → E4k ℤ
  e4k_mixer_gain_set value = set_mixer_bit (mixer_bit value)

  unfoldable pub e4k_commonmode_set : ℤ → E4k ℤ
  e4k_commonmode_set value =
      if ltb_ℤ value (pos 0) || ltb_ℤ (pos 7) value
      then pure (negsuc 21)
      else e4k_reg_set_mask usb reg_dc7 7 (low_byte value)
