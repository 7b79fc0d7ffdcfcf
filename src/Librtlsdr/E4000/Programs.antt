-- ===== src/Librtlsdr/E4000/Programs.antt =====
-- rtl-sdr/src/librtlsdr.c: what `e4000_set_gain` leaves in the registers of the tuner.
use rtl_tcp_pi.Common.{
  ◌≢◌, ==_of_ne, ap₂, ℕ, ◌<◌, ◌≡◌, inl, inr, refl, ap, sym, ◌∙◌, arith, eq_ℤ, ltb_ℤ, eq_of_eq_ℤ,
  Option, none, some, ℤ, pos, negsuc, ◌+ℤ◌, bit_and, true, false, Bool-cases,
}
use rtl_tcp_pi.Common.Masks.{bit_and_ones}
use rtl_tcp_pi.Usb.{Usb}
use rtl_tcp_pi.Driver.{Outcome, ok, ◌>>=◌, pure, call}
use rtl_tcp_pi.Librtlsdr.Gains.{rtlsdr_get_tuner_gains, tuner_e4000}
use rtl_tcp_pi.Librtlsdr.Device.{Device, PpmCorr}
use rtl_tcp_pi.E4k.Types.{E4kState}
use rtl_tcp_pi.E4k.Registers.{masked_byte, e4k_reg_set_mask}
use rtl_tcp_pi.E4k.Gain.{
  lnagain, lna_code, mixer_bit, set_lna_code, set_mixer_bit, e4k_set_lna_gain, e4k_mixer_gain_set,
}
use rtl_tcp_pi.E4k.Chip.{
  TunerChip, IsTuner, AreBytes, store, regs_of, set_mask-Leaves, set_mask-succeeds,
  set_mask-AreBytes, masked_byte-inside,
}
use rtl_tcp_pi.Librtlsdr.E4000.{mixgain, lna_part, e4000_set_gain}
use rtl_tcp_pi.Librtlsdr.E4000.Gains.{
  is_some, tenfold, expected, member, lna_code-accepted, lna_code-lt, lna_code-ne, lna_code-level,
  lna_level, mixer_level, parts_sum,
}

-- The state of the driver in the device.
abbrev pub linked_e4k : Device → E4kState
linked_e4k d = record d.e4k_s { rtl_dev = d.bus }

some_of : (code : Option ℕ) → is_some code ≡ true → (c : ℕ) × (code ≡ some c)
some_of none h = cc
some_of (some c) h = (c, refl)

none_of : (code : Option ℕ) → is_some code ≡ false → code ≡ none
none_of none h = refl
none_of (some c) h = cc

-- The mixer has a bit for both of its gains.
mixgain_bit :
    (gain : ℤ)
    → (bit : ℕ) × (mixer_bit (mixgain gain) ≡ some bit)
      × (bit < 2)
      × (mixer_level bit ≡ tenfold (mixgain gain))
unfolding mixer_bit mixgain
mixgain_bit gain = elim (Bool-cases (ltb_ℤ (pos 340) gain)) [
  | inl e ↦ (1, rw e refl, omega arith, rw e refl)
  | inr e ↦ (0, rw e refl, omega arith, rw e refl)
]

-- The call returns 0, the gains that the two registers mean to the tuner add up to `gain`, and the other
-- registers are those of before, `regs`.
pub record IsExact (usb : Usb) (at : ℕ) (t : TunerChip) (chip : IsTuner usb at t) (gain : ℤ)
    (regs : ℕ → ℕ) (r : Outcome ℤ × Device) : Type 0 where
  pub code : r.0 ≡ ok (pos 0)
  pub total :
      lna_level (bit_and (regs_of usb at t chip (linked_e4k r.1) 0x14) 0x0f)
        +ℤ mixer_level (bit_and (regs_of usb at t chip (linked_e4k r.1) 0x15) 0x01)
      ≡ gain
  pub others : (k : ℕ) → k ≢ 0x14 → k ≢ 0x15 → regs_of usb at t chip (linked_e4k r.1) k ≡ regs k

stored_elsewhere : (k reg v : ℕ) (regs : ℕ → ℕ) → k ≢ reg → store reg v regs k ≡ regs k
stored_elsewhere k reg v regs other = rw (==_of_ne k reg other) refl

not_error : (r : ℤ) → ltb_ℤ r (pos 0) ≡ false → eq_ℤ r (negsuc 21) ≡ false
not_error r h = ground arith

lna_call :
    (usb : Usb) (gain : ℤ) (code : ℕ) (e : E4kState)
    → lna_code lnagain gain ≡ some code
    → (e4k_set_lna_gain usb gain e ≡ (gain, (e4k_reg_set_mask usb 0x14 0x0f code e).1))
      × (eq_ℤ gain (negsuc 21) ≡ false)
unfolding e4k_set_lna_gain set_lna_code
lna_call usb gain code e h = (
  rw h refl,
  elim (Bool-cases (eq_ℤ gain (negsuc 21))) [
    | inr other ↦ other
    | inl same ↦
        let at_error = eq_of_eq_ℤ gain (negsuc 21) same in
        absurd (lna_code-ne code (ap (lna_code lnagain) (sym at_error) ∙ h))
  ],
)

mixer_call :
    (usb : Usb) (value : ℤ) (bit : ℕ) (e : E4kState)
    → mixer_bit value ≡ some bit
    → e4k_mixer_gain_set usb value e ≡ e4k_reg_set_mask usb 0x15 0x01 bit e
unfolding e4k_mixer_gain_set set_mixer_bit
mixer_call usb value bit e h = rw h refl

module _ (usb : Usb) (ppm_corr : PpmCorr) (at : ℕ) (t : TunerChip) (chip : IsTuner usb at t) where
  set_gain-codes :
      (gain : ℤ) (code bit : ℕ) (d : Device)
      → d.e4k_s.i2c_addr ≡ at
      → AreBytes (regs_of usb at t chip (linked_e4k d))
      → lna_code lnagain (lna_part gain) ≡ some code
      → mixer_bit (mixgain gain) ≡ some bit
      → bit < 2
      → lna_level code +ℤ mixer_level bit ≡ gain
      → IsExact usb at t chip gain
          (regs_of usb at t chip (linked_e4k d))
          (e4000_set_gain usb ppm_corr gain d)
  unfolding e4000_set_gain ◌>>=◌ pure call
  set_gain-codes gain code bit d here bytes has_code has_bit small sum =
      let e = linked_e4k d in
      let regs = regs_of usb at t chip e in
      let fits = lna_code-lt (lna_part gain) code has_code in
      let low = bit_and_ones 4 code 0 code fits (omega arith) in
      let one = set_mask-Leaves usb at t chip 0x14 0x0f code e here bytes (omega arith) low in
      let e1 = (e4k_reg_set_mask usb 0x14 0x0f code e).1 in
      let bytes1 : AreBytes (regs_of usb at t chip e1) =
        rw one.now (set_mask-AreBytes usb at t chip 0x14 0x0f code regs bytes (omega arith)) in
      let regs1 : ℕ → ℕ = store 0x14 (masked_byte (regs 0x14) 0x0f code) regs in
      let here1 = one.address ∙ here in
      let low1 = bit_and_ones 1 bit 0 bit (omega arith) (omega arith) in
      let two = set_mask-Leaves usb at t chip 0x15 0x01 bit e1 here1 bytes1 (omega arith) low1 in
      let regs2 = two.now ∙ ap (λ r. store 0x15 (masked_byte (r 0x15) 0x01 bit) r) one.now in
      let (lna_done, no_error) = lna_call usb (lna_part gain) code e has_code in
      let fine =
        not_error (e4k_reg_set_mask usb 0x15 0x01 bit e1).0
          (set_mask-succeeds usb at t chip 0x15 0x01 bit e1 here1) in
      let lna_bits =
        ap (λ r. bit_and (r 0x14) 0x0f) regs2
        ∙ masked_byte-inside _ code 0x0f (omega arith)
        ∙ low in
      let mixer_bits =
        ap (λ r. bit_and (r 0x15) 0x01) regs2
        ∙ masked_byte-inside _ bit 0x01 (omega arith)
        ∙ low1 in
      rw lna_done (
        rw no_error (
          rw (mixer_call usb (mixgain gain) bit e1 has_bit) (
            rw fine (record {
              code = refl;
              total = ap₂ (λ a b. lna_level a +ℤ mixer_level b) lna_bits mixer_bits ∙ sum;
              others = λ k not_lna not_mixer.
                  ap (λ r. r k) regs2
                  ∙ stored_elsewhere k 0x15 (masked_byte (regs1 0x15) 0x01 bit) regs1 not_mixer
                  ∙ stored_elsewhere k 0x14 (masked_byte (regs 0x14) 0x0f code) regs not_lna;
            }))))

-- On a tuner that acknowledges writes and keeps what is written to its registers, where these hold
-- bytes, `e4000_set_gain` with a gain that the library advertises returns 0. The gains of the LNA and of the mixer
-- that the registers then mean to the tuner, by its own coding, add up to the gain exactly, and no other register is changed.
pub set_gain-IsExact :
    (usb : Usb) (ppm_corr : PpmCorr) (at : ℕ) (t : TunerChip) (chip : IsTuner usb at t) (gain : ℤ)
    (d : Device)
    → d.e4k_s.i2c_addr ≡ at
    → AreBytes (regs_of usb at t chip (linked_e4k d))
    → member (rtlsdr_get_tuner_gains tuner_e4000) gain ≡ true
    → IsExact usb at t chip gain
        (regs_of usb at t chip (linked_e4k d))
        (e4000_set_gain usb ppm_corr gain d)
set_gain-IsExact usb ppm_corr at t chip gain d here bytes advertised =
    let (code, has_code) =
      some_of (lna_code lnagain (lna_part gain)) (lna_code-accepted gain ∙ rw advertised refl) in
    let (bit, has_bit, small, mixer_gain) = mixgain_bit gain in
    let sum =
      ap₂ (λ a b. a +ℤ b) (lna_code-level (lna_part gain) code has_code) mixer_gain
      ∙ parts_sum gain advertised in
    set_gain-codes usb ppm_corr at t chip gain code bit d here bytes has_code has_bit small sum

-- `e4000_set_gain` with a gain that is not advertised, not 370 and below 420 returns -1 and makes no transfer.
pub set_gain-refuses :
    (usb : Usb) (ppm_corr : PpmCorr) (gain : ℤ) (d : Device)
    → expected gain ≡ false
    → e4000_set_gain usb ppm_corr gain d ≡ (ok (negsuc 0), record d { e4k_s = linked_e4k d })
unfolding e4000_set_gain ◌>>=◌ pure call e4k_set_lna_gain set_lna_code
set_gain-refuses usb ppm_corr gain d h =
    rw (none_of (lna_code lnagain (lna_part gain)) (lna_code-accepted gain ∙ h)) refl
