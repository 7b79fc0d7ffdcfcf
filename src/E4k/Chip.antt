-- ===== src/E4k/Chip.antt =====
-- rtl-sdr/src/tuner_e4k.c: the access to registers on a tuner that keeps what is written to it.
use rtl_tcp_pi.Common.{
  ℕ, ◌%◌, ◌^◌, ◌<◌, ◌≡◌, refl, sym, ◌∙◌, fun_ext, arith, ap, ◌==◌, eq_of_==, ==_of_eq, Bool-cases,
  true, false, ltb_ℤ, ◌&&◌, if◌then◌else◌, inl, inr, bit_and, List, [], ◌∷◌, length, ℤ, pos,
}
use rtl_tcp_pi.Common.Bits.{merge_self, merge-lt, merge-inside}
use rtl_tcp_pi.Usb.{Bus, Usb, received, Transfer, wrote, asked, control_out, control_in}
use rtl_tcp_pi.Librtlsdr.Access.{
  rtlsdr_i2c_write, rtlsdr_i2c_read, rtlsdr_write_array, rtlsdr_read_array,
}
use rtl_tcp_pi.Librtlsdr.Fir.{low_byte}
use rtl_tcp_pi.E4k.Types.{E4kState}
use rtl_tcp_pi.E4k.Registers.{
  masked_byte, first_byte, e4k_reg_write, e4k_reg_read, e4k_reg_set_mask,
}

abbrev pub RegisterFile : Type 0
RegisterFile = ℕ → ℕ

-- A register with a new value.
abbrev pub store : ℕ → ℕ → RegisterFile → RegisterFile
store reg val regs k = if k == reg then val else regs k

-- The registers of the tuner, and the one that is selected for reading.
pub record TunerChip : Type 0 where
  pub regs : RegisterFile
  pub selected : ℕ

abbrev pub sent : List ℕ → TunerChip → TunerChip
sent (r ∷ []) t = record t { selected = r }
sent (r ∷ v ∷ []) t = record t { regs = store r v t.regs }
sent other t = t

-- What a transfer does to a tuner at an address of the I2C bus.
abbrev pub after : ℕ → Transfer → TunerChip → TunerChip
after at (wrote index addr bytes rc) t = if index == 0x610 && addr == at then sent bytes t else t
after at (asked index addr len reply) t = t

abbrev pub tuner : ℕ → TunerChip → Bus → TunerChip
tuner at t [] = t
tuner at t (transfer ∷ bus) = after at transfer (tuner at t bus)

-- The dongle acknowledges writes to the tuner and hands over the register that is selected.
pub record IsTuner (usb : Usb) (at : ℕ) (t : TunerChip) : Type 0 where
  pub acknowledges :
      (bus : Bus) (bytes : List ℕ) → usb.out_status bus 0x610 at bytes ≡ pos (length bytes)
  pub hands_over :
      (bus : Bus)
      → usb.in_reply bus 0x600 at 1
        ≡ received ((tuner at t bus).regs (tuner at t bus).selected ∷ [])

abbrev pub AreBytes : RegisterFile → Type 0
AreBytes regs = (k : ℕ) → regs k < 2 ^ 8

pub store-AreBytes :
    (reg val : ℕ) (regs : RegisterFile)
    → val < 2 ^ 8
    → AreBytes regs
    → AreBytes (store reg val regs)
store-AreBytes reg val regs lt h k = elim (Bool-cases (k == reg)) [
  | inl e ↦ rw e lt
  | inr e ↦ rw e (h k)
]

store_same : (reg : ℕ) (regs : RegisterFile) → store reg (regs reg) regs ≡ regs
store_same reg regs = fun_ext (λ k. elim (Bool-cases (k == reg)) [
  | inl e ↦ rw e (rw (eq_of_== k reg e) refl)
  | inr e ↦ rw e refl
])

-- The bits of a masked write inside its mask.
pub masked_byte-inside :
    (old val mask : ℕ) → mask < 2 ^ 8 → bit_and (masked_byte old mask val) mask ≡ bit_and val mask
unfolding masked_byte
masked_byte-inside old val mask lt = merge-inside 8 old val mask lt

module _ (usb : Usb) (at : ℕ) (t : TunerChip) (chip : IsTuner usb at t) where
  -- The registers after the traffic of the driver.
  abbrev pub regs_of : E4kState → RegisterFile
  regs_of e = (tuner at t e.rtl_dev).regs

  -- A call that leaves the registers `regs` and, in the driver, only the traffic changed.
  pub record Leaves (e e' : E4kState) (regs : RegisterFile) : Type 0 where
    pub now : regs_of e' ≡ regs
    pub address : e'.i2c_addr ≡ e.i2c_addr
    pub vco : e'.vco ≡ e.vco
    pub band : e'.band ≡ e.band

  -- One call after another.
  pub Leaves-then :
      (f : RegisterFile → RegisterFile) {e e' e'' : E4kState} {regs : RegisterFile}
      → Leaves e e' regs
      → Leaves e' e'' (f (regs_of e'))
      → Leaves e e'' (f regs)
  Leaves-then f one two = record {
    now = two.now ∙ ap f one.now;
    address = two.address ∙ one.address;
    vco = two.vco ∙ one.vco;
    band = two.band ∙ one.band;
  }

  pub Leaves-to :
      {e e' : E4kState} {regs regs' : RegisterFile}
      → regs ≡ regs'
      → Leaves e e' regs
      → Leaves e e' regs'
  Leaves-to p one = record {
    now = one.now ∙ p;
    address = one.address;
    vco = one.vco;
    band = one.band;
  }

  reached :
      (addr : ℕ) (bytes : List ℕ) (rc : ℤ) (bus : Bus)
      → addr ≡ at
      → tuner at t (wrote 0x610 addr bytes rc ∷ bus) ≡ sent bytes (tuner at t bus)
  reached addr bytes rc bus here = rw (==_of_eq addr at here) refl

  acknowledged :
      (e : E4kState) (bytes : List ℕ)
      → e.i2c_addr ≡ at
      → usb.out_status e.rtl_dev 0x610 e.i2c_addr bytes ≡ pos (length bytes)
  acknowledged e bytes here =
      ap (λ a. usb.out_status e.rtl_dev 0x610 a bytes) here ∙ chip.acknowledges e.rtl_dev bytes

  pub reg_write-Leaves :
      (reg val : ℕ) (e : E4kState)
      → e.i2c_addr ≡ at
      → ((e4k_reg_write usb reg val e).0 ≡ pos 2)
        × Leaves e (e4k_reg_write usb reg val e).1 (store reg val (regs_of e))
  unfolding e4k_reg_write rtlsdr_i2c_write rtlsdr_write_array control_out
  reg_write-Leaves reg val e here = (
    acknowledged e (reg ∷ val ∷ []) here,
    record {
      now = ap (λ u. u.regs) (reached e.i2c_addr (reg ∷ val ∷ []) (pos 2) e.rtl_dev here);
      address = refl;
      vco = refl;
      band = refl;
    },
  )

  handed :
      (reg : ℕ) (e : E4kState) (rc : ℤ)
      → e.i2c_addr ≡ at
      → usb.in_reply (wrote 0x610 e.i2c_addr (reg ∷ []) rc ∷ e.rtl_dev) 0x600 e.i2c_addr 1
        ≡ received (regs_of e reg ∷ [])
  handed reg e rc here =
      let bus = wrote 0x610 e.i2c_addr (reg ∷ []) rc ∷ e.rtl_dev in
      ap (λ a. usb.in_reply bus 0x600 a 1) here
      ∙ chip.hands_over bus
      ∙ rw (==_of_eq e.i2c_addr at here) refl

  pub reg_read-Leaves :
      (reg : ℕ) (e : E4kState)
      → e.i2c_addr ≡ at
      → ((e4k_reg_read usb reg e).0 ≡ pos (regs_of e reg))
        × Leaves e (e4k_reg_read usb reg e).1 (regs_of e)
  unfolding e4k_reg_read rtlsdr_i2c_write rtlsdr_i2c_read rtlsdr_write_array rtlsdr_read_array
      control_out control_in first_byte
  reg_read-Leaves reg e here = rw (acknowledged e (reg ∷ []) here) (
      rw (handed reg e (pos 1) here) (
        refl,
        record {
          now = ap (λ u. u.regs) (reached e.i2c_addr (reg ∷ []) (pos 1) e.rtl_dev here);
          address = refl;
          vco = refl;
          band = refl;
        },
      ))

  -- `val` lies within the mask, and the registers hold bytes.
  pub set_mask-Leaves :
      (reg mask val : ℕ) (e : E4kState)
      → e.i2c_addr ≡ at
      → AreBytes (regs_of e)
      → mask < 2 ^ 8
      → bit_and val mask ≡ val
      → Leaves e
          (e4k_reg_set_mask usb reg mask val e).1
          (store reg (masked_byte (regs_of e reg) mask val) (regs_of e))
  unfolding e4k_reg_set_mask masked_byte low_byte
  set_mask-Leaves reg mask val e here bytes lt inside =
      let old = regs_of e reg in
      let (value, read) = reg_read-Leaves reg e here in
      let mid = (e4k_reg_read usb reg e).1 in
      let new = masked_byte old mask val in
      let byte : old % 2 ^ 8 ≡ old = omega (arith, bytes reg) in
      rw value (
        rw byte (elim (Bool-cases (bit_and old mask == val)) [
          | inl same ↦ rw same (Leaves-to (kept same) read)
          | inr other ↦ rw other (
              Leaves-then (store reg new) read
                (reg_write-Leaves reg new mid (read.address ∙ here)).1)
        ]))
    where
      kept :
          (bit_and (regs_of e reg) mask == val) ≡ true
          → regs_of e ≡ store reg (masked_byte (regs_of e reg) mask val) (regs_of e)
      kept same =
          let old = regs_of e reg in
          let whole = merge_self 8 old mask (bytes reg) lt in
          let bits = inside ∙ sym (eq_of_== (bit_and old mask) val same) in
          sym (ap (λ v. store reg v (regs_of e)) (rw bits whole) ∙ store_same reg (regs_of e))

  -- The mask writes 0 or 2 bytes.
  pub set_mask-succeeds :
      (reg mask val : ℕ) (e : E4kState)
      → e.i2c_addr ≡ at
      → ltb_ℤ (e4k_reg_set_mask usb reg mask val e).0 (pos 0) ≡ false
  unfolding e4k_reg_set_mask
  set_mask-succeeds reg mask val e here =
      let (value, read) = reg_read-Leaves reg e here in
      let old = regs_of e reg in
      let mid = (e4k_reg_read usb reg e).1 in
      let wrote_two =
        (reg_write-Leaves reg (masked_byte (low_byte (pos old)) mask val) mid
          (read.address ∙ here)).0 in
      rw value (elim (Bool-cases (bit_and (low_byte (pos old)) mask == val)) [
        | inl same ↦ rw same refl
        | inr other ↦ rw (other, wrote_two) refl
      ])

  pub set_mask-AreBytes :
      (reg mask val : ℕ) (regs : RegisterFile)
      → AreBytes regs
      → val < 2 ^ 8
      → AreBytes (store reg (masked_byte (regs reg) mask val) regs)
  unfolding masked_byte
  set_mask-AreBytes reg mask val regs bytes lt =
      store-AreBytes reg _ regs (merge-lt 8 (regs reg) val mask (bytes reg) lt) bytes
