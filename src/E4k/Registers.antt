-- ===== src/E4k/Registers.antt =====
-- rtl-sdr/src/tuner_e4k.c: access to registers and to fields of bits in them.
use rtl_tcp_pi.Common.{
  ℕ, ◌-◌, ◌*◌, ◌/◌, ◌%◌, ◌^◌, ◌==◌, ltb_ℤ, bit_and, bit_or, if◌then◌else◌, List, [], ◌∷◌, ℤ, pos,
  negsuc, get_or,
}
use rtl_tcp_pi.State.{State, pure, ◌>>=◌}
use rtl_tcp_pi.Usb.{Bus, Usb, Reply, received, failed}
use rtl_tcp_pi.Librtlsdr.Access.{rtlsdr_i2c_write, rtlsdr_i2c_read}
use rtl_tcp_pi.Librtlsdr.Fir.{low_byte}
use rtl_tcp_pi.E4k.Types.{E4k, RegField}

abbrev pub width2mask : List ℕ
width2mask = 0 ∷ 1 ∷ 3 ∷ 7 ∷ 0x0f ∷ 0x1f ∷ 0x3f ∷ 0x7f ∷ 0xff ∷ []

-- `width2mask[field->width] << field->shift` as a byte.
unfoldable pub field_mask : RegField → ℕ
field_mask field = get_or width2mask field.width 0 * 2 ^ field.shift % 2 ^ 8

-- The first byte of an answer, or -1 where there is none.
unfoldable pub first_byte : Reply → ℤ
first_byte (received []) = negsuc 0
first_byte (received (byte ∷ rest)) = pos byte
first_byte (failed n) = negsuc 0

-- `(rc >> field->shift) & width2mask[field->width]`
unfoldable pub field_bits : RegField → ℕ → ℕ
field_bits field n = bit_and (n / 2 ^ field.shift) (get_or width2mask field.width 0)

-- The field of a register that was read; an error stays as it is.
unfoldable pub field_value : RegField → ℤ → ℤ
field_value field (pos n) = pos (field_bits field n)
field_value field (negsuc n) = negsuc n

-- `(tmp & ~mask) | (val & mask)` of bytes.
unfoldable pub masked_byte : ℕ → ℕ → ℕ → ℕ
masked_byte tmp mask val = bit_or (bit_and tmp (255 - mask)) (bit_and val mask)

-- A call of the library on the device.
abbrev pub on_device : {A : Type 0} → (ℕ → State Bus A) → E4k A
on_device m e = let (a, bus) = m e.i2c_addr e.rtl_dev in (a, record e { rtl_dev = bus })

module _ (usb : Usb) where
  unfoldable pub e4k_reg_write : ℕ → ℕ → E4k ℤ
  unfolding rtlsdr_i2c_write
  e4k_reg_write reg val = on_device (λ addr. rtlsdr_i2c_write usb addr (reg ∷ val ∷ []))

  unfoldable pub e4k_reg_read : ℕ → E4k ℤ
  unfolding rtlsdr_i2c_write rtlsdr_i2c_read
  e4k_reg_read reg = do
    rc ← on_device (λ addr. rtlsdr_i2c_write usb addr (reg ∷ []))
    if ltb_ℤ rc (pos 1)
        then pure (negsuc 0)
        else do reply ← on_device (λ addr. rtlsdr_i2c_read usb addr 1); pure (first_byte reply)

  -- `uint8_t tmp` makes 255 of a failed read.
  unfoldable pub e4k_reg_set_mask : ℕ → ℕ → ℕ → E4k ℤ
  e4k_reg_set_mask reg mask val = do
    read ← e4k_reg_read reg
    let tmp = low_byte read
    if bit_and tmp mask == val then pure (pos 0) else e4k_reg_write reg (masked_byte tmp mask val)

  unfoldable pub e4k_field_write : RegField → ℕ → E4k ℤ
  e4k_field_write field val = do
    rc ← e4k_reg_read field.reg
    if ltb_ℤ rc (pos 0)
        then pure rc
        else e4k_reg_set_mask field.reg (field_mask field) (val * 2 ^ field.shift % 2 ^ 8)

  unfoldable pub e4k_field_read : RegField → E4k ℤ
  e4k_field_read field = do rc ← e4k_reg_read field.reg; pure (field_value field rc)
