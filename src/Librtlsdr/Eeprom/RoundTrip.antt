-- ===== src/Librtlsdr/Eeprom/RoundTrip.antt =====
-- rtl-sdr/src/librtlsdr.c: the EEPROM read after it was written.
use rtl_tcp_pi.Common.{
  ℕ, zero, suc, ◌+◌, ◌%◌, ◌≤◌, ◌<◌, ◌≡◌, refl, ap, ap₂, ◌∙◌, arith, ltb_of_le, List, [], ◌∷◌,
  length, get_or, pos,
}
use rtl_tcp_pi.Usb.{Bus, Usb, received, wrote, asked}
use rtl_tcp_pi.Librtlsdr.Eeprom.{
  is_negative, store_byte, rtlsdr_write_eeprom, read_bytes, rtlsdr_read_eeprom,
}
use rtl_tcp_pi.Librtlsdr.Eeprom.Contents.{
  Chip, chip, IsEeprom, IsProgrammed, Programs, write_array-ok, read_array-ok, write_bytes-Programs,
}

abbrev pub slice : (ℕ → ℕ) → ℕ → ℕ → List ℕ
slice memory at zero = []
slice memory at (suc n) = memory at ∷ slice memory (at + 1) n

slice-bytes :
    (memory : ℕ → ℕ) (at : ℕ) (bytes : List ℕ)
    → ((i : ℕ) → i < length bytes → memory (at + i) ≡ get_or bytes i 0)
    → slice memory at (length bytes) ≡ bytes
slice-bytes memory at [] h = refl
slice-bytes memory at (byte ∷ rest) h =
    let same : at ≡ at + 0 = omega arith in
    let first : memory at ≡ byte = rw same (h 0 (omega arith)) in
    ap₂ (λ b bs. b ∷ bs) first
      (slice-bytes memory (at + 1) rest (λ i lt.
        let over : at + 1 + i ≡ at + suc i = omega arith in rw over (h (suc i) (omega arith))))

module _ (usb : Usb) (c : Chip) (eeprom : IsEeprom usb c) where
  read_bytes-slice :
      (at : ℕ) (buffer : List ℕ) (bus : Bus)
      → (chip c bus).pointer ≡ at % 256
      → at + length buffer ≤ 256
      → (read_bytes usb (pos 1) buffer bus).0
        ≡ (pos 1, slice (chip c bus).memory at (length buffer))
  unfolding read_bytes store_byte
  read_bytes-slice at [] bus here fits = refl
  read_bytes-slice at (old ∷ rest) bus here fits =
      let v = (chip c bus).memory at in
      let bus' = asked 0x600 0xa0 1 (received (v ∷ [])) ∷ bus in
      let same : (chip c bus).pointer ≡ at = omega (arith, here) in
      let next : ((chip c bus).pointer + 1) % 256 ≡ (at + 1) % 256 = rw same refl in
      rw (read_array-ok usb c eeprom bus v (ap (chip c bus).memory same))
        (ap (λ r. (r.0, v ∷ r.1)) (read_bytes-slice (at + 1) rest bus' next (omega arith)))

  -- `rtlsdr_read_eeprom` from any state of the chip.
  read_eeprom-slice :
      (buffer : List ℕ) (offset : ℕ) (bus : Bus)
      → offset < 256
      → length buffer + offset ≤ 256
      → (rtlsdr_read_eeprom usb buffer offset bus).0
        ≡ (pos 1, slice (chip c bus).memory offset (length buffer))
  unfolding rtlsdr_read_eeprom is_negative
  read_eeprom-slice buffer offset bus low fits =
      let bus' = wrote 0x610 0xa0 (offset ∷ []) (pos 1) ∷ bus in
      rw (ltb_of_le 256 (length buffer + offset) fits, write_array-ok usb c eeprom bus offset)
        (read_bytes-slice offset buffer bus' (omega arith) (omega arith))

  pub write_eeprom-Programs :
      (bytes : List ℕ) (offset : ℕ) (bus : Bus)
      → length bytes + offset ≤ 256
      → Programs usb c eeprom offset bytes bus (rtlsdr_write_eeprom usb bytes offset bus)
  unfolding rtlsdr_write_eeprom
  write_eeprom-Programs bytes offset bus fits =
      rw (ltb_of_le 256 (length bytes + offset) fits)
        (write_bytes-Programs usb c eeprom offset _ bytes bus (omega arith))

-- On a dongle with an EEPROM of 256 bytes and an address pointer, `rtlsdr_write_eeprom` with data
-- that end within the 256 bytes returns 0, and `rtlsdr_read_eeprom` into a buffer of the same length
-- at the same offset then returns 1, the result of its last transfer, with the data in the buffer.
pub eeprom-write_read :
    (usb : Usb) (c : Chip) (bytes buffer : List ℕ) (offset : ℕ) (bus : Bus)
    → IsEeprom usb c
    → offset < 256
    → length bytes + offset ≤ 256
    → length buffer ≡ length bytes
    → let w = rtlsdr_write_eeprom usb bytes offset bus in
      (w.0 ≡ pos 0) × ((rtlsdr_read_eeprom usb buffer offset w.1).0 ≡ (pos 1, bytes))
eeprom-write_read usb c bytes buffer offset bus eeprom low fits same =
    let w = write_eeprom-Programs usb c eeprom bytes offset bus fits in
    (
      w.done,
      read_eeprom-slice usb c eeprom buffer offset _ low (omega (arith, same, fits))
          ∙ ap (λ bs. (pos 1, bs)) (rw same (slice-bytes _ offset bytes w.programmed.inside)),
    )

-- On such a dongle `rtlsdr_write_eeprom` programs the bytes of the chip from the offset on with
-- data that end within the 256 bytes, and changes no other byte.
pub write_eeprom-IsProgrammed :
    (usb : Usb) (c : Chip) (bytes : List ℕ) (offset : ℕ) (bus : Bus)
    → IsEeprom usb c
    → length bytes + offset ≤ 256
    → IsProgrammed (chip c bus) (chip c (rtlsdr_write_eeprom usb bytes offset bus).1) offset bytes
write_eeprom-IsProgrammed usb c bytes offset bus eeprom fits =
    (write_eeprom-Programs usb c eeprom bytes offset bus fits).programmed
