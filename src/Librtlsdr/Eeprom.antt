-- ===== src/Librtlsdr/Eeprom.antt =====
-- rtl-sdr/src/librtlsdr.c: the bytes of the EEPROM.
pub mod Contents
pub mod RoundTrip
mod Tests
use rtl_tcp_pi.Common.{
  ℕ, ◌+◌, ◌%◌, ltb, ◌==◌, Bool, true, false, if◌then◌else◌, List, [], ◌∷◌, length, get_or, ℤ, pos,
  negsuc, eq_ℤ,
}
use rtl_tcp_pi.State.{State, pure, gets, ◌>>=◌, ◌>>◌}
use rtl_tcp_pi.Usb.{Bus, Usb, Reply, received, failed, bytes_of}
use rtl_tcp_pi.Librtlsdr.Access.{iicb, rtlsdr_read_array, rtlsdr_write_array}

abbrev pub eeprom_addr : ℕ
eeprom_addr = 0xa0

unfoldable pub is_negative : ℤ → Bool
is_negative (pos n) = false
is_negative (negsuc n) = true

-- What one turn of the reading loop makes of the answer.
unfoldable pub store_byte :
    Reply → ℕ → List ℕ → (ℤ → State Bus (ℤ × List ℕ)) → State Bus (ℤ × List ℕ)
store_byte (failed n) old old_rest next = pure (negsuc 2, old ∷ old_rest)
store_byte (received bytes) old old_rest next = do
  result ← next (pos (length bytes))
  pure (result.0, get_or bytes 0 old ∷ result.1)

module _ (usb : Usb) where
  -- The loop of `rtlsdr_write_eeprom` from the address `at` on. `cmd1` is what `cmd[1]` holds: a
  -- read without a byte leaves it. The pause after a write is left out.
  unfoldable pub write_bytes : ℕ → ℕ → List ℕ → State Bus ℤ
  write_bytes at cmd1 [] = pure (pos 0)
  write_bytes at cmd1 (byte ∷ data_rest) = do
    rtlsdr_write_array usb iicb eeprom_addr (at % 256 ∷ [])
    reply ← rtlsdr_read_array usb iicb eeprom_addr 1
    let read = get_or (bytes_of reply) 0 cmd1
    if read == byte then write_bytes (at + 1) read data_rest else do
      r ← rtlsdr_write_array usb iicb eeprom_addr (at % 256 ∷ byte ∷ [])
      if eq_ℤ r (pos 2) then write_bytes (at + 1) byte data_rest else pure (negsuc 2)

  -- `len` is the length of `data`.
  unfoldable pub rtlsdr_write_eeprom : List ℕ → ℕ → State Bus ℤ
  rtlsdr_write_eeprom bytes offset = do
    local ← gets usb.uninit
    if ltb 256 (length bytes + offset)
        then pure (negsuc 1)
        else write_bytes offset (get_or local 1 0) bytes

  -- The loop of `rtlsdr_read_eeprom`: the result, and the bytes of the buffer from here on; `r` is
  -- the result of the transfer before.
  unfoldable pub read_bytes : ℤ → List ℕ → State Bus (ℤ × List ℕ)
  read_bytes r [] = pure (r, [])
  read_bytes r (old ∷ old_rest) = do
    reply ← rtlsdr_read_array usb iicb eeprom_addr 1
    store_byte reply old old_rest (λ r'. read_bytes r' old_rest)

  -- `len` is the length of the buffer; the results are the return value and the buffer.
  unfoldable pub rtlsdr_read_eeprom : List ℕ → ℕ → State Bus (ℤ × List ℕ)
  rtlsdr_read_eeprom buffer offset =
      if ltb 256 (length buffer + offset) then pure (negsuc 1, buffer) else do
        r ← rtlsdr_write_array usb iicb eeprom_addr (offset ∷ [])
        if is_negative r then pure (negsuc 2, buffer) else read_bytes r buffer
