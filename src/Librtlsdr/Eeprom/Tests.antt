-- ===== src/Librtlsdr/Eeprom/Tests.antt =====
-- rtl-sdr/src/librtlsdr.c: a dongle with an EEPROM.
use rtl_tcp_pi.Common.{◌≡◌, refl, arith, length, [], ◌∷◌, pos}
use rtl_tcp_pi.Usb.{Usb, received}
use rtl_tcp_pi.Librtlsdr.Eeprom.{rtlsdr_write_eeprom, rtlsdr_read_eeprom}
use rtl_tcp_pi.Librtlsdr.Eeprom.Contents.{Chip, chip, IsEeprom, IsProgrammed}
use rtl_tcp_pi.Librtlsdr.Eeprom.RoundTrip.{eeprom-write_read, write_eeprom-IsProgrammed}

abbrev blank_chip : Chip
blank_chip = record { memory = λ k. 0xff; pointer = 0 }

-- A dongle with an EEPROM that answers every read with one byte.
abbrev with_eeprom : Usb
with_eeprom = record {
  out_status = λ bus index addr bytes. pos (length bytes);
  in_reply = λ bus index addr len.
      received ((chip blank_chip bus).memory (chip blank_chip bus).pointer ∷ []);
  uninit = λ bus. [];
}

with_eeprom-IsEeprom : IsEeprom with_eeprom blank_chip
with_eeprom-IsEeprom = record { acknowledges = λ bus bytes. refl; hands_over = λ bus. refl }

eeprom-write_read_example :
    let w = rtlsdr_write_eeprom with_eeprom (0x28 ∷ 0xff ∷ 0xda ∷ []) 0 [] in
    (w.0 ≡ pos 0)
    × ((rtlsdr_read_eeprom with_eeprom (0 ∷ 0 ∷ 0 ∷ []) 0 w.1).0 ≡ (pos 1, 0x28 ∷ 0xff ∷ 0xda ∷ []))
eeprom-write_read_example =
    eeprom-write_read with_eeprom blank_chip (0x28 ∷ 0xff ∷ 0xda ∷ []) (0 ∷ 0 ∷ 0 ∷ []) 0 []
      with_eeprom-IsEeprom (omega arith) (omega arith) refl

write_eeprom-IsProgrammed_example :
    IsProgrammed blank_chip
      (chip blank_chip (rtlsdr_write_eeprom with_eeprom (0x28 ∷ 0xff ∷ []) 254 []).1)
      254
      (0x28 ∷ 0xff ∷ [])
write_eeprom-IsProgrammed_example =
    write_eeprom-IsProgrammed with_eeprom blank_chip (0x28 ∷ 0xff ∷ []) 254 [] with_eeprom-IsEeprom
      (omega arith)
