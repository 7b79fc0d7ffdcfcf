-- ===== src/RtlEeprom/Tests.antt =====
-- rtl-sdr/src/rtl_eeprom.c: configurations written to a buffer of zeros and read back.
use rtl_tcp_pi.Common.{
  pos, length, ℕ, zero, suc, ◌≡◌, refl, ◌≢◌, arith, true, false, some, List, [], ◌∷◌,
}
use rtl_tcp_pi.RtlEeprom.{
  Memory, Config, conf_none, terratec_noxon, gen_eeprom_from_conf, parse_eeprom_to_conf,
}
use rtl_tcp_pi.Usb.{Usb, received}
use rtl_tcp_pi.Librtlsdr.Eeprom.{rtlsdr_write_eeprom}
use rtl_tcp_pi.Librtlsdr.Eeprom.Contents.{Chip, chip}
use rtl_tcp_pi.Librtlsdr.Eeprom.RoundTrip.{slice}
use rtl_tcp_pi.RtlEeprom.Written.{written-parse}
use rtl_tcp_pi.RtlEeprom.Strings.{IsString, is_string-IsString}
use rtl_tcp_pi.RtlEeprom.Blocks.{IsValid, gen_eeprom-parse}

abbrev blank : Memory
blank = λ k. 0

abbrev many : ℕ → List ℕ
many zero = []
many (suc n) = b'x' ∷ many n

abbrev with_serial : List ℕ → Config
with_serial serial = record {
  vendor_id = 0x0bda;
  product_id = 0x2838;
  manufacturer = b'R' ∷ b'T' ∷ b'L' ∷ [];
  product = b'S' ∷ b'D' ∷ b'R' ∷ [];
  serial = serial;
  have_serial = true;
  enable_ir = false;
  remote_wakeup = true;
}

with_serial-IsValid : (n : ℕ) → IsString (many n) → IsValid (with_serial (many n))
with_serial-IsValid n h = record {
  vendor = omega arith;
  product_number = omega arith;
  manufacturer = is_string-IsString (with_serial []).manufacturer refl;
  product = is_string-IsString (with_serial []).product refl;
  serial = h;
}

gen_eeprom-parse_example :
    let r = gen_eeprom_from_conf (with_serial (many 8)) blank in
    (r.0 ≡ some 43) × (parse_eeprom_to_conf r.1 ≡ with_serial (many 8))
gen_eeprom-parse_example =
    gen_eeprom-parse (with_serial (many 8)) blank
      (with_serial-IsValid 8 (is_string-IsString (many 8) refl)) (omega arith)

noxon-chosen : terratec_noxon ≢ conf_none
noxon-chosen h = cc

abbrev erased : Chip
erased = record { memory = λ k. 0xff; pointer = 0 }

-- A dongle with an EEPROM that answers every read with one byte.
abbrev dongle : Usb
dongle = record {
  out_status = λ bus index addr bytes. pos (length bytes);
  in_reply =
      λ bus index addr len. received ((chip erased bus).memory (chip erased bus).pointer ∷ []);
  uninit = λ bus. [];
}

written-parse_example :
    let block = slice (gen_eeprom_from_conf (with_serial (many 8)) blank).1 0 128 in
    let w = rtlsdr_write_eeprom dongle block 0 [] in
    (w.0 ≡ pos 0) × (parse_eeprom_to_conf (chip erased w.1).memory ≡ with_serial (many 8))
written-parse_example =
    written-parse dongle erased (with_serial (many 8)) blank []
      (record { acknowledges = λ bus bytes. refl; hands_over = λ bus. refl })
      (with_serial-IsValid 8 (is_string-IsString (many 8) refl)) (omega arith)
