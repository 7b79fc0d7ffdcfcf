-- ===== src/RtlEeprom.antt =====
-- rtl-sdr/src/rtl_eeprom.c: the configuration block with its string descriptors.
pub mod Strings
pub mod Blocks
pub mod Defaults
pub mod Written
mod Tests
use rtl_tcp_pi.Common.{
  ℕ, zero, suc, ◌+◌, ◌-◌, ◌*◌, ◌/◌, ◌%◌, ◌^◌, leb, ◌==◌, Bool, true, false, not, if◌then◌else◌,
  bit_and, bit_or, Option, none, some, List, [], ◌∷◌,
}
use rtl_tcp_pi.State.{State, pure, gets, modify, ◌>>=◌, ◌>>◌}

-- The bytes of a buffer by their index, and what follows it in memory.
abbrev pub Memory : Type 0
Memory = ℕ → ℕ

unfoldable pub put : ℕ → ℕ → Memory → Memory
put i v dat k = if k == i then v else dat k

-- `rtlsdr_config_t`. A string is the characters that were written to its array before the last 0.
pub record Config : Type 0 where
  pub vendor_id : ℕ
  pub product_id : ℕ
  pub manufacturer : List ℕ
  pub product : List ℕ
  pub serial : List ℕ
  pub have_serial : Bool
  pub enable_ir : Bool
  pub remote_wakeup : Bool

abbrev pub str_offset : ℕ
str_offset = 0x09

-- The loop of `get_string_descriptor`, by `len - i` and `pos + i`.
unfoldable pub get_chars : ℕ → ℕ → Memory → ℕ × List ℕ
get_chars zero at dat = (at, [])
get_chars (suc zero) at dat = (at + 2, dat at ∷ [])
get_chars (suc (suc left)) at dat =
    let (end, str) = get_chars left (at + 2) dat in (end, dat at ∷ str)

-- The position behind the descriptor, and the string. The test of the second byte only prints.
unfoldable pub get_string_descriptor : ℕ → Memory → ℕ × List ℕ
get_string_descriptor pos dat = get_chars (dat pos - 2) (pos + 2) dat

-- The end of `set_string_descriptor`.
unfoldable pub close_string : ℕ → ℕ → State Memory (Option ℕ)
close_string pos j = do modify (put pos (j % 2 ^ 8)); pure (some (pos + j))

-- The loop; `none` is the return value -1.
unfoldable pub set_chars : ℕ → ℕ → List ℕ → State Memory (Option ℕ)
set_chars pos j [] = close_string pos j
set_chars pos j (zero ∷ rest) = close_string pos j
set_chars pos j (suc c ∷ rest) =
    if leb 78 (pos + j)
    then pure none
    else do modify (put (pos + j) (suc c)); modify (put (pos + j + 1) 0); set_chars pos (j + 2) rest

unfoldable pub set_string_descriptor : Option ℕ → List ℕ → State Memory (Option ℕ)
set_string_descriptor none str = pure none
set_string_descriptor (some pos) str = do modify (put (pos + 1) 0x03); set_chars pos 2 str

-- The result 0 is left out.
unfoldable pub parse_eeprom_to_conf : Memory → Config
parse_eeprom_to_conf dat =
    let (pos, manufacturer) = get_string_descriptor str_offset dat in
    let (pos', product) = get_string_descriptor pos dat in
    let (end, serial) = get_string_descriptor pos' dat in
    record {
      vendor_id = bit_or (dat 2) (dat 3 * 2 ^ 8);
      product_id = bit_or (dat 4) (dat 5 * 2 ^ 8);
      manufacturer = manufacturer;
      product = product;
      serial = serial;
      have_serial = dat 6 == 0xa5;
      enable_ir = not (bit_and (dat 7) 0x02 == 0);
      remote_wakeup = not (bit_and (dat 7) 0x01 == 0);
    }

-- Byte 7.
unfoldable pub options : Config → ℕ
options conf =
    bit_or (bit_or 0x14 (if conf.remote_wakeup then 0x01 else 0x00))
      (if conf.enable_ir then 0x02 else 0x00)

-- The bytes before the strings.
unfoldable pub put_header : Config → Memory → Memory
put_header conf dat = put 8 0x02 (
    put 7 (options conf) (
      put 6 (if conf.have_serial then 0xa5 else 0x00) (
        put 5 (bit_and (conf.product_id / 2 ^ 8) 0xff) (
          put 4 (bit_and conf.product_id 0xff) (
            put 3 (bit_and (conf.vendor_id / 2 ^ 8) 0xff)
              (put 2 (bit_and conf.vendor_id 0xff) (put 1 0x32 (put 0 0x28 dat))))))))

unfoldable pub gen_eeprom_from_conf : Config → State Memory (Option ℕ)
gen_eeprom_from_conf conf = do
  modify (put_header conf)
  pos ← set_string_descriptor (some str_offset) conf.manufacturer
  pos' ← set_string_descriptor pos conf.product
  end ← set_string_descriptor pos' conf.serial
  modify (put 78 0x00)
  pure end

-- `enum configs`
pub data Configs : Type 0 where
  conf_none realtek realtek_eeprom terratec_noxon terratec_t_black terratec_t_plus : Configs

abbrev rtl2838 : List ℕ
rtl2838 =
    b'R' ∷ b'T' ∷ b'L' ∷ b'2' ∷ b'8' ∷ b'3' ∷ b'8' ∷ b'U' ∷ b'H' ∷ b'I' ∷ b'D' ∷ b'I' ∷ b'R' ∷ []

abbrev realtek_name : List ℕ
realtek_name = b'R' ∷ b'e' ∷ b'a' ∷ b'l' ∷ b't' ∷ b'e' ∷ b'k' ∷ []

abbrev serial_one : List ℕ
serial_one = b'0' ∷ b'0' ∷ b'0' ∷ b'0' ∷ b'0' ∷ b'0' ∷ b'0' ∷ b'1' ∷ []

-- What three of the configurations share.
unfoldable pub realtek_oem : ℕ → ℕ → Config
realtek_oem vendor product_id = record {
  vendor_id = vendor;
  product_id = product_id;
  manufacturer = realtek_name;
  product = rtl2838;
  serial = serial_one;
  have_serial = true;
  enable_ir = true;
  remote_wakeup = false;
}

unfoldable pub gen_default_conf : Configs → Config → Config
gen_default_conf conf_none conf = conf
gen_default_conf realtek conf = record {
  vendor_id = 0x0bda;
  product_id = 0x2832;
  manufacturer = b'G' ∷ b'e' ∷ b'n' ∷ b'e' ∷ b'r' ∷ b'i' ∷ b'c' ∷ [];
  product =
      b'R' ∷ b'T' ∷ b'L' ∷ b'2' ∷ b'8' ∷ b'3' ∷ b'2' ∷ b'U' ∷ b' ' ∷ b'D' ∷ b'V' ∷ b'B' ∷ b'-'
      ∷ b'T' ∷ [];
  serial = b'0' ∷ [];
  have_serial = true;
  enable_ir = false;
  remote_wakeup = true;
}
gen_default_conf realtek_eeprom conf = realtek_oem 0x0bda 0x2838
gen_default_conf terratec_noxon conf = record {
  vendor_id = 0x0ccd;
  product_id = 0x00b3;
  manufacturer = b'N' ∷ b'O' ∷ b'X' ∷ b'O' ∷ b'N' ∷ [];
  product = b'D' ∷ b'A' ∷ b'B' ∷ b' ' ∷ b'S' ∷ b't' ∷ b'i' ∷ b'c' ∷ b'k' ∷ [];
  serial = b'0' ∷ [];
  have_serial = true;
  enable_ir = false;
  remote_wakeup = true;
}
gen_default_conf terratec_t_black conf = realtek_oem 0x0ccd 0x00a9
gen_default_conf terratec_t_plus conf = realtek_oem 0x0ccd 0x00d7
