-- ===== src/RtlEeprom/Blocks.antt =====
-- rtl-sdr/src/rtl_eeprom.c: a whole configuration block.
use rtl_tcp_pi.Common.{
  ℕ, ◌+◌, ◌*◌, ◌/◌, ◌%◌, ◌^◌, ◌≤◌, ◌<◌, ◌≡◌, refl, ap, ◌∙◌, arith, Bool, true, false, not, ◌==◌,
  bit_and, bit_or, if◌then◌else◌, Option, none, some, List, length,
}
use rtl_tcp_pi.Common.Masks.{bit_and_ones, bit_or_disjoint}
use rtl_tcp_pi.RtlEeprom.{
  Memory, put, Config, set_string_descriptor, parse_eeprom_to_conf, options, put_header,
  gen_eeprom_from_conf,
}
use rtl_tcp_pi.RtlEeprom.Strings.{
  IsString, Chars-Agree, Agree, Holds, get_string-Holds, set_string-IsStored, set_string-long,
  put_other,
}

-- The strings have no 0 in them, and the identifiers have 16 bits.
pub record IsValid (conf : Config) : Type 0 where
  pub vendor : conf.vendor_id < 2 ^ 16
  pub product_number : conf.product_id < 2 ^ 16
  pub manufacturer : IsString conf.manufacturer
  pub product : IsString conf.product
  pub serial : IsString conf.serial

abbrev pub string_length : Config → ℕ
string_length conf = length conf.manufacturer + length conf.product + length conf.serial

-- A 16-bit number from its two bytes.
low_byte_lem : (x : ℕ) → bit_and x 0xff ≡ x % 2 ^ 8
low_byte_lem x = bit_and_ones 8 x (x / 2 ^ 8) (x % 2 ^ 8) (omega arith) (omega arith)

word_lem : (x : ℕ) → x < 2 ^ 16 → bit_or (bit_and x 0xff) (bit_and (x / 2 ^ 8) 0xff * 2 ^ 8) ≡ x
word_lem x lt =
    rw (low_byte_lem x, low_byte_lem (x / 2 ^ 8))
      (bit_or_disjoint 8 (x % 2 ^ 8) (x / 2 ^ 8 % 2 ^ 8) (omega arith) ∙ omega arith)

-- What the bytes before the strings say.
pub record Header (conf : Config) (dat : Memory) : Type 0 where
  vendor : bit_or (dat 2) (dat 3 * 2 ^ 8) ≡ conf.vendor_id
  product_number : bit_or (dat 4) (dat 5 * 2 ^ 8) ≡ conf.product_id
  serial_on : (dat 6 == 0xa5) ≡ conf.have_serial
  ir_on : not (bit_and (dat 7) 0x02 == 0) ≡ conf.enable_ir
  wakeup_on : not (bit_and (dat 7) 0x01 == 0) ≡ conf.remote_wakeup

serial_flag : (b : Bool) → ((if b then 0xa5 else 0x00) == 0xa5) ≡ b
serial_flag true = refl
serial_flag false = refl

abbrev flags : Bool → Bool → ℕ
flags wakeup ir = bit_or (bit_or 0x14 (if wakeup then 0x01 else 0x00)) (if ir then 0x02 else 0x00)

ir_flag : (wakeup ir : Bool) → not (bit_and (flags wakeup ir) 0x02 == 0) ≡ ir
ir_flag true true = refl
ir_flag true false = refl
ir_flag false true = refl
ir_flag false false = refl

wakeup_flag : (wakeup ir : Bool) → not (bit_and (flags wakeup ir) 0x01 == 0) ≡ wakeup
wakeup_flag true true = refl
wakeup_flag true false = refl
wakeup_flag false true = refl
wakeup_flag false false = refl

put_header-Header :
    (conf : Config) (dat : Memory) → IsValid conf → Header conf (put_header conf dat)
unfolding put_header put options
put_header-Header conf dat h = record {
  vendor = word_lem conf.vendor_id h.vendor;
  product_number = word_lem conf.product_id h.product_number;
  serial_on = serial_flag conf.have_serial;
  ir_on = ir_flag conf.remote_wakeup conf.enable_ir;
  wakeup_on = wakeup_flag conf.remote_wakeup conf.enable_ir;
}

pub Header-same :
    (conf : Config) (dat dat' : Memory)
    → ((k : ℕ) → k < 9 → dat' k ≡ dat k)
    → Header conf dat
    → Header conf dat'
Header-same conf dat dat' same h = record {
  vendor = rw (same 2 (omega arith), same 3 (omega arith)) h.vendor;
  product_number = rw (same 4 (omega arith), same 5 (omega arith)) h.product_number;
  serial_on = rw (same 6 (omega arith)) h.serial_on;
  ir_on = rw (same 7 (omega arith)) h.ir_on;
  wakeup_on = rw (same 7 (omega arith)) h.wakeup_on;
}

pub Holds-Agree :
    (dat dat' : Memory) (pos : ℕ) (str : List ℕ)
    → pos % 2 ≡ 1
    → Agree dat dat' pos (pos + 2 + 2 * length str)
    → Holds dat pos str
    → Holds dat' pos str
Holds-Agree dat dat' pos str odd same h = record {
  size = same pos (omega arith) (omega arith) odd ∙ h.size;
  chars =
      Chars-Agree dat dat' (pos + 2) str (omega arith) (λ k lo hi. same k (omega arith) hi) h.chars;
}

-- A block that holds a configuration.
pub record IsBlock (conf : Config) (dat : Memory) : Type 0 where
  pub header : Header conf dat
  pub manufacturer : Holds dat 9 conf.manufacturer
  pub product : Holds dat (9 + 2 + 2 * length conf.manufacturer) conf.product
  pub serial :
      Holds dat (9 + 2 + 2 * length conf.manufacturer + 2 + 2 * length conf.product) conf.serial

pub parse-IsBlock :
    (conf : Config) (dat : Memory) → IsBlock conf dat → parse_eeprom_to_conf dat ≡ conf
unfolding parse_eeprom_to_conf
parse-IsBlock conf dat b =
    rw
      (
        get_string-Holds dat 9 conf.manufacturer b.manufacturer,
        get_string-Holds dat _ conf.product b.product,
        get_string-Holds dat _ conf.serial b.serial,
        b.header.vendor,
        b.header.product_number,
        b.header.serial_on,
        b.header.ir_on,
        b.header.wakeup_on,
      )
      refl

-- The block that is generated, and the end of its strings.
pub record Generated (conf : Config) (r : Option ℕ × Memory) : Type 0 where
  pub end : r.0 ≡ some (15 + 2 * string_length conf)
  pub block : IsBlock conf r.1

pub gen-Generated :
    (conf : Config) (dat : Memory)
    → IsValid conf
    → string_length conf ≤ 32
    → Generated conf (gen_eeprom_from_conf conf dat)
unfolding gen_eeprom_from_conf
gen-Generated conf dat h fits =
    let pos1 = 9 + 2 + 2 * length conf.manufacturer in
    let pos2 = pos1 + 2 + 2 * length conf.product in
    let dat0 = put_header conf dat in
    let r1 = set_string_descriptor (some 9) conf.manufacturer dat0 in
    let m = set_string-IsStored 9 conf.manufacturer dat0 h.manufacturer (omega arith) in
    let r2 = set_string_descriptor (some pos1) conf.product r1.1 in
    let p = set_string-IsStored pos1 conf.product r1.1 h.product (omega arith) in
    let r3 = set_string_descriptor (some pos2) conf.serial r2.1 in
    let s = set_string-IsStored pos2 conf.serial r2.1 h.serial (omega arith) in
    let last : (k : ℕ) → k % 2 ≡ 1 → put 78 0x00 r3.1 k ≡ r3.1 k =
      λ k odd. put_other 78 0x00 r3.1 k (omega arith) in
    rw (m.end, p.end)
      (record {
        end = s.end ∙ ap some (omega arith);
        block = record {
          header =
              Header-same conf dat0 _
                (λ k lt.
                  put_other 78 0x00 r3.1 k (omega arith)
                  ∙ s.below k (omega arith)
                  ∙ p.below k (omega arith)
                  ∙ m.below k (omega arith))
                (put_header-Header conf dat h);
          manufacturer =
              Holds-Agree r1.1 _ 9 conf.manufacturer (omega arith)
                (λ k lo hi odd. last k odd ∙ s.below k (omega arith) ∙ p.below k (omega arith))
                m.holds;
          product =
              Holds-Agree r2.1 _ pos1 conf.product (omega arith)
                (λ k lo hi odd. last k odd ∙ s.below k (omega arith)) p.holds;
          serial =
              Holds-Agree r3.1 _ pos2 conf.serial (omega arith) (λ k lo hi odd. last k odd) s.holds;
        };
      })

-- For a valid configuration whose strings have at most 32 characters together,
-- `gen_eeprom_from_conf` succeeds on every buffer, with the end of the strings as result, and
-- `parse_eeprom_to_conf` reads the configuration back from what it leaves.
pub gen_eeprom-parse :
    (conf : Config) (dat : Memory)
    → IsValid conf
    → string_length conf ≤ 32
    → let r = gen_eeprom_from_conf conf dat in
      (r.0 ≡ some (15 + 2 * string_length conf)) × (parse_eeprom_to_conf r.1 ≡ conf)
gen_eeprom-parse conf dat h fits =
    let g = gen-Generated conf dat h fits in (g.end, parse-IsBlock conf _ g.block)

-- For a valid configuration whose manufacturer and product leave room for their own descriptors,
-- with 32 characters or fewer together, and whose serial number is not empty and has more
-- characters than are left of the 32, `gen_eeprom_from_conf` returns -1.
pub gen_eeprom-refuses :
    (conf : Config) (dat : Memory)
    → IsValid conf
    → length conf.manufacturer + length conf.product ≤ 32
    → 0 < length conf.serial
    → 32 < string_length conf
    → (gen_eeprom_from_conf conf dat).0 ≡ none
unfolding gen_eeprom_from_conf
gen_eeprom-refuses conf dat h room some_serial long =
    let pos1 = 9 + 2 + 2 * length conf.manufacturer in
    let dat0 = put_header conf dat in
    let r1 = set_string_descriptor (some 9) conf.manufacturer dat0 in
    let m = set_string-IsStored 9 conf.manufacturer dat0 h.manufacturer (omega arith) in
    let p = set_string-IsStored pos1 conf.product r1.1 h.product (omega arith) in
    rw (m.end, p.end) (set_string-long _ conf.serial _ h.serial some_serial (omega arith))
