-- ===== src/RtlEeprom/Written.antt =====
-- rtl-sdr/src/rtl_eeprom.c and rtl-sdr/src/librtlsdr.c: a configuration block in the EEPROM.
use rtl_tcp_pi.Common.{ℕ, zero, suc, ◌+◌, ◌≤◌, ◌<◌, ◌≡◌, refl, ap, ◌∙◌, arith, length, get_or, pos}
use rtl_tcp_pi.Usb.{Bus, Usb}
use rtl_tcp_pi.Librtlsdr.Eeprom.{rtlsdr_write_eeprom}
use rtl_tcp_pi.Librtlsdr.Eeprom.Contents.{Chip, chip, IsEeprom, IsProgrammed}
use rtl_tcp_pi.Librtlsdr.Eeprom.RoundTrip.{slice, write_eeprom-Programs}
use rtl_tcp_pi.RtlEeprom.{Memory, Config, gen_eeprom_from_conf, parse_eeprom_to_conf}
use rtl_tcp_pi.RtlEeprom.Blocks.{
  IsValid, string_length, IsBlock, Header-same, Holds-Agree, gen-Generated, parse-IsBlock,
}

length-slice : (memory : Memory) (at n : ℕ) → length (slice memory at n) ≡ n
length-slice memory at zero = refl
length-slice memory at (suc n) = rw (length-slice memory (at + 1) n) refl

get_or-slice :
    (memory : Memory) (at n i : ℕ) → i < n → get_or (slice memory at n) i 0 ≡ memory (at + i)
get_or-slice memory at zero i lt = absurd (omega (arith, lt))
get_or-slice memory at (suc n) zero lt = let same : at + 0 ≡ at = omega arith in rw same refl
get_or-slice memory at (suc n) (suc i) lt =
    let same : at + suc i ≡ at + 1 + i = omega arith in
    rw same (get_or-slice memory (at + 1) n i (omega arith))

-- A block lies below byte 79.
IsBlock-same :
    (conf : Config) (dat dat' : Memory)
    → string_length conf ≤ 32
    → ((k : ℕ) → k < 79 → dat' k ≡ dat k)
    → IsBlock conf dat
    → IsBlock conf dat'
IsBlock-same conf dat dat' short same b = record {
  header = Header-same conf dat dat' (λ k lt. same k (omega arith)) b.header;
  manufacturer =
      Holds-Agree dat dat' 9 conf.manufacturer (omega arith) (λ k lo hi odd. same k (omega arith))
        b.manufacturer;
  product =
      Holds-Agree dat dat' _ conf.product (omega arith) (λ k lo hi odd. same k (omega arith))
        b.product;
  serial =
      Holds-Agree dat dat' _ conf.serial (omega arith) (λ k lo hi odd. same k (omega arith))
        b.serial;
}

programmed-slice :
    (before after : Chip) (buf : Memory) (n : ℕ)
    → IsProgrammed before after 0 (slice buf 0 n)
    → (k : ℕ) → k < n
    → after.memory k ≡ buf k
programmed-slice before after buf n p k lt =
    let here : k ≡ 0 + k = omega arith in
    let back : 0 + k ≡ k = omega arith in
    ap after.memory here
    ∙ p.inside k (omega (arith, length-slice buf 0 n, lt))
    ∙ get_or-slice buf 0 n k lt
    ∙ ap buf back

-- For a valid configuration whose strings have at most 32 characters together, on a dongle with an
-- EEPROM of 256 bytes and an address pointer: writing the first 128 bytes of the generated block
-- with `rtlsdr_write_eeprom` at offset 0 returns 0, and what the EEPROM holds then is read as the
-- configuration by `parse_eeprom_to_conf`.
pub written-parse :
    (usb : Usb) (c : Chip) (conf : Config) (dat : Memory) (bus : Bus)
    → IsEeprom usb c
    → IsValid conf
    → string_length conf ≤ 32
    → let block = slice (gen_eeprom_from_conf conf dat).1 0 128 in
      let w = rtlsdr_write_eeprom usb block 0 bus in
      (w.0 ≡ pos 0) × (parse_eeprom_to_conf (chip c w.1).memory ≡ conf)
written-parse usb c conf dat bus eeprom valid short =
    let g = gen-Generated conf dat valid short in
    let buf = (gen_eeprom_from_conf conf dat).1 in
    let len = length-slice buf 0 128 in
    let w = write_eeprom-Programs usb c eeprom (slice buf 0 128) 0 bus (omega (arith, len)) in
    let stored = w.programmed in
    (
      w.done,
      parse-IsBlock conf _ (
          IsBlock-same conf buf _ short
            (λ k lt. programmed-slice _ _ buf 128 stored k (omega arith)) g.block),
    )
