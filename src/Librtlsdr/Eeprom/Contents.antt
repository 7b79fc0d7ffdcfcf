-- ===== src/Librtlsdr/Eeprom/Contents.antt =====
-- rtl-sdr/src/librtlsdr.c: the transfers of the EEPROM functions on a memory with an address pointer.
use rtl_tcp_pi.Common.{
  ℕ, zero, suc, ◌+◌, ◌%◌, ◌≤◌, ◌<◌, ◌≡◌, ◌≢◌, refl, ◌∙◌, arith, ◌==◌, ==_of_eq, ==_of_ne, eq_of_==,
  Bool-cases, ◌&&◌, if◌then◌else◌, ◌⊎◌, inl, inr, List, [], ◌∷◌, length, get_or, ℤ, pos,
}
use rtl_tcp_pi.Usb.{Bus, Usb, received, Transfer, wrote, asked, control_out, control_in}
use rtl_tcp_pi.Librtlsdr.Access.{iicb, rtlsdr_read_array, rtlsdr_write_array}
use rtl_tcp_pi.Librtlsdr.Eeprom.{write_bytes}

-- The memory and the pointer of the chip.
pub record Chip : Type 0 where
  pub memory : ℕ → ℕ
  pub pointer : ℕ

abbrev pub written : List ℕ → Chip → Chip
written (a ∷ []) c = record c { pointer = a }
written (a ∷ v ∷ []) c = record {
  memory = λ k. if k == a then v else c.memory k;
  pointer = (a + 1) % 256;
}
written other c = c

-- What a transfer to the EEPROM's address does. The other transfers do not reach it.
abbrev pub after : Transfer → Chip → Chip
after (wrote index addr bytes rc) c = if index == 0x610 && addr == 0xa0 then written bytes c else c
after (asked index addr len reply) c =
    if index == 0x600 && addr == 0xa0 then record c { pointer = (c.pointer + 1) % 256 } else c

abbrev pub chip : Chip → Bus → Chip
chip c [] = c
chip c (t ∷ bus) = after t (chip c bus)

-- The dongle acknowledges writes to the EEPROM, and hands over the byte that the chip has at its
-- pointer, as the data sheets of the 24C02 family describe it.
pub record IsEeprom (usb : Usb) (c : Chip) : Type 0 where
  pub acknowledges :
      (bus : Bus) (bytes : List ℕ) → usb.out_status bus 0x610 0xa0 bytes ≡ pos (length bytes)
  pub hands_over :
      (bus : Bus)
      → usb.in_reply bus 0x600 0xa0 1 ≡ received ((chip c bus).memory (chip c bus).pointer ∷ [])

-- The bytes of a list from an address on.
pub record IsProgrammed (before after : Chip) (at : ℕ) (bytes : List ℕ) : Type 0 where
  pub inside : (i : ℕ) → i < length bytes → after.memory (at + i) ≡ get_or bytes i 0
  pub outside : (k : ℕ) → (k < at) ⊎ (at + length bytes ≤ k) → after.memory k ≡ before.memory k

module _ (usb : Usb) (c : Chip) (eeprom : IsEeprom usb c) where
  pub write_array-ok :
      (bus : Bus) (a : ℕ)
      → rtlsdr_write_array usb iicb 0xa0 (a ∷ []) bus
        ≡ (pos 1, wrote 0x610 0xa0 (a ∷ []) (pos 1) ∷ bus)
  unfolding rtlsdr_write_array control_out
  write_array-ok bus a = rw (eeprom.acknowledges bus (a ∷ [])) refl

  write_array-ok_two :
      (bus : Bus) (a v : ℕ)
      → rtlsdr_write_array usb iicb 0xa0 (a ∷ v ∷ []) bus
        ≡ (pos 2, wrote 0x610 0xa0 (a ∷ v ∷ []) (pos 2) ∷ bus)
  unfolding rtlsdr_write_array control_out
  write_array-ok_two bus a v = rw (eeprom.acknowledges bus (a ∷ v ∷ [])) refl

  pub read_array-ok :
      (bus : Bus) (v : ℕ)
      → (chip c bus).memory (chip c bus).pointer ≡ v
      → rtlsdr_read_array usb iicb 0xa0 1 bus
        ≡ (received (v ∷ []), asked 0x600 0xa0 1 (received (v ∷ [])) ∷ bus)
  unfolding rtlsdr_read_array control_in
  read_array-ok bus v e = rw (eeprom.hands_over bus, e) refl

  -- What is left to show of a loop that programs `bytes` from `at` on.
  pub record Programs (at : ℕ) (bytes : List ℕ) (bus : Bus) (result : ℤ × Bus) : Type 0 where
    pub done : result.0 ≡ pos 0
    pub programmed : IsProgrammed (chip c bus) (chip c result.1) at bytes

  -- One byte more, when the byte at `at` is right behind the first transfers.
  Programs-cons :
      (at byte : ℕ) (rest : List ℕ) (bus mid : Bus) (result : ℤ × Bus)
      → (chip c mid).memory at ≡ byte
      → ((k : ℕ) → k ≢ at → (chip c mid).memory k ≡ (chip c bus).memory k)
      → Programs (at + 1) rest mid result
      → Programs at (byte ∷ rest) bus result
  Programs-cons at byte rest bus mid result right others p = record {
    done = p.done;
    programmed = record {
      inside = λ i lt. inside i lt;
      outside = λ k o. p.programmed.outside k (farther k o) ∙ others k (apart k o);
    };
  }
    where
      farther :
          (k : ℕ)
          → (k < at) ⊎ (at + length (byte ∷ rest) ≤ k)
          → (k < at + 1) ⊎ (at + 1 + length rest ≤ k)
      farther k (inl lt) = inl (omega arith)
      farther k (inr le) = inr (omega arith)

      apart : (k : ℕ) → (k < at) ⊎ (at + length (byte ∷ rest) ≤ k) → k ≢ at
      apart k (inl lt) = omega arith
      apart k (inr le) = omega arith

      inside :
          (i : ℕ)
          → i < length (byte ∷ rest)
          → (chip c result.1).memory (at + i) ≡ get_or (byte ∷ rest) i 0
      inside zero lt =
          let same : at + 0 ≡ at = omega arith in
          rw same (p.programmed.outside at (inl (omega arith)) ∙ right)
      inside (suc i) lt =
          let same : at + suc i ≡ at + 1 + i = omega arith in
          rw same (p.programmed.inside i (omega arith))

  pub write_bytes-Programs :
      (at cmd1 : ℕ) (bytes : List ℕ) (bus : Bus)
      → at + length bytes ≤ 256
      → Programs at bytes bus (write_bytes usb at cmd1 bytes bus)
  unfolding write_bytes
  write_bytes-Programs at cmd1 [] bus fits = record {
    done = refl;
    programmed = record { inside = λ i lt. absurd (omega (arith, lt)); outside = λ k o. refl };
  }
  write_bytes-Programs at cmd1 (byte ∷ rest) bus fits =
      let a : at % 256 ≡ at = omega arith in
      let v = (chip c bus).memory at in
      let bus1 = wrote 0x610 0xa0 (at ∷ []) (pos 1) ∷ bus in
      let bus2 = asked 0x600 0xa0 1 (received (v ∷ [])) ∷ bus1 in
      let bus3 = wrote 0x610 0xa0 (at ∷ byte ∷ []) (pos 2) ∷ bus2 in
      rw (a, write_array-ok bus at, read_array-ok bus1 v refl)
        (elim (Bool-cases (v == byte)) [
          | inl e ↦ rw e (
              Programs-cons at byte rest bus bus2 _ (eq_of_== v byte e) (λ k ne. refl)
                (write_bytes-Programs (at + 1) v rest bus2 (omega arith)))
          | inr e ↦
              rw (e, write_array-ok_two bus2 at byte)
                (Programs-cons at byte rest bus bus3 _ (rw (==_of_eq at at refl) refl)
                  (λ k ne. rw (==_of_ne k at ne) refl)
                  (write_bytes-Programs (at + 1) byte rest bus3 (omega arith)))
        ])
