-- ===== src/Librtlsdr/Probe.antt =====
-- rtl-sdr/src/librtlsdr.c: which tuner the probe in rtlsdr_open finds.
use rtl_tcp_pi.Common.{
  ℕ, ◌≡◌, refl, ap, ◌∙◌, ◌==◌, bit_and, Bool, true, false, if◌then◌else◌, List, [], ◌∷◌,
}
use rtl_tcp_pi.Common.{
  ◌||◌, ◌&&◌, ◌/◌, ◌%◌, arith, none, some, Option, bit_or, ==_of_eq, pos, negsuc,
}
use rtl_tcp_pi.Common.Bits.{all_below, all_below-at, bit_or-digit}
use rtl_tcp_pi.Usb.{Transfer, failed, Usb, Bus, wrote, received, control_out, control_in}
use rtl_tcp_pi.State.{State}
use rtl_tcp_pi.Driver.{ok, pure, modify, call, ◌>>=◌, ◌>>◌}
use rtl_tcp_pi.Librtlsdr.Access.{
  gpo, gpoe, rtlsdr_read_reg, rtlsdr_write_reg, rtlsdr_set_gpio_bit, rtlsdr_set_gpio_output,
  rtlsdr_i2c_read_reg, rtlsdr_write_array, rtlsdr_read_array,
}
use rtl_tcp_pi.Librtlsdr.Gains.{
  Tuner, tuner_e4000, tuner_fc0012, tuner_fc0013, tuner_fc2580, tuner_r820t, tuner_r828d,
}
use rtl_tcp_pi.Librtlsdr.Device.{Device, Dev, PpmCorr, on_bus}
use rtl_tcp_pi.Librtlsdr.Open.{found_fc0012, probe_reset, probe_tuners}

-- A write of the bit of GPIO 5, by its level, in a register of the system block.
abbrev pub is_pin : ℕ → Bool → Transfer → Bool
is_pin reg level (wrote index addr (val ∷ bytes) rc) =
    index == 0x210 && (addr == reg && (val / 32 % 2 == (if level then 1 else 0)))
is_pin reg level other = false

-- GPIO 5 is an output; it was driven high since; and it was driven low again since.
abbrev pub is_output : Bus → Bool
is_output [] = false
is_output (t ∷ bus) = is_pin gpoe true t || is_output bus

abbrev pub was_high : Bus → Bool
was_high [] = false
was_high (t ∷ bus) = (is_pin gpo true t && is_output bus) || was_high bus

abbrev pub was_reset : Bus → Bool
was_reset [] = false
was_reset (t ∷ bus) = (is_pin gpo false t && was_high bus) || was_reset bus

-- The chips on the I2C bus. `chip` says for the time before and after a reset by GPIO 5 which value
-- the register of an address has, or that there is no answer at this address. A register's number is
-- acknowledged by a chip that is there, and the byte that is read next is the
-- value of this register; without a chip both transfers fail.
pub record IsWired (usb : Usb) (chip : Bool → ℕ → ℕ → Option ℕ) : Type 0 where
  pub acknowledges :
      (bus : Bus) (at reg v : ℕ)
      → chip (was_reset bus) at reg ≡ some v
      → usb.out_status bus 0x610 at (reg ∷ []) ≡ pos 1
  pub answers :
      (bus : Bus) (at reg v : ℕ)
      → chip (was_reset bus) at reg ≡ some v
      → usb.in_reply (wrote 0x610 at (reg ∷ []) (pos 1) ∷ bus) 0x600 at 1 ≡ received (v ∷ [])
  pub code : Bus → ℕ → ℕ → ℕ
  pub refuses :
      (bus : Bus) (at reg : ℕ)
      → chip (was_reset bus) at reg ≡ none
      → usb.out_status bus 0x610 at (reg ∷ []) ≡ negsuc (code bus at reg)
  pub is_silent :
      (bus : Bus) (at reg n : ℕ)
      → chip (was_reset bus) at reg ≡ none
      → usb.in_reply (wrote 0x610 at (reg ∷ []) (negsuc n) ∷ bus) 0x600 at 1
        ≡ failed (code bus at reg)

-- What is read: 0 without an answer.
abbrev pub value : Option ℕ → ℕ
value none = 0
value (some v) = v

-- The first tuner of a list whose mark is there.
abbrev pub first_marked : Tuner → List (Bool × Tuner) → Tuner
first_marked type [] = type
first_marked type ((marked, other) ∷ rest) = if marked then other else first_marked type rest

-- The tuners with their marks, in the order in which they win: an FC2580 and an FC0012 by the values
-- after the reset, the others by those before it.
abbrev pub marks : (Bool → ℕ → ℕ → Option ℕ) → List (Bool × Tuner)
marks chip =
    (value (chip false 0xc8 0x02) == 0x40, tuner_e4000)
    ∷ (value (chip false 0xc6 0x00) == 0xa3, tuner_fc0013)
    ∷ (value (chip false 0x34 0x00) == 0x69, tuner_r820t)
    ∷ (bit_and (value (chip true 0xac 0x01)) 0x7f == 0x56, tuner_fc2580)
    ∷ (value (chip true 0xc6 0x00) == 0xa1, tuner_fc0012)
    ∷ (value (chip false 0x74 0x00) == 0x69, tuner_r828d)
    ∷ []

-- The call ends, and besides the traffic it changes nothing but the type of the tuner.
pub record Identifies (m : Dev (Unit {0})) (d : Device) (type : Tuner) : Type 0 where
  pub bus : Bus
  pub result : m d ≡ (ok tt, record d { bus = bus; tuner_type = type })

set-Identifies :
    (type : Tuner) (d : Device) → Identifies (modify (λ d. record d { tuner_type = type })) d type
unfolding modify
set-Identifies type d = record { bus = d.bus; result = refl }

pure-Identifies : (d : Device) → Identifies (pure tt) d d.tuner_type
unfolding pure
pure-Identifies d = record { bus = d.bus; result = refl }

if-Identifies :
    (b : Bool) (m n : Dev (Unit {0})) (d : Device) (s t : Tuner)
    → Identifies m d s
    → Identifies n d t
    → Identifies (if b then m else n) d (if b then s else t)
if-Identifies true m n d s t h k = h
if-Identifies false m n d s t h k = k

then-Identifies :
    (m n : Dev (Unit {0})) (d : Device) (s t : Tuner)
    → (h : Identifies m d s) → Identifies n (record d { bus = h.bus; tuner_type = s }) t
    → Identifies (m >> n) d t
unfolding ◌>>=◌
then-Identifies m n d s t h k = record { bus = k.bus; result = rw h.result k.result }

on_bus-Identifies :
    {A : Type 0} (act : State Bus A) (m : Dev (Unit {0})) (d : Device) (t : Tuner)
    → Identifies m (record d { bus = (act d.bus).1 }) t
    → Identifies (on_bus act >> m) d t
unfolding ◌>>=◌ call
on_bus-Identifies act m d t rest = record { bus = rest.bus; result = rest.result }

-- The bit of GPIO 5 in what is written.
high_bit : (r : ℕ) → (bit_or r 32 % 256 / 32 % 2 == 1) ≡ true
high_bit r = ==_of_eq _ 1 (
    omega (
      arith,
      bit_or-digit r 32,
      bit_or-digit (r / 2) 16,
      bit_or-digit (r / 2 / 2) 8,
      bit_or-digit (r / 2 / 2 / 2) 4,
      bit_or-digit (r / 2 / 2 / 2 / 2) 2,
      bit_or-digit (r / 2 / 2 / 2 / 2 / 2) 1,
    ))

low_bits : all_below 256 (λ r. bit_and r 223 % 256 / 32 % 2 == 0) ≡ true
unfolding all_below
low_bits = refl

low_bit : (r : ℕ) → (bit_and (r % 256) 223 % 256 / 32 % 2 == 0) ≡ true
low_bit r =
    all_below-at 256 (λ r. bit_and r 223 % 256 / 32 % 2 == 0) (r % 256) low_bits (omega arith)

module _ (usb : Usb) where
  output-is_output : (bus : Bus) → is_output (rtlsdr_set_gpio_output usb 5 bus).1 ≡ true
  unfolding rtlsdr_set_gpio_output rtlsdr_read_reg rtlsdr_write_reg control_in control_out
  output-is_output bus = rw (high_bit _) refl

  high-was_high :
      (bus : Bus) → is_output bus ≡ true → was_high (rtlsdr_set_gpio_bit usb 5 true bus).1 ≡ true
  unfolding rtlsdr_set_gpio_bit rtlsdr_read_reg rtlsdr_write_reg control_in control_out
  high-was_high bus h = rw (high_bit _) (rw h refl)

  low-was_reset :
      (bus : Bus) → was_high bus ≡ true → was_reset (rtlsdr_set_gpio_bit usb 5 false bus).1 ≡ true
  unfolding rtlsdr_set_gpio_bit rtlsdr_read_reg rtlsdr_write_reg control_in control_out
  low-was_reset bus h = rw (low_bit _) (rw h refl)

module _ (usb : Usb) (ppm_corr : PpmCorr) (chip : Bool → ℕ → ℕ → Option ℕ)
    (wired : IsWired usb chip) where
  read_as :
      (bus : Bus) (at reg : ℕ) (c : Option ℕ)
      → chip (was_reset bus) at reg ≡ c
      → (rtlsdr_i2c_read_reg usb at reg bus).0 ≡ value c
  unfolding rtlsdr_i2c_read_reg rtlsdr_write_array rtlsdr_read_array control_out control_in
  read_as bus at reg (some v) e =
      rw (wired.acknowledges bus at reg v e) (rw (wired.answers bus at reg v e) refl)
  read_as bus at reg none e =
      rw (wired.refuses bus at reg e)
        (rw (wired.is_silent bus at reg (wired.code bus at reg) e) refl)

  read_kept :
      (bus : Bus) (at reg : ℕ) → was_reset (rtlsdr_i2c_read_reg usb at reg bus).1 ≡ was_reset bus
  unfolding rtlsdr_i2c_read_reg rtlsdr_write_array rtlsdr_read_array control_out control_in
  read_kept bus at reg = refl

  check-Identifies :
      (state : Bool) (at reg : ℕ) (m : ℕ → Dev (Unit {0})) (d : Device) (t : Tuner)
      → was_reset d.bus ≡ state
      → ((bus : Bus)
          → was_reset bus ≡ state
          → Identifies (m (value (chip state at reg))) (record d { bus = bus }) t)
      → Identifies (on_bus (rtlsdr_i2c_read_reg usb at reg) >>= m) d t
  unfolding ◌>>=◌ call
  check-Identifies state at reg m d t now k =
      let rest = k (rtlsdr_i2c_read_reg usb at reg d.bus).1 (read_kept d.bus at reg ∙ now) in
      let read =
        read_as d.bus at reg (chip (was_reset d.bus) at reg) refl
        ∙ ap (λ b. value (chip b at reg)) now in
      record { bus = rest.bus; result = rw read rest.result }

  fc0012-Identifies : (d : Device) → Identifies (found_fc0012 usb ppm_corr) d tuner_fc0012
  unfolding found_fc0012
  fc0012-Identifies d = on_bus-Identifies _ _ d _ (set-Identifies _ _)

  reset-Identifies :
      (d : Device)
      → Identifies (probe_reset usb ppm_corr) d (
          if bit_and (value (chip true 0xac 0x01)) 0x7f == 0x56
          then tuner_fc2580
          else if value (chip true 0xc6 0x00) == 0xa1
          then tuner_fc0012
          else d.tuner_type)
  unfolding probe_reset
  reset-Identifies d =
      let bus1 = (rtlsdr_set_gpio_output usb 5 d.bus).1 in
      let bus2 = (rtlsdr_set_gpio_bit usb 5 true bus1).1 in
      let done = low-was_reset usb bus2 (high-was_high usb bus1 (output-is_output usb d.bus)) in
      on_bus-Identifies _ _ d _ (
        on_bus-Identifies _ _ _ _ (
          on_bus-Identifies _ _ _ _ (
            check-Identifies true 0xac 0x01 _ _ _ done λ bus still.
              if-Identifies _ _ _ _ _ _ (set-Identifies _ _) (
                check-Identifies true 0xc6 0x00 _ _ _ still
                  λ _ _. if-Identifies _ _ _ _ _ _ (fc0012-Identifies _) (pure-Identifies _)))))

  r828d-Identifies :
      (d : Device)
      → Identifies
          (if value (chip false 0x74 0x00) == 0x69
            then modify (λ d. record d { tuner_type = tuner_r828d })
            else pure tt)
          d
          (if value (chip false 0x74 0x00) == 0x69 then tuner_r828d else d.tuner_type)
  r828d-Identifies d = if-Identifies _ _ _ _ _ _ (set-Identifies _ _) (pure-Identifies _)

-- On an I2C bus where some addresses answer and others do not, with chips that may answer only
-- after a reset by GPIO 5, which has not been made yet, the probe in `rtlsdr_open` ends, changes nothing
-- of the device but the type of its tuner, and finds the first of E4000, FC0013, R820T,
-- FC2580, FC0012 and R828D whose register has the value that marks it, where the FC2580 and the FC0012 are
-- looked for after the reset and the others before it. Without any the type stays.
pub probe_tuners-Identifies :
    (usb : Usb) (ppm_corr : PpmCorr) (chip : Bool → ℕ → ℕ → Option ℕ) (d : Device)
    → IsWired usb chip
    → was_reset d.bus ≡ false
    → Identifies (probe_tuners usb ppm_corr) d (first_marked d.tuner_type (marks chip))
unfolding probe_tuners
probe_tuners-Identifies usb ppm_corr chip d wired unused =
    check-Identifies usb ppm_corr chip wired false 0xc8 0x02 _ _ _ unused λ _ unused1.
      if-Identifies _ _ _ _ _ _ (set-Identifies _ _) (
        check-Identifies usb ppm_corr chip wired false 0xc6 0x00 _ _ _ unused1 λ _ unused2.
          if-Identifies _ _ _ _ _ _ (set-Identifies _ _) (
            check-Identifies usb ppm_corr chip wired false 0x34 0x00 _ _ _ unused2 λ _ unused3.
              if-Identifies _ _ _ _ _ _ (set-Identifies _ _) (
                check-Identifies usb ppm_corr chip wired false 0x74 0x00 _ _ _ unused3 λ _ _.
                  then-Identifies _ _ _ _ _ (r828d-Identifies usb ppm_corr chip wired _)
                    (reset-Identifies usb ppm_corr chip wired _))))
