-- ===== src/Librtlsdr/Dongles/Tests.antt =====
-- rtl-sdr/src/librtlsdr.c: a list with a mouse and two dongles.
use rtl_tcp_pi.Common.{ℕ, ◌≡◌, refl, arith, none, some, List, [], ◌∷◌}
use rtl_tcp_pi.Librtlsdr.Dongles.{
  Dongle, Descriptor, find_in, find_known_device, open_choice, rtlsdr_get_device_name,
}
use rtl_tcp_pi.Librtlsdr.Dongles.Numbering.{nth_known, open_choice-name, device_name-stale}

abbrev mouse : Descriptor
mouse = record { vendor = 0x046d; product = 0xc077 }

abbrev generic : Descriptor
generic = record { vendor = 0x0bda; product = 0x2838 }

abbrev generic_dongle : Dongle
generic_dongle = record { vid = 0x0bda; pid = 0x2838; name = "Generic RTL2832U OEM" }

abbrev plugged_in : List Descriptor
plugged_in = mouse ∷ generic ∷ []

find_generic : find_known_device generic ≡ some generic_dongle
unfolding find_known_device find_in
find_generic = refl

no_second : nth_known plugged_in 1 0 ≡ none
unfolding find_known_device find_in
no_second = refl

open_choice-name_example :
    (open_choice plugged_in 0
      ≡ (elim (nth_known plugged_in 0 0) [ none ↦ none | some p ↦ some p.0 ]))
    × ((p : ℕ × Dongle)
        → nth_known plugged_in 0 0 ≡ some p
        → rtlsdr_get_device_name plugged_in 0 ≡ p.1.name)
open_choice-name_example = open_choice-name plugged_in 0 (omega arith)

device_name-stale_example : rtlsdr_get_device_name plugged_in 1 ≡ "Generic RTL2832U OEM"
device_name-stale_example =
    device_name-stale (mouse ∷ []) generic generic_dongle 1 find_generic (omega arith) no_second
