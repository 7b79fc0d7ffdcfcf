-- ===== src/Librtlsdr/Dongles.antt =====
-- rtl-sdr/src/librtlsdr.c: the dongles that the library knows, and the numbering of those plugged in.
pub mod Numbering
mod Tests
use rtl_tcp_pi.Common.{
  ℕ, zero, suc, ◌+◌, ◌-◌, ◌%◌, ◌^◌, ◌==◌, ◌&&◌, Bool, true, false, if◌then◌else◌, Option, none,
  some, List, [], ◌∷◌,
}
use Prim.Native.String.{String}

pub record Dongle : Type 0 where
  pub vid : ℕ
  pub pid : ℕ
  pub name : String

abbrev dongle : ℕ → ℕ → String → Dongle
dongle vid pid name = record { vid = vid; pid = pid; name = name }

abbrev pub known_devices : List Dongle
known_devices =
    dongle 0x0bda 0x2832 "Generic RTL2832U"
    ∷ dongle 0x0bda 0x2838 "Generic RTL2832U OEM"
    ∷ dongle 0x0ccd 0x00a9 "Terratec Cinergy T Stick Black (rev 1)"
    ∷ dongle 0x0ccd 0x00b3 "Terratec NOXON DAB/DAB+ USB dongle (rev 1)"
    ∷ dongle 0x0ccd 0x00b4 "Terratec Deutschlandradio DAB Stick"
    ∷ dongle 0x0ccd 0x00b5 "Terratec NOXON DAB Stick - Radio Energy"
    ∷ dongle 0x0ccd 0x00b7 "Terratec Media Broadcast DAB Stick"
    ∷ dongle 0x0ccd 0x00b8 "Terratec BR DAB Stick"
    ∷ dongle 0x0ccd 0x00b9 "Terratec WDR DAB Stick"
    ∷ dongle 0x0ccd 0x00c0 "Terratec MuellerVerlag DAB Stick"
    ∷ dongle 0x0ccd 0x00c6 "Terratec Fraunhofer DAB Stick"
    ∷ dongle 0x0ccd 0x00d3 "Terratec Cinergy T Stick RC (Rev.3)"
    ∷ dongle 0x0ccd 0x00d7 "Terratec T Stick PLUS"
    ∷ dongle 0x0ccd 0x00e0 "Terratec NOXON DAB/DAB+ USB dongle (rev 2)"
    ∷ dongle 0x1554 0x5020 "PixelView PV-DT235U(RN)"
    ∷ dongle 0x15f4 0x0131 "Astrometa DVB-T/DVB-T2"
    ∷ dongle 0x185b 0x0620 "Compro Videomate U620F"
    ∷ dongle 0x185b 0x0650 "Compro Videomate U650F"
    ∷ dongle 0x185b 0x0680 "Compro Videomate U680F"
    ∷ dongle 0x1f4d 0xa803 "Sweex DVB-T USB"
    ∷ dongle 0x1f4d 0xb803 "GTek T803"
    ∷ dongle 0x1f4d 0xc803 "Lifeview LV5TDeluxe"
    ∷ dongle 0x1f4d 0xd286 "MyGica TD312"
    ∷ dongle 0x1f4d 0xd803 "PROlectrix DV107669"
    ∷ dongle 0x1b80 0xd397 "KWorld KW-UB450-T USB DVB-T Pico TV"
    ∷ dongle 0x1b80 0xd398 "Zaapa ZT-MINDVBZP"
    ∷ dongle 0x1b80 0xd3a4 "Twintech UT-40"
    ∷ dongle 0x1b80 0xd3a8 "ASUS U3100MINI_PLUS_V2"
    ∷ dongle 0x1d19 0x1101 "Dexatek DK DVB-T Dongle (Logilink VG0002A)"
    ∷ dongle 0x1d19 0x1102 "Dexatek DK DVB-T Dongle (MSI DigiVox mini II V3.0)"
    ∷ dongle 0x1d19 0x1103 "Dexatek Technology Ltd. DK 5217 DVB-T Dongle"
    ∷ dongle 0x1d19 0x1104 "MSI DigiVox Micro HD"
    ∷ dongle 0x0413 0x6680 "DigitalNow Quad DVB-T PCI-E card"
    ∷ dongle 0x0413 0x6f0f "Leadtek WinFast DTV Dongle mini D"
    ∷ dongle 0x0458 0x707f "Genius TVGo DVB-T03 USB dongle (Ver. B)"
    ∷ dongle 0x1b80 0xd393 "GIGABYTE GT-U7300"
    ∷ dongle 0x1b80 0xd394 "DIKOM USB-DVBT HD"
    ∷ dongle 0x1b80 0xd395 "Peak 102569AGPK"
    ∷ dongle 0x1b80 0xd39d "SVEON STV20 DVB-T USB & FM"
    ∷ dongle 0x1b80 0xd3b0 "SVEON STV21 DVB-T USB & FM"
    ∷ []

-- idVendor and idProduct of the devices in the list of libusb.
pub record Descriptor : Type 0 where
  pub vendor : ℕ
  pub product : ℕ

unfoldable pub find_in : List Dongle → Descriptor → Option Dongle
find_in [] dd = none
find_in (d ∷ devices) dd =
    let rest = find_in devices dd in
    if d.vid == dd.vendor && d.pid == dd.product then some d else rest

unfoldable pub find_known_device : Descriptor → Option Dongle
find_known_device dd = find_in known_devices dd

unfoldable pub is_known : Descriptor → Bool
is_known dd = elim (find_known_device dd) [ none ↦ false | some d ↦ true ]

-- `device_count++` on 32 bits, and `device_count - 1`.
abbrev pub counted : ℕ → ℕ
counted count = (count + 1) % 2 ^ 32

abbrev pub last_index : ℕ → ℕ
last_index count = (count + (2 ^ 32 - 1)) % 2 ^ 32

unfoldable pub count_loop : List Descriptor → ℕ → ℕ
count_loop [] count = count
count_loop (dd ∷ list) count = count_loop list (if is_known dd then counted count else count)

unfoldable pub rtlsdr_get_device_count : List Descriptor → ℕ
rtlsdr_get_device_count list = count_loop list 0

-- The loop of `rtlsdr_get_device_name`; `device` is what it last found.
unfoldable pub name_loop : List Descriptor → ℕ → ℕ → Option Dongle → Option Dongle
name_loop [] index count device = device
name_loop (dd ∷ list) index count device =
    let found = find_known_device dd in
    let count' = if is_known dd then counted count else count in
    let rest = name_loop list index count' found in
    if is_known dd && index == last_index count' then found else rest

unfoldable pub name_of : Option Dongle → String
name_of none = ""
name_of (some d) = d.name

unfoldable pub rtlsdr_get_device_name : List Descriptor → ℕ → String
rtlsdr_get_device_name list index = name_of (name_loop list index 0 none)

-- The loop of `rtlsdr_open`: the position in the list, counted from `i`, of the device that is opened.
unfoldable pub open_loop : List Descriptor → ℕ → ℕ → ℕ → Option ℕ
open_loop [] index count i = none
open_loop (dd ∷ list) index count i =
    let count' = if is_known dd then counted count else count in
    let rest = open_loop list index count' (i + 1) in
    if index == last_index count' then some i else rest

unfoldable pub open_choice : List Descriptor → ℕ → Option ℕ
open_choice list index = open_loop list index 0 0
