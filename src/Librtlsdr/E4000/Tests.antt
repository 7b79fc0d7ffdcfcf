-- ===== src/Librtlsdr/E4000/Tests.antt =====
-- rtl-sdr/src/librtlsdr.c: a dongle with an Elonics E4000.
use rtl_tcp_pi.Common.{true, ◌≡◌, refl, arith, length, [], ◌∷◌, pos}
use rtl_tcp_pi.Librtlsdr.Tests.{idle_device}
use rtl_tcp_pi.Usb.{Usb, received}
use rtl_tcp_pi.Librtlsdr.Gains.{tuner_e4000, rtlsdr_get_tuner_gains}
use rtl_tcp_pi.Librtlsdr.E4000.{e4000_set_gain}
use rtl_tcp_pi.Librtlsdr.E4000.Gains.{member}
use rtl_tcp_pi.Librtlsdr.E4000.Programs.{linked_e4k, IsExact, set_gain-IsExact}
use rtl_tcp_pi.E4k.Chip

-- An E4000 that keeps its registers, which are all 0 at the start.
abbrev blank_tuner : Chip.TunerChip
blank_tuner = record { regs = λ k. 0; selected = 0 }

abbrev keeping : Usb
keeping = record {
  out_status = λ bus index addr bytes. pos (length bytes);
  in_reply = λ bus index addr len.
      received
        ((Chip.tuner 0xc8 blank_tuner bus).regs (Chip.tuner 0xc8 blank_tuner bus).selected ∷ []);
  uninit = λ bus. [];
}

keeping-IsTuner : Chip.IsTuner keeping 0xc8 blank_tuner
keeping-IsTuner = record { acknowledges = λ bus bytes. refl; hands_over = λ bus. refl }

advertised_420 : member (rtlsdr_get_tuner_gains tuner_e4000) (pos 420) ≡ true
unfolding rtlsdr_get_tuner_gains
advertised_420 = refl

set_gain-IsExact_example :
    IsExact keeping 0xc8 blank_tuner keeping-IsTuner
      (pos 420)
      (Chip.regs_of keeping 0xc8 blank_tuner keeping-IsTuner (linked_e4k idle_device))
      (e4000_set_gain keeping (λ v c. v) (pos 420) idle_device)
set_gain-IsExact_example =
    set_gain-IsExact keeping (λ v c. v) 0xc8 blank_tuner keeping-IsTuner (pos 420) idle_device refl
      (λ k. omega arith) advertised_420
