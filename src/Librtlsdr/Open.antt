-- ===== src/Librtlsdr/Open.antt =====
-- rtl-sdr/src/librtlsdr.c: the tuner of a device that is opened.
use rtl_tcp_pi.Common.{ℕ, ◌==◌, bit_and, true, false, if◌then◌else◌, some, none, ℤ, pos}
use rtl_tcp_pi.Usb.{Usb}
use rtl_tcp_pi.Driver.{pure, gets, modify, ◌>>=◌, ◌>>◌}
use rtl_tcp_pi.Librtlsdr.Access.{
  usbb, usb_sysctl, rtlsdr_write_reg, rtlsdr_i2c_read_reg, rtlsdr_set_i2c_repeater,
  rtlsdr_set_gpio_bit, rtlsdr_set_gpio_output,
}
use rtl_tcp_pi.Librtlsdr.Gains.{
  Tuner, tuner_unknown, tuner_e4000, tuner_fc0012, tuner_fc0013, tuner_fc2580, tuner_r820t,
  tuner_r828d,
}
use rtl_tcp_pi.Librtlsdr.Device.{Dev, TunerIface, PpmCorr, on_bus, demod_write}
use rtl_tcp_pi.Librtlsdr.Demod.{rtlsdr_set_if_freq}
use rtl_tcp_pi.Librtlsdr.Control.{rtlsdr_set_direct_sampling}
use rtl_tcp_pi.Librtlsdr.Baseband.{rtlsdr_init_baseband}
use rtl_tcp_pi.Librtlsdr.Tuners.{no_tuner, fc0012, fc0013, fc2580, r820t}
use rtl_tcp_pi.Librtlsdr.E4000.{e4000}

module _ (usb : Usb) (ppm_corr : PpmCorr) where
  -- `tuners`
  unfoldable pub tuners : Tuner → TunerIface
  tuners tuner_unknown = no_tuner
  tuners tuner_e4000 = e4000 usb ppm_corr
  tuners tuner_fc0012 = fc0012 usb ppm_corr
  tuners tuner_fc0013 = fc0013 usb ppm_corr
  tuners tuner_fc2580 = fc2580 usb
  tuners tuner_r820t = r820t usb ppm_corr
  tuners tuner_r828d = r820t usb ppm_corr

  abbrev check : ℕ → ℕ → Dev ℕ
  check i2c_addr reg = on_bus (rtlsdr_i2c_read_reg usb i2c_addr reg)

  abbrev set_type : Tuner → Dev (Unit {0})
  set_type type = modify (λ d. record d { tuner_type = type })

  unfoldable pub found_fc0012 : Dev (Unit {0})
  found_fc0012 = do on_bus (rtlsdr_set_gpio_output usb 6); set_type tuner_fc0012

  -- The tuners behind a reset by GPIO 5. An R828D that was found comes here too.
  unfoldable pub probe_reset : Dev (Unit {0})
  probe_reset = do
    on_bus (rtlsdr_set_gpio_output usb 5)
    on_bus (rtlsdr_set_gpio_bit usb 5 true)
    on_bus (rtlsdr_set_gpio_bit usb 5 false)
    fc2580_reg ← check 0xac 0x01
    if bit_and fc2580_reg 0x7f == 0x56
        then set_type tuner_fc2580
        else do fc0012_reg ← check 0xc6 0x00; if fc0012_reg == 0xa1 then found_fc0012 else pure tt

  unfoldable pub probe_tuners : Dev (Unit {0})
  probe_tuners = do
    e4k_reg ← check 0xc8 0x02
    if e4k_reg == 0x40 then set_type tuner_e4000 else do
      fc0013_reg ← check 0xc6 0x00
      if fc0013_reg == 0xa3 then set_type tuner_fc0013 else do
        r820t_reg ← check 0x34 0x00
        if r820t_reg == 0x69 then set_type tuner_r820t else do
          r828d_reg ← check 0x74 0x00
          (if r828d_reg == 0x69 then set_type tuner_r828d else pure tt)
          probe_reset

  -- The registers of the demodulator for a Rafael Micro tuner.
  unfoldable pub open_r82xx : Dev (Unit {0})
  open_r82xx = do
    demod_write usb 1 0xb1 0x1a 1
    demod_write usb 0 0x08 0x4d 1
    rtlsdr_set_if_freq usb ppm_corr 3570000
    demod_write usb 1 0x15 0x01 1
    pure tt

  -- The switch over the type of the tuner.
  unfoldable pub open_mode : Tuner → Dev (Unit {0})
  open_mode tuner_r828d = do modify (λ d. record d { tun_xtal = 16000000 }); open_r82xx
  open_mode tuner_r820t = open_r82xx
  open_mode tuner_unknown = do
    rtlsdr_set_direct_sampling usb ppm_corr (tuners tuner_unknown) 1
    pure tt
  open_mode other = pure tt

  unfoldable pub open_init : TunerIface → Dev (Unit {0})
  open_init tuner = elim tuner.init [ none ↦ pure tt | some init ↦ do init; pure tt ]

  -- `rtlsdr_open` from the clock on, with the interface of libusb claimed, on a device
  -- whose tuner is unknown. The reset of a device
  -- that refuses the first write is a call of libusb and is left out.
  unfoldable pub open_device : Dev ℤ
  open_device = do
    modify (λ d. record d { rtl_xtal = 28800000 })
    on_bus (rtlsdr_write_reg usb usbb usb_sysctl 0x09 1)
    rtlsdr_init_baseband usb
    on_bus (rtlsdr_set_i2c_repeater usb true)
    probe_tuners
    modify (λ d. record d { tun_xtal = d.rtl_xtal })
    type ← gets (λ d. d.tuner_type)
    open_mode type
    open_init (tuners type)
    on_bus (rtlsdr_set_i2c_repeater usb false)
    pure (pos 0)
