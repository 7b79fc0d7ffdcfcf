-- ===== src/Librtlsdr/Baseband.antt =====
-- rtl-sdr/src/librtlsdr.c: the demodulator at the start and at the end of a session.
use rtl_tcp_pi.Common.{ℕ, zero, suc, ◌+◌, ℤ, pos}
use rtl_tcp_pi.Usb.{Usb}
use rtl_tcp_pi.Driver.{pure, gets, ◌>>=◌, ◌>>◌}
use rtl_tcp_pi.Librtlsdr.Access.{
  Block, usbb, sysb, usb_sysctl, usb_epa_maxpkt, usb_epa_ctl, demod_ctl, demod_ctl_1,
  rtlsdr_write_reg,
}
use rtl_tcp_pi.Librtlsdr.Fir.{rtlsdr_set_fir}
use rtl_tcp_pi.Librtlsdr.Device.{Dev, TunerIface, on_bus, demod_write, repeated}

module _ (usb : Usb) where
  abbrev write_reg : Block → ℕ → ℕ → ℕ → Dev ℤ
  write_reg block addr val len = on_bus (rtlsdr_write_reg usb block addr val len)

  -- The loop over the DDC shift and IF frequency registers.
  unfoldable pub clear_registers : ℕ → ℕ → Dev (Unit {0})
  clear_registers addr zero = pure tt
  clear_registers addr (suc n) = do demod_write usb 1 addr 0x00 1; clear_registers (addr + 1) n

  unfoldable pub rtlsdr_init_baseband : Dev (Unit {0})
  rtlsdr_init_baseband = do
    write_reg usbb usb_sysctl 0x09 1
    write_reg usbb usb_epa_maxpkt 0x0002 2
    write_reg usbb usb_epa_ctl 0x1002 2
    write_reg sysb demod_ctl_1 0x22 1
    write_reg sysb demod_ctl 0xe8 1
    demod_write usb 1 0x01 0x14 1
    demod_write usb 1 0x01 0x10 1
    demod_write usb 1 0x15 0x00 1
    demod_write usb 1 0x16 0x0000 2
    clear_registers 0x16 6
    fir ← gets (λ d. d.fir)
    on_bus (rtlsdr_set_fir usb fir)
    demod_write usb 0 0x19 0x05 1
    demod_write usb 1 0x93 0xf0 1
    demod_write usb 1 0x94 0x0f 1
    demod_write usb 1 0x11 0x00 1
    demod_write usb 1 0x04 0x00 1
    demod_write usb 0 0x61 0x60 1
    demod_write usb 0 0x06 0x80 1
    demod_write usb 1 0xb1 0x1b 1
    demod_write usb 0 0x0d 0x83 1
    pure tt

  unfoldable pub rtlsdr_deinit_baseband : TunerIface → Dev ℤ
  rtlsdr_deinit_baseband tuner = do
    r ← repeated usb tuner.exit (pos 0)
    write_reg sysb demod_ctl 0x20 1
    pure r

  unfoldable pub rtlsdr_reset_buffer : Dev ℤ
  rtlsdr_reset_buffer = do
    write_reg usbb usb_epa_ctl 0x1002 2
    write_reg usbb usb_epa_ctl 0x0000 2
    pure (pos 0)
