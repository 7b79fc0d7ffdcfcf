-- ===== src/Librtlsdr/Demod.antt =====
-- rtl-sdr/src/librtlsdr.c: the intermediate frequency and the corrections in the demodulator.
pub mod Bytes
use rtl_tcp_pi.Common.{ℕ, zero, suc, ◌+◌, ◌*◌, ◌/◌, ◌%◌, ◌^◌, bit_and, ℤ, pos, negsuc, Option}
use rtl_tcp_pi.Usb.{Usb}
use rtl_tcp_pi.Driver.{pure, gets, ◌>>=◌}
use rtl_tcp_pi.Librtlsdr.Fir.{low_byte, shift_right}
use rtl_tcp_pi.Librtlsdr.Device.{Device, Dev, PpmCorr, or_with, demod_write}

-- `x * (-1)`
unfoldable pub negated : ℕ → ℤ
negated zero = pos 0
negated (suc n) = negsuc n

-- `a * TWO_POW(22) / b` in `double`, cut to an integer. The product is exact, and the quotient is
-- rounded to 53 bits: where it is below 2^28 and `b` below 2^25, rounding does not reach the next
-- integer.
unfoldable pub ratio_22 : ℕ → ℕ → ℕ
ratio_22 a b = a * 2 ^ 22 / b

-- `ppm * (-1) * TWO_POW(24) / 1000000`, cut towards zero. The conversion to `int16_t` keeps the low
-- 14 bits that are written where the value fits.
unfoldable pub ppm_offset : ℤ → ℤ
ppm_offset (pos n) = negated (n * 2 ^ 24 / 1000000)
ppm_offset (negsuc n) = pos ((n + 1) * 2 ^ 24 / 1000000)

-- The three bytes of `if_freq`, the highest first.
unfoldable pub if_high : ℤ → ℕ
if_high if_freq = bit_and (low_byte (shift_right if_freq 16)) 0x3f

unfoldable pub if_middle : ℤ → ℕ
if_middle if_freq = low_byte (shift_right if_freq 8)

-- `(offs >> 8) & 0x3f`
unfoldable pub offset_high : ℤ → ℕ
offset_high offs = bit_and (low_byte (shift_right offs 8)) 0x3f

module _ (usb : Usb) (ppm_corr : PpmCorr) where
  -- The two results of `rtlsdr_get_xtal_freq`; it succeeds on every device that is there.
  unfoldable pub rtl_clock : Device → ℕ
  rtl_clock d = ppm_corr d.rtl_xtal d.corr

  unfoldable pub rtlsdr_get_tuner_clock : Device → ℕ
  rtlsdr_get_tuner_clock d = ppm_corr d.tun_xtal d.corr

  unfoldable pub rtlsdr_set_if_freq : ℕ → Dev ℤ
  rtlsdr_set_if_freq freq = do
    rtl_xtal ← gets rtl_clock
    let if_freq = negated (ratio_22 freq rtl_xtal)
    r ← demod_write usb 1 0x19 (if_high if_freq) 1
    r' ← or_with r (demod_write usb 1 0x1a (if_middle if_freq) 1)
    or_with r' (demod_write usb 1 0x1b (low_byte if_freq) 1)

  unfoldable pub rtlsdr_set_sample_freq_correction : ℤ → Dev ℤ
  rtlsdr_set_sample_freq_correction ppm = do
    let offs = ppm_offset ppm
    r ← or_with (pos 0) (demod_write usb 1 0x3f (low_byte offs) 1)
    or_with r (demod_write usb 1 0x3e (offset_high offs) 1)
