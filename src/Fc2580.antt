-- ===== src/Fc2580.antt =====
-- rtl-sdr/src/tuner_fc2580.c: the driver of the FCI FC2580 tuner.
pub mod Pll
pub mod Registers
mod Tests
use rtl_tcp_pi.Common.{
  ℕ, zero, suc, ◌+◌, ◌*◌, ◌/◌, ◌%◌, ◌^◌, ltb, leb, ◌==◌, ◌&&◌, Bool, true, false, not, bit_and,
  bit_or, if◌then◌else◌, List, [], ◌∷◌, ◌++◌, ℤ, pos, negsuc, get_or,
}
use rtl_tcp_pi.State.{State, pure, gets, ◌>>=◌, ◌>>◌}
use rtl_tcp_pi.Usb.{Usb, Bus, Reply, received, failed}
use rtl_tcp_pi.Librtlsdr.Access.{rtlsdr_i2c_write, rtlsdr_i2c_read}
use rtl_tcp_pi.Fc2580.Pll.{
  Band, uhf_band, l_band, vhf_band, band_of, fc2580_vco, r_val, Fc2580Pll, fc2580_pll,
}
use rtl_tcp_pi.Fc2580.Registers.{
  init_registers, agc_registers, filter_registers, uhf_filter, band_registers, band_filter,
  vco_byte, r_byte, pll_registers,
}

abbrev pub fc2580_i2c_addr : ℕ
fc2580_i2c_addr = 0xac

abbrev pub crystal_freq : ℕ
crystal_freq = 16384000

-- FC2580_FCI_SUCCESS or FC2580_FCI_FAIL from the return value of a write.
unfoldable pub succeeded : ℤ → Bool
succeeded (pos n) = true
succeeded (negsuc n) = false

-- The result of a read, and `read_data`: a failed read leaves it, and a read without a byte leaves
-- the register's number in it.
unfoldable pub read_data : ℕ → ℕ → Reply → Bool × ℕ
read_data reg old (received bytes) = (true, get_or bytes 0 reg)
read_data reg old (failed n) = (false, old)

module _ (usb : Usb) where
  unfoldable pub fc2580_i2c_write : ℕ → ℕ → State Bus Bool
  fc2580_i2c_write reg val = do
    rc ← rtlsdr_i2c_write usb fc2580_i2c_addr (reg ∷ val ∷ [])
    pure (succeeded rc)

  unfoldable pub fc2580_i2c_read : ℕ → ℕ → State Bus (Bool × ℕ)
  fc2580_i2c_read reg old = do
    rc ← rtlsdr_i2c_write usb fc2580_i2c_addr (reg ∷ [])
    if not (succeeded rc)
        then pure (false, old)
        else do reply ← rtlsdr_i2c_read usb fc2580_i2c_addr 1; pure (read_data reg old reply)

  -- `result &= ...` over writes of registers with their values.
  unfoldable pub write_registers : List (ℕ × ℕ) → Bool → State Bus Bool
  write_registers [] result = pure result
  write_registers (register ∷ rest) result = do
    done ← fc2580_i2c_write register.0 register.1
    write_registers rest (result && done)

  -- The loop that waits for the calibration of the filter, `n` turns of it at most.
  unfoldable pub calibrate_filter : ℕ → ℕ → Bool → State Bus Bool
  calibrate_filter zero cal_mon result = pure result
  calibrate_filter (suc n) cal_mon result = do
    read ← fc2580_i2c_read 0x2f cal_mon
    if bit_and read.1 0xc0 == 0xc0 then pure (result && read.0) else do
      result' ← write_registers ((0x2e, 0x01) ∷ (0x2e, 0x09) ∷ []) (result && read.0)
      calibrate_filter n read.1 result'

  unfoldable pub fc2580_set_filter : ℕ → ℕ → State Bus Bool
  fc2580_set_filter filter_bw freq_xtal = do
    result ← write_registers (filter_registers filter_bw freq_xtal) true
    result' ← calibrate_filter 5 0 result
    write_registers ((0x2e, 0x01) ∷ []) result'

  unfoldable pub fc2580_set_init : ℕ → ℕ → State Bus Bool
  fc2580_set_init ifagc_mode freq_xtal = do
    result ← write_registers (init_registers ++ agc_registers ifagc_mode) true
    result' ← write_registers ((0x3f, 0x88) ∷ (0x02, 0x0e) ∷ (0x58, 0x14) ∷ []) result
    filtered ← fc2580_set_filter 8 freq_xtal
    pure (result' && filtered)

  unfoldable pub fc2580_set_freq : ℕ → ℕ → State Bus Bool
  fc2580_set_freq f_lo freq_xtal = do
    result ← write_registers (band_registers (band_of f_lo) f_lo) true
    filtered ← fc2580_set_filter (band_filter (band_of f_lo)) freq_xtal
    write_registers (pll_registers f_lo freq_xtal) (result && filtered)

  -- FUNCTION_SUCCESS is true. `unsigned long` has 32 bits on the Raspberry Pi.
  unfoldable pub fc2580_initialize : State Bus Bool
  fc2580_initialize = fc2580_set_init 2 ((crystal_freq + 500) / 1000)

  unfoldable pub fc2580_set_rf_freq_hz : ℕ → State Bus Bool
  fc2580_set_rf_freq_hz rf_freq_hz =
      fc2580_set_freq ((rf_freq_hz + 500) % 2 ^ 32 / 1000) ((crystal_freq + 500) / 1000)

  unfoldable pub fc2580_set_bandwidth_mode : ℕ → State Bus Bool
  fc2580_set_bandwidth_mode bandwidth_mode =
      fc2580_set_filter (bandwidth_mode % 2 ^ 8) ((crystal_freq + 500) / 1000)
