-- ===== src/E4k/Tuned.antt =====
-- rtl-sdr/src/tuner_e4k.c: the registers of the tuner after tuning.
use rtl_tcp_pi.Common.{
  ℕ, ◌*◌, ◌%◌, ◌^◌, ◌≤◌, ◌<◌, ◌≡◌, ◌≢◌, refl, ap, sym, ◌∙◌, arith, ==_of_ne, some, ℤ, pos, negsuc,
  bit_and, if◌then◌else◌, ◌==◌,
}
use rtl_tcp_pi.Usb.{Usb}
use rtl_tcp_pi.Librtlsdr.Fir.{low_byte}
use rtl_tcp_pi.E4k.Types.{E4kState, PllParams}
use rtl_tcp_pi.E4k.Pll.{
  e4k_compute_pll_params, e4k_tune_params, check_lock, tune_with, e4k_tune_freq,
}
use rtl_tcp_pi.E4k.Accuracy.{IsClose, pll_params-IsClose}
use rtl_tcp_pi.E4k.Programmed.{now, IsProgrammed, Fits, tune_params-IsProgrammed}
use rtl_tcp_pi.E4k.Chip.{TunerChip, IsTuner, AreBytes, regs_of, Leaves, reg_read-Leaves}

module _ (usb : Usb) (at : ℕ) (t : TunerChip) (chip : IsTuner usb at t) where
  -- The return value of the check of the lock.
  abbrev pub lock_code : E4kState → ℤ
  lock_code e = if bit_and (now usb at t chip e 0x07) 0x01 == 0 then negsuc 0 else pos 0

  lock_lem :
      (e : E4kState)
      → e.i2c_addr ≡ at
      → AreBytes (now usb at t chip e)
      → ((check_lock usb e).0 ≡ lock_code e)
        × Leaves usb at t chip e (check_lock usb e).1 (now usb at t chip e)
  unfolding check_lock low_byte
  lock_lem e here bytes =
      let (value, read) = reg_read-Leaves usb at t chip 0x07 e here in
      let byte : now usb at t chip e 0x07 % 2 ^ 8 ≡ now usb at t chip e 0x07 =
        omega (arith, bytes 0x07) in
      (rw value (rw byte refl), read)

  -- What is left after tuning to `freq`: the parameters, which are close to it, are those of the registers.
  pub record IsTunedTo (freq : ℕ) (p : PllParams) (e : E4kState) (r : ℤ × E4kState) : Type 0 where
    pub found : e4k_compute_pll_params e.vco.fosc freq ≡ some p
    pub close : IsClose e.vco.fosc freq p
    pub programmed : IsProgrammed usb at t chip p r.1
    pub code : r.0 ≡ lock_code r.1

  -- Reading the lock changes neither the registers nor the state of the driver.
  kept_by :
      (p : PllParams) (e e' : E4kState)
      → Leaves usb at t chip e e' (now usb at t chip e)
      → IsProgrammed usb at t chip p e
      → IsProgrammed usb at t chip p e'
  kept_by p e e' left h = record {
    synth7 = rw left.now h.synth7;
    synth3 = rw left.now h.synth3;
    synth4_5 = rw left.now h.synth4_5;
    bias = rw left.now h.bias;
    band_bits_set = rw left.now h.band_bits_set;
    filter = rw left.now h.filter;
    vco = left.vco ∙ h.vco;
    band = left.band ∙ h.band;
  }

  tune_with-IsProgrammed :
      (p : PllParams) (e : E4kState)
      → e.i2c_addr ≡ at
      → AreBytes (now usb at t chip e)
      → Fits usb at t chip p
      → p.flo ≢ 0
      → let r = tune_with usb (some p) e in IsProgrammed usb at t chip p r.1 × (r.0 ≡ lock_code r.1)
  unfolding tune_with
  tune_with-IsProgrammed p e here bytes fits some_flo =
      let (there, bytes', programmed) =
        tune_params-IsProgrammed usb at t chip p e here bytes fits in
      let e' = (e4k_tune_params usb p e).1 in
      let (code, left) = lock_lem e' there bytes' in
      rw (==_of_ne p.flo 0 some_flo) (
        kept_by p e' (check_lock usb e').1 left programmed,
        code
            ∙ ap (λ regs. if bit_and (regs 0x07) 0x01 == 0 then negsuc 0 else pos 0) (sym left.now),
      )

-- On a tuner that acknowledges writes and keeps what is written to its registers, where these hold
-- bytes, with a clock of 18.75 to 30 MHz, `e4k_tune_freq` with a frequency from 300 Hz up to 128
-- times the clock programs the parameters of `e4k_compute_pll_params` into the registers: the divider,
-- Z, X, the bias and the band of the resulting frequency and the RF filter of this band. The frequency is at most 229 Hz below the one
-- asked for. The result is 0 when the lock bit of the register SYNTH1 is set afterwards, and -1 when it is not.
pub tune_freq-IsTunedTo :
    (usb : Usb) (at : ℕ) (t : TunerChip) (chip : IsTuner usb at t) (freq : ℕ) (e : E4kState)
    → e.i2c_addr ≡ at
    → AreBytes (regs_of usb at t chip e)
    → 18750000 ≤ e.vco.fosc
    → e.vco.fosc ≤ 30000000
    → 300 ≤ freq
    → freq < 128 * e.vco.fosc
    → (p : PllParams) × IsTunedTo usb at t chip freq p e (e4k_tune_freq usb freq e)
unfolding e4k_tune_freq
tune_freq-IsTunedTo usb at t chip freq e here bytes lo hi some_hz limit =
    let (p, found, close) = pll_params-IsClose e.vco.fosc freq lo hi (omega arith) limit in
    let fits : Fits usb at t chip p = record {
      r_idx = close.r_idx_fits;
      z = close.z_fits;
      x = close.x_fits;
      flo = omega (arith, close.flo_low);
    } in
    let (programmed, code) =
      tune_with-IsProgrammed usb at t chip p e here bytes fits (omega (arith, close.flo_high)) in
    (
      p,
      record {
        found = found;
        close = close;
        programmed = rw found programmed;
        code = rw found code;
      },
    )
