-- ===== src/E4k/Faults.antt =====
-- rtl-sdr/src/tuner_e4k.c: the lowest frequencies, and tuning without a working I2C bus.
use rtl_tcp_pi.Common.{
  ℕ, ◌-◌, ◌+◌, ◌*◌, ◌≤◌, ◌<◌, ◌≡◌, ◌≢◌, refl, arith, [], ◌∷◌, ltb_ℤ, true, ◌/◌, ◌==◌, ==_of_eq,
  ==_of_ne, some, List, pos, negsuc,
}
use native.Mathlib.Nat.{div-lt_iff_lt-mul}
use rtl_tcp_pi.Usb.{Bus, Usb, control_out}
use rtl_tcp_pi.Librtlsdr.Access.{rtlsdr_i2c_write, rtlsdr_write_array}
use rtl_tcp_pi.Librtlsdr.Fir.{low_byte}
use rtl_tcp_pi.E4k.Types.{E4kState, PllParams, band_l}
use rtl_tcp_pi.E4k.Registers.{e4k_reg_read}
use rtl_tcp_pi.E4k.Pll.{
  PllSettings, is_fosc_valid, band_for, pll_vars, pll_row, params_with, compute_fvco, compute_flo,
  e4k_compute_pll_params, check_lock, tune_with, e4k_tune_freq,
}
use rtl_tcp_pi.E4k.Accuracy.{pll_params-IsClose}

-- A dongle on which no write succeeds.
pub record IsDead (usb : Usb) : Type 0 where
  pub code : Bus → ℕ → ℕ → List ℕ → ℕ
  pub refuses :
      (bus : Bus) (index addr : ℕ) (bytes : List ℕ)
      → usb.out_status bus index addr bytes ≡ negsuc (code bus index addr bytes)

negative : (n : ℕ) → ltb_ℤ (negsuc n) (pos 1) ≡ true
negative n = ground arith

module _ (usb : Usb) (dead : IsDead usb) where
  read_refused : (reg : ℕ) (e : E4kState) → (e4k_reg_read usb reg e).0 ≡ negsuc 0
  unfolding e4k_reg_read rtlsdr_i2c_write rtlsdr_write_array control_out
  read_refused reg e =
      rw (dead.refuses e.rtl_dev 0x610 e.i2c_addr (reg ∷ []))
        (rw (negative (dead.code e.rtl_dev 0x610 e.i2c_addr (reg ∷ []))) refl)

  locked : (e : E4kState) → (check_lock usb e).0 ≡ pos 0
  unfolding check_lock low_byte
  locked e = rw (read_refused _ e) refl

  with_params : (p : PllParams) (e : E4kState) → p.flo ≢ 0 → (tune_with usb (some p) e).0 ≡ pos 0
  unfolding tune_with
  with_params p e some_flo = rw (==_of_ne p.flo 0 some_flo) (locked _)

-- On a dongle that refuses every write, `e4k_tune_freq` returns 0, the code for success, for a clock of
-- 18.75 to 30 MHz and each frequency from 300 Hz up to 128 times the clock: the error of the read is taken for the lock.
pub tune_freq-IsDead :
    (usb : Usb) (freq : ℕ) (e : E4kState)
    → IsDead usb
    → 18750000 ≤ e.vco.fosc
    → e.vco.fosc ≤ 30000000
    → 300 ≤ freq
    → freq < 128 * e.vco.fosc
    → (e4k_tune_freq usb freq e).0 ≡ pos 0
unfolding e4k_tune_freq
tune_freq-IsDead usb freq e dead lo hi some_hz limit =
    let (p, found, close) = pll_params-IsClose e.vco.fosc freq lo hi (omega arith) limit in
    rw found (with_params usb dead p e (omega (arith, close.flo_high)))

low_row : (f : ℕ) → f < 72400000 → (pll_row pll_vars f).mult ≡ 48
unfolding pll_row
low_row f lt = ground arith

none_of : (a k : ℕ) → a < k → a / k ≡ 0
none_of a k lt =
    omega (arith, (div-lt_iff_lt-mul {k = k} {x = a} {y = 1} (omega arith)).1 (omega arith))

valid : (fosc : ℕ) → 16000000 ≤ fosc → fosc ≤ 30000000 → is_fosc_valid fosc ≡ true
unfolding is_fosc_valid
valid fosc lo hi = ground arith

no_flo :
    (fosc f : ℕ) (row : PllSettings)
    → row.mult ≡ 48
    → 16000000 ≤ fosc
    → f < 6
    → (params_with row fosc f).flo ≡ 4294967274
unfolding params_with compute_flo compute_fvco
no_flo fosc f row m lo tiny =
    let z = none_of (f * 48) fosc (omega arith) in
    let rest : f * 48 - fosc * 0 ≡ f * 48 = omega arith in
    let x = none_of (f * 48 * 65536) fosc (omega arith) in
    let zero_vco : (fosc * 0 + fosc * 0 / 65536 == 0) ≡ true = ==_of_eq _ 0 (omega arith) in
    rw m (rw z (rw rest (rw x (rw zero_vco refl))))

wrapped_band : band_for 4294967274 ≡ band_l
unfolding band_for
wrapped_band = refl

-- For a frequency below 6 Hz and every clock that `is_fosc_valid` accepts, the multiplier is 0: instead
-- of the 0 that stands for an error, `e4k_compute_pll_params` returns -22 as an unsigned
-- number, 4294967274, a frequency of the L band.
pub pll_params-wraps :
    (fosc f : ℕ)
    → 16000000 ≤ fosc
    → fosc ≤ 30000000
    → f < 6
    → (p : PllParams) × (e4k_compute_pll_params fosc f ≡ some p)
      × (p.flo ≡ 4294967274)
      × (band_for p.flo ≡ band_l)
unfolding e4k_compute_pll_params
pll_params-wraps fosc f lo hi tiny =
    let flo = no_flo fosc f (pll_row pll_vars f) (low_row f (omega arith)) lo tiny in
    (params_with (pll_row pll_vars f) fosc f, rw (valid fosc lo hi) refl, flo, rw flo wrapped_band)
