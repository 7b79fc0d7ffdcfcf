-- ===== src/E4k/Pll.antt =====
-- rtl-sdr/src/tuner_e4k.c: the parameters of the PLL, and tuning.
use rtl_tcp_pi.Common.{
  ℕ, ◌+◌, ◌-◌, ◌*◌, ◌/◌, ◌%◌, ◌^◌, ltb, ◌==◌, ltb_ℤ, not, ◌||◌, bit_and, Bool, if◌then◌else◌,
  Option, none, some, List, [], ◌∷◌, ℤ, pos, negsuc,
}
use rtl_tcp_pi.State.{gets, modify, pure, ◌>>=◌, ◌>>◌}
use rtl_tcp_pi.Usb.{Usb}
use rtl_tcp_pi.Librtlsdr.Fir.{low_byte}
use rtl_tcp_pi.E4k.Types.{
  E4k, E4kBand, band_vhf2, band_vhf3, band_uhf, band_l, band_code, PllParams, reg_synth1,
  reg_synth3, reg_synth4, reg_synth5, reg_synth7, reg_bias,
}
use rtl_tcp_pi.E4k.Registers.{e4k_reg_write, e4k_reg_read, e4k_reg_set_mask}
use rtl_tcp_pi.E4k.Filters.{e4k_rf_filter_set}

pub record PllSettings : Type 0 where
  pub freq : ℕ
  pub reg_synth7 : ℕ
  pub mult : ℕ

abbrev settings : ℕ → ℕ → ℕ → PllSettings
settings khz reg mult = record { freq = khz * 1000; reg_synth7 = reg; mult = mult }

abbrev pub pll_vars : List PllSettings
pll_vars =
    settings 72400 15 48
    ∷ settings 81200 14 40
    ∷ settings 108300 13 32
    ∷ settings 162500 12 24
    ∷ settings 216600 11 16
    ∷ settings 325000 10 12
    ∷ settings 350000 9 8
    ∷ settings 432000 3 8
    ∷ settings 667000 2 6
    ∷ settings 1200000 1 4
    ∷ []

unfoldable pub is_fosc_valid : ℕ → Bool
is_fosc_valid fosc = not (ltb fosc 16000000 || ltb 30000000 fosc)

unfoldable pub compute_fvco : ℕ → ℕ → ℕ → ℕ
compute_fvco f_osc z x = f_osc * z + f_osc * x / 65536

-- The result is cut to 32 bits, and -EINVAL is returned as an unsigned number.
unfoldable pub compute_flo : ℕ → ℕ → ℕ → ℕ → ℕ
compute_flo f_osc z x r =
    let fvco = compute_fvco f_osc z x in if fvco == 0 then 2 ^ 32 - 22 else fvco / r % 2 ^ 32

-- The row that the loop breaks at, or what the variables hold when it runs through.
unfoldable pub pll_row : List PllSettings → ℕ → PllSettings
pll_row [] intended_flo = record { freq = 0; reg_synth7 = 0; mult = 2 }
pll_row (row ∷ rest) intended_flo =
    if ltb intended_flo row.freq then row else pll_row rest intended_flo

-- The parameters with a row, before the check of the oscillator.
unfoldable pub params_with : PllSettings → ℕ → ℕ → PllParams
params_with row fosc intended_flo =
    let intended_fvco = intended_flo * row.mult in
    let z = intended_fvco / fosc in
    let remainder = intended_fvco - fosc * z in
    let x = remainder * 65536 / fosc in
    record {
      fosc = fosc;
      intended_flo = intended_flo;
      flo = compute_flo fosc (z % 2 ^ 8) (x % 2 ^ 16) row.mult;
      x = x % 2 ^ 16;
      z = z % 2 ^ 8;
      r = row.mult;
      r_idx = row.reg_synth7;
      threephase = if bit_and row.reg_synth7 0x08 == 0 then 0 else 1;
    }

-- `none` where the oscillator is refused; the return value is then 0, and else `flo`.
unfoldable pub e4k_compute_pll_params : ℕ → ℕ → Option PllParams
e4k_compute_pll_params fosc intended_flo =
    if is_fosc_valid fosc
    then some (params_with (pll_row pll_vars intended_flo) fosc intended_flo)
    else none

unfoldable pub bias_of : E4kBand → ℕ
bias_of band_vhf2 = 3
bias_of band_vhf3 = 3
bias_of band_uhf = 3
bias_of band_l = 0

unfoldable pub band_for : ℕ → E4kBand
band_for flo =
    if ltb flo 140000000
    then band_vhf2
    else if ltb flo 350000000
    then band_vhf3
    else if ltb flo 1135000000
    then band_uhf
    else band_l

module _ (usb : Usb) where
  unfoldable pub e4k_band_set : E4kBand → E4k ℤ
  e4k_band_set band = do
    e4k_reg_write usb reg_bias (bias_of band)
    e4k_reg_set_mask usb reg_synth1 0x06 0
    rc ← e4k_reg_set_mask usb reg_synth1 0x06 (band_code band * 2)
    modify (λ e. if ltb_ℤ rc (pos 0) then e else record e { band = band })
    pure rc

  unfoldable pub e4k_tune_params : PllParams → E4k ℕ
  e4k_tune_params p = do
    e4k_reg_write usb reg_synth7 p.r_idx
    e4k_reg_write usb reg_synth3 p.z
    e4k_reg_write usb reg_synth4 (p.x % 2 ^ 8)
    e4k_reg_write usb reg_synth5 (p.x / 2 ^ 8)
    modify (λ e. record e { vco = p })
    e4k_band_set (band_for p.flo)
    e4k_rf_filter_set usb
    gets (λ e. e.vco.flo)

  -- The lock is bit 0 of what the read returns, -1 included.
  unfoldable pub check_lock : E4k ℤ
  check_lock = do
    rc ← e4k_reg_read usb reg_synth1
    pure (if bit_and (low_byte rc) 0x01 == 0 then negsuc 0 else pos 0)

  unfoldable pub tune_with : Option PllParams → E4k ℤ
  tune_with none = pure (negsuc 21)
  tune_with (some p) = if p.flo == 0 then pure (negsuc 21) else do e4k_tune_params p; check_lock

  unfoldable pub e4k_tune_freq : ℕ → E4k ℤ
  e4k_tune_freq freq = do
    fosc ← gets (λ e. e.vco.fosc)
    tune_with (e4k_compute_pll_params fosc freq)
