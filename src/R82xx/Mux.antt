-- ===== src/R82xx/Mux.antt =====
-- rtl-sdr/src/tuner_r82xx.c: the table of frequency ranges, and `r82xx_set_mux`.
pub mod Ranges
use rtl_tcp_pi.Common.{ℕ, ◌/◌, ltb, bit_or, if◌then◌else◌, List, [], ◌∷◌}
use rtl_tcp_pi.Usb.{Usb}
use rtl_tcp_pi.Driver.{gets, ◌>>=◌, ◌>>◌}
use rtl_tcp_pi.R82xx.Types.{
  R82xx, XtalCap, low_cap_30p, low_cap_20p, low_cap_10p, low_cap_0p, high_cap_0p,
}
use rtl_tcp_pi.R82xx.Shadow.{r82xx_write_reg, r82xx_write_reg_mask}

pub record FreqRange : Type 0 where
  pub freq : ℕ
  pub open_d : ℕ
  pub rf_mux_ploy : ℕ
  pub tf_c : ℕ
  pub xtal_cap20p : ℕ
  pub xtal_cap10p : ℕ
  pub xtal_cap0p : ℕ

abbrev range : ℕ → ℕ → ℕ → ℕ → ℕ → ℕ → ℕ → FreqRange
range f d m t c20 c10 c0 = record {
  freq = f;
  open_d = d;
  rf_mux_ploy = m;
  tf_c = t;
  xtal_cap20p = c20;
  xtal_cap10p = c10;
  xtal_cap0p = c0;
}

-- `freq_ranges[0]`, and those after it.
abbrev pub first_range : FreqRange
first_range = range 0 0x08 0x02 0xdf 0x02 0x01 0x00

abbrev pub later_ranges : List FreqRange
later_ranges =
    range 50 0x08 0x02 0xbe 0x02 0x01 0x00
    ∷ range 55 0x08 0x02 0x8b 0x02 0x01 0x00
    ∷ range 60 0x08 0x02 0x7b 0x02 0x01 0x00
    ∷ range 65 0x08 0x02 0x69 0x02 0x01 0x00
    ∷ range 70 0x08 0x02 0x58 0x02 0x01 0x00
    ∷ range 75 0x00 0x02 0x44 0x02 0x01 0x00
    ∷ range 80 0x00 0x02 0x44 0x02 0x01 0x00
    ∷ range 90 0x00 0x02 0x34 0x01 0x01 0x00
    ∷ range 100 0x00 0x02 0x34 0x01 0x01 0x00
    ∷ range 110 0x00 0x02 0x24 0x01 0x01 0x00
    ∷ range 120 0x00 0x02 0x24 0x01 0x01 0x00
    ∷ range 140 0x00 0x02 0x14 0x01 0x01 0x00
    ∷ range 180 0x00 0x02 0x13 0x00 0x00 0x00
    ∷ range 220 0x00 0x02 0x13 0x00 0x00 0x00
    ∷ range 250 0x00 0x02 0x11 0x00 0x00 0x00
    ∷ range 280 0x00 0x02 0x00 0x00 0x00 0x00
    ∷ range 310 0x00 0x41 0x00 0x00 0x00 0x00
    ∷ range 450 0x00 0x41 0x00 0x00 0x00 0x00
    ∷ range 588 0x00 0x40 0x00 0x00 0x00 0x00
    ∷ range 650 0x00 0x40 0x00 0x00 0x00 0x00
    ∷ []

-- The `for` loop: `here` is `freq_ranges[i]`, and the list is what stands after it.
unfoldable pub find_range : ℕ → FreqRange → List FreqRange → FreqRange
find_range freq here [] = here
find_range freq here (next ∷ rest) =
    let later = find_range freq next rest in if ltb freq next.freq then here else later

unfoldable pub xtal_cap_value : XtalCap → FreqRange → ℕ
xtal_cap_value low_cap_30p r = bit_or r.xtal_cap20p 0x08
xtal_cap_value low_cap_20p r = bit_or r.xtal_cap20p 0x08
xtal_cap_value low_cap_10p r = bit_or r.xtal_cap10p 0x08
xtal_cap_value high_cap_0p r = bit_or r.xtal_cap0p 0x00
xtal_cap_value low_cap_0p r = bit_or r.xtal_cap0p 0x08

module _ (usb : Usb) where
  unfoldable pub r82xx_set_mux : ℕ → R82xx (Unit {0})
  r82xx_set_mux freq = do
    let range = find_range (freq / 1000000) first_range later_ranges
    r82xx_write_reg_mask usb 0x17 range.open_d 0x08
    r82xx_write_reg_mask usb 0x1a range.rf_mux_ploy 0xc3
    r82xx_write_reg usb 0x1b range.tf_c
    sel ← gets (λ s. s.xtal_cap_sel)
    r82xx_write_reg_mask usb 0x10 (xtal_cap_value sel range) 0x0b
    r82xx_write_reg_mask usb 0x08 0x00 0x3f
    r82xx_write_reg_mask usb 0x09 0x00 0x3f
