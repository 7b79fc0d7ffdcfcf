-- ===== src/E4k/Filters.antt =====
-- rtl-sdr/src/tuner_e4k.c: the RF filter and the IF filters.
use rtl_tcp_pi.Common.{
  ℕ, ◌+◌, ◌-◌, ◌*◌, ltb, Bool, if◌then◌else◌, List, [], ◌∷◌, ℤ, pos, negsuc, get_or, map,
}
use rtl_tcp_pi.State.{gets, ◌>>=◌, pure}
use rtl_tcp_pi.Usb.{Usb}
use rtl_tcp_pi.E4k.Types.{
  E4k, E4kBand, band_vhf2, band_vhf3, band_uhf, band_l, IfFilter, if_filter_mix, if_filter_chan,
  if_filter_rc, RegField, reg_filt1, reg_filt2, reg_filt3,
}
use rtl_tcp_pi.E4k.Registers.{e4k_reg_set_mask, e4k_field_write, e4k_field_read}

unfoldable pub unsigned_delta : ℕ → ℕ → ℕ
unsigned_delta a b = if ltb b a then a - b else b - a

-- `MHZ(x)` and `KHZ(x)` over a table.
abbrev mhz : List ℕ → List ℕ
mhz = map (λ x. x * 1000000)

abbrev khz : List ℕ → List ℕ
khz = map (λ x. x * 1000)

abbrev pub rf_filt_center_uhf : List ℕ
rf_filt_center_uhf = mhz (
    360 ∷ 380 ∷ 405 ∷ 425 ∷ 450 ∷ 475 ∷ 505 ∷ 540 ∷ 575 ∷ 615 ∷ 670 ∷ 720 ∷ 760 ∷ 840 ∷ 890 ∷ 970
    ∷ [])

abbrev pub rf_filt_center_l : List ℕ
rf_filt_center_l = mhz (
    1300 ∷ 1320 ∷ 1360 ∷ 1410 ∷ 1445 ∷ 1460 ∷ 1490 ∷ 1530 ∷ 1560 ∷ 1590 ∷ 1640 ∷ 1660 ∷ 1680 ∷ 1700
    ∷ 1720 ∷ 1750 ∷ [])

-- The loop of `closest_arr_idx` over the rest of the array, `i` elements in.
unfoldable pub closest_loop : List ℕ → ℕ → ℕ → ℕ → ℕ → ℕ
closest_loop [] freq i bi best_delta = bi
closest_loop (x ∷ arr) freq i bi best_delta =
    let delta = unsigned_delta freq x in
    let closer = ltb delta best_delta in
    closest_loop arr freq (i + 1) (if closer then i else bi) (if closer then delta else best_delta)

unfoldable pub closest_arr_idx : List ℕ → ℕ → ℕ
closest_arr_idx arr freq = closest_loop arr freq 0 0 0xffffffff

-- The switch has a case for each band.
unfoldable pub choose_rf_filter : E4kBand → ℕ → ℕ
choose_rf_filter band_vhf2 freq = 0
choose_rf_filter band_vhf3 freq = 0
choose_rf_filter band_uhf freq = closest_arr_idx rf_filt_center_uhf freq
choose_rf_filter band_l freq = closest_arr_idx rf_filt_center_l freq

abbrev pub mix_filter_bw : List ℕ
mix_filter_bw = khz (
    27000 ∷ 27000 ∷ 27000 ∷ 27000 ∷ 27000 ∷ 27000 ∷ 27000 ∷ 27000 ∷ 4600 ∷ 4200 ∷ 3800 ∷ 3400 ∷ 3300
    ∷ 2700 ∷ 2300 ∷ 1900 ∷ [])

abbrev pub ifrc_filter_bw : List ℕ
ifrc_filter_bw = khz (
    21400 ∷ 21000 ∷ 17600 ∷ 14700 ∷ 12400 ∷ 10600 ∷ 9000 ∷ 7700 ∷ 6400 ∷ 5300 ∷ 4400 ∷ 3400 ∷ 2600
    ∷ 1800 ∷ 1200 ∷ 1000 ∷ [])

abbrev pub ifch_filter_bw : List ℕ
ifch_filter_bw = khz (
    5500 ∷ 5300 ∷ 5000 ∷ 4800 ∷ 4600 ∷ 4400 ∷ 4300 ∷ 4100 ∷ 3900 ∷ 3800 ∷ 3700 ∷ 3600 ∷ 3400 ∷ 3300
    ∷ 3200 ∷ 3100 ∷ 3000 ∷ 2950 ∷ 2900 ∷ 2800 ∷ 2750 ∷ 2700 ∷ 2600 ∷ 2550 ∷ 2500 ∷ 2450 ∷ 2400
    ∷ 2300 ∷ 2280 ∷ 2240 ∷ 2200 ∷ 2150 ∷ [])

unfoldable pub if_filter_bw : IfFilter → List ℕ
if_filter_bw if_filter_mix = mix_filter_bw
if_filter_bw if_filter_chan = ifch_filter_bw
if_filter_bw if_filter_rc = ifrc_filter_bw

unfoldable pub if_filter_fields : IfFilter → RegField
if_filter_fields if_filter_mix = record { reg = reg_filt2; shift = 4; width = 4 }
if_filter_fields if_filter_chan = record { reg = reg_filt3; shift = 0; width = 5 }
if_filter_fields if_filter_rc = record { reg = reg_filt2; shift = 0; width = 4 }

-- Each filter of the enumeration has an entry in the tables.
unfoldable pub find_if_bw : IfFilter → ℕ → ℕ
find_if_bw filter bw = closest_arr_idx (if_filter_bw filter) bw

-- `arr[rc]` of a field that was read, or the error.
unfoldable pub bw_entry : List ℕ → ℤ → ℤ
bw_entry arr (pos n) = pos (get_or arr n 0)
bw_entry arr (negsuc n) = negsuc n

module _ (usb : Usb) where
  unfoldable pub e4k_rf_filter_set : E4k ℤ
  e4k_rf_filter_set = do
    e ← gets (λ e. e)
    e4k_reg_set_mask usb reg_filt1 0xf (choose_rf_filter e.band e.vco.flo)

  unfoldable pub e4k_if_filter_bw_set : IfFilter → ℕ → E4k ℤ
  e4k_if_filter_bw_set filter bandwidth =
      e4k_field_write usb (if_filter_fields filter) (find_if_bw filter bandwidth)

  unfoldable pub e4k_if_filter_chan_enable : Bool → E4k ℤ
  e4k_if_filter_chan_enable on = e4k_reg_set_mask usb reg_filt3 0x20 (if on then 0 else 0x20)

  unfoldable pub e4k_if_filter_bw_get : IfFilter → E4k ℤ
  e4k_if_filter_bw_get filter = do
    rc ← e4k_field_read usb (if_filter_fields filter)
    pure (bw_entry (if_filter_bw filter) rc)
