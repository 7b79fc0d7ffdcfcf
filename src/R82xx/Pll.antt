-- ===== src/R82xx/Pll.antt =====
-- rtl-sdr/src/tuner_r82xx.c: `r82xx_set_pll`, its arithmetic and its register writes.
pub mod Fraction
pub mod Numbers
use rtl_tcp_pi.Common.{
  ℕ, zero, suc, ◌+◌, ◌-◌, ◌*◌, ◌/◌, ◌%◌, ◌^◌, ltb, leb, ◌==◌, bit_and, if◌then◌else◌, Bool, true,
  List, ◌&&◌, get_or,
}
use rtl_tcp_pi.Usb.{Usb}
use rtl_tcp_pi.Driver.{pure, fail, hang, gets, modify, ◌>>=◌, ◌>>◌}
use rtl_tcp_pi.R82xx.Types.{R82xx, Chip, chip_r828d}
use rtl_tcp_pi.R82xx.Shadow.{r82xx_write_reg, r82xx_write_reg_mask, r82xx_read}

abbrev pub u8 : ℕ → ℕ
u8 n = n % 2 ^ 8

abbrev pub u16 : ℕ → ℕ
u16 n = n % 2 ^ 16

abbrev pub u32 : ℕ → ℕ
u32 n = n % 2 ^ 32

-- `vco_min`; `vco_max` is twice that.
abbrev pub vco_min : ℕ
vco_min = 1770000

abbrev pub in_vco_range : ℕ → ℕ → Bool
in_vco_range freq_khz mix_div =
    leb vco_min (u32 (freq_khz * mix_div)) && ltb (u32 (freq_khz * mix_div)) (vco_min * 2)

-- `while (div_buf > 2) { div_buf >>= 1; div_num++; }`; a byte is halved 7 times at most.
unfoldable pub halvings : ℕ → ℕ → ℕ → ℕ
halvings zero div_buf div_num = div_num
halvings (suc fuel) div_buf div_num =
    let rest = halvings fuel (div_buf / 2) (div_num + 1) in if ltb 2 div_buf then rest else div_num

pub record Divider : Type 0 where
  pub mix_div : ℕ
  pub div_num : ℕ

-- `while (mix_div <= 64)`; from 2 on, `mix_div` is doubled 6 times at most.
unfoldable pub find_divider : ℕ → ℕ → ℕ → Divider
find_divider zero freq_khz mix_div = record { mix_div = mix_div; div_num = 0 }
find_divider (suc fuel) freq_khz mix_div =
    let rest = find_divider fuel freq_khz (u8 (mix_div * 2)) in
    if leb mix_div 64
    then (if in_vco_range freq_khz mix_div
        then record { mix_div = mix_div; div_num = halvings 8 mix_div 0 }
        else rest)
    else record { mix_div = mix_div; div_num = 0 }

-- `div_num` is moved by one towards the tuning that the chip reports; `uint8_t` wraps.
unfoldable pub fine_tuned : ℕ → ℕ → ℕ → ℕ
fine_tuned vco_power_ref vco_fine_tune div_num =
    if ltb vco_power_ref vco_fine_tune
    then u8 (div_num + 255)
    else if ltb vco_fine_tune vco_power_ref
    then u8 (div_num + 1)
    else div_num

-- `ni` and `si` are `uint8_t`, computed in `int`; `/` rounds towards zero.
unfoldable pub pll_ni : ℕ → ℕ
pll_ni nint = if leb 13 nint then (nint - 13) / 4 else u8 (256 - (13 - nint) / 4)

unfoldable pub pll_si : ℕ → ℕ
pll_si nint = u8 (nint + 1280 - 4 * pll_ni nint - 13)

-- The state of the sdm loop. `zero_div` is a division by zero, `running` a loop that the fuel
-- does not end.
pub data Sdm : Type 0 where
  result : ℕ → ℕ → Sdm
  zero_div running : Sdm

-- `while (vco_fra > 1)` with `n_sdm`, `sdm` and `vco_fra`; the results are `sdm` and `vco_fra`.
-- `n_sdm` is a `uint16_t` that is doubled in each round: 16 rounds empty it.
unfoldable pub sdm_loop : ℕ → ℕ → ℕ → ℕ → ℕ → Sdm
sdm_loop zero ref_khz n_sdm sdm vco_fra = running
sdm_loop (suc fuel) ref_khz n_sdm sdm vco_fra =
    let step = u32 (2 * ref_khz) / n_sdm in
    let taken = u16 (sdm + 32768 / (n_sdm / 2)) in
    let next = sdm_loop fuel ref_khz (u16 (n_sdm * 2)) sdm vco_fra in
    let next_taken = sdm_loop fuel ref_khz (u16 (n_sdm * 2)) taken (vco_fra - step) in
    if ltb 1 vco_fra
    then (if n_sdm == 0
        then zero_div
        else if ltb step vco_fra
        then (if leb 0x8000 n_sdm then result taken (vco_fra - step) else next_taken)
        else next)
    else result sdm vco_fra

-- `nint` and `vco_fra` from the VCO frequency, with the conversions of the source.
unfoldable pub pll_nint : ℕ → ℕ → ℕ
pll_nint pll_ref vco_freq = u8 (vco_freq / u32 (2 * pll_ref))

unfoldable pub pll_fra : ℕ → ℕ → ℕ → ℕ
pll_fra pll_ref vco_freq nint = u32 ((vco_freq + 2 ^ 64 - u32 (2 * pll_ref * nint)) % 2 ^ 64 / 1000)

unfoldable pub vco_power_ref : Chip → ℕ
vco_power_ref chip_r828d = 1
vco_power_ref other = 2

abbrev pub bit_set : ℕ → ℕ → Bool
bit_set x mask = ltb 0 (bit_and x mask)

module _ (usb : Usb) where
  -- Two looks at the lock bit, read into `array`; after the first failure the VCO current is raised.
  unfoldable pub wait_lock : List ℕ → R82xx Bool
  wait_lock array = do
    first ← r82xx_read usb 0x00 3 array
    if bit_set (get_or first 2 0) 0x40 then pure true else do
      r82xx_write_reg_mask usb 0x12 0x60 0xe0
      second ← r82xx_read usb 0x00 3 first
      pure (bit_set (get_or second 2 0) 0x40)

  -- The writes of the fraction: `sdm >> 8` and `sdm & 0xff`.
  unfoldable pub write_sdm : Sdm → R82xx (Unit {0})
  write_sdm (result sdm _) = do
    r82xx_write_reg usb 0x16 (sdm / 2 ^ 8)
    r82xx_write_reg usb 0x15 (sdm % 2 ^ 8)
  write_sdm zero_div = hang
  write_sdm running = hang

  -- From the choice of `ni` and `si` on; `array` is the local array `data`.
  unfoldable pub program_pll : List ℕ → ℕ → ℕ → R82xx (Unit {0})
  program_pll array nint vco_freq = do
    cfg ← gets (λ s. s.cfg)
    let vco_fra = pll_fra cfg.xtal vco_freq nint
    r82xx_write_reg usb 0x14 (pll_ni nint + pll_si nint * 2 ^ 6)
    r82xx_write_reg_mask usb 0x12 (if vco_fra == 0 then 0x08 else 0x00) 0x08
    write_sdm (sdm_loop 17 (u32 (cfg.xtal + 500) / 1000) 2 0 vco_fra)
    locked ← wait_lock array
    modify (λ s. record s { has_lock = locked })
    if locked then r82xx_write_reg_mask usb 0x1a 0x08 0x08 else pure tt

  unfoldable pub r82xx_set_pll : ℕ → R82xx (Unit {0})
  r82xx_set_pll freq = do
    cfg ← gets (λ s. s.cfg)
    r82xx_write_reg_mask usb 0x10 0 0x10
    r82xx_write_reg_mask usb 0x1a 0x00 0x0c
    r82xx_write_reg_mask usb 0x12 0x80 0xe0
    let divider = find_divider 7 (u32 (freq + 500) / 1000) 2
    stale ← gets (λ s. usb.uninit s.rtl_dev)
    status ← r82xx_read usb 0x00 5 stale
    let power_ref = vco_power_ref cfg.rafael_chip
    let fine_tune = bit_and (get_or status 4 0) 0x30 / 2 ^ 4
    r82xx_write_reg_mask usb 0x10 (fine_tuned power_ref fine_tune divider.div_num * 2 ^ 5) 0xe0
    let vco_freq = freq * divider.mix_div
    if u32 (2 * cfg.xtal) == 0 then hang else do
      let nint = pll_nint cfg.xtal vco_freq
      if ltb (128 / power_ref - 1) nint then fail 0 else program_pll status nint vco_freq
