-- ===== src/R82xx/Tune.antt =====
-- rtl-sdr/src/tuner_r82xx.c: tuning, standby, the crystal check and the initialisation.
use rtl_tcp_pi.Common.{
  ℕ, ◌+◌, ◌^◌, ◌%◌, ◌==◌, ltb, not, ◌||◌, ◌&&◌, bit_and, if◌then◌else◌, Bool, true, false, List, [],
  ◌∷◌, get_or,
}
use rtl_tcp_pi.Usb.{Usb}
use rtl_tcp_pi.Driver.{pure, finally, ignore, fail, gets, modify, ◌>>=◌, ◌>>◌}
use rtl_tcp_pi.R82xx.Types.{
  R82xx, Chip, chip_r828d, tuner_digital_tv, forced, XtalCap, low_cap_30p, low_cap_20p, low_cap_10p,
  low_cap_0p, high_cap_0p, sys_undefined, sys_dvbt,
}
use rtl_tcp_pi.R82xx.Shadow.{r82xx_write, r82xx_write_reg, r82xx_write_reg_mask, r82xx_read}
use rtl_tcp_pi.R82xx.Mux.{r82xx_set_mux}
use rtl_tcp_pi.R82xx.Pll.{r82xx_set_pll, bit_set}
use rtl_tcp_pi.R82xx.Sysfreq.{r82xx_sysfreq_sel}
use rtl_tcp_pi.R82xx.Standard.{r82xx_init_array, r82xx_set_tv_standard}

abbrev pub is_r828d : Chip → Bool
is_r828d chip_r828d = true
is_r828d other = false

module _ (usb : Usb) where
  -- The switch between the 'Cable1' and the 'Air-In' input of sticks with an R828D.
  unfoldable pub select_input : ℕ → R82xx (Unit {0})
  select_input freq = do
    let air_cable1_in = if ltb 345000000 freq then 0x00 else 0x60
    cfg ← gets (λ s. s.cfg)
    input ← gets (λ s. s.input)
    if is_r828d cfg.rafael_chip && not (air_cable1_in == input)
        then (do
          modify (λ s. record s { input = air_cable1_in })
          r82xx_write_reg_mask usb 0x05 air_cable1_in 0x60)
        else pure tt

  -- A PLL without lock ends the call early, with the return value 0.
  unfoldable pub r82xx_set_freq : ℕ → R82xx (Unit {0})
  r82xx_set_freq freq = do
    int_freq ← gets (λ s. s.int_freq)
    let lo_freq = (freq + int_freq) % 2 ^ 32
    r82xx_set_mux usb lo_freq
    r82xx_set_pll usb lo_freq
    locked ← gets (λ s. s.has_lock)
    if locked then select_input freq else pure tt

  unfoldable pub write_standby : R82xx (Unit {0})
  write_standby = do
    r82xx_write_reg usb 0x06 0xb1
    r82xx_write_reg usb 0x05 0x03
    r82xx_write_reg usb 0x07 0x3a
    r82xx_write_reg usb 0x08 0x40
    r82xx_write_reg usb 0x09 0xc0
    r82xx_write_reg usb 0x0a 0x36
    r82xx_write_reg usb 0x0c 0x35
    r82xx_write_reg usb 0x0f 0x68
    r82xx_write_reg usb 0x11 0x03
    r82xx_write_reg usb 0x17 0xf4

  -- The last write is not checked: the type is forced even when it fails, and its result returned.
  unfoldable pub r82xx_standby : R82xx (Unit {0})
  r82xx_standby = do
    done ← gets (λ s. s.init_done)
    if not done then pure tt else do
      write_standby
      finally (λ s. record s { type = forced }) (r82xx_write_reg usb 0x19 0x0c)

  -- `init_done` is set whatever the last call returns.
  unfoldable pub finish_init : R82xx (Unit {0})
  finish_init = do
    r82xx_set_tv_standard usb 3 tuner_digital_tv sys_undefined
    finally (λ s. record s { init_done = true }) (r82xx_sysfreq_sel usb 0 tuner_digital_tv sys_dvbt)

  -- The registers are written with no look at the result.
  unfoldable pub r82xx_init : R82xx (Unit {0})
  r82xx_init = do
    modify (λ s. record s { xtal_cap_sel = high_cap_0p })
    ignore (r82xx_write usb 0x05 r82xx_init_array)
    finish_init

  -- `r82xx_xtal_capacitor`
  abbrev pub r82xx_xtal_capacitor : List (ℕ × XtalCap)
  r82xx_xtal_capacitor =
      (0x0b, low_cap_30p)
      ∷ (0x02, low_cap_20p)
      ∷ (0x01, low_cap_10p)
      ∷ (0x00, low_cap_0p)
      ∷ (0x10, high_cap_0p)
      ∷ []

  -- The test that ends the loop of `r82xx_xtal_check`, on the third byte of the status.
  abbrev pub cap_accepted : ℕ → ℕ → Bool
  cap_accepted xtal status =
      let val = bit_and status 0x3f in
      bit_set status 0x40 && (xtal == 16000000 && (ltb 29 val || ltb val 23) || not (val == 0x3f))

  unfoldable pub try_capacitors : List ℕ → List (ℕ × XtalCap) → R82xx XtalCap
  try_capacitors array [] = fail 0
  try_capacitors array ((value, cap) ∷ rest) = do
    r82xx_write_reg_mask usb 0x10 value 0x1b
    status ← r82xx_read usb 0x00 3 array
    cfg ← gets (λ s. s.cfg)
    if cap_accepted cfg.xtal (get_or status 2 0) then pure cap else try_capacitors status rest

  unfoldable pub r82xx_xtal_check : R82xx XtalCap
  r82xx_xtal_check = do
    modify (λ s. record s { regs = r82xx_init_array })
    r82xx_write_reg_mask usb 0x10 0x0b 0x0b
    r82xx_write_reg_mask usb 0x1a 0x00 0x0c
    r82xx_write_reg_mask usb 0x13 0x7f 0x7f
    r82xx_write_reg_mask usb 0x13 0x00 0x40
    stale ← gets (λ s. usb.uninit s.rtl_dev)
    try_capacitors stale r82xx_xtal_capacitor
