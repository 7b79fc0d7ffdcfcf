-- ===== src/R82xx/Standard.antt =====
-- rtl-sdr/src/tuner_r82xx.c: `r82xx_set_tv_standard` and the initial register values.
use rtl_tcp_pi.Common.{
  ℕ, ◌*◌, ◌==◌, leb, not, ◌&&◌, bit_and, bit_or, if◌then◌else◌, Bool, true, false, List, [], ◌∷◌,
  get_or,
}
use rtl_tcp_pi.Usb.{Usb}
use rtl_tcp_pi.Driver.{pure, gets, modify, ◌>>=◌, ◌>>◌}
use rtl_tcp_pi.R82xx.Types.{R82xx, TunerType, DeliverySystem, sys_isdbt, ver_num}
use rtl_tcp_pi.R82xx.Shadow.{r82xx_write_reg_mask, r82xx_read}
use rtl_tcp_pi.R82xx.Pll.{r82xx_set_pll}
use rtl_tcp_pi.R82xx.Sysfreq.{is_analog}

-- The last three of the `NUM_REGS` elements have no initializer, and are 0.
abbrev pub r82xx_init_array : List ℕ
r82xx_init_array =
    0x83 ∷ 0x32 ∷ 0x75 ∷ 0xc0 ∷ 0x40 ∷ 0xd6 ∷ 0x6c ∷ 0xf5 ∷ 0x63 ∷ 0x75 ∷ 0x68 ∷ 0x6c ∷ 0x83 ∷ 0x80
    ∷ 0x00 ∷ 0x0f ∷ 0x00 ∷ 0xc0 ∷ 0x30 ∷ 0x48 ∷ 0xcc ∷ 0x60 ∷ 0x00 ∷ 0x54 ∷ 0xae ∷ 0x4a ∷ 0xc0
    ∷ 0x00 ∷ 0x00 ∷ 0x00 ∷ []

pub record StandardValues : Type 0 where
  pub if_khz : ℕ
  pub filt_cal_lo : ℕ
  pub filt_gain : ℕ
  pub img_r : ℕ
  pub filt_q : ℕ
  pub hp_cor : ℕ
  pub ext_enable : ℕ
  pub loop_through : ℕ
  pub lt_att : ℕ
  pub flt_ext_widest : ℕ
  pub polyfil_cur : ℕ

abbrev values : ℕ → ℕ → ℕ → ℕ → StandardValues
values khz lo cor ext = record {
  if_khz = khz;
  filt_cal_lo = lo;
  filt_gain = 0x10;
  img_r = 0x00;
  filt_q = 0x10;
  hp_cor = cor;
  ext_enable = ext;
  loop_through = 0x00;
  lt_att = 0x00;
  flt_ext_widest = 0x00;
  polyfil_cur = 0x60;
}

-- The values of the delivery systems other than ISDB-T, by bandwidth.
abbrev bandwidth_values : ℕ → StandardValues
bandwidth_values bw =
    if leb bw 6
    then values 3570 56000 0x6b 0x60
    else if bw == 7
    then values 4570 63000 0x2a 0x60
    else values 4570 68500 0x0b 0x60

unfoldable pub standard_values : ℕ → DeliverySystem → StandardValues
standard_values bw sys_isdbt = values 4063 59000 0x6a 0x40
standard_values bw other = bandwidth_values bw

module _ (usb : Usb) where
  -- What a round of the calibration says: the PLL has no lock, or the code is good, or not.
  pub data Round : Type 0 where
    unlocked calibrated again : Round

  -- The trigger of a round whose PLL has locked, and the look at the code.
  unfoldable pub read_calibration : R82xx Round
  read_calibration = do
    r82xx_write_reg_mask usb 0x0b 0x10 0x10
    r82xx_write_reg_mask usb 0x0b 0x00 0x10
    r82xx_write_reg_mask usb 0x0f 0x00 0x04
    stale ← gets (λ s. usb.uninit s.rtl_dev)
    status ← r82xx_read usb 0x00 5 stale
    let code = bit_and (get_or status 4 0) 0x0f
    modify (λ s. record s { fil_cal_code = code })
    pure (if not (code == 0) && not (code == 0x0f) then calibrated else again)

  unfoldable pub calibration_round : StandardValues → R82xx Round
  calibration_round v = do
    r82xx_write_reg_mask usb 0x0b v.hp_cor 0x60
    r82xx_write_reg_mask usb 0x0f 0x04 0x04
    r82xx_write_reg_mask usb 0x10 0x00 0x03
    r82xx_set_pll usb (v.filt_cal_lo * 1000)
    locked ← gets (λ s. s.has_lock)
    if locked then read_calibration else pure unlocked

  abbrev is_unlocked : Round → Bool
  is_unlocked unlocked = true
  is_unlocked other = false

  abbrev is_again : Round → Bool
  is_again again = true
  is_again other = false

  -- The `for` loop of at most two rounds.
  unfoldable pub calibrate : StandardValues → R82xx Round
  calibrate v = do
    first ← calibration_round v
    if is_again first then calibration_round v else pure first

  unfoldable pub write_standard : StandardValues → R82xx (Unit {0})
  write_standard v = do
    modify (λ s. record s { fil_cal_code = if s.fil_cal_code == 0x0f then 0 else s.fil_cal_code })
    code ← gets (λ s. s.fil_cal_code)
    r82xx_write_reg_mask usb 0x0a (bit_or v.filt_q code) 0x1f
    r82xx_write_reg_mask usb 0x0b v.hp_cor 0xef
    r82xx_write_reg_mask usb 0x07 v.img_r 0x80
    r82xx_write_reg_mask usb 0x06 v.filt_gain 0x30
    r82xx_write_reg_mask usb 0x1e v.ext_enable 0x60
    r82xx_write_reg_mask usb 0x05 v.loop_through 0x80
    r82xx_write_reg_mask usb 0x1f v.lt_att 0x80
    r82xx_write_reg_mask usb 0x0f v.flt_ext_widest 0x80
    r82xx_write_reg_mask usb 0x19 v.polyfil_cur 0x60

  -- A calibration without lock ends the call with the return value 0.
  unfoldable pub r82xx_set_tv_standard : ℕ → TunerType → DeliverySystem → R82xx (Unit {0})
  r82xx_set_tv_standard bw type delsys = do
    let v = standard_values bw delsys
    modify (λ s. record s { regs = r82xx_init_array })
    r82xx_write_reg_mask usb 0x0c 0x00 0x0f
    r82xx_write_reg_mask usb 0x13 ver_num 0x3f
    if is_analog type then pure tt else r82xx_write_reg_mask usb 0x1d 0x00 0x38
    modify (λ s. record s { int_freq = v.if_khz * 1000 })
    last ← calibrate v
    if is_unlocked last
        then pure tt
        else do write_standard v; modify (λ s. record s { delsys = delsys; type = type; bw = bw })
