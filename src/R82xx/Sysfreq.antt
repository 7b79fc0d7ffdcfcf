-- ===== src/R82xx/Sysfreq.antt =====
-- rtl-sdr/src/tuner_r82xx.c: `r82xx_sysfreq_sel`.
use rtl_tcp_pi.Common.{ℕ, ◌==◌, ◌||◌, if◌then◌else◌, Bool, true, false}
use rtl_tcp_pi.Usb.{Usb}
use rtl_tcp_pi.Driver.{pure, gets, modify, ◌>>=◌, ◌>>◌}
use rtl_tcp_pi.R82xx.Types.{R82xx, TunerType, tuner_analog_tv, DeliverySystem, sys_dvbt, sys_isdbt}
use rtl_tcp_pi.R82xx.Shadow.{r82xx_write_reg, r82xx_write_reg_mask}

-- The local variables of the `switch`, by delivery system.
pub record SysfreqValues : Type 0 where
  pub mixer_top : ℕ
  pub lna_top : ℕ
  pub cp_cur : ℕ
  pub div_buf_cur : ℕ
  pub lna_vth_l : ℕ
  pub mixer_vth_l : ℕ
  pub air_cable1_in : ℕ
  pub cable2_in : ℕ
  pub pre_dect : ℕ
  pub lna_discharge : ℕ
  pub filter_cur : ℕ

abbrev default_values : SysfreqValues
default_values = record {
  mixer_top = 0x24;
  lna_top = 0xe5;
  cp_cur = 0x38;
  div_buf_cur = 0x30;
  lna_vth_l = 0x53;
  mixer_vth_l = 0x75;
  air_cable1_in = 0x00;
  cable2_in = 0x00;
  pre_dect = 0x40;
  lna_discharge = 14;
  filter_cur = 0x40;
}

-- `SYS_DVBT2` and the default have the same values.
unfoldable pub sysfreq_values : ℕ → DeliverySystem → SysfreqValues
sysfreq_values freq sys_dvbt =
    if freq == 506000000 || freq == 666000000 || freq == 818000000
    then record default_values { mixer_top = 0x14; cp_cur = 0x28; div_buf_cur = 0x20 }
    else default_values
sysfreq_values freq sys_isdbt = record default_values { lna_vth_l = 0x75 }
sysfreq_values freq other = default_values

unfoldable pub is_analog : TunerType → Bool
is_analog tuner_analog_tv = true
is_analog other = false

module _ (usb : Usb) where
  unfoldable pub set_lna : TunerType → SysfreqValues → R82xx (Unit {0})
  set_lna type v =
      if is_analog type
      then (do
        r82xx_write_reg_mask usb 0x06 0 0x40
        r82xx_write_reg_mask usb 0x1d v.lna_top 0x38
        r82xx_write_reg_mask usb 0x1c v.mixer_top 0x04
        r82xx_write_reg_mask usb 0x1e v.lna_discharge 0x1f
        r82xx_write_reg_mask usb 0x1a 0x00 0x30
        r82xx_write_reg_mask usb 0x10 0x00 0x04)
      else (do
        r82xx_write_reg_mask usb 0x1d 0 0x38
        r82xx_write_reg_mask usb 0x1c 0 0x04
        r82xx_write_reg_mask usb 0x06 0 0x40
        r82xx_write_reg_mask usb 0x1a 0x30 0x30
        r82xx_write_reg_mask usb 0x1d 0x18 0x38
        r82xx_write_reg_mask usb 0x1c v.mixer_top 0x04
        r82xx_write_reg_mask usb 0x1e v.lna_discharge 0x1f
        r82xx_write_reg_mask usb 0x1a 0x20 0x30)

  unfoldable pub r82xx_sysfreq_sel : ℕ → TunerType → DeliverySystem → R82xx (Unit {0})
  r82xx_sysfreq_sel freq type delsys = do
    let v = sysfreq_values freq delsys
    cfg ← gets (λ s. s.cfg)
    if cfg.use_predetect then r82xx_write_reg_mask usb 0x06 v.pre_dect 0x40 else pure tt
    r82xx_write_reg_mask usb 0x1d v.lna_top 0xc7
    r82xx_write_reg_mask usb 0x1c v.mixer_top 0xf8
    r82xx_write_reg usb 0x0d v.lna_vth_l
    r82xx_write_reg usb 0x0e v.mixer_vth_l
    modify (λ s. record s { input = v.air_cable1_in })
    r82xx_write_reg_mask usb 0x05 v.air_cable1_in 0x60
    r82xx_write_reg_mask usb 0x06 v.cable2_in 0x08
    r82xx_write_reg_mask usb 0x11 v.cp_cur 0x38
    r82xx_write_reg_mask usb 0x17 v.div_buf_cur 0x30
    r82xx_write_reg_mask usb 0x0a v.filter_cur 0x60
    set_lna type v
