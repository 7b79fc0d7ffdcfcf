-- ===== src/R82xx/Types.antt =====
-- rtl-sdr/include/tuner_r82xx.h: the state of an R820T or R828D tuner.
use rtl_tcp_pi.Common.{ℕ, List, Bool}
use rtl_tcp_pi.Usb.{Bus}
use rtl_tcp_pi.Driver.{Driver}

pub data Chip : Type 0 where
  chip_r820t chip_r620d chip_r828d chip_r828 chip_r828s chip_r820c : Chip

-- `unset` is the 0 of a cleared structure, `forced` the -1 that `r82xx_standby` stores.
pub data TunerType : Type 0 where
  unset tuner_radio tuner_analog_tv tuner_digital_tv forced : TunerType

pub data XtalCap : Type 0 where
  low_cap_30p low_cap_20p low_cap_10p low_cap_0p high_cap_0p : XtalCap

pub data DeliverySystem : Type 0 where
  sys_undefined sys_dvbt sys_dvbt2 sys_isdbt : DeliverySystem

pub record Config : Type 0 where
  pub i2c_addr : ℕ
  pub xtal : ℕ
  pub rafael_chip : Chip
  pub max_i2c_msg_len : ℕ
  pub use_predetect : Bool

-- `struct r82xx_priv` without its scratch buffer `buf` and the unused `pll`. `cfg` is what its
-- pointer refers to, and `rtl_dev` the traffic of the dongle that it belongs to.
pub record Priv : Type 0 where
  pub cfg : Config
  pub regs : List ℕ
  pub xtal_cap_sel : XtalCap
  pub int_freq : ℕ
  pub fil_cal_code : ℕ
  pub input : ℕ
  pub has_lock : Bool
  pub init_done : Bool
  pub delsys : DeliverySystem
  pub type : TunerType
  pub bw : ℕ
  pub rtl_dev : Bus

abbrev pub reg_shadow_start : ℕ
reg_shadow_start = 5

abbrev pub num_regs : ℕ
num_regs = 30

abbrev pub ver_num : ℕ
ver_num = 49

abbrev pub R82xx : Type 0 → Type 0
R82xx A = Driver Priv A
