-- ===== src/RtlEeprom/Defaults.antt =====
-- rtl-sdr/src/rtl_eeprom.c: the configurations that are chosen by name.
use rtl_tcp_pi.Common.{◌^◌, ◌≤◌, ◌<◌, ◌≡◌, refl, ◌≢◌, arith, true}
use rtl_tcp_pi.RtlEeprom.{
  Memory, Config, Configs, conf_none, realtek, realtek_eeprom, terratec_noxon, terratec_t_black,
  terratec_t_plus, gen_default_conf, realtek_oem, gen_eeprom_from_conf, parse_eeprom_to_conf,
}
use rtl_tcp_pi.RtlEeprom.Strings.{is_string, is_string-IsString}
use rtl_tcp_pi.RtlEeprom.Blocks.{IsValid, string_length, gen_eeprom-parse}

IsValid-if :
    (conf : Config)
    → conf.vendor_id < 2 ^ 16
    → conf.product_id < 2 ^ 16
    → is_string conf.manufacturer ≡ true
    → is_string conf.product ≡ true
    → is_string conf.serial ≡ true
    → IsValid conf
IsValid-if conf v n m p s = record {
  vendor = v;
  product_number = n;
  manufacturer = is_string-IsString conf.manufacturer m;
  product = is_string-IsString conf.product p;
  serial = is_string-IsString conf.serial s;
}

default_conf-IsValid :
    (config : Configs) (conf : Config)
    → config ≢ conf_none
    → IsValid (gen_default_conf config conf) × (string_length (gen_default_conf config conf) ≤ 32)
unfolding gen_default_conf realtek_oem
default_conf-IsValid conf_none conf chosen = absurd (chosen refl)
default_conf-IsValid realtek conf chosen =
    (IsValid-if _ (omega arith) (omega arith) refl refl refl, omega arith)
default_conf-IsValid realtek_eeprom conf chosen =
    (IsValid-if _ (omega arith) (omega arith) refl refl refl, omega arith)
default_conf-IsValid terratec_noxon conf chosen =
    (IsValid-if _ (omega arith) (omega arith) refl refl refl, omega arith)
default_conf-IsValid terratec_t_black conf chosen =
    (IsValid-if _ (omega arith) (omega arith) refl refl refl, omega arith)
default_conf-IsValid terratec_t_plus conf chosen =
    (IsValid-if _ (omega arith) (omega arith) refl refl refl, omega arith)

-- Whatever the configuration was, each of the configurations that can be chosen by name is read
-- back from the block that is generated for it.
pub default_conf-parse :
    (config : Configs) (conf : Config) (dat : Memory)
    → config ≢ conf_none
    → parse_eeprom_to_conf (gen_eeprom_from_conf (gen_default_conf config conf) dat).1
      ≡ gen_default_conf config conf
default_conf-parse config conf dat chosen =
    let (valid, fits) = default_conf-IsValid config conf chosen in
    (gen_eeprom-parse (gen_default_conf config conf) dat valid fits).1
