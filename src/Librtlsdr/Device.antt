-- ===== src/Librtlsdr/Device.antt =====
-- rtl-sdr/src/librtlsdr.c: the device structure, the tuner interface, and return codes.
use rtl_tcp_pi.Common.{ℕ, ◌-◌, bit_and, bit_or, Bool, Option, none, some, List, ℤ, pos, negsuc}
use rtl_tcp_pi.State.{State}
use rtl_tcp_pi.Usb.{Bus, Usb}
use rtl_tcp_pi.Librtlsdr.Access.{rtlsdr_set_i2c_repeater, rtlsdr_demod_write_reg}
use rtl_tcp_pi.Librtlsdr.Gains.{Tuner}
use rtl_tcp_pi.Driver.{Driver, Outcome, ok, err, fault, call, pure, ◌>>=◌, ◌>>◌}
use rtl_tcp_pi.R82xx.Types.{Priv}
use rtl_tcp_pi.E4k.Types.{E4kState}

-- `struct rtlsdr_dev` without the asynchronous transfers. `bus` is the traffic of `devh`, and what
-- `r82xx_p` points to is in it: `r82xx_p.cfg` is `r82xx_c`.
pub record Device : Type 0 where
  pub bus : Bus
  pub rate : ℕ
  pub rtl_xtal : ℕ
  pub fir : List ℤ
  pub direct_sampling : ℕ
  pub tuner_type : Tuner
  pub tun_xtal : ℕ
  pub freq : ℕ
  pub offs_freq : ℕ
  pub corr : ℤ
  pub gain : ℤ
  pub e4k_s : E4kState
  pub r82xx_p : Priv

-- A call on a device: `ok r` is the return value `r`, negative ones included.
abbrev pub Dev : Type 0 → Type 0
Dev A = Driver Device A

-- `rtlsdr_tuner_iface_t`; `none` is a null pointer.
pub record TunerIface : Type 0 where
  pub init : Option (Dev ℤ)
  pub exit : Option (Dev ℤ)
  pub set_freq : Option (ℕ → Dev ℤ)
  pub set_bw : Option (ℕ → Dev ℤ)
  pub set_gain : Option (ℤ → Dev ℤ)
  pub set_if_gain : Option (ℤ → ℤ → Dev ℤ)
  pub set_gain_mode : Option (Bool → Dev ℤ)

-- The conversion that `APPLY_PPM_CORR` makes in floating point, of a frequency and a correction.
abbrev pub PpmCorr : Type 0
PpmCorr = ℕ → ℤ → ℕ

-- `a | b` on `int`.
unfoldable pub or_code : ℤ → ℤ → ℤ
or_code (pos a) (pos b) = pos (bit_or a b)
or_code (pos a) (negsuc b) = negsuc (b - bit_and b a)
or_code (negsuc a) (pos b) = negsuc (a - bit_and a b)
or_code (negsuc a) (negsuc b) = negsuc (bit_and a b)

-- `r |= f(...)`
abbrev pub or_with : ℤ → Dev ℤ → Dev ℤ
or_with r m = do r' ← m; pure (or_code r r')

-- A driver's call seen from its caller: the outcome is the return value.
unfoldable pub code_of : {A : Type 0} → Outcome A → Outcome ℤ
code_of (ok a) = ok (pos 0)
code_of (err n) = ok (negsuc n)
code_of fault = fault

abbrev pub on_bus : {A : Type 0} → State Bus A → Dev A
on_bus = call (λ d. d.bus) (λ bus d. record d { bus = bus })

module _ (usb : Usb) where
  unfoldable pub demod_write : ℕ → ℕ → ℕ → ℕ → Dev ℤ
  demod_write page addr val len = on_bus (rtlsdr_demod_write_reg usb page addr val len)

  -- A call of the tuner, if there is one, between switching the I2C repeater on and off.
  unfoldable pub repeated : Option (Dev ℤ) → ℤ → Dev ℤ
  repeated none r = pure r
  repeated (some m) r = do
    on_bus (rtlsdr_set_i2c_repeater usb Bool.true)
    r' ← m
    on_bus (rtlsdr_set_i2c_repeater usb Bool.false)
    pure r'
