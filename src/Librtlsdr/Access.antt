-- ===== src/Librtlsdr/Access.antt =====
-- rtl-sdr/src/librtlsdr.c: register blocks and the I2C bus behind control transfers.
use rtl_tcp_pi.Common.{
  ℕ, ◌*◌, ◌/◌, ◌%◌, ◌-◌, ◌^◌, ◌==◌, bit_and, bit_or, Bool, if◌then◌else◌, List, [], ◌∷◌, ℤ, pos,
  negsuc, eq_ℤ, length, take, get_or,
}
use rtl_tcp_pi.State.{State, pure, ◌>>=◌, ◌>>◌}
use rtl_tcp_pi.Usb.{Bus, Usb, Reply, bytes_of, control_out, control_in}

-- `enum blocks`
pub data Block : Type 0 where
  demodb usbb sysb tunb romb irb iicb : Block

abbrev pub block_code : Block → ℕ
block_code demodb = 0
block_code usbb = 1
block_code sysb = 2
block_code tunb = 3
block_code romb = 4
block_code irb = 5
block_code iicb = 6

-- `enum usb_reg`, `enum sys_reg`: the registers that the library uses
abbrev pub usb_sysctl : ℕ
usb_sysctl = 0x2000

abbrev pub usb_epa_ctl : ℕ
usb_epa_ctl = 0x2148

abbrev pub usb_epa_maxpkt : ℕ
usb_epa_maxpkt = 0x2158

abbrev pub demod_ctl : ℕ
demod_ctl = 0x3000

abbrev pub gpo : ℕ
gpo = 0x3001

abbrev pub gpoe : ℕ
gpoe = 0x3003

abbrev pub gpd : ℕ
gpd = 0x3004

abbrev pub demod_ctl_1 : ℕ
demod_ctl_1 = 0x300b

module _ (usb : Usb) where
  -- `uint8_t len` cuts the length to a byte.
  unfoldable pub rtlsdr_read_array : Block → ℕ → ℕ → State Bus Reply
  rtlsdr_read_array block addr len = control_in usb (block_code block * 256) addr (len % 256)

  unfoldable pub rtlsdr_write_array : Block → ℕ → List ℕ → State Bus ℤ
  rtlsdr_write_array block addr bytes =
      control_out usb (bit_or (block_code block * 256) 0x10) addr (take (length bytes % 256) bytes)

  unfoldable pub rtlsdr_i2c_write_reg : ℕ → ℕ → ℕ → State Bus ℤ
  unfolding rtlsdr_write_array
  rtlsdr_i2c_write_reg i2c_addr reg val = rtlsdr_write_array iicb i2c_addr (reg ∷ val ∷ [])

  -- Neither status is looked at: a failed read gives the initial 0.
  unfoldable pub rtlsdr_i2c_read_reg : ℕ → ℕ → State Bus ℕ
  unfolding rtlsdr_write_array rtlsdr_read_array
  rtlsdr_i2c_read_reg i2c_addr reg = do
    rtlsdr_write_array iicb i2c_addr (reg ∷ [])
    reply ← rtlsdr_read_array iicb i2c_addr 1
    pure (get_or (bytes_of reply) 0 0)

  -- `rtlsdr_i2c_write` and `rtlsdr_i2c_write_fn` on a device that is there.
  unfoldable pub rtlsdr_i2c_write : ℕ → List ℕ → State Bus ℤ
  unfolding rtlsdr_write_array
  rtlsdr_i2c_write i2c_addr buffer = rtlsdr_write_array iicb i2c_addr buffer

  unfoldable pub rtlsdr_i2c_read : ℕ → ℕ → State Bus Reply
  unfolding rtlsdr_read_array
  rtlsdr_i2c_read i2c_addr len = rtlsdr_read_array iicb i2c_addr len

  -- `data[i]` after a transfer into the uninitialised `data[2]`.
  abbrev received_at : Bus → Reply → ℕ → ℕ
  received_at bus reply i = get_or (bytes_of reply) i (get_or (usb.uninit bus) i 0 % 256)

  unfoldable pub rtlsdr_read_reg : Block → ℕ → ℕ → State Bus ℕ
  unfolding control_in
  rtlsdr_read_reg block addr len bus =
      let (reply, bus') = control_in usb (block_code block * 256) addr len bus in
      (bit_or (received_at bus reply 1 * 256) (received_at bus reply 0), bus')

  -- `data[0]` is the low byte alone, or the high byte before it.
  abbrev pub reg_bytes : ℕ → ℕ → List ℕ
  reg_bytes val len = take len ((if len == 1 then val % 256 else val / 256) ∷ (val % 256) ∷ [])

  unfoldable pub rtlsdr_write_reg : Block → ℕ → ℕ → ℕ → State Bus ℤ
  unfolding control_out
  rtlsdr_write_reg block addr val len =
      control_out usb (bit_or (block_code block * 256) 0x10) addr (reg_bytes val len)

  unfoldable pub rtlsdr_demod_read_reg : ℕ → ℕ → ℕ → State Bus ℕ
  unfolding control_in
  rtlsdr_demod_read_reg page addr len bus =
      let (reply, bus') = control_in usb page (bit_or (addr * 256 % 2 ^ 16) 0x20) len bus in
      (bit_or (received_at bus reply 1 * 256) (received_at bus reply 0), bus')

  -- A dummy read follows each write.
  unfoldable pub rtlsdr_demod_write_reg : ℕ → ℕ → ℕ → ℕ → State Bus ℤ
  unfolding control_out rtlsdr_demod_read_reg
  rtlsdr_demod_write_reg page addr val len = do
    r ← control_out usb (bit_or 0x10 page) (bit_or (addr * 256 % 2 ^ 16) 0x20) (reg_bytes val len)
    rtlsdr_demod_read_reg 0x0a 0x01 1
    pure (if eq_ℤ r (pos len) then pos 0 else negsuc 0)

  unfoldable pub rtlsdr_set_i2c_repeater : Bool → State Bus (Unit {0})
  unfolding rtlsdr_demod_write_reg
  rtlsdr_set_i2c_repeater on = do
    rtlsdr_demod_write_reg 1 0x01 (if on then 0x18 else 0x10) 1
    pure tt

  -- `uint8_t r` and `gpio = 1 << gpio`
  unfoldable pub rtlsdr_set_gpio_bit : ℕ → Bool → State Bus (Unit {0})
  unfolding rtlsdr_read_reg rtlsdr_write_reg
  rtlsdr_set_gpio_bit gpio val = do
    read ← rtlsdr_read_reg sysb gpo 1
    let r = read % 256
    let bit = 2 ^ gpio % 256
    rtlsdr_write_reg sysb gpo (if val then bit_or r bit else bit_and r (255 - bit)) 1
    pure tt

  unfoldable pub rtlsdr_set_gpio_output : ℕ → State Bus (Unit {0})
  unfolding rtlsdr_read_reg rtlsdr_write_reg
  rtlsdr_set_gpio_output gpio = do
    let bit = 2 ^ gpio % 256
    r ← rtlsdr_read_reg sysb gpd 1
    rtlsdr_write_reg sysb gpo (bit_and r (0xffff - bit)) 1
    r' ← rtlsdr_read_reg sysb gpoe 1
    rtlsdr_write_reg sysb gpoe (bit_or r' bit) 1
    pure tt
