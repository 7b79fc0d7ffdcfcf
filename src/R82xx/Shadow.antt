-- ===== src/R82xx/Shadow.antt =====
-- rtl-sdr/src/tuner_r82xx.c: I2C transfers and the shadow registers.
pub mod Bitrev
use rtl_tcp_pi.Common.{
  ℕ, zero, suc, ◌+◌, ◌-◌, ◌*◌, ◌/◌, ◌%◌, ◌^◌, bit_and, bit_or, ltb, leb, ◌==◌, if◌then◌else◌, ◌&&◌,
  List, [], ◌∷◌, ◌++◌, map, ℤ, pos, negsuc, eq_ℤ, length, get_or, take, drop, splice,
}
use rtl_tcp_pi.State.{State}
use rtl_tcp_pi.Usb.{Bus, Usb, Reply, received, failed}
use rtl_tcp_pi.Librtlsdr.Access.{rtlsdr_i2c_write, rtlsdr_i2c_read}
use rtl_tcp_pi.Driver.{pure, fail, hang, gets, modify, call, ◌>>=◌, ◌>>◌}
use rtl_tcp_pi.R82xx.Types.{R82xx, reg_shadow_start, num_regs}

-- For a register below `reg_shadow_start` the count is lowered, while the bytes are taken from the
-- start of `val`. The part past the end is left out.
unfoldable pub shadow_store : ℕ → List ℕ → List ℕ → List ℕ
shadow_store reg val regs =
    let r = reg - reg_shadow_start in
    splice regs r (take (num_regs - r) (take (length val - (reg_shadow_start - reg)) val))

-- A call of the I2C functions of librtlsdr on the traffic of the dongle.
abbrev pub on_bus : {A : Type 0} → State Bus A → R82xx A
on_bus = call (λ s. s.rtl_dev) (λ bus s. record s { rtl_dev = bus })

-- `if (rc < 0) return rc; return -1;`
abbrev pub fail_with : {A : Type 0} → ℤ → R82xx A
fail_with (pos n) = fail 0
fail_with (negsuc n) = fail n

-- `lut[16]` of `r82xx_bitrev`
abbrev pub bitrev_lut : List ℕ
bitrev_lut =
    0x0 ∷ 0x8 ∷ 0x4 ∷ 0xc ∷ 0x2 ∷ 0xa ∷ 0x6 ∷ 0xe ∷ 0x1 ∷ 0x9 ∷ 0x5 ∷ 0xd ∷ 0x3 ∷ 0xb ∷ 0x7 ∷ 0xf
    ∷ []

unfoldable pub r82xx_bitrev : ℕ → ℕ
r82xx_bitrev byte =
    bit_or (get_or bitrev_lut (bit_and byte 0xf) 0 * 16 % 256) (get_or bitrev_lut (byte / 16) 0)

unfoldable pub r82xx_read_cache_reg : ℕ → R82xx ℕ
r82xx_read_cache_reg reg s =
    (if leb reg_shadow_start reg && ltb (reg - reg_shadow_start) num_regs
        then pure (get_or s.regs (reg - reg_shadow_start) 0)
        else fail 0)
      s

-- At most `max_msg - 1` bytes of the `len` that are left go into a message.
unfoldable pub chunk_size : ℕ → ℕ → ℕ
chunk_size max_msg len =
    let room = (max_msg + 2 ^ 32 - 1) % 2 ^ 32 in if ltb room len then room else len

-- `(rc & ~bit_mask) | (val & bit_mask)` on bytes.
abbrev pub masked : ℕ → ℕ → ℕ → ℕ
masked old val bit_mask = bit_or (bit_and old (255 - bit_mask)) (bit_and val bit_mask)

-- What the second transfer of `r82xx_read` brings into `val`.
unfoldable pub read_into : ℕ → List ℕ → Reply → R82xx (List ℕ)
read_into len val (received bytes) =
    if length bytes == len then pure (map r82xx_bitrev bytes ++ drop len val) else fail 0
read_into len val (failed n) = fail n

module _ (usb : Usb) where
  -- The `do` loop of `r82xx_write`: `val` is what is left from `val[pos]` on. The loop
  -- ends when nothing is left.
  unfoldable pub write_chunks : ℕ → ℕ → ℕ → ℕ → List ℕ → R82xx (Unit {0})
  write_chunks zero addr max_msg reg val = hang
  write_chunks (suc fuel) addr max_msg reg val =
      let size = chunk_size max_msg (length val) in
      let rest = write_chunks fuel addr max_msg ((reg + size) % 256) (drop size val) in
      do
        rc ← on_bus (rtlsdr_i2c_write usb addr (reg ∷ take size val))
        if eq_ℤ rc (pos (size + 1))
            then (if length (drop size val) == 0 then pure tt else rest)
            else fail_with rc

  -- One round for each byte, and one for an empty write, are enough when a message holds a byte.
  unfoldable pub r82xx_write : ℕ → List ℕ → R82xx (Unit {0})
  r82xx_write reg val = do
    modify (λ s. record s { regs = shadow_store reg val s.regs })
    cfg ← gets (λ s. s.cfg)
    write_chunks (suc (length val)) cfg.i2c_addr cfg.max_i2c_msg_len reg val

  -- The arguments are converted to `uint8_t` at the call.
  unfoldable pub r82xx_write_reg : ℕ → ℕ → R82xx (Unit {0})
  r82xx_write_reg reg val = r82xx_write (reg % 256) (val % 256 ∷ [])

  unfoldable pub r82xx_write_reg_mask : ℕ → ℕ → ℕ → R82xx (Unit {0})
  r82xx_write_reg_mask reg val bit_mask = do
    rc ← r82xx_read_cache_reg (reg % 256)
    r82xx_write (reg % 256) (masked rc (val % 256) (bit_mask % 256) % 256 ∷ [])

  -- The second half of `r82xx_read`, after the register's number was sent with the result `rc`.
  unfoldable pub read_after : ℕ → List ℕ → ℤ → R82xx (List ℕ)
  read_after len val (negsuc n) = fail n
  read_after len val (pos zero) = pure val
  read_after len val (pos (suc n)) = do
    cfg ← gets (λ s. s.cfg)
    reply ← on_bus (rtlsdr_i2c_read usb cfg.i2c_addr len)
    read_into len val reply

  -- `val` is the caller's array before and after. A first transfer of no byte at all is returned
  -- as 0, which the callers take for success.
  unfoldable pub r82xx_read : ℕ → ℕ → List ℕ → R82xx (List ℕ)
  r82xx_read reg len val = do
    cfg ← gets (λ s. s.cfg)
    rc ← on_bus (rtlsdr_i2c_write usb cfg.i2c_addr (reg ∷ []))
    read_after len val rc
