-- ===== src/R82xx/Sync.antt =====
-- rtl-sdr/src/tuner_r82xx.c: what the tuner was told, against the shadow registers.
pub mod Chunks
pub mod Write
pub mod Read
pub mod Api
pub mod Setup
pub mod Calls
pub mod Mask
pub mod Clock
use rtl_tcp_pi.Common.{
  ℕ, ◌+◌, ◌-◌, ◌==◌, leb, ltb, ◌&&◌, if◌then◌else◌, Option, none, some, List, [], ◌∷◌, ℤ, pos, eq_ℤ,
  length, get_or, ◌≡◌, ◌≤◌, ◌<◌,
}
use rtl_tcp_pi.Usb.{Transfer, wrote, asked, Bus}
use rtl_tcp_pi.R82xx.Types.{Config, Priv, num_regs, reg_shadow_start}

-- The value that an acknowledged I2C write to `addr` stores in register `r`: the first byte is
-- the register's number, and the bytes after it go to consecutive registers.
unfoldable pub stored : ℕ → Transfer → ℕ → Option ℕ
stored addr (wrote index to (first ∷ vals) status) r =
    if index == 0x610
      && to == addr
      && eq_ℤ status (pos (length vals + 1))
      && leb first r
      && ltb r (first + length vals)
    then some (get_or vals (r - first) 0)
    else none
stored addr (wrote index to [] status) r = none
stored addr (asked index from len reply) r = none

-- What register `r` of the tuner at `addr` holds after the traffic: the last value stored.
unfoldable pub chip : ℕ → Bus → ℕ → Option ℕ
chip addr [] r = none
chip addr (t ∷ bus) r = elim (stored addr t r) [ some v ↦ some v | none ↦ chip addr bus r ]

-- What the driver relies on in its configuration: a message has room for a register's number and
-- a byte, it fits the buffer, and the crystal is slower than 32.7675 MHz.
pub record IsUsable (cfg : Config) : Type 0 where
  pub msg_low : 2 ≤ cfg.max_i2c_msg_len
  pub msg_high : cfg.max_i2c_msg_len ≤ num_regs + 1
  pub xtal_low : 0 < cfg.xtal
  pub xtal_high : cfg.xtal < 32767500

-- The limits of the state that no error breaks.
pub record IsWellFormed (s : Priv) : Type 0 where
  pub regs_length : length s.regs ≡ num_regs
  pub regs_bytes : (i : ℕ) → get_or s.regs i 0 < 256
  pub usable : IsUsable s.cfg

-- The shadow registers are those of the tuner.
pub record IsSynced (s : Priv) : Type 0 where
  pub formed : IsWellFormed s
  pub agree :
      (i : ℕ)
      → i < num_regs
      → chip s.cfg.i2c_addr s.rtl_dev (reg_shadow_start + i) ≡ some (get_or s.regs i 0)
