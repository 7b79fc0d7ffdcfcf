-- ===== src/Librtlsdr/Fir.antt =====
-- rtl-sdr/src/librtlsdr.c: the FIR coefficients of the demodulator.
pub mod Decode
pub mod Refuse
mod Tests
use rtl_tcp_pi.Common.{
  ℕ, ◌+◌, ◌-◌, ◌*◌, ◌/◌, ◌%◌, ◌^◌, ◌&&◌, bit_and, bit_or, Bool, if◌then◌else◌, Option, none, some,
  List, [], ◌∷◌, ◌++◌, ℤ, pos, negsuc, eq_ℤ, leb_ℤ, take, drop,
}
use rtl_tcp_pi.State.{State, pure, ◌>>=◌}
use rtl_tcp_pi.Usb.{Bus, Usb}
use rtl_tcp_pi.Librtlsdr.Access.{rtlsdr_demod_write_reg}

-- The low 8 bits of an `int`.
unfoldable pub low_byte : ℤ → ℕ
low_byte (pos n) = n % 2 ^ 8
low_byte (negsuc n) = 255 - n % 2 ^ 8

-- `val >> k` of an `int` keeps the sign.
unfoldable pub shift_right : ℤ → ℕ → ℤ
shift_right (pos n) k = pos (n / 2 ^ k)
shift_right (negsuc n) k = negsuc (n / 2 ^ k)

-- `!(val < -bound || val > bound - 1)`
unfoldable pub in_range : ℕ → ℤ → Bool
in_range bound val = leb_ℤ (negsuc (bound - 1)) val && leb_ℤ val (pos (bound - 1))

-- The first loop: a byte for each coefficient. `none` is the early return of -1.
unfoldable pub fir_first : List ℤ → Option (List ℕ)
fir_first [] = some []
fir_first (val ∷ vals) =
    let rest = fir_first vals in
    if in_range 128 val
    then elim rest [ none ↦ none | some bytes ↦ some (low_byte val ∷ bytes) ]
    else none

-- The three bytes of two coefficients.
unfoldable pub fir_pair : ℤ → ℤ → List ℕ → List ℕ
fir_pair val0 val1 bytes =
    low_byte (shift_right val0 4)
    ∷ bit_or (low_byte val0 * 2 ^ 4 % 2 ^ 8) (bit_and (low_byte (shift_right val1 8)) 0x0f)
    ∷ low_byte val1
    ∷ bytes

-- The second loop: three bytes for two coefficients. There are 8 of them, so that none is left over.
unfoldable pub fir_second : List ℤ → Option (List ℕ)
fir_second [] = some []
fir_second (val0 ∷ []) = none
fir_second (val0 ∷ val1 ∷ vals) =
    let rest = fir_second vals in
    if in_range 2048 val0 && in_range 2048 val1
    then elim rest [ none ↦ none | some bytes ↦ some (fir_pair val0 val1 bytes) ]
    else none

-- The results of the two loops; the first early return wins.
unfoldable pub both_parts : Option (List ℕ) → Option (List ℕ) → Option (List ℕ)
both_parts none second = none
both_parts (some first) none = none
both_parts (some first) (some second) = some (first ++ second)

-- `fir[20]` of the 16 coefficients `dev->fir`.
unfoldable pub fir_bytes : List ℤ → Option (List ℕ)
fir_bytes fir = both_parts (fir_first (take 8 fir)) (fir_second (drop 8 fir))

module _ (usb : Usb) where
  unfoldable pub write_fir : ℕ → List ℕ → State Bus ℤ
  write_fir addr [] = pure (pos 0)
  write_fir addr (byte ∷ bytes) = do
    r ← rtlsdr_demod_write_reg usb 1 addr byte 1
    if eq_ℤ r (pos 0) then write_fir (addr + 1) bytes else pure (negsuc 0)

  unfoldable pub rtlsdr_set_fir : List ℤ → State Bus ℤ
  rtlsdr_set_fir fir = elim (fir_bytes fir) [
    | none ↦ pure (negsuc 0)
    | some bytes ↦ write_fir 0x1c bytes
  ]

-- `fir_default`
abbrev pub fir_default : List ℤ
fir_default =
    negsuc 53
    ∷ negsuc 35
    ∷ negsuc 40
    ∷ negsuc 39
    ∷ negsuc 31
    ∷ negsuc 13
    ∷ pos 14
    ∷ pos 53
    ∷ pos 101
    ∷ pos 156
    ∷ pos 215
    ∷ pos 273
    ∷ pos 327
    ∷ pos 372
    ∷ pos 404
    ∷ pos 421
    ∷ []
