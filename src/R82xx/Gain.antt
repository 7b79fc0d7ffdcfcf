-- ===== src/R82xx/Gain.antt =====
-- rtl-sdr/src/tuner_r82xx.c: the gain tables and `r82xx_set_gain`.
pub mod Steps
pub mod Advertised
use rtl_tcp_pi.Common.{
  ℕ, zero, suc, ◌+◌, ◌*◌, ◌/◌, ◌^◌, bit_and, if◌then◌else◌, Bool, List, [], ◌∷◌, ℤ, pos, negsuc,
  ◌+ℤ◌, leb_ℤ, get_or,
}
use rtl_tcp_pi.Usb.{Usb}
use rtl_tcp_pi.Driver.{pure, gets, ◌>>=◌, ◌>>◌}
use rtl_tcp_pi.R82xx.Types.{R82xx}
use rtl_tcp_pi.R82xx.Shadow.{r82xx_write_reg_mask, r82xx_read}

abbrev pub r82xx_lna_gain_steps : List ℤ
r82xx_lna_gain_steps =
    pos 0
    ∷ pos 9
    ∷ pos 13
    ∷ pos 40
    ∷ pos 38
    ∷ pos 13
    ∷ pos 31
    ∷ pos 22
    ∷ pos 26
    ∷ pos 31
    ∷ pos 26
    ∷ pos 14
    ∷ pos 19
    ∷ pos 5
    ∷ pos 35
    ∷ pos 13
    ∷ []

abbrev pub r82xx_mixer_gain_steps : List ℤ
r82xx_mixer_gain_steps =
    pos 0
    ∷ pos 5
    ∷ pos 10
    ∷ pos 10
    ∷ pos 19
    ∷ pos 9
    ∷ pos 10
    ∷ pos 25
    ∷ pos 17
    ∷ pos 10
    ∷ pos 8
    ∷ pos 16
    ∷ pos 13
    ∷ pos 6
    ∷ pos 3
    ∷ negsuc 7
    ∷ []

pub record GainIndex : Type 0 where
  pub total_gain : ℤ
  pub lna_index : ℕ
  pub mix_index : ℕ

-- The `for` loop with `n` rounds left.
unfoldable pub gain_loop : ℕ → ℤ → GainIndex → GainIndex
gain_loop zero gain g = g
gain_loop (suc n) gain g =
    let lna = g.lna_index + 1 in
    let mix = g.mix_index + 1 in
    let with_lna = g.total_gain +ℤ get_or r82xx_lna_gain_steps lna (pos 0) in
    let with_mix = with_lna +ℤ get_or r82xx_mixer_gain_steps mix (pos 0) in
    let rest =
      gain_loop n gain (record { total_gain = with_mix; lna_index = lna; mix_index = mix }) in
    if leb_ℤ gain g.total_gain
    then g
    else if leb_ℤ gain with_lna
    then record g { total_gain = with_lna; lna_index = lna }
    else rest

unfoldable pub gain_index : ℤ → GainIndex
gain_index gain = gain_loop 15 gain (record { total_gain = pos 0; lna_index = 0; mix_index = 0 })

module _ (usb : Usb) where
  unfoldable pub set_manual_gain : ℤ → R82xx (Unit {0})
  set_manual_gain gain = do
    r82xx_write_reg_mask usb 0x05 0x10 0x10
    r82xx_write_reg_mask usb 0x07 0 0x10
    stale ← gets (λ s. usb.uninit s.rtl_dev)
    r82xx_read usb 0x00 4 stale
    r82xx_write_reg_mask usb 0x0c 0x08 0x9f
    r82xx_write_reg_mask usb 0x05 (gain_index gain).lna_index 0x0f
    r82xx_write_reg_mask usb 0x07 (gain_index gain).mix_index 0x0f

  unfoldable pub r82xx_set_gain : Bool → ℤ → R82xx (Unit {0})
  r82xx_set_gain manual gain = if manual then set_manual_gain gain else do
    r82xx_write_reg_mask usb 0x05 0 0x10
    r82xx_write_reg_mask usb 0x07 0x10 0x10
    r82xx_write_reg_mask usb 0x0c 0x0b 0x9f

  -- The gain that the chip reports.
  unfoldable pub r82xx_read_gain : R82xx ℕ
  r82xx_read_gain = do
    stale ← gets (λ s. usb.uninit s.rtl_dev)
    status ← r82xx_read usb 0x00 4 stale
    let byte = get_or status 3 0
    pure (bit_and byte 0x0f * 2 + bit_and byte 0xf0 / 2 ^ 4)
