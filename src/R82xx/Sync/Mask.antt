-- ===== src/R82xx/Sync/Mask.antt =====
-- rtl-sdr/src/tuner_r82xx.c: the shadow register after a write under a mask.
use rtl_tcp_pi.Common.{
  inl, ℕ, ◌+◌, ◌-◌, ◌%◌, ◌<◌, ◌≡◌, refl, ◌∙◌, arith, [], ◌∷◌, ap, get_or, bit_and, leb_of_le,
  ltb_of_lt,
}
use rtl_tcp_pi.Common.Bits.{merge-inside, merge-outside, merge-lt}
use rtl_tcp_pi.Usb.{Usb}
use rtl_tcp_pi.Driver.{◌>>=◌, pure}
use rtl_tcp_pi.R82xx.Types.{Priv}
use rtl_tcp_pi.R82xx.Shadow.{r82xx_write, r82xx_write_reg_mask, r82xx_read_cache_reg, masked}
use rtl_tcp_pi.R82xx.Sync.{IsWellFormed}
use rtl_tcp_pi.R82xx.Sync.Write.{shadow_store_inside, one_byte, regs-r82xx_write}

module _ (usb : Usb) (s : Priv) (h : IsWellFormed s) (i : ℕ) (below : i < 30) where
  -- The call is a write of the merged byte.
  mask_write :
      (val m : ℕ)
      → val < 256
      → m < 256
      → r82xx_write_reg_mask usb (5 + i) val m s
        ≡ r82xx_write usb (5 + i) (masked (get_or s.regs i 0) val m ∷ []) s
  unfolding r82xx_write_reg_mask r82xx_read_cache_reg pure ◌>>=◌
  mask_write val m hv hm =
      let small : masked (get_or s.regs i 0) val m < 256 =
        merge-lt 8 (get_or s.regs i 0) val m (h.regs_bytes i) hv in
      let reg : (5 + i) % 256 ≡ 5 + i = omega arith in
      let v : val % 256 ≡ val = omega arith in
      let mm : m % 256 ≡ m = omega arith in
      let at : 5 + i - 5 ≡ i = omega arith in
      let b : masked (get_or s.regs i 0) val m % 256 ≡ masked (get_or s.regs i 0) val m =
        omega (arith, small) in
      rw (reg, leb_of_le 5 (5 + i) (omega arith), at, ltb_of_lt i 30 below, v, mm, b) refl

  mask_regs :
      (val m : ℕ)
      → val < 256
      → m < 256
      → get_or (r82xx_write_reg_mask usb (5 + i) val m s).1.regs i 0
        ≡ masked (get_or s.regs i 0) val m
  mask_regs val m hv hm =
      let v = masked (get_or s.regs i 0) val m in
      let small : v < 256 = merge-lt 8 (get_or s.regs i 0) val m (h.regs_bytes i) hv in
      let at : 5 + i - (5 + i) ≡ 0 = omega arith in
      ap (λ r. get_or r.1.regs i 0) (mask_write val m hv hm)
      ∙ ap (λ (regs : _). get_or regs i 0)
          (regs-r82xx_write usb (5 + i) (v ∷ []) s (omega arith) (one_byte usb v small) h)
      ∙ shadow_store_inside (5 + i) (v ∷ []) s.regs i (inl (omega arith)) h.regs_length below
          (omega arith) (omega arith)
      ∙ ap (λ k. get_or (v ∷ []) k 0) at

  -- In a well-formed state, after a write of the byte `val` under the mask `m` to one of the
  -- registers 5 to 34, whatever it returns, the shadow register has the bits of `val` inside the
  -- mask, and its old bits outside it.
  pub write_reg_mask-bits :
      (val m : ℕ)
      → val < 256
      → m < 256
      → let new = get_or (r82xx_write_reg_mask usb (5 + i) val m s).1.regs i 0 in
        (bit_and new m ≡ bit_and val m)
        × (bit_and new (255 - m) ≡ bit_and (get_or s.regs i 0) (255 - m))
  write_reg_mask-bits val m hv hm =
      rw (mask_regs val m hv hm)
        (merge-inside 8 (get_or s.regs i 0) val m hm, merge-outside 8 (get_or s.regs i 0) val m hm)
