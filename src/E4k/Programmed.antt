-- ===== src/E4k/Programmed.antt =====
-- rtl-sdr/src/tuner_e4k.c: the registers that `e4k_tune_params` writes.
use rtl_tcp_pi.Common.{ℕ, ◌+◌, ◌*◌, ◌/◌, ◌%◌, ◌^◌, ◌<◌, ◌≡◌, refl, ap, ap₂, ◌∙◌, arith, bit_and}
use rtl_tcp_pi.Usb.{Usb}
use rtl_tcp_pi.E4k.Types.{
  E4kState, E4kBand, band_code, band_vhf2, band_vhf3, band_uhf, band_l, PllParams,
}
use rtl_tcp_pi.E4k.Registers.{masked_byte, e4k_reg_write, e4k_reg_set_mask}
use rtl_tcp_pi.E4k.Filters.{choose_rf_filter, e4k_rf_filter_set}
use rtl_tcp_pi.E4k.Pll.{bias_of, band_for, e4k_band_set, e4k_tune_params}
use rtl_tcp_pi.E4k.Nearest.{closest_arr_idx-IsNearest}
use rtl_tcp_pi.Common.Masks.{bit_and_ones}
use rtl_tcp_pi.E4k.Chip.{
  RegisterFile, TunerChip, IsTuner, AreBytes, store, store-AreBytes, regs_of, Leaves, Leaves-then,
  reg_write-Leaves, set_mask-Leaves, set_mask-succeeds, set_mask-AreBytes, masked_byte-inside,
}

-- The masked write of a register.
abbrev put_bits : ℕ → ℕ → ℕ → RegisterFile → RegisterFile
put_bits reg mask val regs = store reg (masked_byte (regs reg) mask val) regs

-- The four registers of the PLL.
abbrev pll_written : PllParams → RegisterFile → RegisterFile
pll_written p regs =
    store 0x0b (p.x / 2 ^ 8) (store 0x0a (p.x % 2 ^ 8) (store 0x09 p.z (store 0x0d p.r_idx regs)))

abbrev band_written : E4kBand → RegisterFile → RegisterFile
band_written band regs =
    put_bits 0x07 0x06 (band_code band * 2) (put_bits 0x07 0x06 0 (store 0x78 (bias_of band) regs))

module _ (usb : Usb) (at : ℕ) (t : TunerChip) (chip : IsTuner usb at t) where
  abbrev pub now : E4kState → RegisterFile
  now = regs_of usb at t chip

  band_bits : (band : E4kBand) → bit_and (band_code band * 2) 0x06 ≡ band_code band * 2
  band_bits band_vhf2 = refl
  band_bits band_vhf3 = refl
  band_bits band_uhf = refl
  band_bits band_l = refl

  -- The state after the band was set.
  record SetsBand (band : E4kBand) (e e' : E4kState) : Type 0 where
    regs : now e' ≡ band_written band (now e)
    address : e'.i2c_addr ≡ e.i2c_addr
    vco : e'.vco ≡ e.vco
    stored : e'.band ≡ band

  bias-lt : (band : E4kBand) → bias_of band < 2 ^ 8
  unfolding bias_of
  bias-lt band_vhf2 = omega arith
  bias-lt band_vhf3 = omega arith
  bias-lt band_uhf = omega arith
  bias-lt band_l = omega arith

  band_set-SetsBand :
      (band : E4kBand) (e : E4kState)
      → e.i2c_addr ≡ at
      → AreBytes (now e)
      → SetsBand band e (e4k_band_set usb band e).1
  unfolding e4k_band_set
  band_set-SetsBand band e here bytes =
      let one = (reg_write-Leaves usb at t chip 0x78 (bias_of band) e here).1 in
      let e1 = (e4k_reg_write usb 0x78 (bias_of band) e).1 in
      let bytes1 : AreBytes (now e1) =
        rw one.now (store-AreBytes 0x78 (bias_of band) (now e) (bias-lt band) bytes) in
      let two =
        set_mask-Leaves usb at t chip 0x07 0x06 0 e1 (one.address ∙ here) bytes1 (omega arith)
          refl in
      let e2 = (e4k_reg_set_mask usb 0x07 0x06 0 e1).1 in
      let bytes2 : AreBytes (now e2) =
        rw two.now (set_mask-AreBytes usb at t chip 0x07 0x06 0 (now e1) bytes1 (omega arith)) in
      let here2 = two.address ∙ one.address ∙ here in
      let three =
        set_mask-Leaves usb at t chip 0x07 0x06 (band_code band * 2) e2 here2 bytes2 (omega arith)
          (band_bits band) in
      let all =
        Leaves-then usb at t chip (put_bits 0x07 0x06 (band_code band * 2))
          (Leaves-then usb at t chip (put_bits 0x07 0x06 0) one two) three in
      rw (set_mask-succeeds usb at t chip 0x07 0x06 (band_code band * 2) e2 here2)
        (record { regs = all.now; address = all.address; vco = all.vco; stored = refl })

  -- The state after the parameters `p` were programmed, up to the read of the lock.
  pub record IsProgrammed (p : PllParams) (e' : E4kState) : Type 0 where
    pub synth7 : now e' 0x0d ≡ p.r_idx
    pub synth3 : now e' 0x09 ≡ p.z
    pub synth4_5 : now e' 0x0a + now e' 0x0b * 2 ^ 8 ≡ p.x
    pub bias : now e' 0x78 ≡ bias_of (band_for p.flo)
    pub band_bits_set : bit_and (now e' 0x07) 0x06 ≡ band_code (band_for p.flo) * 2
    pub filter : bit_and (now e' 0x10) 0x0f ≡ choose_rf_filter (band_for p.flo) p.flo
    pub vco : e'.vco ≡ p
    pub band : e'.band ≡ band_for p.flo

  -- Parameters that fit their registers.
  pub record Fits (p : PllParams) : Type 0 where
    pub r_idx : p.r_idx < 2 ^ 8
    pub z : p.z < 2 ^ 8
    pub x : p.x < 2 ^ 16
    pub flo : p.flo < 2 ^ 32

  filter-lt : (band : E4kBand) (flo : ℕ) → flo < 2 ^ 32 → choose_rf_filter band flo < 16
  unfolding choose_rf_filter
  filter-lt band_vhf2 flo lt = omega arith
  filter-lt band_vhf3 flo lt = omega arith
  filter-lt band_uhf flo lt =
      (closest_arr_idx-IsNearest _ flo lt (omega arith) (omega arith)).within
  filter-lt band_l flo lt = (closest_arr_idx-IsNearest _ flo lt (omega arith) (omega arith)).within

  -- The four writes of `e4k_tune_params`.
  abbrev after_writes : PllParams → E4kState → E4kState
  after_writes p e =
      let e1 = (e4k_reg_write usb 0x0d p.r_idx e).1 in
      let e2 = (e4k_reg_write usb 0x09 p.z e1).1 in
      let e3 = (e4k_reg_write usb 0x0a (p.x % 2 ^ 8) e2).1 in
      (e4k_reg_write usb 0x0b (p.x / 2 ^ 8) e3).1

  writes-Leaves :
      (p : PllParams) (e : E4kState)
      → e.i2c_addr ≡ at
      → Leaves usb at t chip e (after_writes p e) (pll_written p (now e))
  writes-Leaves p e here =
      let write = reg_write-Leaves usb at t chip in
      let one = (write 0x0d p.r_idx e here).1 in
      let e1 = (e4k_reg_write usb 0x0d p.r_idx e).1 in
      let two = (write 0x09 p.z e1 (one.address ∙ here)).1 in
      let e2 = (e4k_reg_write usb 0x09 p.z e1).1 in
      let both = Leaves-then usb at t chip (store 0x09 p.z) one two in
      let three = (write 0x0a (p.x % 2 ^ 8) e2 (both.address ∙ here)).1 in
      let e3 = (e4k_reg_write usb 0x0a (p.x % 2 ^ 8) e2).1 in
      let most = Leaves-then usb at t chip (store 0x0a (p.x % 2 ^ 8)) both three in
      let four = (write 0x0b (p.x / 2 ^ 8) e3 (most.address ∙ here)).1 in
      Leaves-then usb at t chip (store 0x0b (p.x / 2 ^ 8)) most four

  written-AreBytes :
      (p : PllParams) (regs : RegisterFile) → Fits p → AreBytes regs → AreBytes (pll_written p regs)
  written-AreBytes p regs fits bytes =
      let fit_x = fits.x in
      store-AreBytes 0x0b (p.x / 2 ^ 8) _ (omega arith) (
        store-AreBytes 0x0a (p.x % 2 ^ 8) _ (omega arith)
          (store-AreBytes 0x09 p.z _ fits.z (store-AreBytes 0x0d p.r_idx regs fits.r_idx bytes)))

  band_written-AreBytes :
      (band : E4kBand) (regs : RegisterFile) → AreBytes regs → AreBytes (band_written band regs)
  band_written-AreBytes band regs bytes =
      set_mask-AreBytes usb at t chip 0x07 0x06 (band_code band * 2) _
        (set_mask-AreBytes usb at t chip 0x07 0x06 0 _
          (store-AreBytes 0x78 (bias_of band) regs (bias-lt band) bytes) (omega arith))
        (code-lt band)
    where
      code-lt : (band : E4kBand) → band_code band * 2 < 2 ^ 8
      code-lt band_vhf2 = omega arith
      code-lt band_vhf3 = omega arith
      code-lt band_uhf = omega arith
      code-lt band_l = omega arith

  pub tune_params-IsProgrammed :
      (p : PllParams) (e : E4kState)
      → e.i2c_addr ≡ at
      → AreBytes (now e)
      → Fits p
      → let e' = (e4k_tune_params usb p e).1 in
        (e'.i2c_addr ≡ at) × AreBytes (now e') × IsProgrammed p e'
  unfolding e4k_tune_params e4k_rf_filter_set
  tune_params-IsProgrammed p e here bytes fits =
      let e4 = record (after_writes p e) { vco = p } in
      let four = writes-Leaves p e here in
      let bytes4 : AreBytes (now e4) = rw four.now (written-AreBytes p (now e) fits bytes) in
      let set = band_set-SetsBand (band_for p.flo) e4 (four.address ∙ here) bytes4 in
      let e5 = (e4k_band_set usb (band_for p.flo) e4).1 in
      let bytes5 : AreBytes (now e5) =
        rw set.regs (band_written-AreBytes (band_for p.flo) (now e4) bytes4) in
      let rf = choose_rf_filter e5.band e5.vco.flo in
      let rf_same : rf ≡ choose_rf_filter (band_for p.flo) p.flo =
        ap₂ (λ b v. choose_rf_filter b v.flo) set.stored set.vco in
      let rf-lt : rf < 16 = omega (arith, rf_same, filter-lt (band_for p.flo) p.flo fits.flo) in
      let low = bit_and_ones 4 rf 0 rf rf-lt (omega arith) in
      let here5 = set.address ∙ four.address ∙ here in
      let last = set_mask-Leaves usb at t chip 0x10 0x0f rf e5 here5 bytes5 (omega arith) low in
      let regs5 = set.regs ∙ ap (band_written (band_for p.flo)) four.now in
      let e6 = (e4k_reg_set_mask usb 0x10 0x0f rf e5).1 in
      let final = put_bits 0x10 0x0f rf (band_written (band_for p.flo) (pll_written p (now e))) in
      let at_reg : (k : ℕ) → now e6 k ≡ final k =
        λ k. ap (λ regs. regs k) (last.now ∙ ap (put_bits 0x10 0x0f rf) regs5) in
      (
        last.address ∙ here5,
        rw last.now (set_mask-AreBytes usb at t chip 0x10 0x0f rf (now e5) bytes5 (omega arith)),
        record {
          synth7 = at_reg 0x0d;
          synth3 = at_reg 0x09;
          synth4_5 = ap₂ (λ a b. a + b * 2 ^ 8) (at_reg 0x0a) (at_reg 0x0b) ∙ omega arith;
          bias = at_reg 0x78;
          band_bits_set =
              ap (λ v. bit_and v 0x06) (at_reg 0x07)
              ∙ masked_byte-inside _ (band_code (band_for p.flo) * 2) 0x06 (omega arith)
              ∙ band_bits (band_for p.flo);
          filter =
              ap (λ v. bit_and v 0x0f) (at_reg 0x10)
              ∙ masked_byte-inside _ rf 0x0f (omega arith)
              ∙ low
              ∙ rf_same;
          vco = last.vco ∙ set.vco;
          band = last.band ∙ set.stored;
        },
      )
