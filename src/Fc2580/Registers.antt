-- ===== src/Fc2580/Registers.antt =====
-- rtl-sdr/src/tuner_fc2580.c: the registers that are written, with their values.
use rtl_tcp_pi.Common.{
  ℕ, ◌+◌, ◌*◌, ◌/◌, ◌%◌, ◌^◌, ltb, leb, ◌==◌, bit_and, bit_or, if◌then◌else◌, List, [], ◌∷◌, ◌++◌,
}
use rtl_tcp_pi.Fc2580.Pll.{Band, uhf_band, l_band, vhf_band, band_of, fc2580_vco, r_val, fc2580_pll}

-- The registers of `fc2580_set_init` before the AGC mode.
abbrev pub init_registers : List (ℕ × ℕ)
init_registers =
    (0x00, 0x00)
    ∷ (0x12, 0x86)
    ∷ (0x14, 0x5c)
    ∷ (0x16, 0x3c)
    ∷ (0x1f, 0xd2)
    ∷ (0x09, 0xd7)
    ∷ (0x0b, 0xd5)
    ∷ (0x0c, 0x32)
    ∷ (0x0e, 0x43)
    ∷ (0x21, 0x0a)
    ∷ (0x22, 0x82)
    ∷ []

unfoldable pub agc_registers : ℕ → List (ℕ × ℕ)
agc_registers ifagc_mode =
    if ifagc_mode == 1
    then (0x45, 0x10) ∷ (0x4c, 0x00) ∷ []
    else if ifagc_mode == 2
    then (0x45, 0x20) ∷ (0x4c, 0x02) ∷ []
    else []

-- The registers of a filter; the products are of 32 bits.
unfoldable pub filter_registers : ℕ → ℕ → List (ℕ × ℕ)
filter_registers filter_bw freq_xtal =
    let scaled : ℕ → ℕ = λ x. x * freq_xtal % 2 ^ 32 / 1000000 % 2 ^ 8 in
    if filter_bw == 1
    then (0x36, 0x1c) ∷ (0x37, scaled 4151) ∷ (0x39, 0x00) ∷ (0x2e, 0x09) ∷ []
    else if filter_bw == 6
    then (0x36, 0x18) ∷ (0x37, scaled 4400) ∷ (0x39, 0x00) ∷ (0x2e, 0x09) ∷ []
    else if filter_bw == 7
    then (0x36, 0x18) ∷ (0x37, scaled 3910) ∷ (0x39, 0x80) ∷ (0x2e, 0x09) ∷ []
    else if filter_bw == 8
    then (0x36, 0x18) ∷ (0x37, scaled 3300) ∷ (0x39, 0x80) ∷ (0x2e, 0x09) ∷ []
    else []

-- Registers 0x61, 0x62 and 0x67 to 0x6a of the UHF band.
unfoldable pub uhf_filter : ℕ → List (ℕ × ℕ)
uhf_filter f_lo =
    if ltb f_lo 538000
    then (0x61, 0x07)
      ∷ (0x62, 0x06)
      ∷ (0x67, 0x06)
      ∷ (0x68, 0x08)
      ∷ (0x69, 0x10)
      ∷ (0x6a, 0x12)
      ∷ []
    else if ltb f_lo 794000
    then (0x61, 0x03)
      ∷ (0x62, 0x03)
      ∷ (0x67, 0x03)
      ∷ (0x68, 0x05)
      ∷ (0x69, 0x0c)
      ∷ (0x6a, 0x0e)
      ∷ []
    else (0x61, 0x07)
      ∷ (0x62, 0x06)
      ∷ (0x67, 0x07)
      ∷ (0x68, 0x09)
      ∷ (0x69, 0x10)
      ∷ (0x6a, 0x12)
      ∷ []

unfoldable pub band_registers : Band → ℕ → List (ℕ × ℕ)
band_registers uhf_band f_lo =
    ((0x25, 0xf0)
      ∷ (0x27, 0x77)
      ∷ (0x28, 0x53)
      ∷ (0x29, 0x60)
      ∷ (0x30, 0x09)
      ∷ (0x50, 0x8c)
      ∷ (0x53, 0x50)
      ∷ (0x5f, if ltb f_lo 538000 then 0x13 else 0x15)
      ∷ [])
    ++ uhf_filter f_lo
    ++ ((0x63, 0x15)
        ∷ (0x6b, 0x0b)
        ∷ (0x6c, 0x0c)
        ∷ (0x6d, 0x78)
        ∷ (0x6e, 0x32)
        ∷ (0x6f, 0x14)
        ∷ [])
band_registers vhf_band f_lo =
    (0x27, 0x77)
    ∷ (0x28, 0x33)
    ∷ (0x29, 0x40)
    ∷ (0x30, 0x09)
    ∷ (0x50, 0x8c)
    ∷ (0x53, 0x50)
    ∷ (0x5f, 0x0f)
    ∷ (0x61, 0x07)
    ∷ (0x62, 0x00)
    ∷ (0x63, 0x15)
    ∷ (0x67, 0x03)
    ∷ (0x68, 0x05)
    ∷ (0x69, 0x10)
    ∷ (0x6a, 0x12)
    ∷ (0x6b, 0x08)
    ∷ (0x6c, 0x0a)
    ∷ (0x6d, 0x78)
    ∷ (0x6e, 0x32)
    ∷ (0x6f, 0x54)
    ∷ []
band_registers l_band f_lo =
    (0x2b, 0x70)
    ∷ (0x2c, 0x37)
    ∷ (0x2d, 0xe7)
    ∷ (0x30, 0x09)
    ∷ (0x44, 0x20)
    ∷ (0x50, 0x8c)
    ∷ (0x53, 0x50)
    ∷ (0x5f, 0x0f)
    ∷ (0x61, 0x0f)
    ∷ (0x62, 0x00)
    ∷ (0x63, 0x13)
    ∷ (0x67, 0x00)
    ∷ (0x68, 0x02)
    ∷ (0x69, 0x0c)
    ∷ (0x6a, 0x0e)
    ∷ (0x6b, 0x08)
    ∷ (0x6c, 0x0a)
    ∷ (0x6d, 0xa0)
    ∷ (0x6e, 0x50)
    ∷ (0x6f, 0x14)
    ∷ []

-- The filter that is set with a band.
unfoldable pub band_filter : Band → ℕ
band_filter uhf_band = 8
band_filter vhf_band = 7
band_filter l_band = 1

-- `data_0x02`; USE_EXT_CLK is 0.
unfoldable pub vco_byte : Band → ℕ → ℕ
vco_byte band f_vco =
    let byte = if leb 2600000 f_vco then bit_or 0x0e 0x08 else bit_and 0x0e 0xf7 in
    let low = bit_and byte 0x3f in
    elim band [ uhf_band ↦ low | vhf_band ↦ bit_or low 0x80 | l_band ↦ bit_or low 0x40 ]

unfoldable pub r_byte : ℕ → ℕ
r_byte r = if r == 1 then 0x00 else if r == 2 then 0x10 else 0x20

-- The registers after the band's filter.
unfoldable pub pll_registers : ℕ → ℕ → List (ℕ × ℕ)
pll_registers f_lo freq_xtal =
    let f_vco = fc2580_vco f_lo in
    let pll = fc2580_pll f_lo freq_xtal in
    (if leb 28000 freq_xtal then (0x4b, 0x22) ∷ [] else [])
    ++ ((0x02, vco_byte (band_of f_lo) f_vco)
        ∷ (0x18, (r_byte (r_val freq_xtal f_vco) + pll.k_val / 2 ^ 16 % 2 ^ 8) % 2 ^ 8)
        ∷ (0x1a, pll.k_val / 2 ^ 8 % 2 ^ 8)
        ∷ (0x1b, pll.k_val % 2 ^ 8)
        ∷ (0x1c, pll.n_val % 2 ^ 8)
        ∷ [])
    ++ (elim (band_of f_lo) as (λ b. List (ℕ × ℕ)) [
      | uhf_band ↦ (0x2d, if leb f_lo 794000 then 0x9f else 0x8f) ∷ []
      | l_band ↦ []
      | vhf_band ↦ []
    ])
