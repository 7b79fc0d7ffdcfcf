-- ===== src/Librtlsdr/Fir/Decode.antt =====
-- rtl-sdr/src/librtlsdr.c: the format of the packed FIR coefficients.
use rtl_tcp_pi.Common.{
  ℕ, ◌+◌, ◌-◌, ◌*◌, ◌/◌, ◌%◌, ◌^◌, ◌<◌, ◌≡◌, refl, ◌∙◌, ap, ap₂, arith, bit_and, bit_or, Bool, true,
  ltb, ◌==◌, if◌then◌else◌, Option, some, List, [], ◌∷◌, ◌++◌, ℤ, pos, negsuc, ◌≤ℤ◌, take, drop,
  length, length-drop, eq_of_==,
}
use rtl_tcp_pi.Common.Bits.{all_below, all_below-at}
use rtl_tcp_pi.Librtlsdr.Fir.{
  low_byte, shift_right, in_range, fir_first, fir_pair, fir_second, both_parts, fir_bytes,
}

-- The number that `bits` in two's complement stand for, where `half` is the weight of the sign.
pub signed : ℕ → ℕ → ℤ
signed half bits = if ltb bits half then pos bits else negsuc (2 * half - 1 - bits)

-- The format of the registers, read back: bytes, and pairs of 12-bit numbers in three bytes.
pub decode_bytes : List ℕ → List ℤ
decode_bytes [] = []
decode_bytes (b ∷ bs) = signed 128 b ∷ decode_bytes bs

pub decode_pairs : List ℕ → List ℤ
decode_pairs [] = []
decode_pairs (b ∷ []) = []
decode_pairs (b ∷ c ∷ []) = []
decode_pairs (b ∷ c ∷ d ∷ bs) =
    signed 2048 (b * 16 + c / 16) ∷ signed 2048 (c % 16 * 256 + d) ∷ decode_pairs bs

abbrev pub IsBetween : ℕ → ℤ → Type 0
IsBetween bound val = (negsuc (bound - 1) ≤ℤ val) × (val ≤ℤ pos (bound - 1))

abbrev pub AllBetween : ℕ → List ℤ → Type 0
AllBetween bound [] = Unit
AllBetween bound (v ∷ vs) = IsBetween bound v × AllBetween bound vs

joins : ℕ → Bool
joins n = bit_or (n / 16 * 16) (n % 16) == n

joins_table : all_below 256 joins ≡ true
unfolding all_below joins
joins_table = refl

joined : (n : ℕ) → n < 256 → bit_or (n / 16 * 16) (n % 16) ≡ n
unfolding joins
joined n h = eq_of_== _ _ (all_below-at 256 joins n joins_table h)

nibble : ℕ → Bool
nibble n = bit_and n 0x0f == n % 16

nibble_table : all_below 256 nibble ≡ true
unfolding all_below nibble
nibble_table = refl

low_nibble : (n : ℕ) → n < 256 → bit_and n 0x0f ≡ n % 16
unfolding nibble
low_nibble n h = eq_of_== _ _ (all_below-at 256 nibble n nibble_table h)

low_byte-lt : (v : ℤ) → low_byte v < 256
unfolding low_byte
low_byte-lt (pos n) = omega arith
low_byte-lt (negsuc n) = omega arith

middle :
    (v0 v1 : ℤ)
    → bit_or (low_byte v0 * 2 ^ 4 % 2 ^ 8) (bit_and (low_byte (shift_right v1 8)) 0x0f)
      ≡ low_byte v0 % 16 * 16 + low_byte (shift_right v1 8) % 16
middle v0 v1 =
    let b = low_byte v0 in
    let c = low_byte (shift_right v1 8) in
    let n = b % 16 * 16 + c % 16 in
    let hi : b * 2 ^ 4 % 2 ^ 8 ≡ n / 16 * 16 = omega arith in
    let lo : bit_and c 0x0f ≡ n % 16 =
      omega (arith, low_nibble c (low_byte-lt (shift_right v1 8))) in
    ap₂ bit_or hi lo ∙ joined n (omega arith)

signed_byte : (v : ℤ) → IsBetween 128 v → signed 128 (low_byte v) ≡ v
unfolding signed low_byte
signed_byte (pos n) h = ground arith
signed_byte (negsuc n) h = ground arith

signed_high :
    (v : ℤ) (rest : ℕ)
    → rest < 16
    → IsBetween 2048 v
    → signed 2048 (low_byte (shift_right v 4) * 16 + (low_byte v % 16 * 16 + rest) / 16) ≡ v
unfolding signed low_byte shift_right
signed_high (pos n) rest r h = ground arith
signed_high (negsuc n) rest r h = ground arith

signed_low :
    (v : ℤ) (rest : ℕ)
    → IsBetween 2048 v
    → signed 2048 ((rest * 16 + low_byte (shift_right v 8) % 16) % 16 * 256 + low_byte v) ≡ v
unfolding signed low_byte shift_right
signed_low (pos n) rest h = ground arith
signed_low (negsuc n) rest h = ground arith

in_range-IsBetween : (bound : ℕ) (v : ℤ) → IsBetween bound v → in_range bound v ≡ true
unfolding in_range
in_range-IsBetween bound v h = ground arith

-- The bytes that a list of coefficients is encoded as, and that they decode to it.
record IsEncoded (decode : List ℕ → List ℤ) (vals : List ℤ) (r : Option (List ℕ)) : Type 0 where
  bytes : List ℕ
  returns : r ≡ some bytes
  decodes : decode bytes ≡ vals

first-IsEncoded :
    (vals : List ℤ) → AllBetween 128 vals → IsEncoded decode_bytes vals (fir_first vals)
unfolding decode_bytes fir_first
first-IsEncoded [] h = record { bytes = []; returns = refl; decodes = refl }
first-IsEncoded (v ∷ vs) h =
    let rest = first-IsEncoded vs h.1 in
    record {
      bytes = low_byte v ∷ rest.bytes;
      returns = rw (in_range-IsBetween 128 v h.0, rest.returns) refl;
      decodes = ap₂ (λ x xs. x ∷ xs) (signed_byte v h.0) rest.decodes;
    }

decode-pair :
    (v0 v1 : ℤ) (bytes : List ℕ)
    → IsBetween 2048 v0
    → IsBetween 2048 v1
    → decode_pairs (fir_pair v0 v1 bytes) ≡ v0 ∷ v1 ∷ decode_pairs bytes
unfolding decode_pairs fir_pair
decode-pair v0 v1 bytes h0 h1 = rw (middle v0 v1) (
    ap₂ (λ x y. x ∷ y ∷ decode_pairs bytes)
      (signed_high v0 (low_byte (shift_right v1 8) % 16) (omega arith) h0)
      (signed_low v1 (low_byte v0 % 16) h1))

second-IsEncoded :
    (half : ℕ) (vals : List ℤ)
    → length vals ≡ 2 * half
    → AllBetween 2048 vals
    → IsEncoded decode_pairs vals (fir_second vals)
unfolding fir_second decode_pairs
second-IsEncoded half [] e h = record { bytes = []; returns = refl; decodes = refl }
second-IsEncoded half (v ∷ []) e h = absurd (omega arith)
second-IsEncoded half (v0 ∷ v1 ∷ vs) e h =
    let rest = second-IsEncoded (half - 1) vs (omega arith) h.1.1 in
    record {
      bytes = fir_pair v0 v1 rest.bytes;
      returns =
          rw (in_range-IsBetween 2048 v0 h.0, in_range-IsBetween 2048 v1 h.1.0, rest.returns) refl;
      decodes = decode-pair v0 v1 rest.bytes h.0 h.1.0 ∙ ap (λ xs. v0 ∷ v1 ∷ xs) rest.decodes;
    }

-- What the 20 bytes of the filter are: 8 coefficients in bytes, and 8 of 12 bits after them.
pub record IsPacked (fir : List ℤ) (r : Option (List ℕ)) : Type 0 where
  pub first : List ℕ
  pub second : List ℕ
  pub returns : r ≡ some (first ++ second)
  pub decodes_first : decode_bytes first ≡ take 8 fir
  pub decodes_second : decode_pairs second ≡ drop 8 fir

-- For 16 coefficients, of which the first 8 are from -128 to 127 and the others from -2048 to 2047,
-- `rtlsdr_set_fir` packs bytes that decode, as signed bytes and as pairs of signed 12-bit numbers, to the coefficients.
pub fir_bytes-IsPacked :
    (fir : List ℤ)
    → length fir ≡ 16
    → AllBetween 128 (take 8 fir)
    → AllBetween 2048 (drop 8 fir)
    → IsPacked fir (fir_bytes fir)
unfolding fir_bytes both_parts
fir_bytes-IsPacked fir e h0 h1 =
    let first = first-IsEncoded (take 8 fir) h0 in
    let second = second-IsEncoded 4 (drop 8 fir) (omega (arith, length-drop 8 fir)) h1 in
    record {
      first = first.bytes;
      second = second.bytes;
      returns = rw (fir_bytes, first.returns, second.returns) refl;
      decodes_first = first.decodes;
      decodes_second = second.decodes;
    }
