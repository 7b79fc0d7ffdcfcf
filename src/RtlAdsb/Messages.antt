-- ===== src/RtlAdsb/Messages.antt =====
-- rtl-sdr/src/rtl_adsb.c: from marked bits to frames.
use rtl_tcp_pi.Common.{
  ℕ, zero, suc, ◌+◌, ◌-◌, ◌/◌, ◌%◌, ◌^◌, ◌≤◌, ◌≡◌, refl, arith, bit_and, bit_or, ltb, leb, ◌==◌,
  ◌&&◌, if◌then◌else◌, List, [], ◌∷◌, length, get_or, set, drop, length-drop, Bool-cases, inl, inr,
}

abbrev pub long_frame : ℕ
long_frame = 112

abbrev pub short_frame : ℕ
short_frame = 56

-- `adsb_frame` and the variables of the inner loop; `rest` is the buffer from `buf[i]` on.
pub record Collected : Type 0 where
  pub rest : List ℕ
  pub data_i : ℕ
  pub adsb_frame : List ℕ
  pub frame_len : ℕ

abbrev cleared_frame : List ℕ
cleared_frame = 0 ∷ 0 ∷ 0 ∷ 0 ∷ 0 ∷ 0 ∷ 0 ∷ 0 ∷ 0 ∷ 0 ∷ 0 ∷ 0 ∷ 0 ∷ 0 ∷ []

-- The bit `x`, stored from the top of the byte on.
unfoldable pub with_bit : ℕ → ℕ → List ℕ → List ℕ
with_bit x data_i frame =
    if x == 0
    then frame
    else set frame (data_i / 8) (bit_or (get_or frame (data_i / 8) 0) (2 ^ (7 - data_i % 8)))

unfoldable pub length_after : ℕ → List ℕ → ℕ → ℕ
length_after data_i frame frame_len =
    if data_i == 7
    then (if bit_and (get_or frame 0 0) 0x80 == 0 then short_frame else long_frame)
    else frame_len

-- The inner loop. A first byte of 0 ends it with `i` on the byte's last bit.
unfoldable pub collect : List ℕ → ℕ → List ℕ → ℕ → Collected
collect [] data_i frame frame_len = record {
  rest = [];
  data_i = data_i;
  adsb_frame = frame;
  frame_len = frame_len;
}
collect (x ∷ rest) data_i frame frame_len =
    let frame' = with_bit x data_i frame in
    let later = collect rest (data_i + 1) frame' (length_after data_i frame' frame_len) in
    if leb x 1 && ltb data_i frame_len
    then (if data_i == 7 && get_or frame' 0 0 == 0
        then record { rest = x ∷ rest; data_i = data_i; adsb_frame = frame'; frame_len = frame_len }
        else later)
    else record { rest = x ∷ rest; data_i = data_i; adsb_frame = frame; frame_len = frame_len }

-- The outer loop on fuel, with the frames that it hands to `display`.
unfoldable pub messages_loop : ℕ → List ℕ → List (List ℕ × ℕ)
messages_loop zero buf = []
messages_loop (suc fuel) [] = []
messages_loop (suc fuel) (x ∷ rest) =
    let c = collect (x ∷ rest) 0 cleared_frame long_frame in
    let skipped = messages_loop fuel rest in
    let later = messages_loop fuel (drop 1 c.rest) in
    if ltb 1 x
    then skipped
    else if ltb c.data_i (c.frame_len - 1)
    then later
    else (c.adsb_frame, c.frame_len) ∷ later

unfoldable pub messages : List ℕ → List (List ℕ × ℕ)
messages buf = messages_loop (length buf) buf

collect-length :
    (buf : List ℕ) (data_i : ℕ) (frame : List ℕ) (frame_len : ℕ)
    → length (collect buf data_i frame frame_len).rest ≤ length buf
unfolding collect
collect-length [] data_i frame frame_len = omega arith
collect-length (x ∷ rest) data_i frame frame_len =
    let frame' = with_bit x data_i frame in
    let later = collect-length rest (data_i + 1) frame' (length_after data_i frame' frame_len) in
    elim (Bool-cases (leb x 1 && ltb data_i frame_len)) [
      | inr e ↦ rw e (omega arith)
      | inl e ↦ elim (Bool-cases (data_i == 7 && get_or frame' 0 0 == 0)) [
        | inl e' ↦ rw (e, e') (omega arith)
        | inr e' ↦ rw (e, e') (omega (arith, later))
      ]
    ]

any_fuel :
    (n m : ℕ) (buf : List ℕ)
    → length buf ≤ n
    → length buf ≤ m
    → messages_loop n buf ≡ messages_loop m buf
unfolding messages_loop
any_fuel zero zero [] hn hm = refl
any_fuel zero (suc m) [] hn hm = refl
any_fuel (suc n) zero [] hn hm = refl
any_fuel (suc n) (suc m) [] hn hm = refl
any_fuel zero m (x ∷ rest) hn hm = absurd (omega arith)
any_fuel (suc n) zero (x ∷ rest) hn hm = absurd (omega arith)
any_fuel (suc n) (suc m) (x ∷ rest) hn hm =
    let c = collect (x ∷ rest) 0 cleared_frame long_frame in
    let shorter : length (drop 1 c.rest) ≤ length rest =
      omega (arith, collect-length (x ∷ rest) 0 cleared_frame long_frame, length-drop 1 c.rest) in
    rw
      (
        any_fuel n m rest (omega arith) (omega arith),
        any_fuel n m (drop 1 c.rest) (omega (arith, shorter)) (omega (arith, shorter)),
      )
      refl

-- With fuel for each element of the buffer or more, the outer loop finds the frames that
-- `messages` finds.
pub messages-fuel :
    (fuel : ℕ) (buf : List ℕ) → length buf ≤ fuel → messages_loop fuel buf ≡ messages buf
unfolding messages
messages-fuel fuel buf h = any_fuel fuel (length buf) buf h (omega arith)
