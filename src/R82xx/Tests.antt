-- ===== src/R82xx/Tests.antt =====
-- rtl-sdr/src/tuner_r82xx.c: the driver run on a concrete tuner.
use rtl_tcp_pi.R82xx.Gain.Steps.{gain_of}
use rtl_tcp_pi.Common.{
  ◌⊎◌, ◌+◌, ℕ, zero, suc, ◌+◌, ◌-◌, ◌*◌, ◌<◌, ◌≡◌, refl, ◌≢◌, arith, false, List, [], ◌∷◌, pos,
  length, get_or, some, leb_of_le, ltb_of_lt, bit_and, ◌/◌,
}
use rtl_tcp_pi.Usb.{Usb, wrote, received, control_out}
use rtl_tcp_pi.Librtlsdr.Access.{rtlsdr_write_array, rtlsdr_i2c_write}
use rtl_tcp_pi.Driver.{ok, fault, pure, gets, modify, call, ◌>>=◌}
use rtl_tcp_pi.Driver.Safe.{Post}
use rtl_tcp_pi.Librtlsdr.Gains.{rtlsdr_get_tuner_gains}
use rtl_tcp_pi.R82xx.Types.{chip_r820t, unset, low_cap_30p, sys_undefined, Config, Priv}
use rtl_tcp_pi.R82xx.Shadow.{
  shadow_store, r82xx_read_cache_reg, chunk_size, write_chunks, r82xx_write, r82xx_write_reg_mask,
}
use rtl_tcp_pi.R82xx.Pll.{u32, find_divider, sdm_loop, pll_nint, pll_fra}
use rtl_tcp_pi.R82xx.Pll.Numbers.{IsTunedTo, pll_accuracy}
use rtl_tcp_pi.R82xx.Standard.{r82xx_init_array}
use rtl_tcp_pi.R82xx.Gain.{gain_index, r82xx_set_gain}
use rtl_tcp_pi.R82xx.Gain.Advertised.{gain_index-exact}
use rtl_tcp_pi.R82xx.Tune.{r82xx_init}
use rtl_tcp_pi.R82xx.Sync.{stored, chip, IsWellFormed, IsSynced}
use rtl_tcp_pi.R82xx.Sync.Api.{
  set_gain, standby, run, begin, then_call, Session-IsSynced, History-returns,
}
use rtl_tcp_pi.R82xx.Sync.Mask.{write_reg_mask-bits}
use rtl_tcp_pi.R82xx.Sync.Setup.{init_array-IsBytes, cleared, init-IsSynced}

-- `n` bytes that reach the driver as 0x40: the PLL has locked.
abbrev locked_bytes : ℕ → List ℕ
locked_bytes zero = []
locked_bytes (suc n) = 0x02 ∷ locked_bytes n

-- A device that acknowledges every write and reports a lock.
abbrev acknowledging : Usb
acknowledging = record {
  out_status = λ bus index addr bytes. pos (length bytes);
  in_reply = λ bus index addr len. received (locked_bytes len);
  uninit = λ bus. [];
}

abbrev config : Config
config = record {
  i2c_addr = 0x34;
  xtal = 28800000;
  rafael_chip = chip_r820t;
  max_i2c_msg_len = 8;
  use_predetect = false;
}

abbrev before_init : Priv
before_init = record {
  cfg = config;
  regs = r82xx_init_array;
  xtal_cap_sel = low_cap_30p;
  int_freq = 0;
  fil_cal_code = 0;
  input = 0;
  has_lock = false;
  init_done = false;
  delsys = sys_undefined;
  type = unset;
  bw = 0;
  rtl_dev = [];
}

before_init-IsWellFormed : IsWellFormed before_init
before_init-IsWellFormed = record {
  regs_length = refl;
  regs_bytes = init_array-IsBytes;
  usable = record {
    msg_low = omega arith;
    msg_high = omega arith;
    xtal_low = omega arith;
    xtal_high = omega arith;
  };
}

abbrev initialised : Priv
initialised = (r82xx_init acknowledging before_init).1

first_write_ok : (r82xx_write acknowledging 0x05 r82xx_init_array (cleared before_init)).0 ≡ ok tt
unfolding r82xx_write write_chunks chunk_size shadow_store ◌>>=◌ modify gets call pure
    rtlsdr_i2c_write rtlsdr_write_array control_out
first_write_ok = refl

init-IsSynced_example :
    Post (λ _. IsSynced) IsWellFormed (r82xx_init acknowledging before_init).0 initialised
init-IsSynced_example =
    init-IsSynced acknowledging before_init before_init-IsWellFormed first_write_ok

-- A state in agreement that a session can start from: the traffic of the first write alone.
abbrev told_init : Priv
told_init = record before_init {
  cfg = record config { max_i2c_msg_len = 31 };
  rtl_dev = wrote 0x610 0x34 (0x05 ∷ r82xx_init_array) (pos 31) ∷ [];
}

told_init-stored :
    (i : ℕ)
    → i < 30
    → stored 0x34 (wrote 0x610 0x34 (0x05 ∷ r82xx_init_array) (pos 31)) (5 + i)
      ≡ some (get_or r82xx_init_array i 0)
unfolding stored
told_init-stored i below =
    let at : 5 + i - 5 ≡ i = omega arith in
    rw (stored, leb_of_le 5 (5 + i) (omega arith), ltb_of_lt (5 + i) 35 (omega arith), at) refl

told_init-agree :
    (i : ℕ) → i < 30 → chip 0x34 told_init.rtl_dev (5 + i) ≡ some (get_or r82xx_init_array i 0)
unfolding chip
told_init-agree i below = rw (chip, told_init-stored i below) refl

told_init-IsSynced : IsSynced told_init
told_init-IsSynced = record {
  formed = record {
    regs_length = refl;
    regs_bytes = init_array-IsBytes;
    usable = record {
      msg_low = omega arith;
      msg_high = omega arith;
      xtal_low = omega arith;
      xtal_high = omega arith;
    };
  };
  agree = told_init-agree;
}

standby_ok : (run acknowledging (set_gain false (pos 0)) told_init).0 ≡ ok tt
unfolding run r82xx_set_gain r82xx_write_reg_mask r82xx_read_cache_reg r82xx_write write_chunks
    chunk_size shadow_store ◌>>=◌ modify gets call pure rtlsdr_i2c_write rtlsdr_write_array
    control_out
standby_ok = refl

Session-IsSynced_example : IsSynced (run acknowledging (set_gain false (pos 0)) told_init).1
Session-IsSynced_example =
    Session-IsSynced acknowledging told_init-IsSynced
      (then_call (set_gain false (pos 0)) begin standby_ok)

-- The traffic of `told_init`, without the gain that is written next.
History-returns_example :
    IsWellFormed (run acknowledging (set_gain false (pos 0)) told_init).1
    × ((run acknowledging standby (run acknowledging (set_gain false (pos 0)) told_init).1).0
        ≢ fault)
History-returns_example =
    History-returns acknowledging standby told_init-IsSynced.formed
      (then_call (set_gain false (pos 0)) begin)

write_reg_mask-bits_example :
    let new = get_or (r82xx_write_reg_mask acknowledging 0x0b 0x60 0xe0 told_init).1.regs 6 0 in
    (bit_and new 0xe0 ≡ bit_and 0x60 0xe0) × (bit_and new 0x1f ≡ bit_and 0x6c 0x1f)
write_reg_mask-bits_example =
    write_reg_mask-bits acknowledging told_init told_init-IsSynced.formed 6 (omega arith) 0x60 0xe0
      (omega arith) (omega arith)

pll_accuracy_example :
    let d = find_divider 7 (u32 (103570000 + 500) / 1000) 2 in
    let nint = pll_nint 28800000 (103570000 * d.mix_div) in
    IsTunedTo (103570000 * d.mix_div) nint (
      sdm_loop 17 (u32 (28800000 + 500) / 1000) 2 0 (pll_fra 28800000 (103570000 * d.mix_div) nint))
pll_accuracy_example = pll_accuracy 103570000 (omega arith) (omega arith)

gain_index-exact_example :
    let g = gain_index (pos 496) in
    (gain_of g.lna_index g.mix_index ≡ pos 496)
    × ((g.lna_index ≡ g.mix_index) ⊎ (g.lna_index ≡ g.mix_index + 1))
unfolding rtlsdr_get_tuner_gains
gain_index-exact_example = gain_index-exact 28 (omega arith)
