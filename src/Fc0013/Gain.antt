-- ===== src/Fc0013/Gain.antt =====
-- rtl-sdr/src/tuner_fc0013.c and rtl-sdr/src/librtlsdr.c: the gains of the library and the table.
use rtl_tcp_pi.Common.{ℕ, ◌<◌, ◌≡◌, refl, Bool, true, ℤ, pos, eq_ℤ, eq_of_eq_ℤ, length, get_or}
use rtl_tcp_pi.Common.Bits.{all_below, all_below-at}
use rtl_tcp_pi.Librtlsdr.Gains.{tuner_fc0013, rtlsdr_get_tuner_gains}
use rtl_tcp_pi.Fc0013.{fc0013_lna_gains, lna_entry}

abbrev advertised : ℕ → ℤ
unfolding rtlsdr_get_tuner_gains
advertised i = get_or (rtlsdr_get_tuner_gains tuner_fc0013) i (pos 0)

is_exact : ℕ → Bool
is_exact i = eq_ℤ (lna_entry fc0013_lna_gains (advertised i)).0 (advertised i)

exact_table : all_below 23 is_exact ≡ true
unfolding all_below is_exact lna_entry rtlsdr_get_tuner_gains
exact_table = refl

-- For each gain that `rtlsdr_get_tuner_gains` lists for the FC0013, `fc0013_set_lna_gain` takes an
-- entry of its table for exactly this gain.
pub lna_entry-exact :
    (i : ℕ)
    → i < length (rtlsdr_get_tuner_gains tuner_fc0013)
    → (lna_entry fc0013_lna_gains (get_or (rtlsdr_get_tuner_gains tuner_fc0013) i (pos 0))).0
      ≡ get_or (rtlsdr_get_tuner_gains tuner_fc0013) i (pos 0)
unfolding is_exact rtlsdr_get_tuner_gains
lna_entry-exact i h =
    eq_of_eq_ℤ (lna_entry fc0013_lna_gains (advertised i)).0 (advertised i)
      (all_below-at 23 is_exact i exact_table h)
