-- ===== src/Fc0013/Tests.antt =====
-- rtl-sdr/src/tuner_fc0013.c: the driver at concrete frequencies and gains.
use rtl_tcp_pi.Common.{◌≡◌, arith, inr}
use rtl_tcp_pi.Fc0012.Pll.{no_combination}
use rtl_tcp_pi.Fc0013.Pll.{fc0013_pll}
use rtl_tcp_pi.Fc0013.Pll.Accuracy.{IsTuned, fc0013_pll-IsTuned, fc0013_pll-gap}

fc0013_pll-IsTuned_example : IsTuned 1090000000 (fc0013_pll 14400000 1090000000 6000000)
fc0013_pll-IsTuned_example = fc0013_pll-IsTuned 1090000000 6000000 (inr (omega arith, omega arith))

fc0013_pll-gap_example : fc0013_pll 14400000 949000000 6000000 ≡ no_combination
fc0013_pll-gap_example = fc0013_pll-gap 949000000 6000000 (omega arith) (omega arith)
