-- ===== src/Fc0012/Tests.antt =====
-- rtl-sdr/src/tuner_fc0012.c: the driver at a concrete frequency.
use rtl_tcp_pi.Common.{arith}
use rtl_tcp_pi.Fc0012.Pll.{fc0012_pll}
use rtl_tcp_pi.Fc0012.Pll.Accuracy.{IsTuned, fc0012_pll-IsTuned}

fc0012_pll-IsTuned_example : IsTuned 100000000 (fc0012_pll 14400000 100000000 6000000)
fc0012_pll-IsTuned_example = fc0012_pll-IsTuned 100000000 6000000 (omega arith) (omega arith)
