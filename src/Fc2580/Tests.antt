-- ===== src/Fc2580/Tests.antt =====
-- rtl-sdr/src/tuner_fc2580.c: the numbers for a concrete frequency.
use rtl_tcp_pi.Common.{arith}
use rtl_tcp_pi.Fc2580.Pll.{fc2580_vco, fc2580_pll, IsExact, fc2580_pll-IsExact}

fc2580_pll-IsExact_example : IsExact (fc2580_vco 97300) (fc2580_pll 97300 16384)
fc2580_pll-IsExact_example = fc2580_pll-IsExact 97300 (omega arith)
