-- ===== src/RtlPower/Tests.antt =====
-- rtl-sdr/src/rtl_power.c: a concrete gain.
use rtl_tcp_pi.Common.{◌≡◌, true, pos}
use rtl_tcp_pi.Librtlsdr.Gains.{rtlsdr_get_tuner_gains, tuner_r820t}
use rtl_tcp_pi.Librtlsdr.E4000.Gains.{member}
use rtl_tcp_pi.RtlPower.{nearest_gain}
use rtl_tcp_pi.RtlPower.Nearest.{NoneNearer, nearest_gain-IsNearest}

nearest_gain-IsNearest_example :
    (member (rtlsdr_get_tuner_gains tuner_r820t) (nearest_gain tuner_r820t (pos 300)) ≡ true)
    × NoneNearer (pos 300) (nearest_gain tuner_r820t (pos 300)) (rtlsdr_get_tuner_gains tuner_r820t)
nearest_gain-IsNearest_example = nearest_gain-IsNearest tuner_r820t (pos 300)
