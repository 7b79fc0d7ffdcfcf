-- ===== src/Librtlsdr/Fir/Tests.antt =====
-- rtl-sdr/src/librtlsdr.c: the filter that the library sets by default.
use rtl_tcp_pi.Common.{refl, arith}
use rtl_tcp_pi.Librtlsdr.Fir.{fir_default, fir_bytes}
use rtl_tcp_pi.Librtlsdr.Fir.Decode.{IsPacked, fir_bytes-IsPacked}

fir_bytes-IsPacked_example : IsPacked fir_default (fir_bytes fir_default)
fir_bytes-IsPacked_example = fir_bytes-IsPacked fir_default refl (omega arith) (omega arith)
