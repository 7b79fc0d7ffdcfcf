-- ===== src/RtlTcp/Tests.antt =====
-- rtl-sdr/src/rtl_tcp.c: the queue on concrete buffers.
use rtl_tcp_pi.Common.{ℕ, refl, arith, List, [], ◌∷◌, pos}
use rtl_tcp_pi.RtlTcp.{Queue, callbacks}
use rtl_tcp_pi.RtlTcp.Order.{Holds, callbacks-Holds}

abbrev limited_to_one : Queue
limited_to_one = record { ll_buffers = []; llbuf_num = pos 1; global_numq = 0; do_exit = 0 }

abbrev six_buffers : List (List ℕ)
six_buffers = (1 ∷ []) ∷ (2 ∷ []) ∷ (3 ∷ []) ∷ (4 ∷ []) ∷ (5 ∷ []) ∷ (6 ∷ []) ∷ []

callbacks-Holds_example :
    Holds 1
      (omega arith)
      ((3 ∷ []) ∷ (4 ∷ []) ∷ (5 ∷ []) ∷ (6 ∷ []) ∷ [])
      (callbacks six_buffers limited_to_one)
callbacks-Holds_example =
    callbacks-Holds 1 (omega arith) six_buffers limited_to_one
      (record { limit = refl; running = refl; few = omega arith })
