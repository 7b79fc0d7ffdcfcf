-- ===== src/RtlTcp.antt =====
-- rtl-sdr/src/rtl_tcp.c: the queue of sample buffers between the reader and the FFT thread.
pub mod Order
mod Tests
use mathlib.Core.Option
use rtl_tcp_pi.Common.{
  ℕ, suc, ◌+◌, ◌==◌, not, ◌&&◌, if◌then◌else◌, Bool, List, [], ◌∷◌, ◌++◌, ℤ, pos, eq_ℤ, ◌+ℤ◌,
  length, Option, some, none, true, false,
}

-- `struct llist` from `ll_buffers` on; an element is a buffer's bytes.
abbrev pub Buffers : Type 0
Buffers = List (List ℕ)

-- The globals that the callback and the FFT thread share under `ll_mutex`.
pub record Queue : Type 0 where
  pub ll_buffers : Buffers
  pub llbuf_num : ℤ
  pub global_numq : ℕ
  pub do_exit : ℕ

-- `llbuf_num && llbuf_num == num_queued-2`, where `num_queued` counts the elements after the first.
unfoldable pub is_full : ℤ → ℕ → Bool
is_full llbuf_num num_queued =
    not (eq_ℤ llbuf_num (pos 0)) && eq_ℤ (llbuf_num +ℤ pos 2) (pos num_queued)

-- `rpt` is linked behind the last element `cur`, after the first one was freed or not. `none` is a
-- `cur` that was freed itself.
unfoldable pub link_last : Bool → List ℕ → List ℕ → Buffers → Option Buffers
link_last true rpt first [] = none
link_last true rpt first (next ∷ rest) = some ((next ∷ rest) ++ (rpt ∷ []))
link_last false rpt first rest = some ((first ∷ rest) ++ (rpt ∷ []))

-- The part of `rtlsdr_callback` under the lock.
unfoldable pub enqueue : List ℕ → ℤ → Buffers → Option Buffers
enqueue rpt llbuf_num [] = some (rpt ∷ [])
enqueue rpt llbuf_num (first ∷ rest) = link_last (is_full llbuf_num (length rest)) rpt first rest

-- `num_queued` is reported and kept only when the queue was not empty.
unfoldable pub next_numq : Buffers → ℕ → ℕ
next_numq [] global_numq = global_numq
next_numq (first ∷ rest) global_numq = length rest

-- The callback does nothing once the program is to exit.
unfoldable pub rtlsdr_callback : List ℕ → Queue → Option Queue
rtlsdr_callback buf q =
    if q.do_exit == 0
    then Option.map
        (λ linked. record q {
          ll_buffers = linked;
          global_numq = next_numq q.ll_buffers q.global_numq;
        })
        (enqueue buf q.llbuf_num q.ll_buffers)
    else some q

-- Calls of the callback in a row.
unfoldable pub callbacks : List (List ℕ) → Queue → Option Queue
callbacks [] q = some q
callbacks (buf ∷ bufs) q = elim (rtlsdr_callback buf q) [
  | none ↦ none
  | some q' ↦ callbacks bufs q'
]

-- What the FFT thread takes under the lock: the whole queue.
unfoldable pub take_all : Queue → Buffers × Queue
take_all q = (q.ll_buffers, record q { ll_buffers = [] })
