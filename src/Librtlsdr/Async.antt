-- ===== src/Librtlsdr/Async.antt =====
-- rtl-sdr/src/librtlsdr.c: the asynchronous transfers. libusb is not part of the repository: what
-- its event loop reports is an argument.
pub mod Events
pub mod Turns
pub mod Ends
pub mod Stuck
mod Tests
use rtl_tcp_pi.Common.{
  ℕ, zero, suc, ◌+◌, ◌%◌, ◌^◌, ltb, leb, ◌==◌, Bool, true, false, not, ◌||◌, ◌&&◌, if◌then◌else◌,
  Option, none, some, List, [], ◌∷◌, ℤ, pos, negsuc, eq_ℤ,
}
use mathlib.Core.Option

-- `enum rtlsdr_async_status`
pub data AsyncStatus : Type 0 where
  inactive canceling running : AsyncStatus

-- `enum libusb_transfer_status`; `other_status` is TIMED_OUT, STALL and OVERFLOW.
pub data TransferStatus : Type 0 where
  completed error other_status cancelled no_device : TransferStatus

-- The fields of `struct rtlsdr_dev` for the transfers. `xfer` holds the statuses of the allocated
-- transfers, and `none` is a null pointer; `xfer_buf` is null when `xfer` is.
pub record Async : Type 0 where
  pub xfer_buf_num : ℕ
  pub xfer_buf_len : ℕ
  pub xfer : Option (List TransferStatus)
  pub async_status : AsyncStatus
  pub dev_lost : Bool
  pub xfer_errors : ℕ

-- What happens inside `libusb_handle_events_timeout`: a transfer ends with a status, where the
-- flag says whether the application's callback calls `rtlsdr_cancel_async`, or another thread
-- makes that call.
pub data Event : Type 0 where
  ended : ℕ → TransferStatus → Bool → Event
  cancel_call : Event

-- What libusb does in one turn of the loop: the events, the result of handling them, the results
-- of `libusb_cancel_transfer` by index, and the events of the last handling.
pub record Round : Type 0 where
  pub events : List Event
  pub rc : ℤ
  pub cancel_rc : ℕ → ℤ
  pub last_events : List Event

unfoldable pub is_inactive : AsyncStatus → Bool
is_inactive inactive = true
is_inactive other = false

unfoldable pub is_canceling : AsyncStatus → Bool
is_canceling canceling = true
is_canceling other = false

unfoldable pub is_running : AsyncStatus → Bool
is_running running = true
is_running other = false

unfoldable pub is_negative : ℤ → Bool
is_negative (pos n) = false
is_negative (negsuc n) = true

-- `rtlsdr_cancel_async`; the result is -2 for false.
unfoldable pub rtlsdr_cancel_async : Async → Bool × Async
rtlsdr_cancel_async dev =
    if is_running dev.async_status
    then (true, record dev { async_status = canceling })
    else (false, dev)

abbrev cancel_if : Bool → Async → Async
cancel_if asked dev = if asked then (rtlsdr_cancel_async dev).1 else dev

-- The end of `_libusb_callback` for a transfer that was neither completed nor cancelled.
unfoldable pub after_error : Bool → Async → Async
after_error gone dev =
    if leb dev.xfer_buf_num dev.xfer_errors || gone
    then (rtlsdr_cancel_async (record dev { dev_lost = true })).1
    else dev

-- `_libusb_callback`; the result of submitting the transfer again is not looked at.
unfoldable pub libusb_callback : TransferStatus → Bool → Async → Async
libusb_callback completed cancels dev = record (cancel_if cancels dev) { xfer_errors = 0 }
libusb_callback cancelled cancels dev = dev
libusb_callback error cancels dev =
    after_error false (record dev { xfer_errors = (dev.xfer_errors + 1) % 2 ^ 32 })
libusb_callback other_status cancels dev = after_error false dev
libusb_callback no_device cancels dev = after_error true dev

abbrev set_at : ℕ → TransferStatus → List TransferStatus → List TransferStatus
set_at i st [] = []
set_at zero st (x ∷ xs) = st ∷ xs
set_at (suc i) st (x ∷ xs) = x ∷ set_at i st xs

unfoldable pub handle : Event → Async → Async
handle (ended i st cancels) dev =
    libusb_callback st cancels (record dev { xfer = Option.map (set_at i st) dev.xfer })
handle cancel_call dev = (rtlsdr_cancel_async dev).1

unfoldable pub handle_all : List Event → Async → Async
handle_all [] dev = dev
handle_all (e ∷ es) dev = handle_all es (handle e dev)

-- The variables of the loop in `rtlsdr_read_async`.
pub record Loop : Type 0 where
  pub dev : Async
  pub r : ℤ
  pub next_status : AsyncStatus

abbrev is_cancelled : TransferStatus → Bool
is_cancelled cancelled = true
is_cancelled other = false

-- The inner loop, from transfer `i` on: `r` and `next_status`.
unfoldable pub cancel_all : (ℕ → ℤ) → ℕ → List TransferStatus → ℤ × AsyncStatus → ℤ × AsyncStatus
cancel_all cancel_rc i [] acc = acc
cancel_all cancel_rc i (st ∷ sts) acc = cancel_all cancel_rc (i + 1) sts (
    if is_cancelled st
    then acc
    else if is_negative (cancel_rc i)
    then (cancel_rc i, acc.1)
    else (cancel_rc i, canceling))

-- The part of the loop's body under `RTLSDR_CANCELING`, and whether the loop is left.
unfoldable pub cancel_transfers : Round → Loop → Option (List TransferStatus) → Bool × Loop
cancel_transfers k l none = (true, record l { next_status = inactive })
cancel_transfers k l (some sts) =
    let (r, next) = cancel_all k.cancel_rc 0 sts (l.r, inactive) in
    if l.dev.dev_lost || is_inactive next
    then (true, record { dev = handle_all k.last_events l.dev; r = r; next_status = next })
    else (false, record { dev = l.dev; r = r; next_status = next })

-- One turn. -10 is `LIBUSB_ERROR_INTERRUPTED`.
unfoldable pub turn : Round → Loop → Bool × Loop
turn k l =
    let l' = record l { dev = handle_all k.events l.dev; r = k.rc } in
    if is_negative k.rc
    then (not (eq_ℤ k.rc (negsuc 9)), l')
    else if is_canceling l'.dev.async_status
    then cancel_transfers k l' l'.dev.xfer
    else (false, l')

-- The loop over what libusb does; `none` is a loop that is still running.
unfoldable pub turns : List Round → Loop → Option Loop
turns [] l = if is_inactive l.dev.async_status then some l else none
turns (k ∷ ks) l =
    let rest = turns ks (turn k l).1 in
    if is_inactive l.dev.async_status
    then some l
    else if (turn k l).0
    then some (turn k l).1
    else rest

-- The end of `rtlsdr_read_async`: the buffers are freed.
unfoldable pub finish : Loop → ℤ × Async
finish l = (l.r, record l.dev { xfer = none; async_status = l.next_status })

abbrev pub replicate : ℕ → List TransferStatus
replicate zero = []
replicate (suc n) = completed ∷ replicate n

-- The first transfers are submitted, `n` of them from `i` on.
unfoldable pub submit_all : (ℕ → ℤ) → ℕ → ℕ → Loop → Loop
submit_all submit_rc i zero l = l
submit_all submit_rc i (suc n) l =
    let rest = submit_all submit_rc (i + 1) n (record l { r = submit_rc i }) in
    if is_negative (submit_rc i)
    then record l { r = submit_rc i; dev = record l.dev { async_status = canceling } }
    else rest

-- What comes before the loop. New transfers have the status 0, `LIBUSB_TRANSFER_COMPLETED`.
unfoldable pub start : (ℕ → ℤ) → ℕ → ℕ → Async → Loop
start submit_rc buf_num buf_len dev =
    let num = if ltb 0 buf_num then buf_num else 32 in
    let len = if ltb 0 buf_len && buf_len % 512 == 0 then buf_len else 262144 in
    let xfer : List TransferStatus = elim dev.xfer [ none ↦ replicate num | some sts ↦ sts ] in
    let dev' = record dev {
      async_status = running;
      xfer_buf_num = num;
      xfer_buf_len = len;
      xfer = some xfer;
    } in
    submit_all submit_rc 0 num (record { dev = dev'; r = pos 0; next_status = inactive })

-- `rtlsdr_read_async`; `none` is a call that has not returned.
unfoldable pub rtlsdr_read_async : (ℕ → ℤ) → List Round → ℕ → ℕ → Async → Option (ℤ × Async)
rtlsdr_read_async submit_rc rounds buf_num buf_len dev =
    if not (is_inactive dev.async_status)
    then some (negsuc 1, dev)
    else Option.map finish (turns rounds (start submit_rc buf_num buf_len dev))
