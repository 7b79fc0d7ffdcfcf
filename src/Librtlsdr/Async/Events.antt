-- ===== src/Librtlsdr/Async/Events.antt =====
-- rtl-sdr/src/librtlsdr.c: what the callbacks of the transfers do to the status.
use rtl_tcp_pi.Common.{
  ◌≡◌, refl, Bool, true, false, Bool-cases, ◌||◌, List, [], ◌∷◌, ◌⊎◌, inl, inr, leb,
}
use rtl_tcp_pi.Librtlsdr.Async.{
  AsyncStatus, inactive, canceling, running, TransferStatus, completed, error, other_status,
  cancelled, no_device, Async, Event, ended, cancel_call, is_running, rtlsdr_cancel_async,
  after_error, libusb_callback, handle, handle_all,
}

cancel_async-canceling :
    (dev : Async)
    → dev.async_status ≡ canceling
    → (rtlsdr_cancel_async dev).1.async_status ≡ canceling
unfolding rtlsdr_cancel_async is_running
cancel_async-canceling dev h = rw h refl

after_error-canceling :
    (gone : Bool) (dev : Async)
    → dev.async_status ≡ canceling
    → (after_error gone dev).async_status ≡ canceling
unfolding after_error
after_error-canceling gone dev h =
    elim (Bool-cases (leb dev.xfer_buf_num dev.xfer_errors || gone)) [
      | inl e ↦ rw e (cancel_async-canceling (record dev { dev_lost = true }) h)
      | inr e ↦ rw e h
    ]

callback-canceling :
    (st : TransferStatus) (cancels : Bool) (dev : Async)
    → dev.async_status ≡ canceling
    → (libusb_callback st cancels dev).async_status ≡ canceling
unfolding libusb_callback
callback-canceling completed true dev h = cancel_async-canceling dev h
callback-canceling completed false dev h = h
callback-canceling cancelled cancels dev h = h
callback-canceling error cancels dev h = after_error-canceling false _ h
callback-canceling other_status cancels dev h = after_error-canceling false dev h
callback-canceling no_device cancels dev h = after_error-canceling true dev h

handle-canceling :
    (e : Event) (dev : Async)
    → dev.async_status ≡ canceling
    → (handle e dev).async_status ≡ canceling
unfolding handle
handle-canceling (ended i st cancels) dev h = callback-canceling st cancels _ h
handle-canceling cancel_call dev h = cancel_async-canceling dev h

pub handle_all-canceling :
    (es : List Event) (dev : Async)
    → dev.async_status ≡ canceling
    → (handle_all es dev).async_status ≡ canceling
unfolding handle_all
handle_all-canceling [] dev h = h
handle_all-canceling (e ∷ es) dev h =
    handle_all-canceling es (handle e dev) (handle-canceling e dev h)

cancel_async-lost :
    (dev : Async) → dev.dev_lost ≡ true → (rtlsdr_cancel_async dev).1.dev_lost ≡ true
unfolding rtlsdr_cancel_async is_running
cancel_async-lost dev h = kept dev.async_status refl
  where
    kept : (st : AsyncStatus) → dev.async_status ≡ st → (rtlsdr_cancel_async dev).1.dev_lost ≡ true
    kept running e = rw e h
    kept canceling e = rw e h
    kept inactive e = rw e h

after_error-lost :
    (gone : Bool) (dev : Async) → dev.dev_lost ≡ true → (after_error gone dev).dev_lost ≡ true
unfolding after_error
after_error-lost gone dev h = elim (Bool-cases (leb dev.xfer_buf_num dev.xfer_errors || gone)) [
  | inl e ↦ rw e (cancel_async-lost (record dev { dev_lost = true }) refl)
  | inr e ↦ rw e h
]

callback-lost :
    (st : TransferStatus) (cancels : Bool) (dev : Async)
    → dev.dev_lost ≡ true
    → (libusb_callback st cancels dev).dev_lost ≡ true
unfolding libusb_callback
callback-lost completed true dev h = cancel_async-lost dev h
callback-lost completed false dev h = h
callback-lost cancelled cancels dev h = h
callback-lost error cancels dev h = after_error-lost false _ h
callback-lost other_status cancels dev h = after_error-lost false dev h
callback-lost no_device cancels dev h = after_error-lost true dev h

handle-lost : (e : Event) (dev : Async) → dev.dev_lost ≡ true → (handle e dev).dev_lost ≡ true
unfolding handle
handle-lost (ended i st cancels) dev h = callback-lost st cancels _ h
handle-lost cancel_call dev h = cancel_async-lost dev h

pub handle_all-lost :
    (es : List Event) (dev : Async) → dev.dev_lost ≡ true → (handle_all es dev).dev_lost ≡ true
unfolding handle_all
handle_all-lost [] dev h = h
handle_all-lost (e ∷ es) dev h = handle_all-lost es (handle e dev) (handle-lost e dev h)

-- A device whose transfers are running or being cancelled.
abbrev pub IsActive : Async → Type 0
IsActive dev = (dev.async_status ≡ running) ⊎ (dev.async_status ≡ canceling)

cancel_async-running :
    (dev : Async)
    → dev.async_status ≡ running
    → (rtlsdr_cancel_async dev).1.async_status ≡ canceling
unfolding rtlsdr_cancel_async is_running
cancel_async-running dev h = rw h refl

cancel_async-active :
    (dev : Async) → IsActive dev → (rtlsdr_cancel_async dev).1.async_status ≡ canceling
cancel_async-active dev (inl h) = cancel_async-running dev h
cancel_async-active dev (inr h) = cancel_async-canceling dev h

after_error-IsActive : (gone : Bool) (dev : Async) → IsActive dev → IsActive (after_error gone dev)
unfolding after_error
after_error-IsActive gone dev h = elim (Bool-cases (leb dev.xfer_buf_num dev.xfer_errors || gone)) [
  | inl e ↦ rw e (inr (cancel_async-active (record dev { dev_lost = true }) h))
  | inr e ↦ rw e h
]

callback-IsActive :
    (st : TransferStatus) (cancels : Bool) (dev : Async)
    → IsActive dev
    → IsActive (libusb_callback st cancels dev)
unfolding libusb_callback
callback-IsActive completed true dev h = inr (cancel_async-active dev h)
callback-IsActive completed false dev h = h
callback-IsActive cancelled cancels dev h = h
callback-IsActive error cancels dev h = after_error-IsActive false _ h
callback-IsActive other_status cancels dev h = after_error-IsActive false dev h
callback-IsActive no_device cancels dev h = after_error-IsActive true dev h

handle-IsActive : (e : Event) (dev : Async) → IsActive dev → IsActive (handle e dev)
unfolding handle
handle-IsActive (ended i st cancels) dev h = callback-IsActive st cancels _ h
handle-IsActive cancel_call dev h = inr (cancel_async-active dev h)

pub handle_all-IsActive :
    (es : List Event) (dev : Async) → IsActive dev → IsActive (handle_all es dev)
unfolding handle_all
handle_all-IsActive [] dev h = h
handle_all-IsActive (e ∷ es) dev h = handle_all-IsActive es (handle e dev) (handle-IsActive e dev h)

-- A call of `rtlsdr_cancel_async` is among the events.
pub data Asked : List Event → Type 0 where
  here : {es : List Event} → Asked (cancel_call ∷ es)
  there : {e : Event} {es : List Event} → Asked es → Asked (e ∷ es)

pub handle_all-Asked :
    (es : List Event) (dev : Async)
    → Asked es
    → IsActive dev
    → (handle_all es dev).async_status ≡ canceling
unfolding handle_all handle
handle_all-Asked [] dev asked h = elim asked [ ]
handle_all-Asked (cancel_call ∷ es) dev here h =
    handle_all-canceling es (rtlsdr_cancel_async dev).1 (cancel_async-active dev h)
handle_all-Asked (e ∷ es) dev (there asked) h =
    handle_all-Asked es (handle e dev) asked (handle-IsActive e dev h)
