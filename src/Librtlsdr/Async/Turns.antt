-- ===== src/Librtlsdr/Async/Turns.antt =====
-- rtl-sdr/src/librtlsdr.c: one turn of the loop in `rtlsdr_read_async`.
use rtl_tcp_pi.Common.{
  ℕ, ◌+◌, ◌≡◌, refl, ◌∙◌, ap, Bool, true, false, Bool-cases, Option, none, some, List, [], ◌∷◌, ℤ,
  ◌⊎◌, inl, inr, if◌then◌else◌,
}
use rtl_tcp_pi.Librtlsdr.Async.{
  AsyncStatus, inactive, canceling, running, TransferStatus, cancelled, Async, Round, Loop,
  is_inactive, is_canceling, is_negative, handle_all, cancel_all, cancel_transfers, turn,
}
use rtl_tcp_pi.Librtlsdr.Async.Events.{
  handle_all-canceling, handle_all-lost, IsActive, handle_all-IsActive,
}

-- A turn in which the events are handled without an error.
abbrev pub IsQuiet : Round → Type 0
IsQuiet k = is_negative k.rc ≡ false

-- No transfer is in progress any more: libusb refuses to cancel one.
abbrev pub IsOver : Round → Type 0
IsOver k = (i : ℕ) → is_negative (k.cancel_rc i) ≡ true

cancel_all-over :
    (cancel_rc : ℕ → ℤ) (i : ℕ) (sts : List TransferStatus) (r : ℤ)
    → ((i : ℕ) → is_negative (cancel_rc i) ≡ true)
    → (cancel_all cancel_rc i sts (r, inactive)).1 ≡ inactive
unfolding cancel_all
cancel_all-over cancel_rc i [] r h = refl
cancel_all-over cancel_rc i (cancelled ∷ sts) r h = cancel_all-over cancel_rc (i + 1) sts r h
cancel_all-over cancel_rc i (other ∷ sts) r h =
    ap
      (λ b.
        (cancel_all cancel_rc (i + 1) sts
          (if b then (cancel_rc i, inactive) else (cancel_rc i, canceling))).1)
      (h i)
    ∙ cancel_all-over cancel_rc (i + 1) sts (cancel_rc i) h

-- Where the loop may be left: the next status is INACTIVE, or the device is lost.
abbrev pub IsSettled : Loop → Type 0
IsSettled l = (l.next_status ≡ inactive) ⊎ (l.dev.dev_lost ≡ true)

-- A turn leaves the loop in a settled state, or the loop goes on with `P`.
abbrev pub Goes : (Async → Type 0) → Bool × Loop → Type 0
Goes P (true, l) = IsSettled l
Goes P (false, l) = P l.dev

abbrev pub IsCanceling : Async → Type 0
IsCanceling dev = dev.async_status ≡ canceling

inactive-settled : (st : AsyncStatus) → is_inactive st ≡ true → st ≡ inactive
unfolding is_inactive
inactive-settled inactive h = refl
inactive-settled canceling h = cc
inactive-settled running h = cc

cancel_transfers-Cancelled :
    (k : Round) (l : Loop) (xfer : Option (List TransferStatus))
    → l.dev.async_status ≡ canceling
    → Goes IsCanceling (cancel_transfers k l xfer)
unfolding cancel_transfers
cancel_transfers-Cancelled k l none h = inl refl
cancel_transfers-Cancelled k l (some sts) h =
    let next = (cancel_all k.cancel_rc 0 sts (l.r, inactive)).1 in
    elim (Bool-cases l.dev.dev_lost) [
      | inl lost ↦ simp lost (inr (handle_all-lost k.last_events l.dev lost))
      | inr here ↦ elim (Bool-cases (is_inactive next)) [
        | inl e ↦ rw (here, e) (inl (inactive-settled next e))
        | inr e ↦ rw (here, e) h
      ]
    ]

pub turn-Cancelled :
    (k : Round) (l : Loop)
    → IsQuiet k
    → (handle_all k.events l.dev).async_status ≡ canceling
    → Goes IsCanceling (turn k l)
unfolding turn is_canceling
turn-Cancelled k l quiet h' =
    let dev = handle_all k.events l.dev in
    let on : is_canceling dev.async_status ≡ true = rw h' refl in
    rw (quiet, on) (cancel_transfers-Cancelled k (record l { dev = dev; r = k.rc }) dev.xfer h')

cancel_transfers-over :
    (k : Round) (l : Loop) (xfer : Option (List TransferStatus))
    → IsOver k
    → (cancel_transfers k l xfer).0 ≡ true
unfolding cancel_transfers is_inactive
cancel_transfers-over k l none over = refl
cancel_transfers-over k l (some sts) over = elim (Bool-cases l.dev.dev_lost) [
  | inl lost ↦ rw lost refl
  | inr here ↦ rw (here, cancel_all-over k.cancel_rc 0 sts l.r over) refl
]

pub turn-over :
    (k : Round) (l : Loop)
    → IsQuiet k
    → IsOver k
    → l.dev.async_status ≡ canceling
    → (turn k l).0 ≡ true
unfolding turn is_canceling
turn-over k l quiet over h =
    let dev = handle_all k.events l.dev in
    let on : is_canceling dev.async_status ≡ true =
      rw (handle_all-canceling k.events l.dev h) refl in
    rw (quiet, on) (cancel_transfers-over k (record l { dev = dev; r = k.rc }) dev.xfer over)

canceling-Active : (t : Bool × Loop) → Goes IsCanceling t → Goes IsActive t
canceling-Active (true, l) h = h
canceling-Active (false, l) h = inr h

turn-running :
    (k : Round) (l : Loop)
    → IsQuiet k
    → (handle_all k.events l.dev).async_status ≡ running
    → Goes IsActive (turn k l)
unfolding turn is_canceling
turn-running k l quiet h =
    let off : is_canceling (handle_all k.events l.dev).async_status ≡ false = rw h refl in
    rw (quiet, off) (inl h)

pub turn-Active : (k : Round) (l : Loop) → IsQuiet k → IsActive l.dev → Goes IsActive (turn k l)
turn-Active k l quiet h = elim (handle_all-IsActive k.events l.dev h) [
  | inl e ↦ turn-running k l quiet e
  | inr e ↦ canceling-Active (turn k l) (turn-Cancelled k l quiet e)
]
