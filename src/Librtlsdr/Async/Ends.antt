-- ===== src/Librtlsdr/Async/Ends.antt =====
-- rtl-sdr/src/librtlsdr.c: the end of `rtlsdr_read_async`.
use rtl_tcp_pi.Common.{
  ℕ, zero, suc, ◌+◌, ◌≡◌, refl, Bool, true, false, Bool-cases, Option, none, some, List, [], ◌∷◌, ℤ,
  ◌⊎◌, inl, inr, if◌then◌else◌,
}
use mathlib.Core.Option
use rtl_tcp_pi.Librtlsdr.Async.{
  inactive, Async, Round, Loop, is_inactive, is_negative, turn, turns, finish, submit_all, start,
  rtlsdr_read_async,
}
use rtl_tcp_pi.Librtlsdr.Async.Events.{handle_all-canceling, IsActive, Asked, handle_all-Asked}
use rtl_tcp_pi.Librtlsdr.Async.Turns.{
  IsQuiet, IsOver, IsSettled, Goes, IsCanceling, turn-Cancelled, turn-over, turn-Active,
}

-- What `rtlsdr_read_async` gives: it returns, without buffers, and with the status
-- INACTIVE unless the device is lost.
pub record Returns (result : Option (ℤ × Async)) : Type 0 where
  pub r : ℤ
  pub dev : Async
  pub returned : result ≡ some (r, dev)
  pub freed : dev.xfer ≡ none
  pub settled : (dev.async_status ≡ inactive) ⊎ (dev.dev_lost ≡ true)

settled-Returns : (l : Loop) → IsSettled l → Returns (some (finish l))
unfolding finish
settled-Returns l h = record { r = l.r; dev = _; returned = refl; freed = refl; settled = h }

-- Turns without an error, up to one after which no transfer is in progress.
pub data Winds : List Round → Type 0 where
  waits : {k : Round} {ks : List Round} → IsQuiet k → Winds ks → Winds (k ∷ ks)
  over : {k : Round} {ks : List Round} → IsQuiet k → IsOver k → Winds (k ∷ ks)

-- Turns without an error, one of them with a call of `rtlsdr_cancel_async`, up to a turn after
-- that one after which no transfer is in progress.
pub data Stops : List Round → Type 0 where
  runs : {k : Round} {ks : List Round} → IsQuiet k → Stops ks → Stops (k ∷ ks)
  asks : {k : Round} {ks : List Round} → IsQuiet k → Asked k.events → Winds ks → Stops (k ∷ ks)

-- The loop from a turn on, from the rest of the turns.
module _ (P : Async → Type 0) where
  next-Returns :
      (t : Bool × Loop) (rest : Option Loop)
      → Goes P t
      → (P t.1.dev → Returns (Option.map finish rest))
      → Returns (Option.map finish (if t.0 then some t.1 else rest))
  next-Returns (true, l) rest goes h = settled-Returns l goes
  next-Returns (false, l) rest goes h = h goes

  last-Returns :
      (t : Bool × Loop) (rest : Option Loop)
      → Goes P t
      → t.0 ≡ true
      → Returns (Option.map finish (if t.0 then some t.1 else rest))
  last-Returns (true, l) rest goes h = settled-Returns l goes
  last-Returns (false, l) rest goes h = cc

not-inactive : (dev : Async) → IsActive dev → is_inactive dev.async_status ≡ false
unfolding is_inactive
not-inactive dev (inl h) = rw h refl
not-inactive dev (inr h) = rw h refl

Winds-Returns :
    (ks : List Round) (l : Loop)
    → Winds ks
    → IsCanceling l.dev
    → Returns (Option.map finish (turns ks l))
unfolding turns
Winds-Returns [] l winds h = elim winds [ ]
Winds-Returns (k ∷ ks) l (waits quiet winds) h = rw (not-inactive l.dev (inr h)) (
    next-Returns IsCanceling (turn k l) (turns ks (turn k l).1)
      (turn-Cancelled k l quiet (handle_all-canceling k.events l.dev h))
      (Winds-Returns ks (turn k l).1 winds))
Winds-Returns (k ∷ ks) l (over quiet refused) h = rw (not-inactive l.dev (inr h)) (
    last-Returns IsCanceling (turn k l) (turns ks (turn k l).1)
      (turn-Cancelled k l quiet (handle_all-canceling k.events l.dev h))
      (turn-over k l quiet refused h))

Stops-Returns :
    (ks : List Round) (l : Loop)
    → Stops ks
    → IsActive l.dev
    → Returns (Option.map finish (turns ks l))
unfolding turns
Stops-Returns [] l stops h = elim stops [ ]
Stops-Returns (k ∷ ks) l (runs quiet stops) h = rw (not-inactive l.dev h) (
    next-Returns IsActive (turn k l) (turns ks (turn k l).1) (turn-Active k l quiet h)
      (Stops-Returns ks (turn k l).1 stops))
Stops-Returns (k ∷ ks) l (asks quiet asked winds) h = rw (not-inactive l.dev h) (
    next-Returns IsCanceling (turn k l) (turns ks (turn k l).1)
      (turn-Cancelled k l quiet (handle_all-Asked k.events l.dev asked h))
      (Winds-Returns ks (turn k l).1 winds))

submit_all-IsActive :
    (submit_rc : ℕ → ℤ) (i n : ℕ) (l : Loop)
    → IsActive l.dev
    → IsActive (submit_all submit_rc i n l).dev
unfolding submit_all
submit_all-IsActive submit_rc i zero l h = h
submit_all-IsActive submit_rc i (suc n) l h = elim (Bool-cases (is_negative (submit_rc i))) [
  | inl e ↦ rw e (inr refl)
  | inr e ↦ rw e (submit_all-IsActive submit_rc (i + 1) n (record l { r = submit_rc i }) h)
]

-- A call of `rtlsdr_read_async` on an inactive device returns, whatever the results of submitting
-- the transfers are, if handling the events gives no error, `rtlsdr_cancel_async` is called in one
-- turn of the loop, and after some later turn libusb has no transfer in progress. The buffers
-- are freed then, and the status is INACTIVE again, or the device is lost.
pub read_async-Returns :
    (submit_rc : ℕ → ℤ) (rounds : List Round) (buf_num buf_len : ℕ) (dev : Async)
    → dev.async_status ≡ inactive
    → Stops rounds
    → Returns (rtlsdr_read_async submit_rc rounds buf_num buf_len dev)
unfolding rtlsdr_read_async is_inactive start
read_async-Returns submit_rc rounds buf_num buf_len dev idle stops =
    let free : is_inactive dev.async_status ≡ true = rw idle refl in
    rw free (
      Stops-Returns rounds (start submit_rc buf_num buf_len dev) stops
        (submit_all-IsActive submit_rc 0 _ _ (inl refl)))
