-- ===== src/Librtlsdr/Async/Stuck.antt =====
-- rtl-sdr/src/librtlsdr.c: a device that `rtlsdr_read_async` leaves in the status CANCELING.
use rtl_tcp_pi.Common.{
  ℕ, zero, suc, ◌+◌, ◌≡◌, ◌≢◌, refl, ◌∙◌, false, true, none, some, List, [], ◌∷◌, ◌++◌, ℤ, pos,
  negsuc, eq_ℤ, ltb, ◌&&◌, ◌==◌, ◌%◌, if◌then◌else◌, arith, ap,
}
use rtl_tcp_pi.Librtlsdr.Async.{
  canceling, inactive, running, Async, AsyncStatus, Round, Loop, Event, cancel_call, is_inactive,
  is_canceling, is_negative, is_running, handle, handle_all, replicate, cancel_all,
  cancel_transfers, turn, turns, submit_all, start, finish, rtlsdr_cancel_async, rtlsdr_read_async,
}

-- Later calls on the device, with any arguments and whatever libusb does in them.
pub data Later (dev : Async) : Async → Type 0 where
  begin : Later dev dev
  then_cancel : {dev' : Async} → Later dev dev' → Later dev (rtlsdr_cancel_async dev').1
  then_read :
      {dev' dev'' : Async} {r : ℤ} (submit_rc : ℕ → ℤ) (rounds : List Round) (buf_num buf_len : ℕ)
      → Later dev dev'
      → rtlsdr_read_async submit_rc rounds buf_num buf_len dev' ≡ some (r, dev'')
      → Later dev dev''

refused :
    (submit_rc : ℕ → ℤ) (rounds : List Round) (buf_num buf_len : ℕ) (dev : Async)
    → dev.async_status ≡ canceling
    → rtlsdr_read_async submit_rc rounds buf_num buf_len dev ≡ some (negsuc 1, dev)
unfolding rtlsdr_read_async is_inactive
refused submit_rc rounds buf_num buf_len dev h =
    let off : is_inactive dev.async_status ≡ false = rw h refl in rw off refl

unchanged : (dev : Async) → dev.async_status ≡ canceling → rtlsdr_cancel_async dev ≡ (false, dev)
unfolding rtlsdr_cancel_async is_running
unchanged dev h = let off : is_running dev.async_status ≡ false = rw h refl in rw off refl

unmoved : {dev dev' : Async} → dev.async_status ≡ canceling → Later dev dev' → dev' ≡ dev
unmoved h begin = refl
unmoved {dev} h (then_cancel {dev' = e} later) = rw (unmoved h later, unchanged dev h) refl
unmoved {dev} h
      (then_read {dev' = e} {dev'' = e'} {r = r} submit_rc rounds buf_num buf_len later returned) =
    let before = unmoved h later in
    let there : rtlsdr_read_async submit_rc rounds buf_num buf_len e ≡ some (negsuc 1, dev) =
      rw before (refused submit_rc rounds buf_num buf_len dev h) in
    cc

-- Every transfer is submitted: only `r` changes.
submitted :
    (submit_rc : ℕ → ℤ) (i n : ℕ) (l : Loop)
    → ((j : ℕ) → is_negative (submit_rc j) ≡ false)
    → (r : ℤ) × (submit_all submit_rc i n l ≡ record l { r = r })
unfolding submit_all
submitted submit_rc i zero l fine = (l.r, refl)
submitted submit_rc i (suc n) l fine =
    let (r, e) = submitted submit_rc (i + 1) n (record l { r = submit_rc i }) fine in
    (r, rw (fine i) e)

all_canceling :
    (cancel_rc : ℕ → ℤ) (i n : ℕ) (r : ℤ)
    → ((j : ℕ) → is_negative (cancel_rc j) ≡ false)
    → (cancel_all cancel_rc i (replicate n) (r, canceling)).1 ≡ canceling
unfolding cancel_all
all_canceling cancel_rc i zero r fine = refl
all_canceling cancel_rc i (suc n) r fine =
    rw (cancel_all, fine i) (all_canceling cancel_rc (i + 1) n (cancel_rc i) fine)

some_canceling :
    (cancel_rc : ℕ → ℤ) (n : ℕ) (r : ℤ)
    → ((j : ℕ) → is_negative (cancel_rc j) ≡ false)
    → (cancel_all cancel_rc 0 (replicate (suc n)) (r, inactive)).1 ≡ canceling
unfolding cancel_all
some_canceling cancel_rc n r fine =
    rw (cancel_all, fine 0) (all_canceling cancel_rc 1 n (cancel_rc 0) fine)

going_on :
    (k : Round) (ks : List Round) (l l' : Loop)
    → is_inactive l.dev.async_status ≡ false
    → turn k l ≡ (false, l')
    → turns (k ∷ ks) l ≡ turns ks l'
unfolding turns
going_on k ks l l' on e = rw on (rw e refl)

leaving :
    (k : Round) (ks : List Round) (l l' : Loop)
    → is_inactive l.dev.async_status ≡ false
    → turn k l ≡ (true, l')
    → turns (k ∷ ks) l ≡ some l'
unfolding turns
leaving k ks l l' on e = rw on (rw e refl)

active : (status : AsyncStatus) → status ≡ running → is_inactive status ≡ false
unfolding is_inactive
active status on = rw on refl

is_idle : (status : AsyncStatus) → status ≡ inactive → is_inactive status ≡ true
unfolding is_inactive
is_idle status idle = rw idle refl

quiet_turn :
    (k : Round) (l : Loop)
    → k.events ≡ []
    → is_negative k.rc ≡ false
    → l.dev.async_status ≡ running
    → turn k l ≡ (false, record l { r = k.rc })
unfolding turn handle_all is_canceling
quiet_turn k l none_here no_error on =
    let off : is_canceling l.dev.async_status ≡ false = not_canceling l.dev.async_status on in
    rw none_here (rw no_error (rw off refl))
  where
    not_canceling : (status : AsyncStatus) → status ≡ running → is_canceling status ≡ false
    not_canceling status on = rw on refl

-- A turn in which a call of `rtlsdr_cancel_async` arrives and every transfer is cancelled.
abbrev pub cancelling : (ℕ → ℤ) → List Event → Round
cancelling cancel_rc last_events = record {
  events = cancel_call ∷ [];
  rc = pos 0;
  cancel_rc = cancel_rc;
  last_events = last_events;
}

-- Turns in which nothing happens.
abbrev pub AreQuiet : List Round → Type 0
AreQuiet [] = Unit
AreQuiet (k ∷ ks) = (k.events ≡ []) × (is_negative k.rc ≡ false) × AreQuiet ks

-- What the failed turn leaves of a running device.
abbrev pub left_by : Round → Async → Async
left_by failed dev = handle_all failed.events (record dev { async_status = canceling })

module _ (cancel_rc : ℕ → ℤ) (last_events : List Event) (failed : Round) (code : ℕ)
    (rest : List Round) (fine : (j : ℕ) → is_negative (cancel_rc j) ≡ false)
    (failure : failed.rc ≡ negsuc code) (other : code ≢ 9) where
  cancel_turn :
      (l : Loop) (n : ℕ)
      → l.dev.async_status ≡ running
      → l.dev.dev_lost ≡ false
      → l.dev.xfer ≡ some (replicate (suc n))
      → l.next_status ≡ inactive
      → (r : ℤ) × (turn (cancelling cancel_rc last_events) l ≡ (
        false,
        record { dev = record l.dev { async_status = canceling }; r = r; next_status = canceling },
      ))
  unfolding turn handle_all handle rtlsdr_cancel_async is_running is_canceling is_negative
      cancel_transfers is_inactive
  cancel_turn l n on here transfers begun =
      let next = some_canceling cancel_rc n (pos 0) fine in
      (
        (cancel_all cancel_rc 0 (replicate (suc n)) (pos 0, inactive)).0,
        rw on (rw transfers (rw here (rw next refl))),
      )

  failed_turn :
      (l : Loop)
      → turn failed l ≡ (true, record l { dev = handle_all failed.events l.dev; r = negsuc code })
  unfolding turn is_negative
  failed_turn l =
      let off : eq_ℤ (negsuc code) (negsuc 9) ≡ false = ground arith in rw failure (rw off refl)

  abbrev left : Loop → Loop
  left l = record { dev = left_by failed l.dev; r = negsuc code; next_status = canceling }

  last_turns :
      (l : Loop) (n : ℕ)
      → l.dev.async_status ≡ running
      → l.dev.dev_lost ≡ false
      → l.dev.xfer ≡ some (replicate (suc n))
      → l.next_status ≡ inactive
      → turns (cancelling cancel_rc last_events ∷ failed ∷ rest) l ≡ some (left l)
  unfolding is_inactive
  last_turns l n on here transfers begun =
      let (r, e) = cancel_turn l n on here transfers begun in
      let l' : Loop = record {
        dev = record l.dev { async_status = canceling };
        r = r;
        next_status = canceling;
      } in
      going_on (cancelling cancel_rc last_events) (failed ∷ rest) l l'
        (active l.dev.async_status on) e
      ∙ leaving failed rest l' (left l) refl (failed_turn l')

  all_turns :
      (quiet : List Round) (l : Loop) (n : ℕ)
      → AreQuiet quiet
      → l.dev.async_status ≡ running
      → l.dev.dev_lost ≡ false
      → l.dev.xfer ≡ some (replicate (suc n))
      → l.next_status ≡ inactive
      → turns (quiet ++ cancelling cancel_rc last_events ∷ failed ∷ rest) l ≡ some (left l)
  all_turns [] l n h on here transfers begun = last_turns l n on here transfers begun
  all_turns (k ∷ ks) l n (none_here, no_error, h) on here transfers begun =
      going_on k (ks ++ cancelling cancel_rc last_events ∷ failed ∷ rest) l (record l { r = k.rc })
        (active l.dev.async_status on) (quiet_turn k l none_here no_error on)
      ∙ all_turns ks (record l { r = k.rc }) n h on here transfers begun

-- The number of transfers that `rtlsdr_read_async` allocates.
abbrev pub allocated : ℕ → ℕ
allocated buf_num = if ltb 0 buf_num then buf_num else 32

some_allocated : (buf_num : ℕ) → (n : ℕ) × (allocated buf_num ≡ suc n)
some_allocated zero = (31, refl)
some_allocated (suc n) = (n, ground arith)

-- The device after the call, in which the turn `failed` was the last.
abbrev pub stuck : (ℕ → ℤ) → ℕ → ℕ → Round → Async → Async
stuck submit_rc buf_num buf_len failed dev =
    record (left_by failed (start submit_rc buf_num buf_len dev).dev) {
      xfer = none;
      async_status = canceling;
    }

started :
    (submit_rc : ℕ → ℤ) (buf_num buf_len : ℕ) (dev : Async)
    → dev.xfer ≡ none
    → dev.dev_lost ≡ false
    → ((j : ℕ) → is_negative (submit_rc j) ≡ false)
    → let l = start submit_rc buf_num buf_len dev in
      (l.dev.async_status ≡ running)
      × (l.dev.dev_lost ≡ false)
      × (l.dev.xfer ≡ some (replicate (allocated buf_num)))
      × (l.next_status ≡ inactive)
unfolding start
started submit_rc buf_num buf_len dev none_yet here fine =
    let first : Loop = record {
      dev = record dev {
        async_status = running;
        xfer_buf_num = allocated buf_num;
        xfer_buf_len = if ltb 0 buf_len && buf_len % 512 == 0 then buf_len else 262144;
        xfer = some (elim dev.xfer [ none ↦ replicate (allocated buf_num) | some sts ↦ sts ]);
      };
      r = pos 0;
      next_status = inactive;
    } in
    let (r, e) = submitted submit_rc 0 (allocated buf_num) first fine in
    rw e (refl, here, rw none_yet refl, refl)

-- On an idle device that is there, every transfer is submitted, and after quiet turns
-- of the loop `rtlsdr_cancel_async` is called and every transfer is cancelled without an error. If
-- `libusb_handle_events_timeout` then fails, with another code than that of an interruption,
-- `rtlsdr_read_async` returns this code, and the device stays in the status CANCELING for good: any later calls
-- of it and of `rtlsdr_cancel_async` leave the device as it is, and the next of either returns -2.
pub canceling-stays :
    (submit_rc cancel_rc : ℕ → ℤ) (quiet rest : List Round) (last_events : List Event)
    (failed : Round) (code buf_num buf_len : ℕ) (dev later : Async) (submit_rc' : ℕ → ℤ)
    (rounds' : List Round) (buf_num' buf_len' : ℕ)
    → dev.async_status ≡ inactive
    → dev.xfer ≡ none
    → dev.dev_lost ≡ false
    → ((j : ℕ) → is_negative (submit_rc j) ≡ false)
    → ((j : ℕ) → is_negative (cancel_rc j) ≡ false)
    → AreQuiet quiet
    → failed.rc ≡ negsuc code
    → code ≢ 9
    → Later (stuck submit_rc buf_num buf_len failed dev) later
    → let over = stuck submit_rc buf_num buf_len failed dev in
      (rtlsdr_read_async submit_rc
          (quiet ++ cancelling cancel_rc last_events ∷ failed ∷ rest)
          buf_num
          buf_len
          dev
        ≡ some (negsuc code, over))
      × (later ≡ over)
      × (rtlsdr_cancel_async later ≡ (false, over))
      × (rtlsdr_read_async submit_rc' rounds' buf_num' buf_len' later ≡ some (negsuc 1, over))
unfolding rtlsdr_read_async finish
canceling-stays submit_rc cancel_rc quiet rest last_events failed code buf_num buf_len dev later
      submit_rc' rounds' buf_num' buf_len' idle none_yet here fine fine' h failure other calls =
    let over = stuck submit_rc buf_num buf_len failed dev in
    let (on, there, transfers, begun) = started submit_rc buf_num buf_len dev none_yet here fine in
    let (n, count) = some_allocated buf_num in
    let e =
      all_turns cancel_rc last_events failed code rest fine' failure other quiet
        (start submit_rc buf_num buf_len dev) n h on there
        (transfers ∙ ap (λ k. some (replicate k)) count) begun in
    let off : is_inactive dev.async_status ≡ true = is_idle dev.async_status idle in
    let same = unmoved refl calls in
    (
      rw off (rw e refl),
      same,
      rw same (unchanged over refl),
      rw same (refused submit_rc' rounds' buf_num' buf_len' over refl),
    )
