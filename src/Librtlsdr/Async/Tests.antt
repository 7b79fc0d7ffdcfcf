-- ===== src/Librtlsdr/Async/Tests.antt =====
-- rtl-sdr/src/librtlsdr.c: a transfer that is cancelled.
use rtl_tcp_pi.Common.{◌≡◌, refl, arith, false, none, some, [], ◌∷◌, pos, negsuc}
use rtl_tcp_pi.Librtlsdr.Async.{
  inactive, completed, cancelled, Async, Round, ended, cancel_call, is_negative,
  rtlsdr_cancel_async, rtlsdr_read_async,
}
use rtl_tcp_pi.Librtlsdr.Async.Events.{here, there}
use rtl_tcp_pi.Librtlsdr.Async.Ends.{Returns, over, asks, read_async-Returns}
use rtl_tcp_pi.Librtlsdr.Async.Stuck
use rtl_tcp_pi.Librtlsdr.Async.Stuck.{stuck, cancelling, canceling-stays, then_cancel}

abbrev idle_transfers : Async
idle_transfers = record {
  xfer_buf_num = 0;
  xfer_buf_len = 0;
  xfer = none;
  async_status = inactive;
  dev_lost = false;
  xfer_errors = 0;
}

-- A transfer is completed, the application cancels, and no transfer is in progress any more.
abbrev first_round : Round
first_round = record {
  events = ended 0 completed false ∷ cancel_call ∷ [];
  rc = pos 0;
  cancel_rc = λ i. pos 0;
  last_events = [];
}

abbrev last_round : Round
last_round = record {
  events = ended 0 cancelled false ∷ ended 1 cancelled false ∷ [];
  rc = pos 0;
  cancel_rc = λ i. negsuc 4;
  last_events = [];
}

read_async-Returns_example :
    Returns (rtlsdr_read_async (λ i. pos 0) (first_round ∷ last_round ∷ []) 2 512 idle_transfers)
unfolding is_negative
read_async-Returns_example =
    read_async-Returns (λ i. pos 0) (first_round ∷ last_round ∷ []) 2 512 idle_transfers refl
      (asks refl (there here) (over refl (λ i. refl)))

-- libusb fails with -1 in the turn after the one that cancelled the transfers.
abbrev failed_round : Round
failed_round = record { events = []; rc = negsuc 0; cancel_rc = λ i. pos 0; last_events = [] }

abbrev stuck_device : Async
stuck_device = stuck (λ i. pos 0) 2 512 failed_round idle_transfers

canceling-stays_example :
    let over = stuck_device in
    (rtlsdr_read_async
        (λ i. pos 0)
        (cancelling (λ i. pos 0) [] ∷ failed_round ∷ [])
        2
        512
        idle_transfers
      ≡ some (negsuc 0, over))
    × ((rtlsdr_cancel_async over).1 ≡ over)
    × (rtlsdr_cancel_async (rtlsdr_cancel_async over).1 ≡ (false, over))
    × (rtlsdr_read_async (λ i. pos 0) [] 0 0 (rtlsdr_cancel_async over).1 ≡ some (negsuc 1, over))
unfolding is_negative
canceling-stays_example =
    canceling-stays (λ i. pos 0) (λ i. pos 0) [] [] [] failed_round 0 2 512 idle_transfers
      (rtlsdr_cancel_async stuck_device).1 (λ i. pos 0) [] 0 0 refl refl refl (λ j. refl)
      (λ j. refl) tt refl (omega arith) (then_cancel Stuck.begin)
