-- ===== src/Usb.antt =====
-- The traffic of a dongle: libusb_control_transfer of libusb-1.0, which rtl-sdr/src/librtlsdr.c
-- calls and which is not part of the repository.
use rtl_tcp_pi.Common.{ℕ, List, ◌∷◌, ℤ, pos, negsuc, length}
use rtl_tcp_pi.State.{State}

-- The answer to a read: the bytes that came, or the error -(n + 1).
pub data Reply : Type 0 where
  received : List ℕ → Reply
  failed : ℕ → Reply

-- One control transfer with its answer: wIndex, wValue, and the buffer or its length.
pub data Transfer : Type 0 where
  wrote : ℕ → ℕ → List ℕ → ℤ → Transfer
  asked : ℕ → ℕ → ℕ → Reply → Transfer

-- The transfers so far, the latest first.
abbrev pub Bus : Type 0
Bus = List Transfer

-- The device behind the bus: how it answers, after the transfers so far, a write or a read with
-- the given wIndex and wValue. `uninit` is what an uninitialised local array holds at that point.
pub record Usb : Type 0 where
  pub out_status : Bus → ℕ → ℕ → List ℕ → ℤ
  pub in_reply : Bus → ℕ → ℕ → ℕ → Reply
  pub uninit : Bus → List ℕ

abbrev pub returned : Reply → ℤ
returned (received bytes) = pos (length bytes)
returned (failed n) = negsuc n

abbrev pub bytes_of : Reply → List ℕ
bytes_of (received bytes) = bytes
bytes_of (failed n) = List.[]

module _ (usb : Usb) where
  unfoldable pub control_out : ℕ → ℕ → List ℕ → State Bus ℤ
  control_out index addr bytes bus =
      let rc = usb.out_status bus index addr bytes in (rc, wrote index addr bytes rc ∷ bus)

  unfoldable pub control_in : ℕ → ℕ → ℕ → State Bus Reply
  control_in index addr len bus =
      let reply = usb.in_reply bus index addr len in (reply, asked index addr len reply ∷ bus)
