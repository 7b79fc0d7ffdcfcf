-- ===== src/R82xx/Sync/Read.antt =====
-- rtl-sdr/src/tuner_r82xx.c: the traffic of `r82xx_read`.
use rtl_tcp_pi.Common.{
  ℕ, zero, suc, ◌≡◌, refl, ◌∙◌, arith, List, [], ◌∷◌, ℤ, pos, negsuc, length, ◌==◌, Bool-cases, inl,
  inr, ap, ◌%◌,
}
use rtl_tcp_pi.Usb.{Usb, Bus, Reply, received, failed, asked, control_in, control_out}
use rtl_tcp_pi.Librtlsdr.Access.{rtlsdr_i2c_read, rtlsdr_i2c_write, rtlsdr_read_array}
use rtl_tcp_pi.Driver.{◌>>=◌, gets, pure, fail, call}
use rtl_tcp_pi.Driver.Safe.{Post}
use rtl_tcp_pi.R82xx.Types.{Priv}
use rtl_tcp_pi.R82xx.Shadow.{read_into, read_after, r82xx_read}
use rtl_tcp_pi.R82xx.Sync.{stored, chip}
use rtl_tcp_pi.R82xx.Sync.Chunks.{after_write}

-- Only the traffic differs, and none of the new transfers stores a value.
pub record IsQuiet (addr : ℕ) (s s' : Priv) : Type 0 where
  pub bus : Bus
  pub same : s' ≡ record s { rtl_dev = bus }
  pub stores_nothing : (r : ℕ) → chip addr bus r ≡ chip addr s.rtl_dev r

IsQuiet-trans : {addr : ℕ} {s t u : Priv} → IsQuiet addr s t → IsQuiet addr t u → IsQuiet addr s u
IsQuiet-trans {addr} {s} p q = record {
  bus = q.bus;
  same = q.same ∙ ap (λ (v : Priv). record v { rtl_dev = q.bus }) p.same;
  stores_nothing = λ r.
      q.stores_nothing r ∙ ap (λ (v : Priv). chip addr v.rtl_dev r) p.same ∙ p.stores_nothing r;
}

module _ (usb : Usb) (addr : ℕ) where
  module _ (reg : ℕ) (s : Priv) where
    number_sent : IsQuiet addr s (after_write usb s.cfg.i2c_addr (reg ∷ []) s)
    unfolding chip stored
    number_sent = record { bus = _; same = refl; stores_nothing = λ r. ground arith }

  module _ (len : ℕ) (val : List ℕ) where
    read_into-IsQuiet :
        (reply : Reply) (s t : Priv)
        → IsQuiet addr s t
        → Post
            (λ _. IsQuiet addr s)
            (IsQuiet addr s)
            (read_into len val reply t).0
            (read_into len val reply t).1
    unfolding read_into pure fail
    read_into-IsQuiet (received bytes) s t q = elim (Bool-cases (length bytes == len)) [
      | inl e ↦ rw e q
      | inr e ↦ rw e q
    ]
    read_into-IsQuiet (failed n) s t q = q

    abbrev after_read : Priv → Priv
    after_read s = record s {
      rtl_dev =
          asked 0x600 s.cfg.i2c_addr (len % 256)
            (usb.in_reply s.rtl_dev 0x600 s.cfg.i2c_addr (len % 256))
          ∷ s.rtl_dev;
    }

    bytes_asked : (s : Priv) → IsQuiet addr s (after_read s)
    unfolding chip stored
    bytes_asked s = record { bus = _; same = refl; stores_nothing = λ r. refl }

    read_after-IsQuiet :
        (rc : ℤ) (s t : Priv)
        → IsQuiet addr s t
        → Post
            (λ _. IsQuiet addr s)
            (IsQuiet addr s)
            (read_after usb len val rc t).0
            (read_after usb len val rc t).1
    unfolding read_after pure fail gets call ◌>>=◌ rtlsdr_i2c_read rtlsdr_read_array control_in
    read_after-IsQuiet (negsuc n) s t q = q
    read_after-IsQuiet (pos zero) s t q = q
    read_after-IsQuiet (pos (suc n)) s t q =
        read_into-IsQuiet (usb.in_reply t.rtl_dev 0x600 t.cfg.i2c_addr (len % 256)) s (after_read t)
          (IsQuiet-trans q (bytes_asked t))

    pub r82xx_read-IsQuiet :
        (reg : ℕ) (s : Priv)
        → Post
            (λ _. IsQuiet addr s)
            (IsQuiet addr s)
            (r82xx_read usb reg len val s).0
            (r82xx_read usb reg len val s).1
    unfolding r82xx_read gets call ◌>>=◌ rtlsdr_i2c_write control_out
    r82xx_read-IsQuiet reg s =
        read_after-IsQuiet (usb.out_status s.rtl_dev 0x610 s.cfg.i2c_addr (reg ∷ [])) s
          (after_write usb s.cfg.i2c_addr (reg ∷ []) s) (number_sent reg s)
