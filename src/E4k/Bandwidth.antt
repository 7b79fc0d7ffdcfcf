-- ===== src/E4k/Bandwidth.antt =====
-- rtl-sdr/src/tuner_e4k.c: the bandwidths of the IF filters, set and read back.
use rtl_tcp_pi.Common.{
  ℕ, ◌*◌, ◌%◌, ◌^◌, ◌<◌, ◌≡◌, ◌≢◌, refl, ap, sym, ◌∙◌, arith, inl, inr, ◌==◌, eq_of_==, Bool-cases,
  ltb_ℤ, false, ==_of_eq, get_or, length, pos,
}
use rtl_tcp_pi.Usb.{Usb}
use rtl_tcp_pi.E4k.Types.{RegField, E4kState, IfFilter, if_filter_mix, if_filter_chan, if_filter_rc}
use rtl_tcp_pi.E4k.Registers.{
  field_bits, field_mask, field_value, e4k_reg_read, e4k_field_write, e4k_field_read,
}
use rtl_tcp_pi.E4k.Filters.{
  if_filter_bw, if_filter_fields, find_if_bw, bw_entry, e4k_if_filter_bw_set, e4k_if_filter_bw_get,
}
use rtl_tcp_pi.E4k.Nearest.{IsNearest, closest_arr_idx-IsNearest}
use rtl_tcp_pi.E4k.Fields.{with_field, write-Holds, filters_apart, apart-bits}
use rtl_tcp_pi.E4k.Chip.{
  TunerChip, IsTuner, AreBytes, store, regs_of, Leaves, Leaves-then, reg_read-Leaves,
  set_mask-Leaves,
}

find-IsNearest :
    (filter : IfFilter) (bw : ℕ)
    → bw < 2 ^ 32
    → IsNearest (if_filter_bw filter) bw (find_if_bw filter bw)
unfolding find_if_bw if_filter_bw
find-IsNearest if_filter_mix bw lt = closest_arr_idx-IsNearest _ bw lt (omega arith) (omega arith)
find-IsNearest if_filter_chan bw lt = closest_arr_idx-IsNearest _ bw lt (omega arith) (omega arith)
find-IsNearest if_filter_rc bw lt = closest_arr_idx-IsNearest _ bw lt (omega arith) (omega arith)

table_fits :
    (filter : IfFilter) → length (if_filter_bw filter) ≡ 2 ^ (if_filter_fields filter).width
unfolding if_filter_bw if_filter_fields
table_fits if_filter_mix = refl
table_fits if_filter_chan = refl
table_fits if_filter_rc = refl

mask-lt : (field : RegField) → field_mask field < 2 ^ 8
unfolding field_mask
mask-lt field = omega arith

-- After the bandwidth of a filter was set: what is read of this filter and of the others.
pub record IsBandwidth (usb : Usb) (filter : IfFilter) (bandwidth i : ℕ) (e e' : E4kState)
    : Type 0 where
  pub chosen : IsNearest (if_filter_bw filter) bandwidth i
  pub reads : (e4k_if_filter_bw_get usb filter e').0 ≡ pos (get_or (if_filter_bw filter) i 0)
  pub others :
      (other : IfFilter)
      → other ≢ filter
      → (e4k_if_filter_bw_get usb other e').0 ≡ (e4k_if_filter_bw_get usb other e).0

module _ (usb : Usb) (at : ℕ) (t : TunerChip) (chip : IsTuner usb at t) where
  bw_get_lem :
      (filter : IfFilter) (e : E4kState)
      → e.i2c_addr ≡ at
      → (e4k_if_filter_bw_get usb filter e).0
        ≡ pos (
            get_or
              (if_filter_bw filter)
              (field_bits
                (if_filter_fields filter)
                (regs_of usb at t chip e (if_filter_fields filter).reg))
              0)
  unfolding e4k_if_filter_bw_get e4k_field_read field_value bw_entry
  bw_get_lem filter e here =
      rw (reg_read-Leaves usb at t chip (if_filter_fields filter).reg e here).0 refl

  bw_set-Leaves :
      (filter : IfFilter) (val : ℕ) (e : E4kState)
      → e.i2c_addr ≡ at
      → AreBytes (regs_of usb at t chip e)
      → val < 2 ^ (if_filter_fields filter).width
      → let field = if_filter_fields filter in
        let regs = regs_of usb at t chip e in
        Leaves usb at t chip e
          (e4k_field_write usb field val e).1
          (store field.reg (with_field field (regs field.reg) val) regs)
  unfolding e4k_field_write
  bw_set-Leaves filter val e here bytes fits =
      let field = if_filter_fields filter in
      let old = regs_of usb at t chip e field.reg in
      let (value, read) = reg_read-Leaves usb at t chip field.reg e here in
      let mid = (e4k_reg_read usb field.reg e).1 in
      let positive : ltb_ℤ (pos old) (pos 0) ≡ false = ground arith in
      let still : AreBytes (regs_of usb at t chip mid) = rw read.now bytes in
      rw value (
        rw positive (
          Leaves-then usb at t chip
            (λ regs. store field.reg (with_field field (regs field.reg) val) regs) read
            (set_mask-Leaves usb at t chip field.reg (field_mask field)
              (val * 2 ^ field.shift % 2 ^ 8) mid (read.address ∙ here) still (mask-lt field)
              (write-Holds filter old val (bytes field.reg) fits).2)))

  -- The field of another filter in the registers after a write.
  other-bits :
      (filter other : IfFilter) (val : ℕ) (e : E4kState)
      → other ≢ filter
      → AreBytes (regs_of usb at t chip e)
      → val < 2 ^ (if_filter_fields filter).width
      → let field = if_filter_fields filter in
        let regs = regs_of usb at t chip e in
        let reg = (if_filter_fields other).reg in
        field_bits
          (if_filter_fields other)
          (store field.reg (with_field field (regs field.reg) val) regs reg)
        ≡ field_bits (if_filter_fields other) (regs reg)
  other-bits filter other val e ne bytes fits =
      let field = if_filter_fields filter in
      let reg = (if_filter_fields other).reg in
      let regs = regs_of usb at t chip e in
      elim (Bool-cases (reg == field.reg)) [
        | inl same ↦ rw same (both (eq_of_== reg field.reg same))
        | inr apart ↦ rw apart refl
      ]
    where
      both :
          (if_filter_fields other).reg ≡ (if_filter_fields filter).reg
          → let field = if_filter_fields filter in
            let regs = regs_of usb at t chip e in
            field_bits (if_filter_fields other) (with_field field (regs field.reg) val)
            ≡ field_bits (if_filter_fields other) (regs (if_filter_fields other).reg)
      both same = elim (filters_apart filter other ne) [
        | inl differ ↦ absurd (differ same)
        | inr apart ↦
            apart-bits filter other _ val apart (bytes (if_filter_fields filter).reg) fits
            ∙ ap (λ r. field_bits (if_filter_fields other) (regs_of usb at t chip e r)) (sym same)
      ]

-- On a tuner that acknowledges writes and keeps what is written to its registers, where these hold
-- bytes, `e4k_if_filter_bw_set` with a bandwidth of 32 bits chooses the first of the nearest
-- bandwidths of the filter's table. `e4k_if_filter_bw_get` then returns that bandwidth,
-- and for each other filter what it would have returned before.
pub bw_set-IsBandwidth :
    (usb : Usb) (at : ℕ) (t : TunerChip) (chip : IsTuner usb at t) (filter : IfFilter)
    (bandwidth : ℕ) (e : E4kState)
    → e.i2c_addr ≡ at
    → AreBytes (regs_of usb at t chip e)
    → bandwidth < 2 ^ 32
    → IsBandwidth usb filter bandwidth
        (find_if_bw filter bandwidth)
        e
        (e4k_if_filter_bw_set usb filter bandwidth e).1
unfolding e4k_if_filter_bw_set
bw_set-IsBandwidth usb at t chip filter bandwidth e here bytes lt =
    let field = if_filter_fields filter in
    let i = find_if_bw filter bandwidth in
    let near = find-IsNearest filter bandwidth lt in
    let fits : i < 2 ^ field.width = omega (arith, near.within, table_fits filter) in
    let left = bw_set-Leaves usb at t chip filter i e here bytes fits in
    let e' = (e4k_field_write usb field i e).1 in
    let there : e'.i2c_addr ≡ at = left.address ∙ here in
    record {
      chosen = near;
      reads =
          bw_get_lem usb at t chip filter e' there
          ∙ ap (λ n. pos (get_or (if_filter_bw filter) n 0))
              (ap (λ regs. field_bits field (regs field.reg)) left.now
                ∙ rw (==_of_eq field.reg field.reg refl)
                    (write-Holds filter _ i (bytes field.reg) fits).0);
      others = λ other ne.
          bw_get_lem usb at t chip other e' there
          ∙ ap (λ n. pos (get_or (if_filter_bw other) n 0))
              (ap (λ regs. field_bits (if_filter_fields other) (regs (if_filter_fields other).reg))
                  left.now
                ∙ other-bits usb at t chip filter other i e ne bytes fits)
          ∙ sym (bw_get_lem usb at t chip other e here);
    }
