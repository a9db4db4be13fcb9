-- ===== src/Bus/Spi/Answer.antt =====
-- coremodel.c: the reply to an SPI transfer that one call of the device takes whole.
use coremodel.Base.{
  ℕ, ◌+◌, ◌-◌, ◌%◌, ◌^◌, ◌<◌, ◌≤◌, ◌≡◌, refl, subst, ap, ◌∙◌, ◌++◌, true, false, List, some, arith,
  ltb, drop, take, take_exact, length, ℤ, pos, to_int, is_zero,
}
use coremodel.Packet.{Packet, wire}
use coremodel.Packet.Wire.{IsWellFormed}
use coremodel.Tx.{with_data, alloc_ok}
use coremodel.Tx.Flow.{pending}
use coremodel.Tx.Push.{push_packet-Pushed}
use coremodel.If.{
  If, St, done, set_offs, set_trnidx, write_rdbuf, data_len, data_left, add_offs, reply, push,
}
use coremodel.Bus.Spi.{
  SpiFunc, advance_if_spi, spi_tx, spi_result, call_xfr, at_most_256, pkt_spi_tx, pkt_spi_rx,
}

module _ {D : Type 0} (f : SpiFunc D) (xfr : ℕ → List ℕ → St D → ℤ × List ℕ × St D) (pkt : Packet)
    (bs : List ℕ) (st : St D) {st1 : St D} (has : f.xfr ≡ some xfr)
    (answer : xfr (length bs) pkt.payload (set_trnidx pkt.hflag st) ≡ (pos (length bs), bs, st1))
    (start : st.cif.offs ≡ 0) (kept : st1.cif ≡ (set_trnidx pkt.hflag st).cif)
    (sized : pkt.len ≡ 8 + length bs) (some_bytes : 0 < length bs) (short : length bs ≤ 256) where
  abbrev written : St D
  written = write_rdbuf 0 bs st1

  whole_call :
      call_xfr f.xfr (pos (length bs)) pkt (set_trnidx pkt.hflag st) ≡ (pos (length bs), written)
  unfolding call_xfr
  whole_call =
      let n = length bs in
      let st' = set_trnidx pkt.hflag st in
      let called = λ (o m : ℕ).
        let (res, out, s) = xfr m (drop o pkt.payload) st' in
        Path (ℤ × St D) (call_xfr f.xfr (pos n) pkt st') (res, write_rdbuf o out s) in
      let here : called st.cif.offs (n % 2 ^ 32) = ap (λ x. call_xfr x (pos n) pkt st') has in
      let word : n % 2 ^ 32 ≡ n = omega arith in
      subst (called 0) word (subst (λ o. called o (n % 2 ^ 32)) start here)
      ∙ ap (λ (x : ℤ × List ℕ × St D). (x.0, write_rdbuf 0 x.1 x.2)) answer

  abbrev rx : Packet
  rx = reply pkt.len st1.cif.conn pkt_spi_rx 0 st1.cif.trnidx

  whole_result :
      spi_result pkt (pos (length bs), written)
      ≡ (done, (push rx (some written.cif.rdbuf) (set_offs 0 written)).1)
  unfolding spi_result
  whole_result =
      let offs : st1.cif.offs ≡ 0 = ap (λ (c : If). c.offs) kept ∙ start in
      let nonzero : is_zero (pos (length bs)) ≡ false = ground arith in
      let full : ltb (add_offs (pos (length bs)) st1) (data_len pkt) ≡ false = ground arith in
      rw (nonzero, full) refl

  whole_transfer :
      spi_tx f pkt (set_trnidx pkt.hflag st)
      ≡ (done, (push rx (some written.cif.rdbuf) (set_offs 0 written)).1)
  unfolding spi_tx
  whole_transfer =
      let st' = set_trnidx pkt.hflag st in
      let asked : at_most_256 (to_int (data_left pkt st')) ≡ pos (length bs) = ground arith in
      ap (spi_result pkt) (ap (λ n. call_xfr f.xfr n pkt st') asked ∙ whole_call) ∙ whole_result

  -- When an SPI device takes a transfer of 1 to 256 bytes in one call, the request is done, and one
  -- PKT_SPI_RX is queued with the bytes that the device gave. The conditions: the interface is not
  -- busy, no transfer is under way, the device leaves the interface alone, and the allocation succeeds.
  pub spi_xfr_answers :
      pkt.pkt ≡ pkt_spi_tx
      → st.cif.busy ≡ false
      → st.cif.conn < 2 ^ 16
      → pkt.hflag < 2 ^ 16
      → alloc_ok st1.io.allocs ≡ true
      → let (verdict, st2) = advance_if_spi f pkt st in
        (verdict ≡ done)
        × (pending st2.io.txbufs
            ≡ pending st1.io.txbufs
              ++ wire (record {
                len = 8 + length bs;
                conn = st.cif.conn;
                pkt = pkt_spi_rx;
                bflag = 0;
                hflag = pkt.hflag;
                payload = bs;
              }))
        × (st2.io.dev ≡ st1.io.dev)
        × (st2.io.fault ≡ st1.io.fault)
  unfolding advance_if_spi
  spi_xfr_answers k idle cfits hfits ok =
      let v : advance_if_spi f pkt st ≡ spi_tx f pkt (set_trnidx pkt.hflag st) =
        ground (arith, k, idle) in
      let n = length bs in
      let conn : st1.cif.conn ≡ st.cif.conn = ap (λ (c : If). c.conn) kept in
      let trnidx : st1.cif.trnidx ≡ pkt.hflag = ap (λ (c : If). c.trnidx) kept in
      let bytes : take (pkt.len - 8) written.cif.rdbuf ≡ bs =
        take_exact (pkt.len - 8) bs (drop (0 + n) st1.cif.rdbuf) (omega arith) in
      let formed : IsWellFormed (with_data rx (some written.cif.rdbuf)) =
        omega (arith, ap length bytes) in
      let d = push_packet-Pushed rx (some written.cif.rdbuf) written.io formed ok in
      let unharmed : written.io.fault ≡ st1.io.fault = ground arith in
      let same =
        ap (λ l. wire (record rx { payload = l })) bytes
        ∙ ap (λ l. wire (record rx { len = l; payload = bs })) sized
        ∙ ap (λ c. wire (record rx { len = 8 + n; conn = c; payload = bs })) conn
        ∙ ap (λ t. wire (record rx { len = 8 + n; conn = st.cif.conn; hflag = t; payload = bs }))
            trnidx in
      rw (v, whole_transfer)
        (refl, d.queue ∙ ap (◌++◌ (pending st1.io.txbufs)) same, d.same_dev, d.unharmed ∙ unharmed)
