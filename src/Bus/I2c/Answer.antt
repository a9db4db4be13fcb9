-- ===== src/Bus/I2c/Answer.antt =====
-- coremodel.c: the reply to an I2C read.
use coremodel.Base.{
  ℕ, ◌+◌, ◌-◌, ◌^◌, ◌++◌, ◌<◌, ◌≤◌, ◌≡◌, refl, ap, ◌∙◌, true, false, List, some, arith, take, drop,
  length, length-take, take-append, take_all, sym, length-append, append_assoc, ltb, is_zero, ℤ,
  pos, sub_u32,
}
use coremodel.Packet.{Packet, wire}
use coremodel.Packet.Wire.{IsWellFormed}
use coremodel.Tx.{with_data, alloc_ok}
use coremodel.Tx.Flow.{pending}
use coremodel.Tx.Push.{push_packet-Pushed}
use coremodel.If.{St, done, add_offs, set_offs, set_trnidx, write_rdbuf, reply, push}
use coremodel.Bus.I2c.{I2cFunc, advance_if_i2c, i2c_read, call_read, pkt_i2c_done, pkt_i2c_read}

-- What the buffer holds after a call that went on where the one before it ended.
take-write_rdbuf :
    {D : Type 0} (o : ℕ) (bs : List ℕ) (st : St D)
    → o ≤ length st.cif.rdbuf
    → take (o + length bs) (write_rdbuf o bs st).cif.rdbuf ≡ take o st.cif.rdbuf ++ bs
take-write_rdbuf o bs st h =
    let old = take o st.cif.rdbuf in
    let rest = drop (o + length bs) st.cif.rdbuf in
    let whole : length (old ++ bs) ≡ o + length bs =
      omega (arith, length-append old bs, length-take o st.cif.rdbuf) in
    ap (take (o + length bs)) (sym (append_assoc old bs rest))
    ∙ take-append (o + length bs) (old ++ bs) rest (omega arith)
    ∙ take_all (o + length bs) (old ++ bs) (omega arith)

module _ {D : Type 0} (f : I2cFunc D) (read : ℕ → St D → ℤ × List ℕ × St D) (pkt : Packet)
    (bs : List ℕ) (st : St D) {st1 : St D} (has : f.read ≡ some read)
    (answer : read (sub_u32 pkt.bflag st.cif.offs) (set_trnidx pkt.hflag st)
      ≡ (pos (length bs), bs, st1))
    (kept : st1.cif.offs ≡ st.cif.offs) (some_bytes : 0 < length bs)
    (last : st.cif.offs + length bs ≡ pkt.bflag) (byte : pkt.bflag < 2 ^ 8)
    (earlier : st.cif.offs ≤ length st1.cif.rdbuf) where
  abbrev read_reply : Packet
  read_reply = reply (8 + pkt.bflag) st.cif.conn pkt_i2c_done 0 pkt.hflag

  read_ends : i2c_read f pkt (set_trnidx pkt.hflag st) ≡ (
    done,
    (push read_reply
        (some (write_rdbuf st.cif.offs bs st1).cif.rdbuf)
        (set_offs 0 (write_rdbuf st.cif.offs bs st1))).1,
  )
  unfolding i2c_read call_read
  read_ends =
      let st' = set_trnidx pkt.hflag st in
      let v : call_read f.read pkt st' ≡ (pos (length bs), write_rdbuf st.cif.offs bs st1) =
        ap (λ x. call_read x pkt st') has
        ∙ ap (λ (x : ℤ × List ℕ × St D). (x.0, write_rdbuf st.cif.offs x.1 x.2)) answer in
      let nonzero : is_zero (pos (length bs)) ≡ false = ground arith in
      let full : ltb (add_offs (pos (length bs)) (write_rdbuf st.cif.offs bs st1)) pkt.bflag
          ≡ false =
        ground arith in
      rw (v, nonzero, full)

  -- When the read callback of an I2C device delivers the bytes that are still missing, after an
  -- earlier part or at once, the request is done, and one PKT_I2C_DONE is queued whose data are the
  -- earlier bytes of the buffer followed by the new ones. The next request starts at offset 0, and
  -- nothing outside the buffer is touched. The conditions: the interface is not busy, the callback
  -- leaves the offset alone, its bytes fill the request exactly, and the allocation succeeds.
  pub i2c_read_answers :
      pkt.pkt ≡ pkt_i2c_read
      → st.cif.busy ≡ false
      → st.cif.conn < 2 ^ 16
      → pkt.hflag < 2 ^ 16
      → alloc_ok st1.io.allocs ≡ true
      → let (verdict, st2) = advance_if_i2c f pkt st in
        (verdict ≡ done)
        × (st2.cif.offs ≡ 0)
        × (pending st2.io.txbufs
            ≡ pending st1.io.txbufs
              ++ wire (record {
                len = 8 + pkt.bflag;
                conn = st.cif.conn;
                pkt = pkt_i2c_done;
                bflag = 0;
                hflag = pkt.hflag;
                payload = take st.cif.offs st1.cif.rdbuf ++ bs;
              }))
        × (st2.io.fault ≡ st1.io.fault)
  unfolding advance_if_i2c
  i2c_read_answers k idle cfits hfits ok =
      let o = st.cif.offs in
      let st2 = write_rdbuf o bs st1 in
      let v : advance_if_i2c f pkt st ≡ i2c_read f pkt (set_trnidx pkt.hflag st) =
        ground (arith, k, idle) in
      let count : 8 + pkt.bflag - 8 ≡ o + length bs = omega arith in
      let data' : take (8 + pkt.bflag - 8) st2.cif.rdbuf ≡ take o st1.cif.rdbuf ++ bs =
        ap (λ n. take n st2.cif.rdbuf) count ∙ take-write_rdbuf o bs st1 earlier in
      let unharmed : st2.io.fault ≡ st1.io.fault = ground arith in
      let sized : length (take (8 + pkt.bflag - 8) st2.cif.rdbuf) ≡ pkt.bflag = omega (
        arith,
        ap length data',
        length-append (take o st1.cif.rdbuf) bs,
        length-take o st1.cif.rdbuf,
      ) in
      let formed : IsWellFormed (with_data read_reply (some st2.cif.rdbuf)) =
        omega (arith, sized) in
      let d = push_packet-Pushed read_reply (some st2.cif.rdbuf) st2.io formed ok in
      let same = ap (λ l. wire (record read_reply { payload = l })) data' in
      rw (v, read_ends)
        (refl, refl, d.queue ∙ ap (◌++◌ (pending st1.io.txbufs)) same, d.unharmed ∙ unharmed)
