-- ===== src/Bus/I2c/Stall.antt =====
-- coremodel.c: an I2C device that has no data yet.
use coremodel.Base.{ℕ, ◌≡◌, refl, ap, ◌∙◌, true, false, List, ◌∷◌, some, arith, ℤ, pos, sub_u32}
use coremodel.Packet.{Packet}
use coremodel.If.{St, hold, set_busy, set_trnidx, write_rdbuf}
use coremodel.Bus.I2c.{I2cFunc, advance_if_i2c, i2c_read, call_read, pkt_i2c_read}
use coremodel.Bus.Queue.{advance_if}
use coremodel.Bus.Queue.Ends.{advance_if_held}

busy-advance_if_i2c :
    {D : Type 0}
    → (f : I2cFunc D) (pkt : Packet) (st : St D) → st.cif.busy ≡ true
    → advance_if_i2c f pkt st ≡ (hold, st)
unfolding advance_if_i2c
busy-advance_if_i2c f pkt st b = ground (arith, b)

module _ {D : Type 0} (f : I2cFunc D) (read : ℕ → St D → ℤ × List ℕ × St D) (pkt : Packet)
    (bs : List ℕ) (st : St D) {st1 : St D} (has : f.read ≡ some read)
    (answer : read (sub_u32 pkt.bflag st.cif.offs) (set_trnidx pkt.hflag st)
      ≡ (pos 0, bs, st1)) where
  call_stalls :
      call_read f.read pkt (set_trnidx pkt.hflag st) ≡ (pos 0, write_rdbuf st.cif.offs bs st1)
  unfolding call_read
  call_stalls =
      ap (λ x. call_read x pkt (set_trnidx pkt.hflag st)) has
      ∙ ap (λ (x : ℤ × List ℕ × St D). (x.0, write_rdbuf st.cif.offs x.1 x.2)) answer

  read_stalls :
      i2c_read f pkt (set_trnidx pkt.hflag st)
      ≡ (hold, set_busy true (write_rdbuf st.cif.offs bs st1))
  unfolding i2c_read
  read_stalls = rw call_stalls

  -- If the read callback of an I2C device returns 0, the loop ends with the interface busy, the
  -- packet still queued and no reply pushed, and the next call of the loop changes nothing. The
  -- conditions: the interface was not busy and not deferred, the read request is first in its queue,
  -- and the callback left both the queue and the deferral as they were.
  pub i2c_stall_waits :
      (rest : List Packet)
      → pkt.pkt ≡ pkt_i2c_read
      → st.cif.busy ≡ false
      → st.cif.defer_pkt ≡ false
      → st.cif.rxbufs ≡ pkt ∷ rest
      → st1.cif.defer_pkt ≡ false
      → st1.cif.rxbufs ≡ pkt ∷ rest
      → let stalled = set_busy true (write_rdbuf st.cif.offs bs st1) in
        (advance_if (advance_if_i2c f) st ≡ some stalled)
        × (advance_if (advance_if_i2c f) stalled ≡ some stalled)
  unfolding advance_if_i2c
  i2c_stall_waits rest k idle now queue now1 queue1 =
      let stalled = set_busy true (write_rdbuf st.cif.offs bs st1) in
      let st' = set_trnidx pkt.hflag st in
      let v : advance_if_i2c f pkt st ≡ (hold, stalled) = grind (arith, k, idle, read_stalls) in
      (
        advance_if_held (advance_if_i2c f) pkt rest st now queue v,
        advance_if_held (advance_if_i2c f) pkt rest stalled now1 queue1
            (busy-advance_if_i2c f pkt stalled refl),
      )
