-- ===== src/Bus/Can/Sending.antt =====
-- coremodel.c: the frame that `coremodel_can_rx` queues.
use coremodel.Base.{
  ℕ, ◌+◌, ◌-◌, ◌%◌, ◌^◌, ◌++◌, ◌<◌, ◌≡◌, refl, ap, ◌∙◌, true, false, List, some, arith, ltb, ◌==◌,
  length, length-append, take, take_all, rd64, or-false, not, ◌&&◌, ◌||◌,
}
use coremodel.Packet.{Packet, wire}
use coremodel.Packet.Wire.{IsWellFormed}
use coremodel.Tx.{with_data, alloc_ok}
use coremodel.Tx.Flow.{pending}
use coremodel.Tx.Push.{push_packet-Pushed}
use coremodel.If.{St, reply}
use coremodel.Bus.Can.{can_rx, can_rx_busy, can_dlen, pkt_can_rx}

-- The packet of a frame.
abbrev pub can_packet : {D : Type 0} → List ℕ → List ℕ → St D → Packet
can_packet ctrl bs st = record {
  len = 24 + length bs;
  conn = st.cif.conn;
  pkt = pkt_can_rx;
  bflag = (st.cif.trnidx + 1) % 256;
  hflag = 0;
  payload = ctrl ++ bs;
}

-- The state after a frame was queued: what the peer has still to get, and what stays.
pub record Sent {D : Type 0} (ctrl bs : List ℕ) (st : St D) (out : ℕ × St D) : Type 0 where
  pub accepted : out.0 ≡ 0
  pub queue : pending out.1.io.txbufs ≡ pending st.io.txbufs ++ wire (can_packet ctrl bs st)
  pub busy : can_rx_busy out.1 ≡ true
  pub unharmed : out.1.io.fault ≡ st.io.fault
  pub same_dev : out.1.io.dev ≡ st.io.dev

pub can_rx-Sent :
    {D : Type 0} (ctrl bs : List ℕ) (st : St D)
    → length ctrl ≡ 16
    → can_dlen (rd64 ctrl 0) ≡ length bs
    → length bs < 2 ^ 12
    → st.cif.conn < 2 ^ 16
    → can_rx_busy st ≡ false
    → alloc_ok st.io.allocs ≡ true
    → Sent ctrl bs st (can_rx ctrl (some bs) st)
unfolding can_rx can_rx_busy
can_rx-Sent ctrl bs st words sized small cfits idle ok =
    let whole : take (length bs) bs ≡ bs = take_all (length bs) bs (omega arith) in
    let count : length (ctrl ++ bs) ≡ 16 + length bs = omega (arith, length-append ctrl bs) in
    let p = reply (24 + length bs) st.cif.conn pkt_can_rx ((st.cif.trnidx + 1) % 256) 0 in
    let inside : ltb (length bs) (length bs) ≡ false = ground arith in
    let fits : (24 + length bs) % 2 ^ 16 ≡ 24 + length bs = omega arith in
    let free : (st.cif.ebusy 0 || (not (length bs == 0) && false)) ≡ false = ground (arith, idle) in
    let all : take (24 + length bs - 8) (ctrl ++ bs) ≡ ctrl ++ bs =
      take_all (24 + length bs - 8) (ctrl ++ bs) (omega arith) in
    let io' = record (st.io) { fault = st.io.fault || false } in
    let formed : IsWellFormed (with_data p (some (ctrl ++ bs))) = omega (arith, ap length all) in
    let d = push_packet-Pushed p (some (ctrl ++ bs)) io' formed ok in
    let same = ap (λ l. wire (record p { payload = l })) all in
    rw sized (
      rw (free, whole, inside, fits)
        (record {
          accepted = refl;
          queue = d.queue ∙ ap (◌++◌ (pending st.io.txbufs)) same;
          busy = refl;
          unharmed = d.unharmed ∙ or-false st.io.fault;
          same_dev = d.same_dev;
        }))
