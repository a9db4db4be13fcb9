-- ===== src/Bus/Can/Handshake.antt =====
-- coremodel.c: the one CAN frame that may be on its way to the guest.
use coremodel.Base.{ℕ, ◌+◌, ◌%◌, ◌≡◌, ◌≢◌, true, false, List, Option, arith}
use coremodel.Packet.{Packet}
use coremodel.If.{St, done, set_ebusy}
use coremodel.Bus.Can.{
  CanFunc, can_rx, can_rx_busy, advance_if_can, call_rxcomplete, pkt_can_rx_ack, none_busy,
}

module _ {D : Type 0} (f : CanFunc D) where
  -- A frame that `coremodel_can_rx` has accepted is the only one on its way: until the guest's answer
  -- every further frame is refused with the state unchanged, an answer with another number than the
  -- frame's is ignored, and the answer with its number makes the node free for the next frame before
  -- the device is told.
  pub can_rx_one_in_flight :
      (ctrl : List ℕ) (data' : Option (List ℕ)) (st : St D) {st1 : St D}
      → can_rx ctrl data' st ≡ (0, st1)
      → (can_rx_busy st ≡ false)
        × (can_rx_busy st1 ≡ true)
        × (st1.cif.trnidx ≡ (st.cif.trnidx + 1) % 256)
        × ((ctrl' : List ℕ) (next : Option (List ℕ)) → can_rx ctrl' next st1 ≡ (1, st1))
        × ((p : Packet)
            → p.pkt ≡ pkt_can_rx_ack
            → p.bflag ≢ st1.cif.trnidx
            → advance_if_can f p st1 ≡ (done, st1))
        × ((p : Packet)
            → p.pkt ≡ pkt_can_rx_ack
            → p.bflag ≡ st1.cif.trnidx
            → advance_if_can f p st1
              ≡ (done, call_rxcomplete f.rxcomplete p (set_ebusy none_busy st1)))
  unfolding can_rx can_rx_busy advance_if_can
  can_rx_one_in_flight ctrl data' st {st1} e = ground (arith, e)
