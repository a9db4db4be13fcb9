-- ===== src/Bus/Can/Tests.antt =====
-- coremodel.c: CAN frames on a concrete node.
use coremodel.Base.{
  ℕ, ◌+◌, ◌%◌, ◌≡◌, ◌≢◌, refl, true, false, List, [], ◌∷◌, Option, none, some, replicate,
}
use coremodel.Packet.{Packet}
use coremodel.If.{done, set_ebusy}
use coremodel.Bus.Tests.{DevSt, no_credit}
use coremodel.Bus.Can.{
  CanFunc, can_dlen, can_rx, can_rx_busy, advance_if_can, call_rxcomplete, pkt_can_rx_ack,
  none_busy,
}
use coremodel.Bus.Can.Handshake.{can_rx_one_in_flight}

-- A node that keeps the flags of the answers.
abbrev node : CanFunc (List ℕ)
node = record {
  tx = none;
  rxcomplete = some (λ nak st. record st { io = record (st.io) { dev = nak ∷ st.io.dev } });
}

-- A frame with two bytes of data.
abbrev ctrl : List ℕ
ctrl = 2 ∷ replicate 15 0

abbrev frame_data : Option (List ℕ)
frame_data = some (7 ∷ 8 ∷ [])

abbrev after_frame : DevSt
after_frame = (can_rx ctrl frame_data no_credit).1

frame_accepted : can_rx ctrl frame_data no_credit ≡ (0, after_frame)
unfolding can_rx can_dlen
frame_accepted = refl

can_rx_one_in_flight_example :
    (can_rx_busy no_credit ≡ false)
    × (can_rx_busy after_frame ≡ true)
    × (after_frame.cif.trnidx ≡ (no_credit.cif.trnidx + 1) % 256)
    × ((ctrl' : List ℕ) (next : Option (List ℕ)) → can_rx ctrl' next after_frame ≡ (1, after_frame))
    × ((p : Packet)
        → p.pkt ≡ pkt_can_rx_ack
        → p.bflag ≢ after_frame.cif.trnidx
        → advance_if_can node p after_frame ≡ (done, after_frame))
    × ((p : Packet)
        → p.pkt ≡ pkt_can_rx_ack
        → p.bflag ≡ after_frame.cif.trnidx
        → advance_if_can node p after_frame
          ≡ (done, call_rxcomplete node.rxcomplete p (set_ebusy none_busy after_frame)))
can_rx_one_in_flight_example =
    can_rx_one_in_flight node ctrl frame_data no_credit {st1 = after_frame} frame_accepted
