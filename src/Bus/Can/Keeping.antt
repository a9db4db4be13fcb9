-- ===== src/Bus/Can/Keeping.antt =====
-- coremodel.c: `coremodel_advance_if_can` leaves the connection as it is.
use coremodel.Base.{
  ◌+◌, length, ltb, arith, ℕ, List, Option, none, some, if◌then◌else◌, drop, take, ℤ, is_zero, rd64,
}
use coremodel.Packet.{Packet}
use coremodel.If.{set_fault, St, Steady, Holds, set_ebusy, reply, push-Steady}
use coremodel.Bus.Can.{
  CanFunc, advance_if_can, can_tx, can_dlen, call_can_tx, call_rxcomplete, pkt_can_tx_ack,
  none_busy,
}

abbrev SteadyCanTx : {D : Type 0} → Option (List ℕ → List ℕ → St D → ℤ × St D) → Type 0
SteadyCanTx {D} f =
    Holds f (λ g. (c : ℕ) (k d : List ℕ) (st : St D) → Steady c st → Steady c (g k d st).1)

abbrev SteadyComplete : {D : Type 0} → Option (ℕ → St D → St D) → Type 0
SteadyComplete {D} f = Holds f (λ g. (c n : ℕ) (st : St D) → Steady c st → Steady c (g n st))

abbrev pub SteadyCan : {D : Type 0} → CanFunc D → Type 0
SteadyCan f = SteadyCanTx f.tx × SteadyComplete f.rxcomplete

module _ {D : Type 0} (c : ℕ) (pkt : Packet) (st : St D) (s : Steady c st) where
  call_can_tx-Steady :
      (f : Option (List ℕ → List ℕ → St D → ℤ × St D))
      → SteadyCanTx f
      → Steady c (call_can_tx f pkt st).1
  unfolding call_can_tx
  call_can_tx-Steady none q = s
  call_can_tx-Steady (some f) q =
      let dlen = can_dlen (rd64 pkt.payload 0) in
      q c pkt.payload (take dlen (drop 16 pkt.payload))
        (set_fault (ltb (length pkt.payload) (16 + dlen)) st) s

  call_rxcomplete-Steady :
      (f : Option (ℕ → St D → St D)) → SteadyComplete f → Steady c (call_rxcomplete f pkt st)
  unfolding call_rxcomplete
  call_rxcomplete-Steady none q = s
  call_rxcomplete-Steady (some f) q = q c pkt.hflag st s

  can_tx-Steady : (f : CanFunc D) → SteadyCan f → Steady c (can_tx f pkt st).1
  unfolding can_tx
  can_tx-Steady f q =
      let k = call_can_tx-Steady f.tx q.0 in
      let (res, st') = call_can_tx f.tx pkt st in
      let sent =
        push-Steady c (reply 8 st'.cif.conn pkt_can_tx_ack pkt.bflag (if is_zero res then 0 else 1))
          none st' k in
      ground (arith, k, sent)

module _ {D : Type 0} (c : ℕ) (pkt : Packet) (st : St D) (s : Steady c st) where
  pub advance_if_can-Steady : (f : CanFunc D) → SteadyCan f → Steady c (advance_if_can f pkt st).1
  unfolding advance_if_can
  advance_if_can-Steady f q = ground (
    arith,
    can_tx-Steady c pkt st s f q,
    call_rxcomplete-Steady c pkt (set_ebusy none_busy st) s f.rxcomplete q.1,
    s,
  )
