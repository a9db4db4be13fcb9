-- ===== src/Examples/Loopback.antt =====
-- examples/eth/coremodel-eth.c: an Ethernet interface that sends each frame back.
use coremodel.Base.{
  ℕ, ◌+◌, ◌^◌, ◌++◌, ◌<◌, ◌≡◌, refl, sym, ap, ap₂, ◌∙◌, true, false, List, some, arith, ◌==◌,
  if◌then◌else◌, take_all, length, pos, drop,
}
use coremodel.Packet.{Packet, wire}
use coremodel.Tx.{alloc_ok}
use coremodel.Tx.Flow.{pending}
use coremodel.If.{St, done, hold, set_offs, data_left}
use coremodel.Bus.Stream.{TxFunc, advance_tx, advance_rx_ack}
use coremodel.Bus.Stream.Taking.{called, advance_tx_takes}
use coremodel.Bus.Eth.{EthFunc, eth_rx, advance_if_eth, pkt_eth_tx, pkt_eth_rx, pkt_eth_rx_ack}
use coremodel.Bus.Eth.Credit.{eth_rx_sends}

unfoldable pub test_eth_tx : {D : Type 0} → TxFunc D
test_eth_tx len bs st = (pos len, (eth_rx len bs st).1)

unfoldable pub test_eth_func : {D : Type 0} → EthFunc D
unfolding test_eth_tx
test_eth_func = record { tx = some test_eth_tx; rxrdy = some (λ st. st) }

eth_rx-offs :
    {D : Type 0} (len : ℕ) (bs : List ℕ) (st : St D) → (eth_rx len bs st).1.cif.offs ≡ st.cif.offs
unfolding eth_rx
eth_rx-offs len bs st = ground arith

module _ {D : Type 0} (pkt : Packet) (st : St D) where
  -- A frame that arrives with credit left goes back: the packet is done, and one PKT_ETH_RX with the
  -- same bytes is queued for one credit. The conditions: the frame is not empty, its packet is as long
  -- as its length says, the interface is not busy, and the allocation succeeds.
  pub frame_comes_back :
      pkt.pkt ≡ pkt_eth_tx
      → pkt.len ≡ 8 + length pkt.payload
      → 0 < length pkt.payload
      → pkt.len < 2 ^ 16
      → st.cif.busy ≡ false
      → st.cif.offs ≡ 0
      → 0 < st.cif.cred
      → st.cif.conn < 2 ^ 16
      → alloc_ok st.io.allocs ≡ true
      → let (verdict, st') = advance_if_eth test_eth_func pkt st in
        (verdict ≡ done)
        × (st'.cif.cred + 1 ≡ st.cif.cred)
        × (pending st'.io.txbufs
            ≡ pending st.io.txbufs
              ++ wire (record pkt { conn = st.cif.conn; pkt = pkt_eth_rx; bflag = 0; hflag = 0 }))
        × (st'.io.fault ≡ st.io.fault)
  unfolding advance_if_eth test_eth_func
  frame_comes_back k sized some_bytes fits idle first window cfits ok =
      let n = length pkt.payload in
      let left : data_left pkt st ≡ n = omega arith in
      let sent = eth_rx_sends pkt.payload st window (omega arith) cfits ok in
      let st1 = (eth_rx n pkt.payload st).1 in
      let whole : drop st.cif.offs pkt.payload ≡ pkt.payload = ap (λ o. drop o pkt.payload) first in
      let result : called test_eth_tx pkt st ≡ (pos n, st1) =
        ap₂ (λ m (bs : List ℕ). test_eth_tx m bs st) left whole in
      let all : (n == data_left pkt st) ≡ true = ground (arith, left) in
      let tx : (pkt.pkt == pkt_eth_tx) ≡ true = ground arith in
      let takes =
        advance_tx_takes test_eth_tx pkt st n {st1 = st1} idle fits (omega arith) (omega arith)
          result (eth_rx-offs n pkt.payload st) some_bytes (omega (arith, left)) in
      let taken : advance_tx (some test_eth_tx) pkt st ≡ (done, set_offs 0 st1) =
        takes
        ∙ ap (λ b. if b then (done, set_offs 0 st1) else (hold, set_offs (st.cif.offs + n) st1))
            all in
      let v : advance_if_eth test_eth_func pkt st ≡ (done, set_offs 0 st1) =
        ap
          (λ b.
            if b
            then advance_tx (some test_eth_tx) pkt st
            else (if pkt.pkt == pkt_eth_rx_ack
                then advance_rx_ack (some (λ x. x)) pkt st
                else (done, st)))
          tx
        ∙ taken in
      let same : _ =
        ap₂
          (λ m l. wire (record {
            len = m;
            conn = st.cif.conn;
            pkt = pkt_eth_rx;
            bflag = 0;
            hflag = 0;
            payload = l;
          }))
          (sym sized) (take_all n pkt.payload (omega arith)) in
      rw v (refl, sent.1, sent.2 ∙ ap (◌++◌ (pending st.io.txbufs)) same, sent.3)
