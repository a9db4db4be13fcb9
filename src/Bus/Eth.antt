-- ===== src/Bus/Eth.antt =====
-- coremodel.c: Ethernet. coremodel.h: `coremodel_eth_func_t`.
pub mod Keeping
pub mod Credit
use coremodel.Base.{
  ◌≡◌, refl, ◌⊎◌, arith, ℕ, ◌+◌, ◌-◌, ◌%◌, ◌^◌, Bool, List, [], Option, none, some, ltb, ◌==◌,
  if◌then◌else◌, u16,
}
use coremodel.Packet.{Packet}
use coremodel.If.{If, St, Verdict, done, hold, set_cred, push, notify, reply, QuietNotify}
use coremodel.Bus.Stream.{
  TxFunc, QuietTx, advance_tx, advance_rx_ack, advance_tx-queue, advance_rx_ack-queue,
}

abbrev pub pkt_eth_tx : ℕ
pkt_eth_tx = 0x00

abbrev pub pkt_eth_rx : ℕ
pkt_eth_rx = 0x01

abbrev pub pkt_eth_rx_ack : ℕ
pkt_eth_rx_ack = 0x02

pub record EthFunc (D : Type 0) : Type 0 where
  pub tx : Option (TxFunc D)
  pub rxrdy : Option (St D → St D)

module _ {D : Type 0} where
  unfoldable pub advance_if_eth : EthFunc D → Packet → St D → Verdict × St D
  advance_if_eth f pkt st =
      if pkt.pkt == pkt_eth_tx
      then advance_tx f.tx pkt st
      else if pkt.pkt == pkt_eth_rx_ack
      then advance_rx_ack f.rxrdy pkt st
      else (done, st)

  -- `coremodel_eth_rx` on an interface that is there: its error result, and the state after it.
  -- Without credit it reports success, and sends nothing.
  unfoldable pub eth_rx : ℕ → List ℕ → St D → ℕ × St D
  eth_rx len data' st =
      let (failed, st') = push (reply (u16 (8 + len)) st.cif.conn pkt_eth_rx 0 0) (some data') st in
      if st.cif.cred == 0
      then (0, st)
      else if failed
      then (1, st')
      else (0, set_cred (st.cif.cred - 1) st')

module _ {D : Type 0} where
  -- The callbacks of an Ethernet leave its queue and `busy` alone.
  abbrev pub QuietEth : EthFunc D → Type 0
  QuietEth f = QuietTx f.tx × QuietNotify f.rxrdy

  pub advance_if_eth-queue :
      (f : EthFunc D)
      → QuietEth f
      → (pkt : Packet) (st : St D)
      → ((advance_if_eth f pkt st).1.cif.rxbufs ≡ st.cif.rxbufs)
        × (((advance_if_eth f pkt st).0 ≡ done) ⊎ ((advance_if_eth f pkt st).0 ≡ hold))
  unfolding advance_if_eth
  advance_if_eth-queue f q pkt st =
      ground (arith, advance_tx-queue f.tx q.0 pkt st, advance_rx_ack-queue f.rxrdy q.1 pkt st)
