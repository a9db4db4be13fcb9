-- ===== src/Bus/Eth/Keeping.antt =====
-- coremodel.c: `coremodel_advance_if_eth` leaves the connection as it is.
use coremodel.Base.{arith, ℕ}
use coremodel.Packet.{Packet}
use coremodel.If.{St, Steady, SteadyNotify}
use coremodel.Bus.Stream.Keeping.{SteadyTx, advance_tx-Steady, advance_rx_ack-Steady}
use coremodel.Bus.Eth.{EthFunc, advance_if_eth}

abbrev pub SteadyEth : {D : Type 0} → EthFunc D → Type 0
SteadyEth f = SteadyTx f.tx × SteadyNotify f.rxrdy

pub advance_if_eth-Steady :
    {D : Type 0} (f : EthFunc D)
    → SteadyEth f
    → (c : ℕ) (pkt : Packet) (st : St D) → Steady c st
    → Steady c (advance_if_eth f pkt st).1
unfolding advance_if_eth
advance_if_eth-Steady f q c pkt st s =
    ground (
      arith,
      advance_tx-Steady c pkt st s f.tx q.0,
      advance_rx_ack-Steady c pkt st s f.rxrdy q.1,
      s,
    )
