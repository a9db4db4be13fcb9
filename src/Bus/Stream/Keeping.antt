-- ===== src/Bus/Stream/Keeping.antt =====
-- coremodel.c: the data and the credits of UART and Ethernet leave the connection as it is.
use coremodel.Base.{arith, ℕ, ◌+◌, ◌%◌, ◌^◌, List, Option, none, some, drop}
use coremodel.Packet.{Packet}
use coremodel.If.{St, Holds, Steady, SteadyNotify, notify-Steady, data_left, set_cred}
use coremodel.Bus.Stream.{TxFunc, call_tx, tx_result, advance_tx, advance_rx_ack}

abbrev pub SteadyTx : {D : Type 0} → Option (TxFunc D) → Type 0
SteadyTx {D} f =
    Holds f (λ g. (c n : ℕ) (bs : List ℕ) (st : St D) → Steady c st → Steady c (g n bs st).1)

module _ {D : Type 0} (c : ℕ) (pkt : Packet) (st : St D) (s : Steady c st) where
  call_tx-Steady : (f : Option (TxFunc D)) → SteadyTx f → Steady c (call_tx f pkt st).1
  unfolding call_tx
  call_tx-Steady none q = s
  call_tx-Steady (some f) q = q c (data_left pkt st) (drop st.cif.offs pkt.payload) st s

  pub advance_tx-Steady : (f : Option (TxFunc D)) → SteadyTx f → Steady c (advance_tx f pkt st).1
  unfolding advance_tx tx_result
  advance_tx-Steady f q = ground (arith, call_tx-Steady f q, s)

  pub advance_rx_ack-Steady :
      (f : Option (St D → St D)) → SteadyNotify f → Steady c (advance_rx_ack f pkt st).1
  unfolding advance_rx_ack
  advance_rx_ack-Steady f q =
      ground (arith, notify-Steady f q c (set_cred ((st.cif.cred + pkt.hflag) % 2 ^ 32) st) s, s)
