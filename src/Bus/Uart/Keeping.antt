-- ===== src/Bus/Uart/Keeping.antt =====
-- coremodel.c: `coremodel_advance_if_uart` leaves the connection as it is.
use coremodel.Base.{arith, ℕ}
use coremodel.Packet.{Packet}
use coremodel.If.{St, Steady, SteadyNotify, notify-Steady}
use coremodel.Bus.Stream.Keeping.{SteadyTx, advance_tx-Steady, advance_rx_ack-Steady}
use coremodel.Bus.Uart.{UartFunc, advance_if_uart}

abbrev pub SteadyUart : {D : Type 0} → UartFunc D → Type 0
SteadyUart f = SteadyTx f.tx × SteadyNotify f.brk × SteadyNotify f.rxrdy

pub advance_if_uart-Steady :
    {D : Type 0} (f : UartFunc D)
    → SteadyUart f
    → (c : ℕ) (pkt : Packet) (st : St D) → Steady c st
    → Steady c (advance_if_uart f pkt st).1
unfolding advance_if_uart
advance_if_uart-Steady f q c pkt st s = ground (
  arith,
  advance_tx-Steady c pkt st s f.tx q.0,
  advance_rx_ack-Steady c pkt st s f.rxrdy q.2,
  notify-Steady f.brk q.1 c st s,
  s,
)
