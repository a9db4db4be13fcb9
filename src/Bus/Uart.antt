-- ===== src/Bus/Uart.antt =====
-- coremodel.c: UART. coremodel.h: `coremodel_uart_func_t`.
pub mod Keeping
pub mod Credit
use coremodel.Base.{
  ◌≡◌, refl, ◌⊎◌, arith, ℕ, ◌+◌, ◌-◌, ◌%◌, ◌^◌, Bool, List, [], Option, none, some, ltb, ◌==◌,
  if◌then◌else◌, min, u16,
}
use coremodel.Packet.{Packet}
use coremodel.If.{
  If, St, Verdict, done, hold, set_cred, push, notify, reply, Same, QuietNotify, notify-Same,
}
use coremodel.Bus.Stream.{
  TxFunc, QuietTx, advance_tx, advance_rx_ack, advance_tx-queue, advance_rx_ack-queue,
}

abbrev pub pkt_uart_tx : ℕ
pkt_uart_tx = 0x00

abbrev pub pkt_uart_rx : ℕ
pkt_uart_rx = 0x01

abbrev pub pkt_uart_rx_ack : ℕ
pkt_uart_rx_ack = 0x02

abbrev pub pkt_uart_brk : ℕ
pkt_uart_brk = 0x03

pub record UartFunc (D : Type 0) : Type 0 where
  pub tx : Option (TxFunc D)
  pub brk : Option (St D → St D)
  pub rxrdy : Option (St D → St D)

module _ {D : Type 0} where
  unfoldable pub advance_if_uart : UartFunc D → Packet → St D → Verdict × St D
  advance_if_uart f pkt st =
      if pkt.pkt == pkt_uart_tx
      then advance_tx f.tx pkt st
      else (if pkt.pkt == pkt_uart_rx_ack
          then advance_rx_ack f.rxrdy pkt st
          else if pkt.pkt == pkt_uart_brk
          then (done, notify f.brk st)
          else (done, st))

  -- `coremodel_uart_rx` on an interface that is there: how many bytes were sent.
  unfoldable pub uart_rx : ℕ → List ℕ → St D → ℕ × St D
  uart_rx len data' st =
      let len' = min len st.cif.cred in
      let (failed, st') =
        push (reply (u16 (8 + len')) st.cif.conn pkt_uart_rx 0 0) (some data') st in
      if st.cif.cred == 0
      then (0, st)
      else if failed
      then (0, st')
      else (len', set_cred (st.cif.cred - len') st')

module _ {D : Type 0} where
  -- The callbacks of a UART leave its queue and `busy` alone.
  abbrev pub QuietUart : UartFunc D → Type 0
  QuietUart f = QuietTx f.tx × QuietNotify f.brk × QuietNotify f.rxrdy

  pub advance_if_uart-queue :
      (f : UartFunc D)
      → QuietUart f
      → (pkt : Packet) (st : St D)
      → ((advance_if_uart f pkt st).1.cif.rxbufs ≡ st.cif.rxbufs)
        × (((advance_if_uart f pkt st).0 ≡ done) ⊎ ((advance_if_uart f pkt st).0 ≡ hold))
  unfolding advance_if_uart
  advance_if_uart-queue f q pkt st = ground (
    arith,
    advance_tx-queue f.tx q.0 pkt st,
    advance_rx_ack-queue f.rxrdy q.2 pkt st,
    notify-Same f.brk q.1 st,
  )
