-- ===== src/Bus/Uart/Credit.antt =====
-- coremodel.c: the credits that bound what `coremodel_uart_rx` sends.
use coremodel.Base.{
  ℕ, ◌+◌, ◌-◌, ◌%◌, ◌^◌, ◌++◌, ◌≤◌, ◌<◌, ◌≡◌, refl, ap, ◌∙◌, true, false, List, some, arith, ◌==◌,
  min, take, length, length-take,
}
use coremodel.Packet.{Packet, wire}
use coremodel.Packet.Wire.{IsWellFormed}
use coremodel.Tx.{with_data, alloc_ok}
use coremodel.Tx.Flow.{pending}
use coremodel.Tx.Push.{push_packet-Pushed}
use coremodel.If.{St, reply}
use coremodel.Bus.Uart.{uart_rx, pkt_uart_rx}

module _ {D : Type 0} (len : ℕ) (bytes : List ℕ) (st : St D) where
  -- The packet that carries the first `n` bytes.
  abbrev pub rx_packet : ℕ → Packet
  rx_packet n = record {
    len = 8 + n;
    conn = st.cif.conn;
    pkt = pkt_uart_rx;
    bflag = 0;
    hflag = 0;
    payload = take n bytes;
  }

  -- `coremodel_uart_rx` sends no more bytes than it is given and than there are credits, and uses up
  -- one credit for each byte that it reports as sent, on every path.
  pub uart_rx_credit :
      let (n, st') = uart_rx len bytes st in
      (n + st'.cif.cred ≡ st.cif.cred) × (n ≤ len) × (n ≤ st.cif.cred)
  unfolding uart_rx
  uart_rx_credit = ground arith

  -- With credits left and an allocation that succeeds it sends as many bytes as the credits allow, in
  -- one packet, and reports their number. The bytes are those that it is given, and the packet's
  -- length fits its 16 bits.
  pub uart_rx_sends :
      length bytes ≡ len
      → 0 < st.cif.cred
      → 8 + min len st.cif.cred < 2 ^ 16
      → st.cif.conn < 2 ^ 16
      → alloc_ok st.io.allocs ≡ true
      → let (n, st') = uart_rx len bytes st in
        (n ≡ min len st.cif.cred)
        × (pending st'.io.txbufs ≡ pending st.io.txbufs ++ wire (rx_packet n))
        × (st'.io.fault ≡ st.io.fault)
  unfolding uart_rx
  uart_rx_sends e c fits cfits ok =
      let n = min len st.cif.cred in
      let whole : 8 + n - 8 ≡ n = omega arith in
      let small : (8 + n) % 2 ^ 16 ≡ 8 + n = omega arith in
      let open_window : (st.cif.cred == 0) ≡ false = ground arith in
      let formed : IsWellFormed
          (with_data (reply (8 + n) st.cif.conn pkt_uart_rx 0 0) (some bytes)) =
        omega (arith, length-take (8 + n - 8) bytes) in
      let d =
        push_packet-Pushed (reply (8 + n) st.cif.conn pkt_uart_rx 0 0) (some bytes) st.io formed
          ok in
      let same = ap (λ k. wire (record (rx_packet n) { payload = take k bytes })) whole in
      rw (open_window, small, d.accepted)
        (refl, d.queue ∙ ap (◌++◌ (pending st.io.txbufs)) same, d.unharmed)
