-- ===== src/Bus/Stream.antt =====
-- coremodel.c: what the handlers of UART and Ethernet do alike: data that a callback may take in
-- parts, and credits for data in the other direction.
pub mod Taking
pub mod Keeping
use coremodel.Base.{
  ◌≡◌, refl, ◌⊎◌, arith, ℕ, ◌+◌, ◌%◌, ◌^◌, Bool, List, Option, none, some, ltb, ◌==◌, true,
  if◌then◌else◌, ℤ, pos, is_zero, to_int, drop,
}
use coremodel.Packet.{Packet}
use coremodel.If.{
  If, St, Verdict, done, hold, set_busy, set_offs, set_cred, add_offs, notify, data_len, data_left,
  Same, Holds, QuietNotify,
}

-- `int (*tx)(void *priv, unsigned len, uint8_t *data)`
abbrev pub TxFunc : Type 0 → Type 0
TxFunc D = ℕ → List ℕ → St D → ℤ × St D

module _ {D : Type 0} where
  call_tx : Option (TxFunc D) → Packet → St D → ℤ × St D
  call_tx none pkt st = (to_int (data_left pkt st), st)
  call_tx (some tx) pkt st = tx (data_left pkt st) (drop st.cif.offs pkt.payload) st

  -- What the result of the callback leads to. The `break` at 0 goes to the `return 0` at the end of
  -- the function, so that the packet is freed.
  tx_result : Packet → ℤ × St D → Verdict × St D
  tx_result pkt (res, st) =
      let offs' = add_offs res st in
      if is_zero res
      then (done, set_busy true st)
      else if ltb offs' (data_len pkt)
      then (hold, set_offs offs' st)
      else (done, set_offs 0 st)

  unfoldable pub advance_tx : Option (TxFunc D) → Packet → St D → Verdict × St D
  unfolding call_tx tx_result
  advance_tx tx pkt st = if st.cif.busy then (hold, st) else tx_result pkt (call_tx tx pkt st)

  -- Credits come back; the device is told when it had none left.
  unfoldable pub advance_rx_ack : Option (St D → St D) → Packet → St D → Verdict × St D
  advance_rx_ack rxrdy pkt st =
      let credited = set_cred ((st.cif.cred + pkt.hflag) % 2 ^ 32) st in
      (done, if st.cif.cred == 0 then notify rxrdy credited else credited)

abbrev pub QuietTx : {D : Type 0} → Option (TxFunc D) → Type 0
QuietTx {D} f = Holds f (λ g. (n : ℕ) (bs : List ℕ) (st : St D) → Same st (g n bs st).1)

module _ {D : Type 0} where
  call_tx-Same :
      (f : Option (TxFunc D))
      → QuietTx f
      → (pkt : Packet) (st : St D) → Same st (call_tx f pkt st).1
  unfolding call_tx
  call_tx-Same none q pkt st = (refl, refl)
  call_tx-Same (some f) q pkt st = q (data_left pkt st) (drop st.cif.offs pkt.payload) st

  pub advance_tx-queue :
      (f : Option (TxFunc D))
      → QuietTx f
      → (pkt : Packet) (st : St D)
      → ((advance_tx f pkt st).1.cif.rxbufs ≡ st.cif.rxbufs)
        × (((advance_tx f pkt st).0 ≡ done) ⊎ ((advance_tx f pkt st).0 ≡ hold))
  unfolding advance_tx tx_result
  advance_tx-queue f q pkt st = unfold call_tx in ground (arith, call_tx-Same f q pkt st)

  pub advance_rx_ack-queue :
      (f : Option (St D → St D))
      → QuietNotify f
      → (pkt : Packet) (st : St D)
      → ((advance_rx_ack f pkt st).1.cif.rxbufs ≡ st.cif.rxbufs)
        × ((advance_rx_ack f pkt st).0 ≡ done)
  unfolding advance_rx_ack
  advance_rx_ack-queue none q pkt st = ground arith
  advance_rx_ack-queue (some f) q pkt st =
      ground (arith, q (set_cred ((st.cif.cred + pkt.hflag) % 2 ^ 32) st))
