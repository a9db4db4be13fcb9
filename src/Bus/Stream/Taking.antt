-- ===== src/Bus/Stream/Taking.antt =====
-- coremodel.c: UART and Ethernet data that a callback takes in parts, or refuses to take.
use coremodel.Base.{
  ℕ, suc, ◌+◌, ◌^◌, ◌≤◌, ◌<◌, ◌≡◌, ap, ◌∙◌, true, false, List, ◌∷◌, some, arith, ◌==◌,
  if◌then◌else◌, drop, get_elem?, ℤ, pos,
}
use coremodel.Packet.{Packet}
use coremodel.If.{St, Verdict, done, hold, set_busy, set_offs, data_len, data_left}
use coremodel.Bus.Stream.{TxFunc, advance_tx}
use coremodel.Bus.Queue.{free_packet, advance_loop}
use coremodel.Bus.Queue.Round.{loop_done}

module _ {D : Type 0} (tx : TxFunc D) (pkt : Packet) (st : St D) where
  -- What the callback is given: the bytes that it has not taken yet, and their number.
  abbrev pub called : ℤ × St D
  called = tx (data_left pkt st) (drop st.cif.offs pkt.payload) st

  -- A callback that takes `k` of the bytes that are left is called next with the bytes behind them,
  -- and the packet is freed exactly when none are left; the next packet begins at its first byte.
  pub advance_tx_takes :
      (k : ℕ) {st1 : St D}
      → st.cif.busy ≡ false
      → pkt.len < 2 ^ 16
      → 8 ≤ pkt.len
      → st.cif.offs ≤ data_len pkt
      → called ≡ (pos k, st1)
      → st1.cif.offs ≡ st.cif.offs
      → 0 < k
      → k ≤ data_left pkt st
      → advance_tx (some tx) pkt st ≡ (
          if k == data_left pkt st
          then (done, set_offs 0 st1)
          else (hold, set_offs (st.cif.offs + k) st1))
  unfolding advance_tx
  advance_tx_takes k idle small head within result kept some_bytes at_most =
      ground (arith, idle, result, kept, some_bytes, at_most, within, head, small)

  advance_tx_stalled :
      {st1 : St D}
      → st.cif.busy ≡ false
      → called ≡ (pos 0, st1)
      → advance_tx (some tx) pkt st ≡ (done, set_busy true st1)
  unfolding advance_tx
  advance_tx_stalled idle result = simp (idle, result)

  -- A callback that takes none, to stall the transmission, loses the packet: it is freed although
  -- the bytes that are left were not taken, and `offs` is not reset for the next one.
  pub advance_tx_stall_drops :
      (fuel : ℕ) {st1 : St D}
      → st.cif.busy ≡ false
      → called ≡ (pos 0, st1)
      → (rest : List Packet) → st.cif.rxbufs ≡ pkt ∷ rest
      → advance_loop (advance_tx (some tx)) (suc fuel) 0 st
        ≡ advance_loop (advance_tx (some tx)) fuel 0 (free_packet 0 (set_busy true st1))
  advance_tx_stall_drops fuel idle result rest e =
      let stalled = advance_tx_stalled idle result in
      loop_done (advance_tx (some tx)) fuel 0 st (ap (λ l. get_elem? l 0) e)
        (ap (λ (x : Verdict × St D). x.0) stalled)
      ∙ ap (λ (x : Verdict × St D). advance_loop (advance_tx (some tx)) fuel 0 (free_packet 0 x.1))
          stalled
