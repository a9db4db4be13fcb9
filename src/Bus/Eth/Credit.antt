-- ===== src/Bus/Eth/Credit.antt =====
-- coremodel.c: the credits that bound what `coremodel_eth_rx` sends.
use coremodel.Base.{
  ℕ, ◌+◌, ◌-◌, ◌%◌, ◌^◌, ◌++◌, ◌<◌, ◌≡◌, refl, ap, ◌∙◌, true, false, List, some, arith, ◌==◌, take,
  length, length-take,
}
use coremodel.Packet.{wire}
use coremodel.Packet.Wire.{IsWellFormed}
use coremodel.Tx.{with_data, alloc_ok}
use coremodel.Tx.Flow.{pending}
use coremodel.Tx.Push.{push_packet-Pushed}
use coremodel.If.{St, reply}
use coremodel.Bus.Eth.{eth_rx, pkt_eth_rx}

module _ {D : Type 0} where
  -- `coremodel_eth_rx` with credit left sends the frame whole, in one packet of its own, for one
  -- credit, if an allocation succeeds and the frame's length fits the 16-bit field.
  pub eth_rx_sends :
      (bytes : List ℕ) (st : St D)
      → 0 < st.cif.cred
      → 8 + length bytes < 2 ^ 16
      → st.cif.conn < 2 ^ 16
      → alloc_ok st.io.allocs ≡ true
      → let (err, st') = eth_rx (length bytes) bytes st in
        (err ≡ 0)
        × (st'.cif.cred + 1 ≡ st.cif.cred)
        × (pending st'.io.txbufs
            ≡ pending st.io.txbufs
              ++ wire (record {
                len = 8 + length bytes;
                conn = st.cif.conn;
                pkt = pkt_eth_rx;
                bflag = 0;
                hflag = 0;
                payload = take (length bytes) bytes;
              }))
        × (st'.io.fault ≡ st.io.fault)
  unfolding eth_rx
  eth_rx_sends bytes st c fits cfits ok =
      let n = length bytes in
      let whole : 8 + n - 8 ≡ n = omega arith in
      let small : (8 + n) % 2 ^ 16 ≡ 8 + n = omega arith in
      let open_window : (st.cif.cred == 0) ≡ false = ground arith in
      let p = reply (8 + n) st.cif.conn pkt_eth_rx 0 0 in
      let formed : IsWellFormed (with_data p (some bytes)) =
        omega (arith, length-take (8 + n - 8) bytes) in
      let d = push_packet-Pushed p (some bytes) st.io formed ok in
      let same = ap (λ k. wire (record p { payload = take k bytes })) whole in
      rw (open_window, small, d.accepted)
        (refl, omega arith, d.queue ∙ ap (◌++◌ (pending st.io.txbufs)) same, d.unharmed)
