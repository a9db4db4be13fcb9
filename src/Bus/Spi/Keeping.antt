-- ===== src/Bus/Spi/Keeping.antt =====
-- coremodel.c: `coremodel_advance_if_spi` leaves the connection as it is.
use coremodel.Base.{arith, ℕ, ◌%◌, List, Option, none, some, drop, ℤ, to_int, to_unsigned}
use coremodel.Packet.{Packet}
use coremodel.If.{St, Steady, Holds, data_left, set_trnidx, set_offs, reply, push-Steady}
use coremodel.Bus.Spi.{SpiFunc, advance_if_spi, spi_tx, call_cs, call_xfr, at_most_256, pkt_spi_rx}

abbrev SteadyCs : {D : Type 0} → Option (ℕ → St D → St D) → Type 0
SteadyCs {D} f = Holds f (λ g. (c n : ℕ) (st : St D) → Steady c st → Steady c (g n st))

abbrev SteadyXfr : {D : Type 0} → Option (ℕ → List ℕ → St D → ℤ × List ℕ × St D) → Type 0
SteadyXfr {D} f =
    Holds f (λ g. (c n : ℕ) (bs : List ℕ) (st : St D) → Steady c st → Steady c (g n bs st).2)

abbrev pub SteadySpi : {D : Type 0} → SpiFunc D → Type 0
SteadySpi f = SteadyCs f.cs × SteadyXfr f.xfr

module _ {D : Type 0} (c : ℕ) (pkt : Packet) (st : St D) (s : Steady c st) where
  call_cs-Steady : (f : Option (ℕ → St D → St D)) → SteadyCs f → Steady c (call_cs f pkt st)
  unfolding call_cs
  call_cs-Steady none q = s
  call_cs-Steady (some f) q = q c (pkt.bflag % 2) st s

  call_xfr-Steady :
      (f : Option (ℕ → List ℕ → St D → ℤ × List ℕ × St D)) (res : ℤ)
      → SteadyXfr f
      → Steady c (call_xfr f res pkt st).1
  unfolding call_xfr
  call_xfr-Steady none res q = s
  call_xfr-Steady (some f) res q = q c (to_unsigned res) (drop st.cif.offs pkt.payload) st s

  spi_tx-Steady : (f : SpiFunc D) → SteadySpi f → Steady c (spi_tx f pkt st).1
  unfolding spi_tx
  spi_tx-Steady f q =
      let res = at_most_256 (to_int (data_left pkt st)) in
      let k = call_xfr-Steady f.xfr res q.1 in
      let st' = (call_xfr f.xfr res pkt st).1 in
      let sent =
        push-Steady c (reply pkt.len st'.cif.conn pkt_spi_rx 0 st'.cif.trnidx) (some st'.cif.rdbuf)
          (set_offs 0 st') k in
      ground (arith, k, sent)

module _ {D : Type 0} (c : ℕ) (pkt : Packet) (st : St D) (s : Steady c st) where
  pub advance_if_spi-Steady : (f : SpiFunc D) → SteadySpi f → Steady c (advance_if_spi f pkt st).1
  unfolding advance_if_spi
  advance_if_spi-Steady f q = ground (
    arith,
    call_cs-Steady c pkt st s f.cs q.0,
    spi_tx-Steady c pkt (set_trnidx pkt.hflag st) s f q,
    s,
  )
