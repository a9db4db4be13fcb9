-- ===== src/Bus/Spi.antt =====
-- coremodel.c: SPI. coremodel.h: `coremodel_spi_func_t`.
pub mod Keeping
pub mod Parts
pub mod Answer
mod Tests
use coremodel.Base.{
  ◌≡◌, refl, ◌⊎◌, arith, ℕ, ◌%◌, true, List, Option, none, some, ltb, ◌==◌, if◌then◌else◌, ℤ, pos,
  negsuc, is_zero, to_int, to_unsigned, drop,
}
use coremodel.Packet.{Packet}
use coremodel.If.{
  St, Verdict, done, hold, set_busy, set_offs, set_trnidx, add_offs, push, reply, write_rdbuf,
  data_len, data_left, Same, Holds,
}

abbrev pub pkt_spi_cs : ℕ
pkt_spi_cs = 0x00

abbrev pub pkt_spi_tx : ℕ
pkt_spi_tx = 0x01

abbrev pub pkt_spi_rx : ℕ
pkt_spi_rx = 0x02

-- `cs` takes the level; `xfr` returns its result and the bytes that it writes to the buffer.
pub record SpiFunc (D : Type 0) : Type 0 where
  pub cs : Option (ℕ → St D → St D)
  pub xfr : Option (ℕ → List ℕ → St D → ℤ × List ℕ × St D)

-- `if(res > 256) res = 256;`
abbrev pub at_most_256 : ℤ → ℤ
at_most_256 (pos n) = if ltb 256 n then pos 256 else pos n
at_most_256 (negsuc n) = negsuc n

module _ {D : Type 0} where
  call_cs : Option (ℕ → St D → St D) → Packet → St D → St D
  call_cs none pkt st = st
  call_cs (some f) pkt st = f (pkt.bflag % 2) st

  -- `res` is the number of bytes that are asked for.
  call_xfr : Option (ℕ → List ℕ → St D → ℤ × List ℕ × St D) → ℤ → Packet → St D → ℤ × St D
  call_xfr none res pkt st = (res, st)
  call_xfr (some f) res pkt st =
      let (res', bs, st') = f (to_unsigned res) (drop st.cif.offs pkt.payload) st in
      (res', write_rdbuf st.cif.offs bs st')

  -- What the result of the callback leads to.
  spi_result : Packet → ℤ × St D → Verdict × St D
  spi_result pkt (res, st) =
      let offs' = add_offs res st in
      let finished = set_offs 0 st in
      if is_zero res
      then (hold, set_busy true st)
      else (if ltb offs' (data_len pkt) then (hold, set_offs offs' st) else (
        done,
        (push (reply pkt.len st.cif.conn pkt_spi_rx 0 st.cif.trnidx) (some st.cif.rdbuf)
            finished).1,
      ))

  spi_tx : SpiFunc D → Packet → St D → Verdict × St D
  unfolding call_xfr spi_result
  spi_tx f pkt st = spi_result pkt (call_xfr f.xfr (at_most_256 (to_int (data_left pkt st))) pkt st)

  unfoldable pub advance_if_spi : SpiFunc D → Packet → St D → Verdict × St D
  unfolding call_cs spi_tx
  advance_if_spi f pkt st =
      if pkt.pkt == pkt_spi_cs
      then (done, call_cs f.cs pkt st)
      else (if pkt.pkt == pkt_spi_tx
          then (if st.cif.busy then (hold, st) else spi_tx f pkt (set_trnidx pkt.hflag st))
          else (done, st))

module _ {D : Type 0} where
  -- The callbacks of an SPI device leave its queue and `busy` alone.
  abbrev pub QuietSpi : SpiFunc D → Type 0
  QuietSpi f =
      Holds f.cs (λ g. (n : ℕ) (st : St D) → Same st (g n st))
      × Holds f.xfr (λ g. (n : ℕ) (bs : List ℕ) (st : St D) → Same st (g n bs st).2)

  call_cs-Same :
      (f : Option (ℕ → St D → St D))
      → Holds f (λ g. (n : ℕ) (st : St D) → Same st (g n st))
      → (pkt : Packet) (st : St D) → Same st (call_cs f pkt st)
  unfolding call_cs
  call_cs-Same none q pkt st = (refl, refl)
  call_cs-Same (some f) q pkt st = q (pkt.bflag % 2) st

  call_xfr-Same :
      (f : Option (ℕ → List ℕ → St D → ℤ × List ℕ × St D))
      → Holds f (λ g. (n : ℕ) (bs : List ℕ) (st : St D) → Same st (g n bs st).2)
      → (res : ℤ) (pkt : Packet) (st : St D) → Same st (call_xfr f res pkt st).1
  unfolding call_xfr
  call_xfr-Same none q res pkt st = (refl, refl)
  call_xfr-Same (some f) q res pkt st = q (to_unsigned res) (drop st.cif.offs pkt.payload) st

  pub advance_if_spi-queue :
      (f : SpiFunc D)
      → QuietSpi f
      → (pkt : Packet) (st : St D)
      → ((advance_if_spi f pkt st).1.cif.rxbufs ≡ st.cif.rxbufs)
        × (((advance_if_spi f pkt st).0 ≡ done) ⊎ ((advance_if_spi f pkt st).0 ≡ hold))
  unfolding advance_if_spi
  advance_if_spi-queue f q pkt st =
      let st' = set_trnidx pkt.hflag st in
      ground (
        arith,
        call_cs-Same f.cs q.0 pkt st,
        call_xfr-Same f.xfr q.1 (at_most_256 (to_int (data_left pkt st'))) pkt st',
      )
