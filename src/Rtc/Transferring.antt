-- ===== src/Rtc/Transferring.antt =====
-- coremodel.c and examples/spi-ds3234-rtc/spi-ds3234.c: the packet that a transfer to the clock gives.
use coremodel.Base.{
  ℕ, suc, ◌+◌, ◌^◌, ◌<◌, ◌≡◌, refl, ap, ◌∙◌, ◌++◌, or-false, true, false, List, ◌∷◌, arith, length,
  take, take_all, ℤ, pos,
}
use coremodel.Packet.{Packet, wire}
use coremodel.Tx.{alloc_ok}
use coremodel.Tx.Flow.{pending}
use coremodel.If.{St, done, set_fault, set_trnidx}
use coremodel.Bus.Spi.{advance_if_spi, pkt_spi_rx, pkt_spi_tx}
use coremodel.Bus.Spi.Answer.{spi_xfr_answers}
use coremodel.Rtc.{Tm}
use coremodel.Rtc.Ds3234.{Ds3234, transfer, spi_ds3234_xfr, spi_ds3234_func}
use coremodel.Rtc.Memory.{length-transfer}

-- The callback of a transfer.
abbrev xfr_callback : (ℕ → Tm) → ℕ → List ℕ → St Ds3234 → ℤ × List ℕ × St Ds3234
xfr_callback localtime len bs st =
    let (fault, vs, dev') = spi_ds3234_xfr localtime (take len bs) st.io.dev in
    (pos len, vs, set_fault fault (record st { io = record (st.io) { dev = dev' } }))

module _ (localtime : ℕ → Tm) (now cmd : ℕ) (ds : List ℕ) (pkt : Packet) (st : St Ds3234) where
  -- What the clock does with the bytes.
  abbrev pub outcome : List ℕ × Ds3234
  outcome = transfer (localtime st.io.dev.regs.system_time) cmd ds st.io.dev

  abbrev after_xfr : St Ds3234
  after_xfr =
      let st' = set_trnidx pkt.hflag st in
      set_fault false (record st' { io = record (st'.io) { dev = outcome.1 } })

  callback-after_xfr :
      pkt.payload ≡ cmd ∷ ds
      → xfr_callback localtime (length outcome.0) pkt.payload (set_trnidx pkt.hflag st)
        ≡ (pos (length outcome.0), outcome.0, after_xfr)
  unfolding spi_ds3234_xfr
  callback-after_xfr bytes =
      let n = length outcome.0 in
      let count = length-transfer (localtime st.io.dev.regs.system_time) cmd ds st.io.dev in
      let whole : take n pkt.payload ≡ cmd ∷ ds =
        ap (take n) bytes ∙ take_all n (cmd ∷ ds) (omega (arith, count)) in
      rw whole refl

  -- When the host sends the DS3234 a command and up to 255 bytes, the handler of the SPI interface
  -- with the callbacks of the clock is done with the request, queues one PKT_SPI_RX that carries as
  -- many bytes, those that the transfer gives, leaves the clock in the state of the transfer, and
  -- raises no fault. The conditions: the interface is not busy, no transfer is under way, and the
  -- allocation succeeds.
  pub spi_clock_answers :
      pkt.pkt ≡ pkt_spi_tx
      → pkt.payload ≡ cmd ∷ ds
      → pkt.len ≡ 8 + suc (length ds)
      → length ds < 256
      → pkt.hflag < 2 ^ 16
      → st.cif.busy ≡ false
      → st.cif.offs ≡ 0
      → st.cif.conn < 2 ^ 16
      → alloc_ok st.io.allocs ≡ true
      → let (verdict, st2) = advance_if_spi (spi_ds3234_func localtime now) pkt st in
        (verdict ≡ done)
        × (pending st2.io.txbufs
            ≡ pending st.io.txbufs
              ++ wire (record {
                len = 8 + length outcome.0;
                conn = st.cif.conn;
                pkt = pkt_spi_rx;
                bflag = 0;
                hflag = pkt.hflag;
                payload = outcome.0;
              }))
        × (length outcome.0 ≡ suc (length ds))
        × (st2.io.dev ≡ outcome.1)
        × (st2.io.fault ≡ st.io.fault)
  unfolding spi_ds3234_func
  spi_clock_answers k bytes sized short hfits idle first cfits ok =
      let count = length-transfer (localtime st.io.dev.regs.system_time) cmd ds st.io.dev in
      let (verdict, queue, dev, unharmed) =
        spi_xfr_answers (spi_ds3234_func localtime now) (xfr_callback localtime) pkt outcome.0 st
          {st1 = after_xfr} refl (callback-after_xfr bytes) first refl (omega (arith, count))
          (omega (arith, count)) (omega (arith, count)) k idle cfits hfits ok in
      (verdict, queue, count, dev, unharmed ∙ or-false st.io.fault)
