-- ===== src/Bus/Spi/Parts.antt =====
-- coremodel.c: an SPI transfer that is longer than one call of the device.
use coremodel.Base.{
  ℕ, ◌^◌, ◌<◌, ◌≡◌, ap, subst, ◌∙◌, true, false, List, ◌∷◌, some, arith, ltb, ◌==◌, if◌then◌else◌,
  drop, ℤ, pos, to_int,
}
use coremodel.Packet.{Packet}
use coremodel.If.{St, done, hold, set_offs, set_trnidx, write_rdbuf, data_len, data_left, add_offs}
use coremodel.Bus.Spi.{
  SpiFunc, advance_if_spi, spi_tx, spi_result, call_cs, pkt_spi_cs, call_xfr, at_most_256,
  pkt_spi_tx,
}
use coremodel.Bus.Queue.{advance_if}
use coremodel.Bus.Queue.Ends.{advance_if_held}

module _ {D : Type 0} (f : SpiFunc D) (xfr : ℕ → List ℕ → St D → ℤ × List ℕ × St D) (pkt : Packet)
    (bs : List ℕ) (st : St D) {st1 : St D} (has : f.xfr ≡ some xfr)
    (answer : xfr 256 pkt.payload (set_trnidx pkt.hflag st) ≡ (pos 256, bs, st1))
    (start : st.cif.offs ≡ 0) (kept : st1.cif.offs ≡ 0) (more : 264 < pkt.len)
    (fits : pkt.len < 2 ^ 16) where
  first_call :
      call_xfr f.xfr (pos 256) pkt (set_trnidx pkt.hflag st) ≡ (pos 256, write_rdbuf 0 bs st1)
  unfolding call_xfr
  first_call =
      let st' = set_trnidx pkt.hflag st in
      let called = λ (o : ℕ).
        let (res, out, s) = xfr 256 (drop o pkt.payload) st' in
        Path (ℤ × St D) (call_xfr f.xfr (pos 256) pkt st') (res, write_rdbuf o out s) in
      let here : called st.cif.offs = ap (λ x. call_xfr x (pos 256) pkt st') has in
      subst called start here ∙ ap (λ (x : ℤ × List ℕ × St D). (x.0, write_rdbuf 0 x.1 x.2)) answer

  part_result :
      spi_result pkt (pos 256, write_rdbuf 0 bs st1) ≡ (hold, set_offs 256 (write_rdbuf 0 bs st1))
  unfolding spi_result
  part_result =
      let part : ltb (add_offs (pos 256) st1) (data_len pkt) ≡ true = ground arith in
      let next : add_offs (pos 256) st1 ≡ 256 = omega arith in
      simp part (ap (λ n. (hold, set_offs n (write_rdbuf 0 bs st1))) next)

  first_part : spi_tx f pkt (set_trnidx pkt.hflag st) ≡ (hold, set_offs 256 (write_rdbuf 0 bs st1))
  unfolding spi_tx
  first_part =
      let asked : at_most_256 (to_int (data_left pkt (set_trnidx pkt.hflag st))) ≡ pos 256 =
        ground arith in
      let st' = set_trnidx pkt.hflag st in
      ap (spi_result pkt) (ap (λ n. call_xfr f.xfr n pkt st') asked ∙ first_call) ∙ part_result

  -- A transfer of more than 256 bytes to a device that is not stalled, and takes all 256 bytes that
  -- its first call offers, stops there: the loop ends in the state that the device left, with the 256
  -- bytes counted and its answer in the buffer. The packet is not freed and no reply is pushed.
  pub spi_long_transfer_waits :
      (rest : List Packet)
      → pkt.pkt ≡ pkt_spi_tx
      → st.cif.busy ≡ false
      → st.cif.defer_pkt ≡ false
      → st.cif.rxbufs ≡ pkt ∷ rest
      → advance_if (advance_if_spi f) st ≡ some (set_offs 256 (write_rdbuf 0 bs st1))
  unfolding advance_if_spi
  spi_long_transfer_waits rest k idle now queue =
      let v : advance_if_spi f pkt st ≡ (hold, set_offs 256 (write_rdbuf 0 bs st1)) =
        ap
          (λ n.
            if n == pkt_spi_cs
            then (done, call_cs f.cs pkt st)
            else (if n == pkt_spi_tx
                then (if st.cif.busy then (hold, st) else spi_tx f pkt (set_trnidx pkt.hflag st))
                else (done, st)))
          k
        ∙ ap (λ b. if b then (hold, st) else spi_tx f pkt (set_trnidx pkt.hflag st)) idle
        ∙ first_part in
      advance_if_held (advance_if_spi f) pkt rest st now queue v
