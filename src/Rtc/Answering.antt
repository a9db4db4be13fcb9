-- ===== src/Rtc/Answering.antt =====
-- coremodel.c and examples/i2c-ds3231-rtc/i2c-ds3231.c: the packet that a read of the clock gives.
use coremodel.Base.{
  ℕ, zero, suc, ◌+◌, ◌^◌, ◌<◌, ◌≡◌, refl, sym, ap, ◌∙◌, ◌++◌, false, true, or-false, ◌||◌, arith,
  ◌==◌, length, take, pos, sub_u32, ℤ, List,
}
use coremodel.Packet.{Packet, wire}
use coremodel.Tx.{alloc_ok}
use coremodel.Tx.Flow.{pending}
use coremodel.If.{St, done, set_fault, set_trnidx}
use coremodel.Bus.I2c.{advance_if_i2c, pkt_i2c_done, pkt_i2c_read}
use coremodel.Bus.I2c.Answer.{i2c_read_answers}
use coremodel.Rtc.{Tm}
use coremodel.Rtc.Regs.{Regs}
use coremodel.Rtc.Ds3231.{Ds3231, read_from, i2c_ds3231_read, i2c_ds3231_func}

length-read_from : (now : Tm) (r : Regs) (i n : ℕ) → length (read_from now r i n) ≡ n
unfolding read_from
length-read_from now r i zero = refl
length-read_from now r i (suc n) = ap suc (length-read_from now r (suc i) n)

-- No byte asked for is missing, and the code is without a fault.
i2c_ds3231_read-answers :
    (localtime : ℕ → Tm) (n : ℕ) (s : Ds3231)
    → 0 < n
    → let (fault, bs, s') = i2c_ds3231_read localtime n s in (fault ≡ false) × (length bs ≡ n)
unfolding i2c_ds3231_read
i2c_ds3231_read-answers localtime n s h =
    let nonzero : (n == 0) ≡ false = ground arith in
    rw nonzero (refl, length-read_from (localtime s.regs.system_time) s.regs 0 n)

-- The callback of a read.
abbrev read_callback : (ℕ → Tm) → ℕ → St Ds3231 → ℤ × List ℕ × St Ds3231
read_callback localtime len st =
    let (fault, bs, dev') = i2c_ds3231_read localtime len st.io.dev in
    (pos len, bs, set_fault fault (record st { io = record (st.io) { dev = dev' } }))

-- The state after it, called with what `coremodel_advance_if_i2c` sets up.
abbrev after_read : (ℕ → Tm) → Packet → St Ds3231 → St Ds3231
after_read localtime pkt st = (read_callback localtime pkt.bflag (set_trnidx pkt.hflag st)).2

-- The answer to a request, with the bytes it carries.
abbrev read_done : Packet → ℕ → List ℕ → Packet
read_done pkt conn bs = record {
  len = 8 + pkt.bflag;
  conn = conn;
  pkt = pkt_i2c_done;
  bflag = 0;
  hflag = pkt.hflag;
  payload = bs;
}

-- When the host asks the DS3231 for 1 to 255 bytes, the handler of the I2C interface with the
-- callbacks of the clock is done with the request, queues one PKT_I2C_DONE that carries the bytes of
-- a read of as many registers, and raises no fault. The conditions: the interface is not busy, no
-- read is under way, and the allocation succeeds.
pub clock_answers :
    (localtime : ℕ → Tm) (now : ℕ) (pkt : Packet) (st : St Ds3231)
    → pkt.pkt ≡ pkt_i2c_read
    → 0 < pkt.bflag
    → pkt.bflag < 2 ^ 8
    → pkt.hflag < 2 ^ 16
    → st.cif.busy ≡ false
    → st.cif.offs ≡ 0
    → st.cif.conn < 2 ^ 16
    → alloc_ok st.io.allocs ≡ true
    → let (verdict, st2) = advance_if_i2c (i2c_ds3231_func localtime now) pkt st in
      (verdict ≡ done)
      × (pending st2.io.txbufs
          ≡ pending st.io.txbufs
            ++ wire (read_done pkt st.cif.conn (i2c_ds3231_read localtime pkt.bflag st.io.dev).1))
      × (st2.io.fault ≡ st.io.fault)
unfolding i2c_ds3231_func
clock_answers localtime now pkt st k some_bytes byte hfits idle first cfits ok =
    let answer = i2c_ds3231_read localtime pkt.bflag st.io.dev in
    let (sound, sized) = i2c_ds3231_read-answers localtime pkt.bflag st.io.dev some_bytes in
    let asked : sub_u32 pkt.bflag st.cif.offs ≡ pkt.bflag = omega arith in
    let (verdict, offs, queue, unharmed) =
      i2c_read_answers (i2c_ds3231_func localtime now) (read_callback localtime) pkt answer.1 st
        {st1 = after_read localtime pkt st} refl
        (ap (λ len. read_callback localtime len (set_trnidx pkt.hflag st)) asked
          ∙ ap (λ n. (pos n, answer.1, after_read localtime pkt st)) (sym sized))
        refl (omega (arith, sized)) (omega (arith, sized)) byte (omega arith) k idle cfits hfits
        ok in
    (
      verdict,
      queue
          ∙ ap
              (λ o.
                pending st.io.txbufs
                ++ wire (read_done pkt st.cif.conn (take o st.cif.rdbuf ++ answer.1)))
              first,
      unharmed ∙ ap (◌||◌ st.io.fault) sound ∙ or-false st.io.fault,
    )
