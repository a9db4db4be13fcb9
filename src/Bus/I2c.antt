-- ===== src/Bus/I2c.antt =====
-- coremodel.c: I2C. coremodel.h: `coremodel_i2c_func_t`.
pub mod Answer
pub mod Keeping
pub mod Stall
mod Tests
use coremodel.Base.{
  ◌≡◌, refl, ◌⊎◌, arith, ℕ, ◌+◌, ◌%◌, true, List, Option, none, some, ltb, ◌==◌, if◌then◌else◌, min,
  ℤ, pos, negsuc, is_zero, is_neg, to_int, drop, sub_u32,
}
use coremodel.Packet.{Packet}
use coremodel.If.{
  St, Verdict, done, hold, set_busy, set_offs, set_trnidx, add_offs, push, notify, reply,
  write_rdbuf, data_len, data_left, Same, Holds, QuietNotify, notify-Same,
}

abbrev pub pkt_i2c_start : ℕ
pkt_i2c_start = 0x00

abbrev pub pkt_i2c_write : ℕ
pkt_i2c_write = 0x01

abbrev pub pkt_i2c_read : ℕ
pkt_i2c_read = 0x02

abbrev pub pkt_i2c_stop : ℕ
pkt_i2c_stop = 0x03

abbrev pub pkt_i2c_done : ℕ
pkt_i2c_done = 0x04

-- `read` returns its result and the bytes that it writes to the buffer.
pub record I2cFunc (D : Type 0) : Type 0 where
  pub start : Option (St D → ℤ × St D)
  pub write : Option (ℕ → List ℕ → St D → ℤ × St D)
  pub read : Option (ℕ → St D → ℤ × List ℕ × St D)
  pub stop : Option (St D → St D)

module _ {D : Type 0} where
  -- `coremodel_push_packet` of a PKT_I2C_DONE without data, if the packet asks for it.
  abbrev push_done : ℕ → Packet → ℕ → St D → St D
  push_done conn pkt nak st =
      if (pkt.bflag % 2) == 1
      then (push (reply 8 conn pkt_i2c_done nak pkt.hflag) none st).1
      else st

  call_start : Option (St D → ℤ × St D) → St D → ℤ × St D
  call_start none st = (pos 1, st)
  call_start (some f) st = f st

  call_write : Option (ℕ → List ℕ → St D → ℤ × St D) → Packet → St D → ℤ × St D
  call_write none pkt st = (negsuc 0, st)
  call_write (some f) pkt st = f (data_left pkt st) (drop st.cif.offs pkt.payload) st

  -- The bytes that the callback produces go to `rdbuf` at the place where the call began.
  call_read : Option (ℕ → St D → ℤ × List ℕ × St D) → Packet → St D → ℤ × St D
  call_read none pkt st = (to_int (sub_u32 pkt.bflag st.cif.offs), st)
  call_read (some f) pkt st =
      let (res, bs, st') = f (sub_u32 pkt.bflag st.cif.offs) st in
      (res, write_rdbuf st.cif.offs bs st')

  i2c_start : I2cFunc D → Packet → St D → Verdict × St D
  unfolding call_start
  i2c_start f pkt st =
      let (res, st') = call_start f.start st in
      if is_zero res
      then (hold, set_busy true st')
      else (done, push_done st.cif.conn pkt (if is_neg res then 1 else 0) st')

  i2c_write : I2cFunc D → Packet → St D → Verdict × St D
  unfolding call_write
  i2c_write f pkt st =
      let (res, st') = call_write f.write pkt st in
      let offs' = add_offs res st' in
      if is_zero res
      then (hold, set_busy true st')
      else (if is_neg res
          then (done, push_done st.cif.conn pkt 1 st')
          else (if ltb offs' (data_len pkt)
              then (hold, set_offs offs' st')
              else (done, push_done st.cif.conn pkt 0 (set_offs 0 st'))))

  i2c_read : I2cFunc D → Packet → St D → Verdict × St D
  unfolding call_read
  i2c_read f pkt st =
      let (res, st') = call_read f.read pkt st in
      let offs' = add_offs res st' in
      let finished = set_offs 0 st' in
      if is_zero res
      then (hold, set_busy true st')
      else (if ltb offs' pkt.bflag then (hold, set_offs offs' st') else (
        done,
        (push (reply (8 + pkt.bflag) st.cif.conn pkt_i2c_done 0 pkt.hflag) (some st'.cif.rdbuf)
            finished).1,
      ))

  unfoldable pub advance_if_i2c : I2cFunc D → Packet → St D → Verdict × St D
  unfolding i2c_start i2c_write i2c_read
  advance_if_i2c f pkt st =
      let st' = set_trnidx pkt.hflag st in
      if st.cif.busy
      then (hold, st)
      else (if pkt.pkt == pkt_i2c_start
          then i2c_start f pkt st'
          else (if pkt.pkt == pkt_i2c_write
              then i2c_write f pkt st'
              else (if pkt.pkt == pkt_i2c_read
                  then i2c_read f pkt st'
                  else if pkt.pkt == pkt_i2c_stop
                  then (done, notify f.stop st')
                  else (done, st'))))

  -- `coremodel_i2c_push_read` on an interface that is there.
  unfoldable pub i2c_push_read : ℕ → List ℕ → St D → ℕ × St D
  i2c_push_read len data' st =
      let len' = min len 255 in
      let (failed, st') =
        push (reply (8 + len') st.cif.conn pkt_i2c_done 0 st.cif.trnidx) (some data') st in
      if failed then (0, st') else (len', st')

module _ {D : Type 0} where
  -- The callbacks of an I2C device leave its queue and `busy` alone.
  abbrev pub QuietI2c : I2cFunc D → Type 0
  QuietI2c f =
      Holds f.start (λ g. (st : St D) → Same st (g st).1)
      × Holds f.write (λ g. (n : ℕ) (bs : List ℕ) (st : St D) → Same st (g n bs st).1)
      × Holds f.read (λ g. (n : ℕ) (st : St D) → Same st (g n st).2)
      × QuietNotify f.stop

  call_start-Same :
      (f : Option (St D → ℤ × St D))
      → Holds f (λ g. (st : St D) → Same st (g st).1)
      → (st : St D) → Same st (call_start f st).1
  unfolding call_start
  call_start-Same none q st = (refl, refl)
  call_start-Same (some f) q st = q st

  call_write-Same :
      (f : Option (ℕ → List ℕ → St D → ℤ × St D))
      → Holds f (λ g. (n : ℕ) (bs : List ℕ) (st : St D) → Same st (g n bs st).1)
      → (pkt : Packet) (st : St D) → Same st (call_write f pkt st).1
  unfolding call_write
  call_write-Same none q pkt st = (refl, refl)
  call_write-Same (some f) q pkt st = q (data_left pkt st) (drop st.cif.offs pkt.payload) st

  call_read-Same :
      (f : Option (ℕ → St D → ℤ × List ℕ × St D))
      → Holds f (λ g. (n : ℕ) (st : St D) → Same st (g n st).2)
      → (pkt : Packet) (st : St D) → Same st (call_read f pkt st).1
  unfolding call_read
  call_read-Same none q pkt st = (refl, refl)
  call_read-Same (some f) q pkt st = q (sub_u32 pkt.bflag st.cif.offs) st

  pub advance_if_i2c-queue :
      (f : I2cFunc D)
      → QuietI2c f
      → (pkt : Packet) (st : St D)
      → ((advance_if_i2c f pkt st).1.cif.rxbufs ≡ st.cif.rxbufs)
        × (((advance_if_i2c f pkt st).0 ≡ done) ⊎ ((advance_if_i2c f pkt st).0 ≡ hold))
  unfolding advance_if_i2c
  advance_if_i2c-queue f q pkt st =
      let st' = set_trnidx pkt.hflag st in
      ground (
        arith,
        call_start-Same f.start q.0 st',
        call_write-Same f.write q.1 pkt st',
        call_read-Same f.read q.2 pkt st',
        notify-Same f.stop q.3 st',
      )
