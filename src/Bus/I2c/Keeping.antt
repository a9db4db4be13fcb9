-- ===== src/Bus/I2c/Keeping.antt =====
-- coremodel.c: `coremodel_advance_if_i2c` leaves the connection as it is.
use coremodel.Base.{
  arith, ℕ, ◌+◌, List, Option, none, some, if◌then◌else◌, drop, ℤ, is_neg, sub_u32,
}
use coremodel.Packet.{Packet}
use coremodel.If.{
  St, Steady, SteadyNotify, notify-Steady, Holds, data_left, set_trnidx, set_offs, reply,
  push-Steady,
}
use coremodel.Bus.I2c.{
  I2cFunc, advance_if_i2c, i2c_start, i2c_write, i2c_read, call_start, call_write, call_read,
  push_done, pkt_i2c_done,
}

abbrev SteadyStart : {D : Type 0} → Option (St D → ℤ × St D) → Type 0
SteadyStart {D} f = Holds f (λ g. (c : ℕ) (st : St D) → Steady c st → Steady c (g st).1)

abbrev SteadyWrite : {D : Type 0} → Option (ℕ → List ℕ → St D → ℤ × St D) → Type 0
SteadyWrite {D} f =
    Holds f (λ g. (c n : ℕ) (bs : List ℕ) (st : St D) → Steady c st → Steady c (g n bs st).1)

abbrev SteadyRead : {D : Type 0} → Option (ℕ → St D → ℤ × List ℕ × St D) → Type 0
SteadyRead {D} f = Holds f (λ g. (c n : ℕ) (st : St D) → Steady c st → Steady c (g n st).2)

abbrev pub SteadyI2c : {D : Type 0} → I2cFunc D → Type 0
SteadyI2c f = SteadyStart f.start × SteadyWrite f.write × SteadyRead f.read × SteadyNotify f.stop

module _ {D : Type 0} (c : ℕ) (pkt : Packet) (st : St D) (s : Steady c st) where
  call_start-Steady : (f : Option (St D → ℤ × St D)) → SteadyStart f → Steady c (call_start f st).1
  unfolding call_start
  call_start-Steady none q = s
  call_start-Steady (some f) q = q c st s

  call_write-Steady :
      (f : Option (ℕ → List ℕ → St D → ℤ × St D)) → SteadyWrite f → Steady c (call_write f pkt st).1
  unfolding call_write
  call_write-Steady none q = s
  call_write-Steady (some f) q = q c (data_left pkt st) (drop st.cif.offs pkt.payload) st s

  call_read-Steady :
      (f : Option (ℕ → St D → ℤ × List ℕ × St D)) → SteadyRead f → Steady c (call_read f pkt st).1
  unfolding call_read
  call_read-Steady none q = s
  call_read-Steady (some f) q = q c (sub_u32 pkt.bflag st.cif.offs) st s

  push_done-Steady : (conn nak : ℕ) → Steady c (push_done conn pkt nak st)
  push_done-Steady conn nak =
      ground (arith, push-Steady c (reply 8 conn pkt_i2c_done nak pkt.hflag) none st s, s)

module _ {D : Type 0} (c : ℕ) (pkt : Packet) (st : St D) (s : Steady c st) (f : I2cFunc D)
    (q : SteadyI2c f) where
  i2c_start-Steady : Steady c (i2c_start f pkt st).1
  unfolding i2c_start
  i2c_start-Steady =
      let k = call_start-Steady c pkt st s f.start q.0 in
      let (res, st') = call_start f.start st in
      let sent = push_done-Steady c pkt st' k st.cif.conn (if is_neg res then 1 else 0) in
      ground (arith, k, sent)

  i2c_write-Steady : Steady c (i2c_write f pkt st).1
  unfolding i2c_write
  i2c_write-Steady =
      let k = call_write-Steady c pkt st s f.write q.1 in
      let st' = (call_write f.write pkt st).1 in
      ground (
        arith,
        k,
        push_done-Steady c pkt st' k st.cif.conn 1,
        push_done-Steady c pkt (set_offs 0 st') k st.cif.conn 0,
      )

  i2c_read-Steady : Steady c (i2c_read f pkt st).1
  unfolding i2c_read
  i2c_read-Steady =
      let k = call_read-Steady c pkt st s f.read q.2 in
      let st' = (call_read f.read pkt st).1 in
      let sent =
        push-Steady c (reply (8 + pkt.bflag) st.cif.conn pkt_i2c_done 0 pkt.hflag)
          (some st'.cif.rdbuf) (set_offs 0 st') k in
      ground (arith, k, sent)

module _ {D : Type 0} (c : ℕ) (pkt : Packet) (st : St D) (s : Steady c st) where
  pub advance_if_i2c-Steady : (f : I2cFunc D) → SteadyI2c f → Steady c (advance_if_i2c f pkt st).1
  unfolding advance_if_i2c
  advance_if_i2c-Steady f q =
      let st' = set_trnidx pkt.hflag st in
      ground (
        arith,
        i2c_start-Steady c pkt st' s f q,
        i2c_write-Steady c pkt st' s f q,
        i2c_read-Steady c pkt st' s f q,
        notify-Steady f.stop q.3 c st' s,
        s,
      )
