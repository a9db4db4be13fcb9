-- ===== src/Bus/Event.antt =====
-- coremodel.c: the event bus. coremodel.h: `coremodel_event_func_t`.
pub mod Keeping
pub mod Sending
use Prim.Native.Nat.{bit_or}
use coremodel.Base.{
  ◌≡◌, refl, ◌⊎◌, arith, ℕ, ◌+◌, ◌-◌, ◌*◌, ◌%◌, ◌/◌, ◌^◌, ◌++◌, Bool, true, false, List, [], Option,
  none, some, ltb, ◌==◌, ◌||◌, if◌then◌else◌, u8, u16, le32, rd64, length,
}
use coremodel.Packet.{Packet}
use coremodel.If.{If, St, Verdict, done, push, reply, set_fault, hold, Same, Holds}

abbrev pub pkt_event_update : ℕ
pkt_event_update = 0x00

abbrev pub pkt_event_signal : ℕ
pkt_event_signal = 0x01

abbrev pub pkt_event_wire : ℕ
pkt_event_wire = 0x02

abbrev pub event_update_normal : ℕ
event_update_normal = 0x00

abbrev pub event_update_initial : ℕ
event_update_initial = 0x01

abbrev pub event_update_atomic : ℕ
event_update_atomic = 0x02

abbrev pub event_signal_atomic : ℕ
event_signal_atomic = 0x80

abbrev pub event_signal_change : ℕ
event_signal_change = 0x01

pub record EventFunc (D : Type 0) : Type 0 where
  pub update : Option (ℕ → ℕ → Bool → St D → St D)
  pub atresp : Option (ℕ → ℕ → St D → St D)

-- A `uint64_t` in memory.
abbrev pub le64 : ℕ → List ℕ
le64 n = le32 (n % 2 ^ 32) ++ le32 (n / 2 ^ 32 % 2 ^ 32)

module _ {D : Type 0} where
  -- `data[0]` and `data[1]` are read, sixteen bytes from the end of the header on.
  read_pair : Packet → St D → St D
  read_pair pkt st = set_fault (ltb (length pkt.payload) 16) st

  call_update : Option (ℕ → ℕ → Bool → St D → St D) → Packet → St D → St D
  unfolding read_pair
  call_update none pkt st = st
  call_update (some f) pkt st =
      if ltb pkt.len 16
      then st
      else f (rd64 pkt.payload 0) (rd64 pkt.payload 8) (pkt.bflag == event_update_initial)
          (read_pair pkt st)

  call_atresp : Option (ℕ → ℕ → St D → St D) → Packet → St D → St D
  unfolding read_pair
  call_atresp none pkt st = st
  call_atresp (some f) pkt st =
      if ltb pkt.len 16 then st else f (rd64 pkt.payload 0) (rd64 pkt.payload 8) (read_pair pkt st)

  unfoldable pub advance_if_event : EventFunc D → Packet → St D → Verdict × St D
  unfolding call_update call_atresp
  advance_if_event f pkt st =
      if pkt.pkt == pkt_event_update
      then (
        done,
        if (pkt.bflag == event_update_normal) || (pkt.bflag == event_update_initial)
            then call_update f.update pkt st
            else (if pkt.bflag == event_update_atomic then call_atresp f.atresp pkt st else st),
      )
      else (done, st)

  -- `coremodel_event_signal`, `coremodel_event_atomic` and `event_signal_wire` on an interface that
  -- is there.
  unfoldable pub event_signal : ℕ → ℕ → ℕ → St D → St D
  event_signal data0 data1 chgonly st =
      (push
        (reply 24 st.cif.conn pkt_event_signal (if chgonly == 0 then 0 else event_signal_change) 0)
        (some (le64 data0 ++ le64 data1)) st).1

  unfoldable pub event_atomic : ℕ → ℕ → ℕ → St D → St D
  event_atomic data0 data1 op st =
      (push (reply 24 st.cif.conn pkt_event_signal (u8 (bit_or op event_signal_atomic)) 0)
        (some (le64 data0 ++ le64 data1)) st).1

  unfoldable pub event_signal_wire : ℕ → St D → St D
  event_signal_wire val st = (push (reply 8 st.cif.conn pkt_event_signal 0 (u16 val)) none st).1

module _ {D : Type 0} where
  -- The callbacks of an event leave its queue and `busy` alone.
  abbrev pub QuietEvent : EventFunc D → Type 0
  QuietEvent f =
      Holds f.update (λ g. (a b : ℕ) (i : Bool) (st : St D) → Same st (g a b i st))
      × Holds f.atresp (λ g. (a b : ℕ) (st : St D) → Same st (g a b st))

  call_update-queue :
      (f : Option (ℕ → ℕ → Bool → St D → St D))
      → Holds f (λ g. (a b : ℕ) (i : Bool) (st : St D) → Same st (g a b i st))
      → (pkt : Packet) (st : St D) → Same st (call_update f pkt st)
  unfolding call_update
  call_update-queue none q pkt st = (refl, refl)
  call_update-queue (some f) q pkt st = ground (
    arith,
    q (rd64 pkt.payload 0) (rd64 pkt.payload 8) (pkt.bflag == event_update_initial)
        (read_pair pkt st),
  )

  call_atresp-queue :
      (f : Option (ℕ → ℕ → St D → St D))
      → Holds f (λ g. (a b : ℕ) (st : St D) → Same st (g a b st))
      → (pkt : Packet) (st : St D) → Same st (call_atresp f pkt st)
  unfolding call_atresp
  call_atresp-queue none q pkt st = (refl, refl)
  call_atresp-queue (some f) q pkt st =
      ground (arith, q (rd64 pkt.payload 0) (rd64 pkt.payload 8) (read_pair pkt st))

  pub advance_if_event-queue :
      (f : EventFunc D)
      → QuietEvent f
      → (pkt : Packet) (st : St D)
      → ((advance_if_event f pkt st).1.cif.rxbufs ≡ st.cif.rxbufs)
        × (((advance_if_event f pkt st).0 ≡ done) ⊎ ((advance_if_event f pkt st).0 ≡ hold))
  unfolding advance_if_event
  advance_if_event-queue f q pkt st =
      ground (arith, call_update-queue f.update q.0 pkt st, call_atresp-queue f.atresp q.1 pkt st)
