-- ===== src/Bus/Event/Keeping.antt =====
-- coremodel.c: `coremodel_advance_if_event` leaves the connection as it is.
use coremodel.Base.{arith, ℕ, Bool, Option, none, some, ◌==◌, rd64}
use coremodel.Packet.{Packet}
use coremodel.If.{St, Steady, Holds}
use coremodel.Bus.Event.{
  EventFunc, advance_if_event, call_update, call_atresp, read_pair, event_update_initial,
}

abbrev pub SteadyEvent : {D : Type 0} → EventFunc D → Type 0
SteadyEvent {D} f =
    Holds f.update (λ g. (c a b : ℕ) (i : Bool) (st : St D) → Steady c st → Steady c (g a b i st))
    × Holds f.atresp (λ g. (c a b : ℕ) (st : St D) → Steady c st → Steady c (g a b st))

module _ {D : Type 0} (c : ℕ) (pkt : Packet) (st : St D) (s : Steady c st) where
  call_update-Steady :
      (f : Option (ℕ → ℕ → Bool → St D → St D))
      → Holds f (λ g. (c a b : ℕ) (i : Bool) (st : St D) → Steady c st → Steady c (g a b i st))
      → Steady c (call_update f pkt st)
  unfolding call_update read_pair
  call_update-Steady none q = s
  call_update-Steady (some f) q = ground (
    arith,
    q c (rd64 pkt.payload 0) (rd64 pkt.payload 8) (pkt.bflag == event_update_initial)
        (read_pair pkt st) s,
    s,
  )

  call_atresp-Steady :
      (f : Option (ℕ → ℕ → St D → St D))
      → Holds f (λ g. (c a b : ℕ) (st : St D) → Steady c st → Steady c (g a b st))
      → Steady c (call_atresp f pkt st)
  unfolding call_atresp read_pair
  call_atresp-Steady none q = s
  call_atresp-Steady (some f) q =
      ground (arith, q c (rd64 pkt.payload 0) (rd64 pkt.payload 8) (read_pair pkt st) s, s)

  pub advance_if_event-Steady :
      (f : EventFunc D) → SteadyEvent f → Steady c (advance_if_event f pkt st).1
  unfolding advance_if_event
  advance_if_event-Steady f q =
      ground (arith, call_update-Steady f.update q.0, call_atresp-Steady f.atresp q.1, s)
