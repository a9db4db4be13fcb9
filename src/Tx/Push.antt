-- ===== src/Tx/Push.antt =====
-- coremodel.c: `coremodel_push_packet` queues one packet whole.
use coremodel.Base.{
  ℕ, ◌-◌, ◌≡◌, refl, ap, ◌∙◌, ◌++◌, Bool, true, false, List, [], ◌∷◌, Option, none, some, arith,
  align4, length-take, append-nil,
}
use coremodel.Packet.{Packet, wire}
use coremodel.Packet.Wire.{IsWellFormed, length-wire}
use coremodel.Tx.{TxBuf, Io, push_packet, with_data, alloc_ok, allocs_left}
use coremodel.Tx.Flow.{pending, pending-append, AllQueued, IsQueued}

-- What `push_packet` does, as seen by the peer: the packet `p` is queued behind the others.
pub record Pushed {D : Type 0} (p : Packet) (io : Io D) (out : Bool × Io D) : Type 0 where
  pub accepted : out.0 ≡ false
  pub queue : pending out.1.txbufs ≡ pending io.txbufs ++ wire p
  pub queued : AllQueued io.txbufs → AllQueued out.1.txbufs
  pub unharmed : out.1.fault ≡ io.fault
  pub same_dev : out.1.dev ≡ io.dev

AllQueued-append : (xs ys : List TxBuf) → AllQueued xs → AllQueued ys → AllQueued (xs ++ ys)
AllQueued-append [] ys h k = k
AllQueued-append (x ∷ xs) ys h k = (h.0, AllQueued-append xs ys h.1 k)

module _ (p : Packet) (w : IsWellFormed p) where
  abbrev queued_buf : TxBuf
  queued_buf = record { size = align4 p.len; rptr = 0; buf = wire p }

  pending-queued : (ts : List TxBuf) → pending (ts ++ (queued_buf ∷ [])) ≡ pending ts ++ wire p
  pending-queued ts =
      pending-append ts (queued_buf ∷ []) ∙ ap (◌++◌ (pending ts)) (append-nil (wire p))

  queued-AllQueued : (ts : List TxBuf) → AllQueued ts → AllQueued (ts ++ (queued_buf ∷ []))
  queued-AllQueued ts v =
      let new : IsQueued queued_buf = omega (arith, length-wire p w) in
      AllQueued-append ts (queued_buf ∷ []) v (new, tt)

-- `coremodel_push_packet` appends the packet's bytes, padded to a multiple of four, to what is
-- queued, and reads nothing outside the packet and its data, if the packet's length is that of its
-- header and data and the allocation succeeds.
pub push_packet-Pushed :
    {D : Type 0} (pkt : Packet) (data' : Option (List ℕ)) (io : Io D)
    → IsWellFormed (with_data pkt data')
    → alloc_ok io.allocs ≡ true
    → Pushed (with_data pkt data') io (push_packet pkt data' io)
unfolding push_packet
push_packet-Pushed pkt none io w ok = rw ok (record {
  accepted = refl;
  queue = pending-queued pkt w io.txbufs;
  queued = queued-AllQueued pkt w io.txbufs;
  unharmed = ground arith;
  same_dev = refl;
})
push_packet-Pushed pkt (some d) io w ok = rw ok (record {
  accepted = refl;
  queue = pending-queued (with_data pkt (some d)) w io.txbufs;
  queued = queued-AllQueued (with_data pkt (some d)) w io.txbufs;
  unharmed = ground (arith, length-take (pkt.len - 8) d);
  same_dev = refl;
})

-- When the allocation fails, the error is reported and nothing is queued.
pub push_packet_refused :
    {D : Type 0} (pkt : Packet) (data' : Option (List ℕ)) (io : Io D)
    → alloc_ok io.allocs ≡ false
    → push_packet pkt data' io ≡ (true, record io { allocs = allocs_left io.allocs })
unfolding push_packet
push_packet_refused pkt data' io full = rw full
