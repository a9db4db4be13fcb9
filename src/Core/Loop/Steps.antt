-- ===== src/Core/Loop/Steps.antt =====
-- coremodel.c: the states that rounds of `coremodel_mainloop_int` lead through.
use coremodel.Base.{
  Option, none, ℕ, ◌≡◌, sym, ap, subst, ◌∙◌, ◌++◌, Bool, true, false, List, [], ◌∷◌, Bool-cases,
  inl, inr, append_assoc, arith,
}
use coremodel.Packet.{Packet, wires}
use coremodel.Ring.{Ring}
use coremodel.Ring.Window.{IsValid, contents}
use coremodel.Ring.Frames.{AllSendable, deliver}
use coremodel.Ring.Delivery.{Partial}
use coremodel.Tx.{Io, TxBuf}
use coremodel.Bus.Keeping.{SteadyHandlers}
use coremodel.Core.State.{Core, Attached, advance_attached}
use coremodel.Core.Packets.{process_packet, flush_ifs, defer_pkt_flush}
use coremodel.Core.Packets.Isolation.{AllSteady, advance_attached-Steady}
use coremodel.Core.Packets.Sound.{IsSoundCore}
use coremodel.Core.Loop.{preparefds}

module _ {D : Type 0} where
  -- The fields that a round sets itself: the state of the socket, the ring, the wake flag and the
  -- queue of the bytes to send.
  abbrev pub with_connection : Bool → Ring → Bool → List TxBuf → Core D → Core D
  with_connection live ring wake queue cm = record cm {
    fd_open = live;
    ring = ring;
    io = record (cm.io) { need_wake = wake; txbufs = queue };
  }

  -- The states that the connection goes through while `coremodel_process_packet` gets the packets
  -- of the list, in this order: between them, `coremodel_preparefds` and changes of the fields of
  -- `with_connection` only.
  pub data Rounds : List Packet → Core D → Core D → Type 0 where
    stay : {cm : Core D} → Rounds [] cm cm
    prepare :
        {ps : List Packet} {cm cm' : Core D} → Rounds ps (preparefds cm).1 cm' → Rounds ps cm cm'
    connection :
        {ps : List Packet} {cm cm' : Core D} (live : Bool) (ring : Ring) (wake : Bool)
        (queue : List TxBuf)
        → Rounds ps (with_connection live ring wake queue cm) cm'
        → Rounds ps cm cm'
    packet :
        {ps : List Packet} {cm cm' : Core D} (p : Packet)
        → Rounds ps (process_packet p cm).1 cm'
        → Rounds (p ∷ ps) cm cm'

  Rounds-append :
      {ps qs : List Packet} {cm cm' cm'' : Core D}
      → Rounds ps cm cm'
      → Rounds qs cm' cm''
      → Rounds (ps ++ qs) cm cm''
  Rounds-append stay b = b
  Rounds-append (prepare a) b = prepare (Rounds-append a b)
  Rounds-append (connection o r w q a) b = connection o r w q (Rounds-append a b)
  Rounds-append (packet p a) b = packet p (Rounds-append a b)

  pub deliver-Rounds :
      (ps : List Packet) (cm : Core D) {cm' : Core D}
      → Rounds [] (deliver process_packet ps cm) cm'
      → Rounds ps cm cm'
  unfolding deliver
  deliver-Rounds [] cm a = a
  deliver-Rounds (p ∷ ps) cm a = packet p (deliver-Rounds ps (process_packet p cm).1 a)

  flush_ifs-Steady :
      (ifs : List (Attached D)) (io : Io D)
      → AllSteady ifs
      → io.allocs ≡ []
      → AllSteady (flush_ifs ifs io).0 × ((flush_ifs ifs io).1.allocs ≡ [])
  unfolding flush_ifs
  flush_ifs-Steady [] io q e = (tt, e)
  flush_ifs-Steady (a ∷ rest) io q e =
      let ready : Attached D = record a { cif = record (a.cif) { defer_pkt = false } } in
      elim (Bool-cases a.cif.defer_pkt) [
        | inl d ↦
            let (conn, allocs, func, h) = advance_attached-Steady ready io q.0 e in
            let (a', io') = advance_attached ready io in
            let (later, ok) = flush_ifs-Steady rest (advance_attached ready io).1 q.1 allocs in
            simp d ((subst SteadyHandlers (sym func) q.0, later), ok)
        | inr d ↦ let (later, ok) = flush_ifs-Steady rest io q.1 e in simp d ((q.0, later), ok)
      ]

  pub preparefds-Sound : (cm : Core D) → IsSoundCore cm → IsSoundCore (preparefds cm).1
  unfolding preparefds defer_pkt_flush
  preparefds-Sound cm v =
      let io : Io D = record (cm.io) { need_wake = true; txflag = false } in
      let (steady, allocs) = flush_ifs-Steady cm.ifs io v.steady v.allocs in
      elim (Bool-cases cm.fd_open) [
        | inl o ↦ elim (Bool-cases cm.defer_pkt) [
          | inl d ↦ simp (o, d) (record { steady = steady; next = v.next; allocs = allocs })
          | inr d ↦ simp (o, d) (record { steady = v.steady; next = v.next; allocs = v.allocs })
        ]
        | inr o ↦ simp o v
      ]

  pub preparefds-ring : (cm : Core D) → (preparefds cm).1.ring ≡ cm.ring
  unfolding preparefds defer_pkt_flush
  preparefds-ring cm = ground arith

  -- What some rounds have done to the packets `ps` that were to come: the first of them have been
  -- processed, and the bytes in the ring and on the way are those of the others. Unless the rounds
  -- ended with an error number, no complete packet is left in the ring.
  pub record Driven (ps : List Packet) (cm : Core D) (errno : Option ℕ) (incoming' : List ℕ)
      (cm' : Core D) : Type 0 where
    pub done : List Packet
    pub todo : List Packet
    pub split : ps ≡ done ++ todo
    pub run : Rounds done cm cm'
    pub left : contents cm'.ring ++ incoming' ≡ wires todo
    pub sendable : AllSendable todo
    pub valid : IsValid cm'.ring
    pub sound : IsSoundCore cm'
    pub waits : errno ≡ none → Partial todo (contents cm'.ring)

  pub Driven-trans :
      {ps : List Packet} {cm cm1 cm2 : Core D} {e1 e2 : Option ℕ} {in1 in2 : List ℕ}
      (a : Driven ps cm e1 in1 cm1)
      → Driven a.todo cm1 e2 in2 cm2
      → Driven ps cm e2 in2 cm2
  Driven-trans a b = record {
    done = a.done ++ b.done;
    todo = b.todo;
    split = a.split ∙ ap (◌++◌ a.done) b.split ∙ sym (append_assoc a.done b.done b.todo);
    run = Rounds-append a.run b.run;
    left = b.left;
    sendable = b.sendable;
    valid = b.valid;
    sound = b.sound;
    waits = b.waits;
  }

  pub Driven-prepare :
      {ps : List Packet} {cm cm1 : Core D} {e1 : Option ℕ} {in1 : List ℕ}
      → Driven ps (preparefds cm).1 e1 in1 cm1
      → Driven ps cm e1 in1 cm1
  Driven-prepare a = record {
    done = a.done;
    todo = a.todo;
    split = a.split;
    run = prepare a.run;
    left = a.left;
    sendable = a.sendable;
    valid = a.valid;
    sound = a.sound;
    waits = a.waits;
  }
