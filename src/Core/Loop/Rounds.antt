-- ===== src/Core/Loop/Rounds.antt =====
-- coremodel.c: what whole rounds of `coremodel_mainloop_int` do to the packets that a peer sent.
use coremodel.Base.{
  none, ℕ, ◌≡◌, refl, sym, ap, subst, ◌∙◌, ◌++◌, ◌||◌, ◌&&◌, not, Bool, List, [], ◌∷◌, Option, some,
  Bool-cases, Option-cases, inl, inr,
}
use coremodel.Packet.{Packet, wires}
use coremodel.Ring.Window.{IsValid, contents}
use coremodel.Ring.Frames.{AllSendable}
use coremodel.Ring.Delivery.{Partial}
use coremodel.Core.State.{Core}
use coremodel.Core.Packets.Sound.{IsSoundCore}
use coremodel.Core.Loop.Steps.{
  stay, preparefds-Sound, preparefds-ring, Driven, Driven-trans, Driven-prepare,
}
use coremodel.Core.Loop.Serving.{processfds-Driven}
use coremodel.Core.Loop.{
  in_time, Exit, running, error, returned, Poll, Outcome, preparefds, mainloop_int,
}

abbrev pub exit_errno : Exit → Option ℕ
exit_errno returned = none
exit_errno running = none
exit_errno (error e) = some e

module _ {D : Type 0} where
  stopped-Driven :
      (ps : List Packet) {errno : Option ℕ} (incoming : List ℕ) (cm : Core D)
      → AllSendable ps
      → IsSoundCore cm
      → IsValid cm.ring
      → contents cm.ring ++ incoming ≡ wires ps
      → Partial ps (contents cm.ring)
      → Driven ps cm errno incoming cm
  stopped-Driven ps incoming cm sendable v ring_ok eq part = record {
    done = [];
    todo = ps;
    split = refl;
    run = stay;
    left = eq;
    sendable = sendable;
    valid = ring_ok;
    sound = v;
    waits = λ n. part;
  }

  -- The main loop ends for any rounds, and in whatever way it does, the packets that the peer sent
  -- have gone to `coremodel_process_packet` in order, none twice and none left out, with nothing but
  -- `coremodel_preparefds` and changes of the socket, the ring and the queue in between; the bytes
  -- in the ring and on the way are exactly those of the packets that are still to come; and unless
  -- it gives an error number, no complete packet is left in the ring. It holds for
  -- any number of packets, of at most 2048 bytes each, for devices whose callbacks keep their
  -- interface's connection, and while no allocation fails, if no complete packet is in the ring at the start.
  pub mainloop_in_order :
      (end_us : Option ℕ) (query : Bool) (polls : List Poll) (now : ℕ) (ps : List Packet)
      (incoming : List ℕ) (cm : Core D)
      → AllSendable ps
      → IsSoundCore cm
      → IsValid cm.ring
      → contents cm.ring ++ incoming ≡ wires ps
      → Partial ps (contents cm.ring)
      → (o : Outcome D) × (mainloop_int end_us query polls now incoming cm ≡ some o)
        × Driven ps cm (exit_errno o.exit) o.incoming o.core
  unfolding mainloop_int
  mainloop_in_order end_us query [] now ps incoming cm sendable v ring_ok eq part =
      (_, refl, stopped-Driven ps incoming cm sendable v ring_ok eq part)
  mainloop_in_order end_us query (poll ∷ polls) now ps incoming cm sendable v ring_ok eq part =
      let ready : Core D = (preparefds cm).1 in
      let same = preparefds-ring cm in
      let (served, ran, d) =
        processfds-Driven poll ps ready sendable (preparefds-Sound cm v) incoming
          (subst IsValid (sym same) ring_ok) (ap (λ r. contents r ++ incoming) same ∙ eq) in
      elim (Bool-cases (in_time end_us now && (not query || cm.query))) [
        | inl on ↦ elim (Option-cases served.errno) [
          | inl fine ↦
              let (o, out, d') =
                mainloop_in_order end_us query polls poll.now d.todo served.incoming served.core
                  d.sendable d.sound d.valid d.left (d.waits fine) in
              (
                record o { sent = served.sent ++ o.sent },
                rw (on, ran, fine, out) refl,
                Driven-prepare (Driven-trans d d'),
              )
          | inr (e, failed) ↦ (
            record {
              exit = error e;
              incoming = served.incoming;
              sent = served.sent;
              core = served.core;
            },
            rw (on, ran, failed) refl,
            subst (λ x. Driven ps cm x served.incoming served.core) failed (Driven-prepare d),
          )
        ]
        | inr off ↦ (
          record { exit = returned; incoming = incoming; sent = []; core = cm },
          rw off refl,
          stopped-Driven ps incoming cm sendable v ring_ok eq part,
        )
      ]
