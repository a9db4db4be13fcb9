-- ===== src/Core/Loop/Serving.antt =====
-- coremodel.c: what a call of `coremodel_processfds` does to the packets that a peer sent.
use coremodel.Base.{
  none, ℕ, ◌≡◌, refl, sym, ap, subst, ◌∙◌, ◌++◌, ◌||◌, ◌&&◌, not, Bool, true, false, List, [], some,
  if◌then◌else◌, Bool-cases, inl, inr,
}
use coremodel.Packet.{Packet, wires}
use coremodel.Socket.{End, drained, closed}
use coremodel.Ring.{Ring, read_loop}
use coremodel.Ring.Window.{IsValid, contents}
use coremodel.Ring.Frames.{AllSendable}
use coremodel.Ring.Delivery.{Partial}
use coremodel.Ring.Fill.{Received, Received-whole, nothing, read_loop-Received}
use coremodel.Ring.Enough.{process_rxq_all}
use coremodel.Tx.{TxBuf, write_loop}
use coremodel.Core.State.{Core}
use coremodel.Core.Packets.{process_packet}
use coremodel.Core.Packets.Sound.{IsSoundCore, process_packet-Sound}
use coremodel.Core.Loop.Steps.{Rounds, stay, connection, with_connection, deliver-Rounds, Driven}
use coremodel.Core.Loop.{
  Poll, Served, processfds, write_fds, write_after, parse_fds, is_empty, on_end, enotconn,
}

some≢none : {A : Type 0} {a : A} → some a ≡ none → ⊥
some≢none e = cc

module _ {D : Type 0} where
  on_end-connection :
      (end : End) (queue : List TxBuf) (cm : Core D)
      → (live : Bool) × ((on_end end (record cm { io = record (cm.io) { txbufs = queue } })).1
          ≡ with_connection live cm.ring cm.io.need_wake queue cm)
  on_end-connection drained queue cm = (cm.fd_open, refl)
  on_end-connection (closed e) queue cm = (false, refl)

  -- The writing half changes the socket's state and the queue only.
  write_fds-connection :
      (poll : Poll) (incoming : List ℕ) (cm : Core D)
      → (live : Bool) × (queue : List TxBuf) × ((write_fds poll incoming cm).core
          ≡ with_connection live cm.ring cm.io.need_wake queue cm)
        × ((write_fds poll incoming cm).incoming ≡ incoming)
  unfolding write_fds
  write_fds-connection poll incoming cm =
      let (end, sent, queue) = write_loop poll.writes cm.io.txbufs in
      elim (Bool-cases (poll.writable || (not (is_empty cm.io.txbufs) && not cm.io.txflag))) [
        | inl t ↦ let (live, e) = on_end-connection end queue cm in simp t (live, queue, e, refl)
        | inr t ↦ simp t (cm.fd_open, cm.io.txbufs, refl, refl)
      ]

  connected-Sound :
      (live : Bool) (ring : Ring) (wake : Bool) (queue : List TxBuf) {cm : Core D}
      → IsSoundCore cm
      → IsSoundCore (with_connection live ring wake queue cm)
  connected-Sound live ring wake queue v = record {
    steady = v.steady;
    next = v.next;
    allocs = v.allocs;
  }

  module _ (poll : Poll) (ps : List Packet) (cm : Core D) (sendable : AllSendable ps)
      (v : IsSoundCore cm) where
    abbrev awake : Core D
    awake = record cm { io = record (cm.io) { need_wake = false } }

    parse_fds-Driven :
        {incoming : List ℕ} (got : End × List ℕ × Ring)
        → Received incoming cm.ring got
        → contents cm.ring ++ incoming ≡ wires ps
        → (o : Served D) × (parse_fds poll awake got ≡ some o)
          × Driven ps cm o.errno o.incoming o.core
    parse_fds-Driven (closed e, stream, r) got_all eq = (
      record {
        errno = some e;
        incoming = stream;
        sent = [];
        core = with_connection false r false cm.io.txbufs cm;
      },
      refl,
      record {
        done = [];
        todo = ps;
        split = refl;
        run = connection false r false cm.io.txbufs stay;
        left = Received-whole got_all ∙ eq;
        sendable = sendable;
        valid = got_all.valid;
        sound = connected-Sound false r false cm.io.txbufs v;
        waits = λ n. absurd (some≢none n);
      },
    )
    parse_fds-Driven (drained, stream, r) got_all eq =
        let start : Core D = with_connection cm.fd_open r false cm.io.txbufs cm in
        let (r', cm', ran, p, part) =
          process_rxq_all process_packet IsSoundCore process_packet-Sound ps stream start
            got_all.valid sendable (connected-Sound cm.fd_open r false cm.io.txbufs v)
            (Received-whole got_all ∙ eq) in
        let d = p.delivered in
        let parsed : Core D = record cm' { ring = r' } in
        let (live, queue, same, unread) = write_fds-connection poll stream parsed in
        let o = write_fds poll stream parsed in
        (
          o,
          ap (write_after poll stream) ran,
          record {
            done = d.done;
            todo = d.todo;
            split = d.split;
            run = connection cm.fd_open r false cm.io.txbufs (
                deliver-Rounds d.done start (
                  subst (λ x. Rounds [] x o.core) d.in_order
                    (connection live r' cm'.io.need_wake queue (
                      subst (Rounds [] (with_connection live r' cm'.io.need_wake queue cm'))
                        (sym same) stay))));
            left =
                ap (λ x. contents x ++ o.incoming) (ap (λ (x : Core D). x.ring) same)
                ∙ ap (◌++◌ (contents r')) unread
                ∙ d.left;
            sendable = d.sendable;
            valid = subst IsValid (sym (ap (λ (x : Core D). x.ring) same)) p.valid;
            sound =
                subst IsSoundCore (sym same)
                  (connected-Sound live r' cm'.io.need_wake queue p.good);
            waits = λ n.
                subst (λ x. Partial d.todo (contents x)) (sym (ap (λ (x : Core D). x.ring) same))
                  part;
          },
        )

    -- Whatever select(2), read(2) and write(2) answer, `coremodel_processfds` returns.
    pub processfds-Driven :
        (incoming : List ℕ)
        → IsValid cm.ring
        → contents cm.ring ++ incoming ≡ wires ps
        → (o : Served D) × (processfds poll incoming cm ≡ some o)
          × Driven ps cm o.errno o.incoming o.core
    unfolding processfds
    processfds-Driven incoming ring_ok eq =
        let got : Bool → End × List ℕ × Ring =
          λ b. if b then read_loop poll.reads incoming cm.ring else (drained, incoming, cm.ring) in
        let not_open : Served D = record {
          errno = some enotconn;
          incoming = incoming;
          sent = [];
          core = awake;
        } in
        let by =
          λ (b : Bool). if b then parse_fds poll awake (got poll.readable) else some not_open in
        elim (Bool-cases cm.fd_open) [
          | inl o ↦ elim (Bool-cases poll.readable) [
            | inl r ↦
                let (out, ran, d) =
                  parse_fds-Driven (got true) (read_loop-Received poll.reads incoming ring_ok) eq in
                (out, ap by o ∙ ap (λ b. parse_fds poll awake (got b)) r ∙ ran, d)
            | inr r ↦
                let (out, ran, d) =
                  parse_fds-Driven (got false) (nothing drained incoming cm.ring ring_ok) eq in
                (out, ap by o ∙ ap (λ b. parse_fds poll awake (got b)) r ∙ ran, d)
          ]
          | inr o ↦ (
            not_open,
            ap by o,
            record {
              done = [];
              todo = ps;
              split = refl;
              run = connection cm.fd_open cm.ring false cm.io.txbufs stay;
              left = eq;
              sendable = sendable;
              valid = ring_ok;
              sound = connected-Sound cm.fd_open cm.ring false cm.io.txbufs v;
              waits = λ n. absurd (some≢none n);
            },
          )
        ]
