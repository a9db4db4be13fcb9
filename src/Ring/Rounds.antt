-- ===== src/Ring/Rounds.antt =====
-- coremodel.c: the packets of a connection, whatever the sizes of the reads that bring them.
use coremodel.Base.{
  ℕ, ◌≤◌, ◌<◌, ◌≡◌, refl, sym, ap, subst, ◌∙◌, ◌++◌, Bool, false, List, [], ◌∷◌, Option, none, some,
  arith, length, length-append, append_assoc,
}
use coremodel.Packet.{Packet, wires}
use coremodel.Socket.{Answer, End, drained, closed}
use coremodel.Ring.{Ring, read_loop, process_rxq, receive, serve, parse_after}
use coremodel.Ring.Window.{IsValid, contents}
use coremodel.Ring.Stream.{view, process_rxq_refines, process_rxq-Consumed}
use coremodel.Ring.Frames.{AllSendable, deliver}
use coremodel.Ring.Delivery.{Delivered, Partial, no_short, run-Delivered}
use coremodel.Ring.Fill.{Received, Received-whole, read_loop-Received}

module _ {S : Type 0} (process : Packet → S → Bool × S) where
  -- The connection after some calls: the packets processed so far, in order, are a prefix of those
  -- sent, and the bytes in the ring and on the way are those of the others.
  pub record Progress (Good : S → Type 0) (ps : List Packet) (s : S) (stream : List ℕ) (r : Ring)
      (s' : S) : Type 0 where
    pub valid : IsValid r
    pub delivered : Delivered process ps stream s (contents r) s'
    pub good : Good s'

  deliver-append :
      (xs ys : List Packet) (s : S)
      → deliver process (xs ++ ys) s ≡ deliver process ys (deliver process xs s)
  unfolding deliver
  deliver-append [] ys s = refl
  deliver-append (x ∷ xs) ys s = deliver-append xs ys (process x s).1

  start-Delivered :
      (ps : List Packet) (s : S) (bs stream : List ℕ)
      → AllSendable ps
      → bs ++ stream ≡ wires ps
      → Delivered process ps stream s bs s
  unfolding deliver
  start-Delivered ps s bs stream v e = record {
    done = [];
    todo = ps;
    split = refl;
    in_order = refl;
    left = e;
    sendable = v;
  }

  -- What a later call does to the packets that were left.
  Delivered-trans :
      {ps : List Packet} {s s1 s2 : S} {stream stream' : List ℕ} {bs rest : List ℕ}
      → (d : Delivered process ps stream s bs s1) → Delivered process d.todo stream' s1 rest s2
      → Delivered process ps stream' s rest s2
  Delivered-trans {s = s} d d' = record {
    done = d.done ++ d'.done;
    todo = d'.todo;
    split = d.split ∙ ap (◌++◌ d.done) d'.split ∙ sym (append_assoc d.done d'.done d'.todo);
    in_order =
        d'.in_order
        ∙ ap (deliver process d'.done) d.in_order
        ∙ sym (deliver-append d.done d'.done s);
    left = d'.left;
    sendable = d'.sendable;
  }

  todo_le :
      {ps : List Packet} {s s1 : S} {stream bs : List ℕ} (d : Delivered process ps stream s bs s1)
      → length d.todo ≤ length ps
  todo_le d = omega (arith, ap length d.split, length-append d.done d.todo)

  view-some :
      (o : Option (Ring × S)) {rest : List ℕ} {s' : S}
      → view o ≡ some (rest, s')
      → (r : Ring) × (o ≡ some (r, s')) × (contents r ≡ rest)
  view-some none e = cc
  view-some (some (r, s)) e = (r, cc, cc)

-- In the states that `Good` picks out processing a packet reports no error, and stays in them.
module _ {S : Type 0} (process : Packet → S → Bool × S) (Good : S → Type 0)
    (never : (p : Packet) (s : S) → Good s → ((process p s).0 ≡ false) × Good (process p s).1) where
  pub process_rxq-Progress :
      (fuel : ℕ) (ps : List Packet) (stream : List ℕ) {r : Ring} (s : S)
      → IsValid r
      → AllSendable ps
      → Good s
      → length ps < fuel
      → contents r ++ stream ≡ wires ps
      → (r' : Ring) × (s' : S) × (process_rxq process fuel r s ≡ some (r', s'))
        × (p : Progress process Good ps s stream r' s') × Partial p.delivered.todo (contents r')
  process_rxq-Progress fuel ps stream {r} s v sendable g h e =
      let (rest, s', ran, d, g', part) =
        run-Delivered process Good never fuel ps (contents r) stream s sendable g h e in
      let (r', out, left) =
        view-some process (process_rxq process fuel r s)
          (process_rxq_refines process fuel s v (no_short ps stream sendable e) ∙ ran) in
      (
        r',
        s',
        out,
        record {
          valid = (process_rxq-Consumed process fuel s v out).valid;
          delivered = record {
            done = d.done;
            todo = d.todo;
            split = d.split;
            in_order = d.in_order;
            left = ap (λ b. b ++ stream) left ∙ d.left;
            sendable = d.sendable;
          };
          good = g';
        },
        subst (Partial d.todo) (sym left) part,
      )

  receive-Progress :
      (fuel : ℕ) (es : List Answer) (ps : List Packet) (stream : List ℕ) {r : Ring} (s : S)
      → IsValid r
      → AllSendable ps
      → Good s
      → length ps < fuel
      → contents r ++ stream ≡ wires ps
      → (end : End) × (stream' : List ℕ) × (r' : Ring) × (s' : S) × (receive process fuel es stream
            r s
          ≡ some (end, stream', r', s'))
        × Progress process Good ps s stream' r' s'
  unfolding receive
  receive-Progress fuel es ps stream {r} s v sendable g h e =
      finish (read_loop es stream r) (read_loop-Received es stream v)
    where
      finish :
          (out : End × List ℕ × Ring)
          → Received stream r out
          → (end : End) × (stream' : List ℕ) × (r' : Ring) × (s' : S) × (parse_after process fuel s
                out
              ≡ some (end, stream', r', s'))
            × Progress process Good ps s stream' r' s'
      finish (closed c, stream', r') got_all = (
        closed c,
        stream',
        r',
        s,
        refl,
        record {
          valid = got_all.valid;
          delivered =
              start-Delivered process ps s (contents r') stream' sendable
                (Received-whole got_all ∙ e);
          good = g;
        },
      )
      finish (drained, stream', r') got_all =
          let (r'', s', out, p, part) =
            process_rxq-Progress fuel ps stream' s got_all.valid sendable g h
              (Received-whole got_all ∙ e) in
          (drained, stream', r'', s', rw out, p)

  serve-cons :
      (fuel : ℕ) (es : List Answer) (calls : List (List Answer)) (stream : List ℕ) (r : Ring)
      (s : S) {end : End} {stream' : List ℕ} {r' : Ring} {s' : S}
      → receive process fuel es stream r s ≡ some (end, stream', r', s')
      → serve process fuel (es ∷ calls) stream r s ≡ serve process fuel calls stream' r' s'
  unfolding serve
  serve-cons fuel es calls stream r s e = rw (e, serve)

  -- Whatever sizes the reads have, and wherever they cut the stream, the packets that the peer sent
  -- are processed in order, none twice and none left out: what has been processed is a prefix of
  -- them, and the bytes in the ring and on the way are exactly those of the others. It holds
  -- for packets of at most 2048 bytes, and while processing them reports no error.
  pub serve_in_order :
      (fuel : ℕ) (calls : List (List Answer)) (ps : List Packet) (stream : List ℕ) {r : Ring}
      (s : S)
      → IsValid r
      → AllSendable ps
      → Good s
      → length ps < fuel
      → contents r ++ stream ≡ wires ps
      → (stream' : List ℕ) × (r' : Ring) × (s' : S) × (serve process fuel calls stream r s
          ≡ some (stream', r', s'))
        × Progress process Good ps s stream' r' s'
  unfolding serve
  serve_in_order fuel [] ps stream {r} s v sendable g h e = (
    stream,
    r,
    s,
    refl,
    record {
      valid = v;
      delivered = start-Delivered process ps s (contents r) stream sendable e;
      good = g;
    },
  )
  serve_in_order fuel (es ∷ calls) ps stream {r} s v sendable g h e =
      let (end, stream1, r1, s1, ran, p) = receive-Progress fuel es ps stream s v sendable g h e in
      let d = p.delivered in
      let few : length d.todo < fuel = omega (arith, todo_le process d) in
      let (stream2, r2, s2, out, q) =
        serve_in_order fuel calls d.todo stream1 s1 p.valid d.sendable p.good few d.left in
      (
        stream2,
        r2,
        s2,
        serve-cons fuel es calls stream r s ran ∙ out,
        record {
          valid = q.valid;
          delivered = Delivered-trans process d q.delivered;
          good = q.good;
        },
      )
