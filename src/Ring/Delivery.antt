-- ===== src/Ring/Delivery.antt =====
-- coremodel.c: `coremodel_process_rxq` on any part of a stream of packets, as a read leaves it.
use coremodel.Base.{
  length-drop, ℕ, zero, suc, ◌≤◌, ◌<◌, ◌≡◌, refl, sym, ap, ◌∙◌, ◌++◌, Bool, false, List, [], ◌∷◌,
  some, arith, ltb, align4, rd16, length, take, drop, Bool-cases, inl, inr, ltb→lt, ltb→le,
  length-append, take-append-drop, take_exact, drop_exact, take-append, drop-append, get_or-append,
}
use coremodel.Packet.{Packet, wire, wires}
use coremodel.Packet.Wire.{IsWellFormed, length-wire, rd16-wire}
use coremodel.Ring.Stream.{frame_size, run, HasShort, here, later}
use coremodel.Ring.Frames.{IsSendable, AllSendable, deliver, run-wire}

-- The first packet of a stream, in the part of the stream that has arrived.
module _ (p : Packet) (c tail whole : List ℕ) (w : IsWellFormed p)
    (e : c ++ tail ≡ wire p ++ whole) where
  -- With eight bytes there, the length can be read.
  arrived-size : 8 ≤ length c → frame_size c ≡ align4 p.len
  arrived-size h = ap align4 (
      ground (
        arith,
        get_or-append c tail 0 0,
        get_or-append c tail 1 0,
        rd16-wire p whole w,
        ap (λ k. rd16 k 0) e,
      ))

  -- All of the packet is there: the rest of what arrived begins the rest of the stream.
  arrived-whole :
      align4 p.len ≤ length c
      → (c ≡ wire p ++ drop (align4 p.len) c) × (drop (align4 p.len) c ++ tail ≡ whole)
  arrived-whole h =
      let n = align4 p.len in
      let size = length-wire p w in
      let head : take n c ≡ wire p =
        sym (take-append n c tail h) ∙ ap (take n) e ∙ take_exact n (wire p) whole (sym size) in
      (
        rw (← head) (sym (take-append-drop n c)),
        sym (drop-append n c tail h) ∙ ap (drop n) e ∙ drop_exact n (wire p) whole (sym size),
      )

none_short : {i : ℕ} {c : List ℕ} → length c < 8 → HasShort i c → ⊥
none_short less (here i c eight few at) = absurd (omega (arith, eight, less))
none_short less (later i c fits further) =
    none_short (omega (arith, length-drop (frame_size c) c, less)) further

-- All packets that a peer sends have a whole header.
pub no_short :
    (ps : List Packet) (tail : List ℕ) {i : ℕ} {c : List ℕ}
    → AllSendable ps
    → c ++ tail ≡ wires ps
    → HasShort i c
    → ⊥
unfolding wires
no_short [] tail {i} {c} v e h = none_short (omega (arith, ap length e, length-append c tail)) h
no_short (p ∷ ps) tail v e (here i c eight few at) =
    absurd
      (omega (arith, few, arrived-size p c tail (wires ps) v.0.formed e eight, v.0.formed.sized))
no_short (p ∷ ps) tail v e (later i c fits further) = elim (Bool-cases (ltb (length c) 8)) [
  | inl less ↦
      none_short (omega (arith, length-drop (frame_size c) c, ltb→lt (length c) 8 less)) further
  | inr eight ↦
      let size = arrived-size p c tail (wires ps) v.0.formed e (ltb→le (length c) 8 eight) in
      no_short ps tail v.1
        (ap (λ k. drop k c ++ tail) size
          ∙ (arrived-whole p c tail (wires ps) v.0.formed e (omega (arith, size, fits))).1)
        further
]

-- What is left after a prefix `c` of the stream of `ps` was processed from the state `s`: `rest` and
-- `tail` make up the packets that are still to come.
pub record Delivered {S : Type 0} (process : Packet → S → Bool × S) (ps : List Packet)
    (tail : List ℕ) (s : S) (rest : List ℕ) (s' : S) : Type 0 where
  pub done : List Packet
  pub todo : List Packet
  pub split : ps ≡ done ++ todo
  pub in_order : s' ≡ deliver process done s
  pub left : rest ++ tail ≡ wires todo
  pub sendable : AllSendable todo

-- Of the packets to come the first is not complete yet.
abbrev pub Partial : List Packet → List ℕ → Type 0
Partial [] rest = Unit {0}
Partial (p ∷ ps) rest = length rest < align4 p.len

-- In the states that `Good` picks out processing a packet reports no error, and stays in them.
module _ {S : Type 0} (process : Packet → S → Bool × S) (Good : S → Type 0)
    (never : (p : Packet) (s : S) → Good s → ((process p s).0 ≡ false) × Good (process p s).1) where
  -- With less than a packet there, nothing is taken.
  run-short :
      (fuel : ℕ) (p : Packet) (c tail whole : List ℕ) (s : S)
      → IsWellFormed p
      → c ++ tail ≡ wire p ++ whole
      → length c < align4 p.len
      → run process (suc fuel) c s ≡ some (c, s)
  unfolding run
  run-short fuel p c tail whole s w e h = ground (arith, arrived-size p c tail whole w e)

  run-whole :
      (fuel : ℕ) (p : Packet) (c tail whole : List ℕ) (s : S)
      → IsSendable p
      → Good s
      → c ++ tail ≡ wire p ++ whole
      → align4 p.len ≤ length c
      → run process (suc fuel) c s ≡ run process fuel (drop (align4 p.len) c) (process p s).1
  run-whole fuel p c tail whole s v g e h =
      ap (λ b. run process (suc fuel) b s) (arrived-whole p c tail whole v.formed e h).0
      ∙ run-wire process Good never fuel p (drop (align4 p.len) c) s v g

  pub run-Delivered :
      (fuel : ℕ) (ps : List Packet) (c tail : List ℕ) (s : S)
      → AllSendable ps
      → Good s
      → length ps < fuel
      → c ++ tail ≡ wires ps
      → (rest : List ℕ) × (s' : S) × (run process fuel c s ≡ some (rest, s'))
        × (d : Delivered process ps tail s rest s') × Good s'
        × Partial d.todo rest
  unfolding run wires deliver
  run-Delivered zero ps c tail s v g h e = absurd (omega arith)
  run-Delivered (suc fuel) [] c tail s v g h e =
      let none_left : length c ≡ 0 = omega (arith, ap length e, length-append c tail) in
      (
        c,
        s,
        ground arith,
        record { done = []; todo = []; split = refl; in_order = refl; left = e; sendable = tt },
        g,
        tt,
      )
  run-Delivered (suc fuel) (p ∷ ps) c tail s v g h e =
      elim (Bool-cases (ltb (length c) (align4 p.len))) [
        | inl short ↦ (
          c,
          s,
          run-short fuel p c tail (wires ps) s v.0.formed e
              (ltb→lt (length c) (align4 p.len) short),
          record {
            done = [];
            todo = p ∷ ps;
            split = refl;
            in_order = refl;
            left = e;
            sendable = v;
          },
          g,
          ltb→lt (length c) (align4 p.len) short,
        )
        | inr whole ↦
            let fits = ltb→le (length c) (align4 p.len) whole in
            let (rest, s', ran, d, g', part) =
              run-Delivered fuel ps (drop (align4 p.len) c) tail (process p s).1 v.1 (never p s g).1
                (omega arith) (arrived-whole p c tail (wires ps) v.0.formed e fits).1 in
            (
              rest,
              s',
              run-whole fuel p c tail (wires ps) s v.0 g e fits ∙ ran,
              record {
                done = p ∷ d.done;
                todo = d.todo;
                split = ap (◌∷◌ p) d.split;
                in_order = d.in_order;
                left = d.left;
                sendable = d.sendable;
              },
              g',
              part,
            )
      ]
