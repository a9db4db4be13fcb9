-- ===== src/Ring/Enough.antt =====
-- coremodel.c: the rounds of `coremodel_process_rxq` on any number of packets. The ring holds 4096
-- bytes, hence at most 1024 packets, however many are on the way.
use coremodel.Base.{
  ℕ, zero, suc, ◌*◌, ◌≤◌, ◌≡◌, refl, sym, ap, ◌∙◌, ◌++◌, Bool, false, List, [], ◌∷◌, some, arith,
  length, take, drop, inl, inr, ◌⊎◌, append_assoc, append-nil, length-append, take-append,
  drop-append, take-append-drop, take_exact, drop_exact,
}
use coremodel.Packet.{Packet, wire, wires}
use coremodel.Packet.Wire.{length-wire}
use coremodel.Ring.{Ring, process_rxq, used}
use coremodel.Ring.Window.{IsValid, contents, length-window}
use coremodel.Ring.Frames.{AllSendable, AllSendable-append}
use coremodel.Ring.Delivery.{Partial}
use coremodel.Ring.Rounds.{Progress, process_rxq-Progress}

wires-append : (ps qs : List Packet) → wires (ps ++ qs) ≡ wires ps ++ wires qs
unfolding wires
wires-append [] qs = refl
wires-append (p ∷ ps) qs =
    rw (wires-append ps qs) (sym (append_assoc (wire p) (wires ps) (wires qs)))

-- Up to `n` packets from the front, and the others: there are none, or the bytes of the first are as
-- many as `n` packets have at least.
record Front (n : ℕ) (ps : List Packet) : Type 0 where
  first : List Packet
  later : List Packet
  split : ps ≡ first ++ later
  few : length first ≤ n
  first_sendable : AllSendable first
  later_sendable : AllSendable later
  covers : (later ≡ []) ⊎ (4 * n ≤ length (wires first))

front : (n : ℕ) (ps : List Packet) → AllSendable ps → Front n ps
unfolding wires
front zero ps v = record {
  first = [];
  later = ps;
  split = refl;
  few = omega arith;
  first_sendable = tt;
  later_sendable = v;
  covers = inr (omega arith);
}
front (suc n) [] v = record {
  first = [];
  later = [];
  split = refl;
  few = omega arith;
  first_sendable = tt;
  later_sendable = tt;
  covers = inl refl;
}
front (suc n) (p ∷ ps) v =
    let f = front n ps v.1 in
    record {
      first = p ∷ f.first;
      later = f.later;
      split = ap (◌∷◌ p) f.split;
      few = omega (arith, f.few);
      first_sendable = (v.0, f.first_sendable);
      later_sendable = f.later_sendable;
      covers = elim f.covers [
        | inl none_left ↦ inl none_left
        | inr enough ↦ inr (
            omega (
              arith,
              length-append (wire p) (wires f.first),
              length-wire p v.0.formed,
              v.0.formed.sized,
              enough,
            ))
      ];
    }

-- A prefix of `xs ++ ys` that is not longer than `xs` is a prefix of `xs`.
prefix_within :
    (c tail xs ys : List ℕ)
    → c ++ tail ≡ xs ++ ys
    → length c ≤ length xs
    → (c ++ drop (length c) xs ≡ xs) × (tail ≡ drop (length c) xs ++ ys)
prefix_within c tail xs ys e h =
    let n = length c in
    let head : take n xs ≡ c =
      sym (take-append n xs ys h) ∙ ap (take n) (sym e) ∙ take_exact n c tail refl in
    (
      ap (λ z. z ++ drop n xs) (sym head) ∙ take-append-drop n xs,
      sym (drop_exact n c tail refl) ∙ ap (drop n) e ∙ drop-append n xs ys h,
    )

-- Of the packets on the way none is complete.
Partial-append :
    (ps later : List Packet) (rest near : List ℕ)
    → AllSendable later
    → rest ++ near ≡ wires ps
    → Partial ps rest
    → Partial (ps ++ later) rest
unfolding wires
Partial-append (p ∷ ps) later rest near v e part = part
Partial-append [] [] rest near v e part = tt
Partial-append [] (p ∷ later) rest near v e part =
    omega (arith, ap length e, length-append rest near, v.0.formed.sized)

-- In the states that `Good` picks out processing a packet reports no error, and stays in them.
module _ {S : Type 0} (process : Packet → S → Bool × S) (Good : S → Type 0)
    (never : (p : Packet) (s : S) → Good s → ((process p s).0 ≡ false) × Good (process p s).1) where
  -- However many packets are on the way, 1025 rounds are enough for those in the ring.
  pub process_rxq_all :
      (ps : List Packet) (stream : List ℕ) {r : Ring} (s : S)
      → IsValid r
      → AllSendable ps
      → Good s
      → contents r ++ stream ≡ wires ps
      → (r' : Ring) × (s' : S) × (process_rxq process 1025 r s ≡ some (r', s'))
        × (p : Progress process Good ps s stream r' s') × Partial p.delivered.todo (contents r')
  process_rxq_all ps stream {r} s v sendable g e =
      let f = front 1024 ps sendable in
      elim f.covers [
        | inl none_left ↦
            let all : ps ≡ f.first = f.split ∙ ap (◌++◌ f.first) none_left ∙ append-nil f.first in
            process_rxq-Progress process Good never 1025 ps stream s v sendable g
              (omega (arith, f.few, ap length all)) e
        | inr enough ↦
            let (here, others) =
              prefix_within (contents r) stream (wires f.first) (wires f.later)
                (e ∙ ap wires f.split ∙ wires-append f.first f.later)
                (omega (arith, enough, length-window r.rxq r.rxqrp (used r), v.bounded)) in
            let near = drop (length (contents r)) (wires f.first) in
            let (r', s', ran, p, part) =
              process_rxq-Progress process Good never 1025 f.first near s v f.first_sendable g
                (omega (arith, f.few)) here in
            let d = p.delivered in
            (
              r',
              s',
              ran,
              record {
                valid = p.valid;
                delivered = record {
                  done = d.done;
                  todo = d.todo ++ f.later;
                  split =
                      f.split ∙ ap (λ x. x ++ f.later) d.split ∙ append_assoc d.done d.todo f.later;
                  in_order = d.in_order;
                  left =
                      ap (◌++◌ (contents r')) others
                      ∙ sym (append_assoc (contents r') near (wires f.later))
                      ∙ ap (λ x. x ++ wires f.later) d.left
                      ∙ sym (wires-append d.todo f.later);
                  sendable = AllSendable-append d.todo f.later d.sendable f.later_sendable;
                };
                good = p.good;
              },
              Partial-append d.todo f.later (contents r') near f.later_sendable d.left part,
            )
      ]
