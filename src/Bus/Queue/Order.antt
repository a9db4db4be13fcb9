-- ===== src/Bus/Queue/Order.antt =====
-- coremodel.c: the order in which `coremodel_advance_if` handles the packets that wait.
use coremodel.Base.{
  ℕ, zero, suc, ◌<◌, ◌≡◌, refl, ap, sym, ◌∙◌, ◌⊎◌, inl, inr, ◌++◌, List, [], ◌∷◌, some, arith,
  get_elem?, length,
}
use coremodel.Packet.{Packet}
use coremodel.If.{St, Verdict, done, hold}
use coremodel.Bus.Queue.{free_packet, advance_loop}
use coremodel.Bus.Queue.Round.{loop_end, loop_done, loop_hold}

-- A handler that frees a packet or stops at it, and leaves the queue alone.
pub record IsInOrder {D : Type 0} (advance : Packet → St D → Verdict × St D) : Type 0 where
  pub keeps_queue : (p : Packet) (st : St D) → (advance p st).1.cif.rxbufs ≡ st.cif.rxbufs
  pub settles : (p : Packet) (st : St D) → ((advance p st).0 ≡ done) ⊎ ((advance p st).0 ≡ hold)

module _ {D : Type 0} (advance : Packet → St D → Verdict × St D) where
  -- From one state to another by handling packets, each of them to its end.
  pub data Handles : List Packet → St D → St D → Type 0 where
    nothing : (st : St D) → Handles [] st st
    first :
        (p : Packet) (ps : List Packet) (st st' : St D)
        → (advance p st).0 ≡ done
        → Handles ps (free_packet 0 (advance p st).1) st'
        → Handles (p ∷ ps) st st'

  -- `front` was handled and freed; the loop ended with the queue empty, or at the packet behind it.
  pub record Advanced (st st' : St D) : Type 0 where
    pub front : List Packet
    pub rest : List Packet
    pub split : st.cif.rxbufs ≡ front ++ rest
    pub mid : St D
    pub handled : Handles front st mid
    pub stop :
        ((rest ≡ []) × (st' ≡ mid))
        ⊎ ((p : Packet) × (more : List Packet) × (rest ≡ p ∷ more)
            × ((advance p mid).0 ≡ hold)
            × (st' ≡ (advance p mid).1))

  module _ (orderly : IsInOrder advance) where
    -- Packets are handled strictly in the order of their arrival: the loop ends, and those that it
    -- frees are the first ones, each handled in the state that the one before it left. It stops
    -- behind the last packet, or at one that the handler holds, with no packet after it touched.
    pub loop-Advanced :
        (fuel : ℕ) (queue : List Packet) (st : St D)
        → st.cif.rxbufs ≡ queue
        → length queue < fuel
        → (st' : St D) × (advance_loop advance fuel 0 st ≡ some st') × Advanced st st'
    loop-Advanced zero queue st e h = absurd (omega arith)
    loop-Advanced (suc fuel) [] st e h = (
      st,
      loop_end advance fuel 0 st (ap (λ l. get_elem? l 0) e),
      record {
        front = [];
        rest = [];
        split = e;
        mid = st;
        handled = nothing st;
        stop = inl (refl, refl);
      },
    )
    loop-Advanced (suc fuel) (p ∷ queue) st e h =
        let there = ap (λ l. get_elem? l 0) e in
        let st1 = (advance p st).1 in
        elim (orderly.settles p st) [
          | inl freed ↦
              let left : (free_packet 0 st1).cif.rxbufs ≡ queue =
                rw (orderly.keeps_queue p st, e) in
              let (st', out, a) = loop-Advanced fuel queue (free_packet 0 st1) left (omega arith) in
              (
                st',
                loop_done advance fuel 0 st there freed ∙ out,
                record {
                  front = p ∷ a.front;
                  rest = a.rest;
                  split = e ∙ ap (◌∷◌ p) (sym left ∙ a.split);
                  mid = a.mid;
                  handled = first p a.front st a.mid freed a.handled;
                  stop = a.stop;
                },
              )
          | inr held ↦ (
            st1,
            loop_hold advance fuel 0 st there held,
            record {
              front = [];
              rest = p ∷ queue;
              split = e;
              mid = st;
              handled = nothing st;
              stop = inr (p, queue, refl, held, refl);
            },
          )
        ]
