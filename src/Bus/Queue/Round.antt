-- ===== src/Bus/Queue/Round.antt =====
-- coremodel.c: one round of the loop of `coremodel_advance_if`, for each result of the handler.
use coremodel.Base.{ℕ, suc, ◌≡◌, refl, ◌⊎◌, inl, inr, none, some, get_elem?, length, true, false}
use coremodel.Packet.{Packet}
use coremodel.If.{St, Verdict, done, hold, skip, restart}
use coremodel.Bus.Queue.{free_packet, advance_loop, advance_if, rounds}

pub Verdict-cases : (v : Verdict) → (v ≡ done) ⊎ (v ≡ hold) ⊎ (v ≡ skip) ⊎ (v ≡ restart)
Verdict-cases done = inl refl
Verdict-cases hold = inr (inl refl)
Verdict-cases skip = inr (inr (inl refl))
Verdict-cases restart = inr (inr (inr refl))

module _ {D : Type 0} (advance : Packet → St D → Verdict × St D) (st : St D) where
  pub advance_if_now :
      st.cif.defer_pkt ≡ false
      → advance_if advance st ≡ advance_loop advance (rounds (length st.cif.rxbufs)) 0 st
  unfolding advance_if
  advance_if_now e = simp e

  pub advance_if_deferred : st.cif.defer_pkt ≡ true → advance_if advance st ≡ some st
  unfolding advance_if
  advance_if_deferred e = simp e

module _ {D : Type 0} (advance : Packet → St D → Verdict × St D) (fuel k : ℕ) (st : St D) where
  pub loop_end : get_elem? st.cif.rxbufs k ≡ none → advance_loop advance (suc fuel) k st ≡ some st
  unfolding advance_loop
  loop_end e = rw (e, advance_loop)

  module _ {pkt : Packet} (e : get_elem? st.cif.rxbufs k ≡ some pkt) where
    pub loop_done :
        (advance pkt st).0 ≡ done
        → advance_loop advance (suc fuel) k st
          ≡ advance_loop advance fuel 0 (free_packet k (advance pkt st).1)
    unfolding advance_loop
    loop_done v = rw (e, advance_loop) (rw v)

    pub loop_hold :
        (advance pkt st).0 ≡ hold → advance_loop advance (suc fuel) k st ≡ some (advance pkt st).1
    unfolding advance_loop
    loop_hold v = rw (e, advance_loop) (rw v)

    pub loop_skip :
        (advance pkt st).0 ≡ skip
        → advance_loop advance (suc fuel) k st
          ≡ advance_loop advance fuel (suc k) (advance pkt st).1
    unfolding advance_loop
    loop_skip v = rw (e, advance_loop) (rw v)

    pub loop_restart :
        (advance pkt st).0 ≡ restart
        → advance_loop advance (suc fuel) k st ≡ advance_loop advance fuel 0 (advance pkt st).1
    unfolding advance_loop
    loop_restart v = rw (e, advance_loop) (rw v)
