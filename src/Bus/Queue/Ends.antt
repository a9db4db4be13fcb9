-- ===== src/Bus/Queue/Ends.antt =====
-- coremodel.c: the loop of `coremodel_advance_if` ends.
use coremodel.Base.{
  ℕ, zero, suc, ◌+◌, ◌-◌, ◌*◌, ◌≤◌, ◌<◌, ◌≡◌, ap, ap₂, ◌∙◌, Bool, true, false, List, [], ◌∷◌, some,
  arith, get_elem?, length, Option-cases, inl, inr, Bool-cases,
}
use coremodel.Packet.{Packet}
use coremodel.If.{St, Verdict, hold, skip, restart}
use coremodel.Bus.Queue.Round.{
  Verdict-cases, advance_if_now, advance_if_deferred, loop_end, loop_done, loop_hold, loop_skip,
  loop_restart,
}
use coremodel.Bus.Queue.{remove_at, free_packet, advance_loop, advance_if, rounds}

-- What the loop relies on: a handler leaves the queue alone, and goes back to the first packet only
-- once before something is freed.
pub record IsOrderly {D : Type 0} (advance : Packet → St D → Verdict × St D) : Type 0 where
  pub keeps_queue : (p : Packet) (st : St D) → (advance p st).1.cif.rxbufs ≡ st.cif.rxbufs
  pub restart_once :
      (p : Packet) (st : St D)
      → (advance p st).0 ≡ restart
      → (st.cif.busy ≡ false) × ((advance p st).1.cif.busy ≡ true)
  pub skip_keeps :
      (p : Packet) (st : St D) → (advance p st).0 ≡ skip → (advance p st).1.cif.busy ≡ st.cif.busy

abbrev idle : Bool → ℕ
idle true = 0
idle false = 1

length-remove_at :
    {A : Type 0} (k : ℕ) (xs : List A) {x : A}
    → get_elem? xs k ≡ some x
    → length (remove_at k xs) + 1 ≡ length xs
length-remove_at k [] e = cc
length-remove_at zero (x ∷ xs) e = omega arith
length-remove_at (suc k) (x ∷ xs) e = omega (arith, length-remove_at k xs e)

get_elem?-lt : {A : Type 0} (xs : List A) (k : ℕ) {x : A} → get_elem? xs k ≡ some x → k < length xs
get_elem?-lt [] k e = cc
get_elem?-lt (x ∷ xs) zero e = omega arith
get_elem?-lt (x ∷ xs) (suc k) e = omega (arith, get_elem?-lt xs k e)

mul_step : (a c w : ℕ) → a + 1 ≤ c → a * w + w ≤ c * w
mul_step a c w h = grind arith

idle_le : (b : Bool) → idle b ≤ 1
idle_le true = omega arith
idle_le false = omega arith

rounds_enough : (n : ℕ) (b : Bool) → (2 * n + idle b) * (n + 1) + (n - 0) < rounds n
unfolding rounds
rounds_enough n b =
    omega (arith, mul_step (2 * n + idle b) (2 * n + 3) (n + 1) (omega (arith, idle_le b)))

pub lt-rounds : (n : ℕ) → n < rounds n
unfolding rounds
lt-rounds n = grind (arith, mul_step 0 (2 * n + 3) (n + 1))

module _ {D : Type 0} (advance : Packet → St D → Verdict × St D) (orderly : IsOrderly advance) where
  -- What falls with each round, for queues of at most `top` packets.
  abbrev measure : ℕ → ℕ → St D → ℕ
  measure top k st =
      (2 * length st.cif.rxbufs + idle st.cif.busy) * (top + 1) + (length st.cif.rxbufs - k)

  pub loop_ends :
      (top fuel k : ℕ) (st : St D)
      → length st.cif.rxbufs ≤ top
      → measure top k st < fuel
      → (st' : St D) × (advance_loop advance fuel k st ≡ some st')
  loop_ends top zero k st h m = absurd (omega arith)
  loop_ends top (suc fuel) k st h m = elim (Option-cases (get_elem? st.cif.rxbufs k)) [
    | inl e ↦ (st, loop_end advance fuel k st e)
    | inr (pkt, e) ↦
        let st1 = (advance pkt st).1 in
        let kept = orderly.keeps_queue pkt st in
        let len = ap length kept in
        let bound = get_elem?-lt st.cif.rxbufs k e in
        elim (Verdict-cases (advance pkt st).0) [
          | inl freed ↦
              let shorter = length-remove_at k st1.cif.rxbufs (ap (λ l. get_elem? l k) kept ∙ e) in
              let fall =
                mul_step (2 * length (remove_at k st1.cif.rxbufs) + idle st1.cif.busy)
                  (2 * length st.cif.rxbufs + idle st.cif.busy) (top + 1)
                  (omega (arith, idle_le st1.cif.busy)) in
              let (st', out) =
                loop_ends top fuel 0 (free_packet k st1) (omega arith) (omega arith) in
              (st', loop_done advance fuel k st e freed ∙ out)
          | inr (inl held) ↦ (st1, loop_hold advance fuel k st e held)
          | inr (inr (inl skipped)) ↦
              let same = ap idle (orderly.skip_keeps pkt st skipped) in
              let flat = ap (λ n. n * (top + 1)) (ap₂ (λ a b. 2 * a + b) len same) in
              let (st', out) = loop_ends top fuel (suc k) st1 (omega arith) (omega arith) in
              (st', loop_skip advance fuel k st e skipped ∙ out)
          | inr (inr (inr again)) ↦
              let (was, now) = orderly.restart_once pkt st again in
              let fall =
                mul_step (2 * length st1.cif.rxbufs + idle st1.cif.busy)
                  (2 * length st.cif.rxbufs + idle st.cif.busy) (top + 1)
                  (omega (arith, ap idle was, ap idle now)) in
              let (st', out) = loop_ends top fuel 0 st1 (omega arith) (omega arith) in
              (st', loop_restart advance fuel k st e again ∙ out)
        ]
  ]

  -- `coremodel_advance_if` ends, at any queue and in any state of the interface.
  pub advance_if_ends : (st : St D) → (st' : St D) × (advance_if advance st ≡ some st')
  advance_if_ends st =
      let n = length st.cif.rxbufs in
      elim (Bool-cases st.cif.defer_pkt) [
        | inl deferred ↦ (st, advance_if_deferred advance st deferred)
        | inr now ↦
            let (st', out) =
              loop_ends n (rounds n) 0 st (omega arith) (rounds_enough n st.cif.busy) in
            (st', advance_if_now advance st now ∙ out)
      ]

-- A first packet that the handler holds ends the loop.
pub advance_if_held :
    {D : Type 0}
    → (advance : Packet → St D → Verdict × St D) (pkt : Packet) (rest : List Packet) (st : St D)
    → {st' : St D} → st.cif.defer_pkt ≡ false
    → st.cif.rxbufs ≡ pkt ∷ rest
    → advance pkt st ≡ (hold, st')
    → advance_if advance st ≡ some st'
advance_if_held advance pkt rest st now queue v =
    let n = length st.cif.rxbufs in
    let there : get_elem? st.cif.rxbufs 0 ≡ some pkt = ap (λ l. get_elem? l 0) queue in
    let fuel : rounds n ≡ suc (rounds n - 1) = omega (arith, lt-rounds n) in
    advance_if_now advance st now
    ∙ ap (λ k. advance_loop advance k 0 st) fuel
    ∙ loop_hold advance (rounds n - 1) 0 st there (ap (λ x. x.0) v)
    ∙ ap (λ x. some x.1) v
