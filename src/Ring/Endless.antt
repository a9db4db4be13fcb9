-- ===== src/Ring/Endless.antt =====
-- coremodel.c: when the loop of `coremodel_process_rxq` ends.
use coremodel.Base.{
  ◌+◌, ◌%◌, ◌^◌, ap, sym, subst, align4, ℕ, zero, suc, ◌*◌, ◌≤◌, ◌<◌, ◌≡◌, refl, ◌∙◌, ◌⊎◌, Bool,
  false, List, none, some, arith, ltb, ltb→lt, ltb→le, rd16, length, drop, inl, inr, Bool-cases,
}
use coremodel.Packet.{Packet, decode}
use coremodel.Ring.{Ring, max_pkt, used, frame_len, frame, consume, process_rxq}
use coremodel.Ring.Window.{
  IsValid, contents, length-window, frame_len-contents, contents-consume, consume-IsValid,
}
use coremodel.Ring.Stream.{frame_size}

-- At the start of the bytes, or of a packet further on, stands a length of zero.
pub data HasEmpty : List ℕ → Type 0 where
  here : (bs : List ℕ) → 8 ≤ length bs → rd16 bs 0 ≡ 0 → HasEmpty bs
  later :
      (bs : List ℕ) → frame_size bs ≤ length bs → HasEmpty (drop (frame_size bs) bs) → HasEmpty bs

module _ {S : Type 0} (process : Packet → S → Bool × S) where
  -- One round of the loop stops, or takes a packet off and goes on.
  process_rxq-cases :
      (fuel : ℕ) {r : Ring} (s : S)
      → IsValid r
      → ((y : Ring × S) × (process_rxq process (suc fuel) r s ≡ some y))
        ⊎ ((s' : S) × (8 ≤ used r)
            × (frame_size (contents r) ≤ used r)
            × (process_rxq process (suc fuel) r s
                ≡ process_rxq process fuel (consume r (frame_size (contents r))) s'))
  unfolding process_rxq
  process_rxq-cases fuel {r} s v =
      let n = align4 (frame_len r) in
      let handed = process (decode (frame r n)) s in
      elim (Bool-cases (ltb (used r) 8)) [
        | inl e ↦ inl ((r, s), rw e)
        | inr e ↦
            let eight = ltb→le (used r) 8 e in
            let size : frame_size (contents r) ≡ n =
              ap align4 (sym (frame_len-contents v (omega arith))) in
            elim (Bool-cases (ltb (used r) n)) [
              | inl w ↦ inl ((r, s), rw (e, w))
              | inr w ↦
                  let fits : frame_size (contents r) ≤ used r =
                    omega (arith, size, ltb→le (used r) n w) in
                  elim (Bool-cases (ltb max_pkt n)) [
                    | inl big ↦ inr (s, eight, fits, rw (size, e, w, big))
                    | inr small ↦ elim (Bool-cases handed.0) [
                      | inl bad ↦ inl ((r, handed.1), rw (e, w, small, bad))
                      | inr good ↦ inr (handed.1, eight, fits, rw (size, e, w, small, good))
                    ]
                  ]
            ]
      ]

  process_rxq_fuelled :
      (fuel : ℕ) {r : Ring} (s : S)
      → IsValid r
      → used r < 4 * fuel
      → ((y : Ring × S) × (process_rxq process fuel r s ≡ some y)) ⊎ HasEmpty (contents r)
  unfolding consume
  process_rxq_fuelled zero s v h = absurd (omega arith)
  process_rxq_fuelled (suc fuel) {r} s v h = elim (process_rxq-cases fuel s v) [
    | inl stop ↦ inl stop
    | inr (s', eight, fits, next) ↦
        let bs = contents r in
        let n = frame_size bs in
        let lw = length-window r.rxq r.rxqrp (used r) in
        elim (Bool-cases (ltb 0 (rd16 bs 0))) [
          | inl some_len ↦
              let size : 4 ≤ n = omega (arith, ltb→lt 0 (rd16 bs 0) some_len) in
              elim (process_rxq_fuelled fuel {r = consume r n} s'
                (consume-IsValid n v fits (omega arith)) (omega arith)) [
                  | inl (y, e) ↦ inl (y, next ∙ e)
                  | inr further ↦ inr (
                      later bs (omega (arith, lw, fits))
                        (subst HasEmpty (contents-consume n v fits) further))
                ]
          | inr no_len ↦ inr (here bs (omega (arith, lw, eight)) (ground arith))
        ]
  ]

  -- The loop of `coremodel_process_rxq` ends within 1025 rounds on any bytes, whatever processing a
  -- packet does, unless a length of zero stands where a packet starts.
  pub process_rxq_ends :
      {r : Ring} (s : S)
      → IsValid r
      → ((y : Ring × S) × (process_rxq process 1025 r s ≡ some y)) ⊎ HasEmpty (contents r)
  process_rxq_ends {r} s v = process_rxq_fuelled 1025 s v (omega (arith, v.bounded))

  consume_nothing : (r : Ring) → IsValid r → consume r 0 ≡ r
  unfolding consume
  consume_nothing r v =
      ap (λ k. record r { rxqrp = k }) (let e : (r.rxqrp + 0) % 2 ^ 32 ≡ r.rxqrp = omega arith in e)

  module _ (Good : S → Type 0)
      (never : (p : Packet) (s : S)
        → Good s
        → ((process p s).0 ≡ false) × Good (process p s).1) where
    -- With a length of zero there, and processing never reporting an error, the loop never ends: it
    -- processes the same eight bytes for ever.
    pub process_rxq_endless :
        (fuel : ℕ) {r : Ring} (s : S)
        → IsValid r
        → Good s
        → 8 ≤ used r
        → rd16 (contents r) 0 ≡ 0
        → process_rxq process fuel r s ≡ none
    unfolding process_rxq
    process_rxq_endless zero s v g h e = refl
    process_rxq_endless (suc fuel) {r} s v g h e =
        let (fine, g') = never (decode (frame r 0)) s g in
        let none_there : align4 (frame_len r) ≡ 0 =
          ap align4 (frame_len-contents v (omega arith) ∙ e) in
        let whole : ltb (used r) 8 ≡ false = ground arith in
        let enough : ltb (used r) 0 ≡ false = ground arith in
        rw (none_there, whole, enough, fine, consume_nothing r v)
          (process_rxq_endless fuel (process (decode (frame r 0)) s).1 v g' h e)
