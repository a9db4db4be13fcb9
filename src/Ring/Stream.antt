-- ===== src/Ring/Stream.antt =====
-- coremodel.c: what `coremodel_process_rxq` does, over the list of the bytes received.
use coremodel.Base.{
  ◌+◌, ◌-◌, ◌%◌, ◌^◌, ◌<◌, ap, subst, ◌∙◌, ℕ, zero, suc, ◌≤◌, ◌≡◌, refl, Bool, List, Option, none,
  some, arith, ltb, if◌then◌else◌, align4, rd16, length, drop, Bool-cases, inl, inr, ltb→le,
}
use coremodel.Packet.{Packet, decode}
use coremodel.Packet.Wire.{decode-take}
use coremodel.Ring.{Ring, rx_buf, max_pkt, used, frame_len, frame, consume, process_rxq}
use coremodel.Ring.Window.{
  IsValid, contents, length-window, take-window, frame-window, frame_len-contents, contents-consume,
  consume-IsValid,
}

-- The bytes that the packet at the head of the list takes up.
abbrev pub frame_size : List ℕ → ℕ
frame_size bs = align4 (rd16 bs 0)

module _ {S : Type 0} (process : Packet → S → Bool × S) where
  -- Packets are taken off the front of the list and processed in order, for as long as one is
  -- complete; an oversized packet is dropped, and one that cannot be processed stays.
  unfoldable pub run : ℕ → List ℕ → S → Option (List ℕ × S)
  run zero bs s = none
  run (suc fuel) bs s =
      let dropped = run fuel (drop (frame_size bs) bs) s in
      let handed = process (decode bs) s in
      let handled = run fuel (drop (frame_size bs) bs) handed.1 in
      if ltb (length bs) 8
      then some (bs, s)
      else (if ltb (length bs) (frame_size bs)
          then some (bs, s)
          else (if ltb max_pkt (frame_size bs)
              then dropped
              else (if handed.0 then some (bs, handed.1) else handled)))

abbrev pub view : {S : Type 0} → Option (Ring × S) → Option (List ℕ × S)
view none = none
view (some (r, s)) = some (contents r, s)

-- With the first byte at the index `i` of the ring: the bytes themselves, or what is left behind some
-- packets, start with a packet whose header is not all there in the array: shorter than the header, it
-- starts in the last four bytes, and is read in place.
pub data HasShort : ℕ → List ℕ → Type 0 where
  here :
      (i : ℕ) (bs : List ℕ)
      → 8 ≤ length bs
      → frame_size bs < 8
      → i % rx_buf ≡ rx_buf - 4
      → HasShort i bs
  later :
      (i : ℕ) (bs : List ℕ)
      → frame_size bs ≤ length bs
      → HasShort ((i + frame_size bs) % 2 ^ 32) (drop (frame_size bs) bs)
      → HasShort i bs

-- The packet that is handed on is the one at the head of the bytes received.
decode-frame :
    {r : Ring}
    → IsValid r
    → 8 ≤ used r
    → align4 (frame_len r) ≤ max_pkt
    → align4 (frame_len r) ≤ used r
    → (r.rxqrp % rx_buf ≡ rx_buf - 4 → align4 (frame_len r) < 8 → ⊥)
    → decode (frame r (align4 (frame_len r))) ≡ decode (contents r)
decode-frame {r} v h m k whole =
    let n = if ltb (align4 (frame_len r)) 8 then 8 else align4 (frame_len r) in
    let small : n ≤ used r = ground arith in
    let first : rd16 (contents r) 0 ≤ n = ground (arith, frame_len-contents v) in
    let head : 8 ≤ n = ground arith in
    rw
      (
        frame-window (align4 (frame_len r)) v (omega arith) (omega arith) whole,
        ← take-window r.rxq r.rxqrp n (used r) small,
      )
      (decode-take n (contents r) head first)

-- The ring does to its contents what `run` does to a list: no wrap-around of the indices or of the
-- array, in-place read or copy, shows in the packets processed or in what is left over. The condition:
-- no packet of four bytes or less starts in the last four bytes of the array.
pub process_rxq_refines :
    {S : Type 0} (process : Packet → S → Bool × S) (fuel : ℕ) {r : Ring} (s : S)
    → IsValid r
    → (HasShort r.rxqrp (contents r) → ⊥)
    → view (process_rxq process fuel r s) ≡ run process fuel (contents r) s
unfolding process_rxq run consume
process_rxq_refines process zero s v no_short = refl
process_rxq_refines process (suc fuel) {r} s v no_short =
    let lw = length-window r.rxq r.rxqrp (used r) in
    elim (Bool-cases (ltb (used r) 8)) [
      | inl e ↦ rw (lw, e)
      | inr e ↦
          let eight = ltb→le (used r) 8 e in
          let fl = frame_len-contents v (omega arith) in
          elim (Bool-cases (ltb (used r) (align4 (frame_len r)))) [
            | inl w ↦ rw (← fl, lw, e, w)
            | inr w ↦
                let n = align4 (frame_len r) in
                let size : n ≡ frame_size (contents r) = ap align4 fl in
                let fits : n ≤ used r = ltb→le (used r) n w in
                let again = process_rxq_refines process fuel {r = consume r n} in
                let v' = consume-IsValid n v fits (omega arith) in
                let left = contents-consume n v fits in
                let on : HasShort (consume r n).rxqrp (contents (consume r n)) → ⊥ = λ h. no_short (
                  later r.rxqrp (contents r) (omega (arith, lw, size)) (
                    subst (HasShort ((r.rxqrp + frame_size (contents r)) % 2 ^ 32))
                      (left ∙ ap (λ k. drop k (contents r)) size)
                      (subst (λ k. HasShort ((r.rxqrp + k) % 2 ^ 32) (contents (consume r n))) size
                        h))) in
                elim (Bool-cases (ltb max_pkt n)) [
                  | inl big ↦ rw (← fl, lw, e, w, big, ← left) (again s v' on)
                  | inr small ↦
                      let d = decode-frame v eight (ltb→le max_pkt n small) fits (λ at few.
                        no_short (
                          here r.rxqrp (contents r) (omega (arith, lw)) (omega (arith, size))
                            at)) in
                      rw (← fl, lw, e, w, small, ← left, d)
                        (elim (Bool-cases (process (decode (contents r)) s).0) [
                          | inl bad ↦ rw bad
                          | inr good ↦ rw good (again (process (decode (contents r)) s).1 v' on)
                        ])
                ]
          ]
    ]

-- What a run has done to the ring: only the index of the next packet to read has moved.
pub record Consumed (r r' : Ring) : Type 0 where
  pub valid : IsValid r'
  pub same_bytes : r'.rxq ≡ r.rxq
  pub same_end : r'.rxqwp ≡ r.rxqwp
  pub fewer : used r' ≤ used r

consume-Consumed :
    {r r' : Ring} (n : ℕ) → IsValid r → n ≤ used r → Consumed (consume r n) r' → Consumed r r'
unfolding consume
consume-Consumed n v fits c = record {
  valid = c.valid;
  same_bytes = c.same_bytes;
  same_end = c.same_end;
  fewer = omega (arith, c.fewer);
}

abbrev ConsumedBy : {S : Type 0} → Ring → Option (Ring × S) → Type 0
ConsumedBy r none = Unit {0}
ConsumedBy r (some (r', s)) = Consumed r r'

consumed_more :
    {S : Type 0} {r : Ring} (n : ℕ)
    → IsValid r
    → n ≤ used r
    → (o : Option (Ring × S)) → ConsumedBy (consume r n) o
    → ConsumedBy r o
consumed_more n v fits none c = tt
consumed_more n v fits (some (r', s)) c = consume-Consumed n v fits c

process_rxq-ConsumedBy :
    {S : Type 0} (process : Packet → S → Bool × S) (fuel : ℕ) {r : Ring} (s : S)
    → IsValid r
    → ConsumedBy r (process_rxq process fuel r s)
unfolding process_rxq
process_rxq-ConsumedBy process zero s v = tt
process_rxq-ConsumedBy {S} process (suc fuel) {r} s v =
    let n = align4 (frame_len r) in
    let same : Consumed r r = record {
      valid = v;
      same_bytes = refl;
      same_end = refl;
      fewer = omega arith;
    } in
    elim (Bool-cases (ltb (used r) 8)) [
      | inl e ↦ rw e same
      | inr e ↦ elim (Bool-cases (ltb (used r) n)) [
        | inl w ↦ rw (e, w) same
        | inr w ↦
            let fits = ltb→le (used r) n w in
            let v' = consume-IsValid n v fits (omega arith) in
            let next = λ (s' : S).
              consumed_more n v fits (process_rxq process fuel (consume r n) s')
                (process_rxq-ConsumedBy process fuel s' v') in
            elim (Bool-cases (ltb max_pkt n)) [
              | inl big ↦ rw (e, w, big) (next s)
              | inr small ↦
                  let handed = process (decode (frame r n)) s in
                  rw (e, w, small)
                    (elim (Bool-cases handed.0) [
                      | inl bad ↦ rw bad same
                      | inr good ↦ rw good (next handed.1)
                    ])
            ]
      ]
    ]

-- The loop of `coremodel_process_rxq` that ended keeps a valid ring valid: the indices fit 32 bits, at
-- most 4096 bytes are unread, and packets start at multiples of four. It has changed neither the
-- bytes of the array nor the index of the next byte to write, and no more bytes are unread than
-- before.
pub process_rxq-Consumed :
    {S : Type 0} (process : Packet → S → Bool × S) (fuel : ℕ) {r r' : Ring} (s : S) {s' : S}
    → IsValid r
    → process_rxq process fuel r s ≡ some (r', s')
    → Consumed r r'
process_rxq-Consumed process fuel {r} {r'} s {s'} v e =
    subst (ConsumedBy r) e (process_rxq-ConsumedBy process fuel s v)
