-- ===== src/Tx/Flow.antt =====
-- coremodel.c: what is queued is sent whole and in order, in writes of any sizes.
use coremodel.Base.{
  ℕ, zero, suc, ◌+◌, ◌-◌, ◌≤◌, ◌<◌, ◌≡◌, refl, sym, ap, ◌∙◌, ◌++◌, false, List, [], ◌∷◌, arith, ltb,
  ltb→le, ◌==◌, if◌then◌else◌, length, take, drop, min, inl, inr, Bool-cases, append_assoc,
  append-nil, length-append, length-drop, length-take, take-append-drop,
}
use coremodel.Socket.{Answer, moved, eof, eintr, eagain, failed, End, drained}
use coremodel.Tx.{TxBuf, write_loop}

-- The bytes that are still to be sent.
abbrev pub pending : List TxBuf → List ℕ
pending [] = []
pending (t ∷ ts) = drop t.rptr t.buf ++ pending ts

pub record IsQueued (t : TxBuf) : Type 0 where
  pub sized : t.size ≡ length t.buf
  pub unsent : t.rptr < t.size

abbrev pub AllQueued : List TxBuf → Type 0
AllQueued [] = Unit {0}
AllQueued (t ∷ ts) = IsQueued t × AllQueued ts

pub pending-append : (xs ys : List TxBuf) → pending (xs ++ ys) ≡ pending xs ++ pending ys
pending-append [] ys = refl
pending-append (x ∷ xs) ys =
    rw (pending-append xs ys) (sym (append_assoc _ (pending xs) (pending ys)))

drop-drop : (n m : ℕ) (xs : List ℕ) → drop m (drop n xs) ≡ drop (n + m) xs
drop-drop zero m xs = let e : 0 + m ≡ m = omega arith in rw e
drop-drop (suc n) zero [] = let e : suc n + 0 ≡ suc (n + 0) = omega arith in rw e
drop-drop (suc n) (suc m) [] = let e : suc n + suc m ≡ suc (n + suc m) = omega arith in rw e
drop-drop (suc n) m (x ∷ xs) =
    let e : suc n + m ≡ suc (n + m) = omega arith in rw e (drop-drop n m xs)

drop-nil : (n : ℕ) (xs : List ℕ) → length xs ≤ n → drop n xs ≡ []
drop-nil zero [] h = refl
drop-nil zero (x ∷ xs) h = absurd (omega arith)
drop-nil (suc n) [] h = refl
drop-nil (suc n) (x ∷ xs) h = drop-nil n xs (omega arith)

module _ (t : TxBuf) (rest : List TxBuf) (res : ℕ) (v : IsQueued t) (vs : AllQueued rest) where
  abbrev advanced : List TxBuf
  advanced = if ltb (t.rptr + res) t.size then record t { rptr = t.rptr + res } ∷ rest else rest

  -- What one write leaves, with the bytes that it took in front, is what was pending.
  advanced-pending : take res (drop t.rptr t.buf) ++ pending advanced ≡ pending (t ∷ rest)
  advanced-pending =
      let joined : take res (drop t.rptr t.buf) ++ drop (t.rptr + res) t.buf ≡ drop t.rptr t.buf =
        rw (← drop-drop t.rptr res t.buf) (take-append-drop res (drop t.rptr t.buf)) in
      elim (Bool-cases (ltb (t.rptr + res) t.size)) [
        | inl more ↦ rw more (
            sym (append_assoc (take res (drop t.rptr t.buf)) _ (pending rest))
            ∙ ap (λ b. b ++ pending rest) joined)
        | inr all ↦
            let gone =
              drop-nil (t.rptr + res) t.buf (omega (arith, ltb→le (t.rptr + res) t.size all)) in
            rw all (
              ap (λ b. b ++ pending rest)
                (sym (append-nil (take res (drop t.rptr t.buf)))
                  ∙ ap (◌++◌ (take res (drop t.rptr t.buf))) (sym gone)
                  ∙ joined))
      ]

  advanced-AllQueued : AllQueued advanced
  advanced-AllQueued = ground arith

-- What a run of the write loop over the queue `ts` has done.
pub record Sent (ts : List TxBuf) (out : End × List ℕ × List TxBuf) : Type 0 where
  pub conserved : out.1 ++ pending out.2 ≡ pending ts
  pub queued : AllQueued out.2

-- The bytes that the write loop of `coremodel_processfds` hands to the socket and the bytes that it
-- leaves in the queue are, in this order, the bytes that were queued, however many each write
-- takes, and whether the loop ends with the connection open or closed.
pub write_loop-Sent :
    (es : List Answer) (ts : List TxBuf) → AllQueued ts → Sent ts (write_loop es ts)
unfolding write_loop
write_loop-Sent es [] v = record { conserved = refl; queued = tt }
write_loop-Sent [] (t ∷ ts) v = record { conserved = refl; queued = v }
write_loop-Sent (moved n ∷ es) (t ∷ ts) v =
    let res = min (suc n) (t.size - t.rptr) in
    let rest =
      write_loop-Sent es (advanced t ts res v.0 v.1) (advanced-AllQueued t ts res v.0 v.1) in
    elim (Bool-cases (res == 0)) [
      | inl stuck ↦ rw stuck (record { conserved = refl; queued = v })
      | inr some_bytes ↦ rw some_bytes (record {
        conserved =
            append_assoc (take res (drop t.rptr t.buf)) _ _
            ∙ ap (◌++◌ (take res (drop t.rptr t.buf))) rest.conserved
            ∙ advanced-pending t ts res v.0 v.1;
        queued = rest.queued;
      })
    ]
write_loop-Sent (eof ∷ es) (t ∷ ts) v = record { conserved = refl; queued = v }
write_loop-Sent (eintr ∷ es) (t ∷ ts) v = write_loop-Sent es (t ∷ ts) v
write_loop-Sent (eagain ∷ es) (t ∷ ts) v = record { conserved = refl; queued = v }
write_loop-Sent (failed e ∷ es) (t ∷ ts) v = record { conserved = refl; queued = v }

abbrev pub AllMoved : List Answer → Type 0
AllMoved [] = Unit {0}
AllMoved (moved n ∷ es) = AllMoved es
AllMoved (eof ∷ es) = ⊥
AllMoved (eintr ∷ es) = AllMoved es
AllMoved (eagain ∷ es) = ⊥
AllMoved (failed e ∷ es) = ⊥

abbrev pub moves : List Answer → ℕ
moves [] = 0
moves (moved n ∷ es) = suc (moves es)
moves (_ ∷ es) = moves es

module _ (t : TxBuf) (ts : List TxBuf) (n : ℕ) (v : IsQueued t) (vs : AllQueued ts) where
  abbrev amount : ℕ
  amount = min (suc n) (t.size - t.rptr)

  amount_pos : 0 < amount
  amount_pos = omega arith

  amount_taken : length (take amount (drop t.rptr t.buf)) ≡ amount
  amount_taken = omega (arith, length-take amount (drop t.rptr t.buf), length-drop t.rptr t.buf)

  fewer_pending : length (pending (advanced t ts amount v vs)) + 1 ≤ length (pending (t ∷ ts))
  fewer_pending =
      let total = ap length (advanced-pending t ts amount v vs) in
      omega (
        arith,
        total,
        length-append (take amount (drop t.rptr t.buf)) (pending (advanced t ts amount v vs)),
        amount_taken,
        amount_pos,
      )

-- As many writes that the socket answers as there are bytes queued empty the queue, with the
-- connection still open.
pub write_loop_drains :
    (es : List Answer) (ts : List TxBuf)
    → AllQueued ts
    → AllMoved es
    → length (pending ts) ≤ moves es
    → write_loop es ts ≡ (drained, pending ts, [])
unfolding write_loop
write_loop_drains es [] v m h = refl
write_loop_drains [] (t ∷ ts) v m h =
    absurd (omega (arith, length-append (drop t.rptr t.buf) (pending ts), length-drop t.rptr t.buf))
write_loop_drains (moved n ∷ es) (t ∷ ts) v m h =
    let res = amount t ts n v.0 v.1 in
    let busy : (res == 0) ≡ false = ground (arith, amount_pos t ts n v.0 v.1) in
    let few : length (pending (advanced t ts res v.0 v.1)) ≤ moves es =
      omega (arith, fewer_pending t ts n v.0 v.1) in
    rw
      (
        busy,
        write_loop_drains es (advanced t ts res v.0 v.1) (advanced-AllQueued t ts res v.0 v.1) m
            few,
      )
      (ap (λ b. (drained, b, [])) (advanced-pending t ts res v.0 v.1))
write_loop_drains (eof ∷ es) (t ∷ ts) v m h = absurd m
write_loop_drains (eintr ∷ es) (t ∷ ts) v m h = write_loop_drains es (t ∷ ts) v m h
write_loop_drains (eagain ∷ es) (t ∷ ts) v m h = absurd m
write_loop_drains (failed e ∷ es) (t ∷ ts) v m h = absurd m
