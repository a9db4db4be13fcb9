-- ===== src/Ring/Fill.antt =====
-- coremodel.c: the read loop of `coremodel_processfds` appends what it reads, and stays in bounds.
use coremodel.Base.{
  ℕ, zero, suc, ◌+◌, ◌-◌, ◌%◌, ◌≤◌, ◌<◌, ◌≡◌, refl, sym, ap, ◌∙◌, ◌++◌, List, [], ◌∷◌, arith, ◌==◌,
  length, take, drop, min, Bool-cases, inl, inr, get_or, length-take, take-append-drop,
  append_assoc, append-nil,
}
use coremodel.Ring.{Ring, rx_buf, used, room, window, blit, fill, read_loop}
use coremodel.Socket.{Answer, moved, eof, eintr, eagain, failed, End, drained}
use coremodel.Ring.Window.{IsValid, contents, window-append}

window-cong :
    (q q' : ℕ → ℕ) (i n : ℕ)
    → ((k : ℕ) → k < n → q' ((i + k) % rx_buf) ≡ q ((i + k) % rx_buf))
    → window q' i n ≡ window q i n
unfolding window
window-cong q q' i zero h = refl
window-cong q q' i (suc n) h =
    let here : (i + 0) % rx_buf ≡ i % rx_buf = omega arith in
    rw
      (window-cong q q' (i + 1) n
        (λ k b. let e : i + 1 + k ≡ i + suc k = omega arith in rw e (h (suc k) (omega arith))))
      (ap (λ x. x ∷ window q (i + 1) n) (rw here at (h 0 (omega arith))))

window-eq :
    (q : ℕ → ℕ) (i : ℕ) (bs : List ℕ)
    → ((k : ℕ) → k < length bs → q ((i + k) % rx_buf) ≡ get_or bs k 0)
    → window q i (length bs) ≡ bs
unfolding window
window-eq q i [] h = refl
window-eq q i (b ∷ bs) h =
    let here : (i + 0) % rx_buf ≡ i % rx_buf = omega arith in
    rw
      (window-eq q (i + 1) bs
        (λ k l. let e : i + 1 + k ≡ i + suc k = omega arith in rw e (h (suc k) (omega arith))))
      (ap (λ x. x ∷ bs) (rw here at (h 0 (omega arith))))

module _ {r : Ring} (bs : List ℕ) (v : IsValid r) (fits : length bs ≤ room r) where
  old_bytes :
      (k : ℕ)
      → k < used r
      → blit r.rxq (r.rxqwp % rx_buf) bs ((r.rxqrp + k) % rx_buf) ≡ r.rxq ((r.rxqrp + k) % rx_buf)
  unfolding blit
  old_bytes k h = ground arith

  new_bytes :
      (k : ℕ)
      → k < length bs
      → blit r.rxq (r.rxqwp % rx_buf) bs ((r.rxqrp + used r + k) % rx_buf) ≡ get_or bs k 0
  unfolding blit
  new_bytes k h =
      let at : (r.rxqrp + used r + k) % rx_buf ≡ r.rxqwp % rx_buf + k = omega arith in
      let back : r.rxqwp % rx_buf + k - r.rxqwp % rx_buf ≡ k = omega arith in
      rw at (ground (arith, ap (λ j. get_or bs j 0) back))

  used-fill : used (fill r bs) ≡ used r + length bs
  unfolding fill
  used-fill = omega arith

  fill-IsValid : IsValid (fill r bs)
  unfolding fill
  fill-IsValid = omega arith

  contents-fill : contents (fill r bs) ≡ contents r ++ bs
  unfolding fill
  contents-fill =
      let q' = blit r.rxq (r.rxqwp % rx_buf) bs in
      ap (window q' r.rxqrp) used-fill
      ∙ sym (window-append q' r.rxqrp (used r) (length bs))
      ∙ ap (λ w. w ++ window q' (r.rxqrp + used r) (length bs))
          (window-cong r.rxq q' r.rxqrp (used r) old_bytes)
      ∙ ap (◌++◌ (contents r)) (window-eq q' (r.rxqrp + used r) bs new_bytes)

-- What a run of the read loop has done: it moved `taken` from the stream to the end of the ring.
pub record Received (stream : List ℕ) (r : Ring) (out : End × List ℕ × Ring) : Type 0 where
  pub taken : List ℕ
  pub conserved : taken ++ out.1 ≡ stream
  pub appended : contents out.2 ≡ contents r ++ taken
  pub valid : IsValid out.2

pub nothing :
    (end : End) (stream : List ℕ) (r : Ring) → IsValid r → Received stream r (end, stream, r)
nothing end stream r v = record {
  taken = [];
  conserved = refl;
  appended = sym (append-nil (contents r));
  valid = v;
}

chunk_fits :
    (n : ℕ) (stream : List ℕ) (r : Ring) → length (take (min (suc n) (room r)) stream) ≤ room r
chunk_fits n stream r = omega (arith, length-take (min (suc n) (room r)) stream)

-- The read loop of `coremodel_processfds` takes a prefix of the stream and appends it to the ring,
-- in any number of reads of any sizes; it never writes outside the array or over unread bytes.
pub read_loop-Received :
    (es : List Answer) (stream : List ℕ) {r : Ring}
    → IsValid r
    → Received stream r (read_loop es stream r)
unfolding read_loop
read_loop-Received [] stream {r} v = nothing drained stream r v
read_loop-Received (moved n ∷ es) stream {r} v =
    let amount = min (suc n) (room r) in
    let chunk = take amount stream in
    let fits = chunk_fits n stream r in
    let rest = read_loop-Received es (drop amount stream) (fill-IsValid chunk v fits) in
    elim (Bool-cases ((rx_buf - used r) == 0)) [
      | inl full ↦ rw full (nothing _ stream r v)
      | inr more ↦ rw more (elim (Bool-cases (length chunk == 0)) [
        | inl dry ↦ rw dry (nothing _ stream r v)
        | inr wet ↦ rw wet (record {
          taken = chunk ++ rest.taken;
          conserved =
              append_assoc chunk rest.taken _
              ∙ ap (◌++◌ chunk) rest.conserved
              ∙ take-append-drop amount stream;
          appended =
              rest.appended
              ∙ ap (λ c. c ++ rest.taken) (contents-fill chunk v fits)
              ∙ append_assoc (contents r) chunk rest.taken;
          valid = rest.valid;
        })
      ])
    ]
read_loop-Received (eof ∷ es) stream {r} v = elim (Bool-cases ((rx_buf - used r) == 0)) [
  | inl full ↦ rw full (nothing _ stream r v)
  | inr more ↦ rw more (nothing _ stream r v)
]
read_loop-Received (eintr ∷ es) stream {r} v = elim (Bool-cases ((rx_buf - used r) == 0)) [
  | inl full ↦ rw full (nothing _ stream r v)
  | inr more ↦ rw more (read_loop-Received es stream v)
]
read_loop-Received (eagain ∷ es) stream {r} v = nothing drained stream r v
read_loop-Received (failed e ∷ es) stream {r} v = elim (Bool-cases ((rx_buf - used r) == 0)) [
  | inl full ↦ rw full (nothing _ stream r v)
  | inr more ↦ rw more (nothing _ stream r v)
]

-- The bytes in the ring and on the way stay the same.
pub Received-whole :
    {stream : List ℕ} {r : Ring} {out : End × List ℕ × Ring}
    → Received stream r out
    → contents out.2 ++ out.1 ≡ contents r ++ stream
Received-whole {r = r} {out = out} d =
    ap (λ c. c ++ out.1) d.appended
    ∙ append_assoc (contents r) d.taken out.1
    ∙ ap (◌++◌ (contents r)) d.conserved
