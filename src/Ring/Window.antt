-- ===== src/Ring/Window.antt =====
-- coremodel.c: the bytes of `rxq` between `rxqrp` and `rxqwp`, as a list.
use coremodel.Base.{
  true, false, ltb→lt, ltb→le, ◌==◌, Bool-cases, inl, inr, ℕ, zero, suc, ◌+◌, ◌-◌, ◌*◌, ◌%◌, ◌^◌,
  ◌≤◌, ◌<◌, ◌≡◌, refl, ap, ◌++◌, List, [], ◌∷◌, arith, length, take, drop, rd16, ltb, if◌then◌else◌,
}
use coremodel.Ring.{Ring, rx_buf, used, slice, window, in_place, frame_len, frame, consume}

-- The ring holds at most its size, and packets start at multiples of four.
pub record IsValid (r : Ring) : Type 0 where
  pub wp_fits : r.rxqwp < 2 ^ 32
  pub rp_fits : r.rxqrp < 2 ^ 32
  pub bounded : used r ≤ rx_buf
  pub aligned : r.rxqrp % 4 ≡ 0

abbrev pub contents : Ring → List ℕ
contents r = window r.rxq r.rxqrp (used r)

module _ (q : ℕ → ℕ) where
  pub length-window : (i n : ℕ) → length (window q i n) ≡ n
  unfolding window
  length-window i zero = refl
  length-window i (suc n) = ap suc (length-window (i + 1) n)

  pub window_mod : (i j n : ℕ) → i % rx_buf ≡ j % rx_buf → window q i n ≡ window q j n
  unfolding window
  window_mod i j zero e = refl
  window_mod i j (suc n) e = rw (e, window_mod (i + 1) (j + 1) n (omega arith))

  pub take-window : (i n m : ℕ) → n ≤ m → take n (window q i m) ≡ window q i n
  unfolding window
  take-window i zero m h = refl
  take-window i (suc n) zero h = absurd (omega arith)
  take-window i (suc n) (suc m) h =
      ap (◌∷◌ (q (i % rx_buf))) (take-window (i + 1) n m (omega arith))

  pub drop-window : (i n m : ℕ) → n ≤ m → drop n (window q i m) ≡ window q (i + n) (m - n)
  unfolding window
  drop-window i zero m h =
      let e : i + 0 ≡ i = omega arith in let d : m - 0 ≡ m = omega arith in rw (e, d)
  drop-window i (suc n) zero h = absurd (omega arith)
  drop-window i (suc n) (suc m) h =
      let e : i + suc n ≡ i + 1 + n = omega arith in
      let d : suc m - suc n ≡ m - n = omega arith in
      rw (e, d) (drop-window (i + 1) n m (omega arith))

  pub window-append : (i n m : ℕ) → window q i n ++ window q (i + n) m ≡ window q i (n + m)
  unfolding window
  window-append i zero m =
      let e : i + 0 ≡ i = omega arith in let d : 0 + m ≡ m = omega arith in rw (e, d)
  window-append i (suc n) m =
      let e : i + suc n ≡ i + 1 + n = omega arith in
      let d : suc n + m ≡ suc (n + m) = omega arith in
      rw (e, d) (ap (◌∷◌ (q (i % rx_buf))) (window-append (i + 1) n m))

  -- Without a turn round the end a window is a slice.
  pub slice-window :
      (j i n : ℕ) → j + n ≤ rx_buf → j % rx_buf ≡ i % rx_buf → slice q j n ≡ window q i n
  unfolding slice window
  slice-window j i zero h e = refl
  slice-window j i (suc n) h e =
      let here : j ≡ i % rx_buf = omega arith in
      rw (slice-window (j + 1) (i + 1) n (omega arith) (omega arith))
        (ap (λ k. q k ∷ window q (i + 1) n) here)

  -- Copied in two parts, or read in place: the bytes of the frame are those of the window.
  frame_bytes :
      (i n : ℕ)
      → rx_buf - i % rx_buf < n
      → n ≤ rx_buf
      → slice q (i % rx_buf) (rx_buf - i % rx_buf) ++ slice q 0 (n - (rx_buf - i % rx_buf))
        ≡ window q i n
  frame_bytes i n h k =
      let step = rx_buf - i % rx_buf in
      let total : step + (n - step) ≡ n = omega arith in
      rw (
        slice-window (i % rx_buf) i step (omega arith) (omega arith),
        slice-window 0 (i + step) (n - step) (omega arith) (omega arith),
        window-append i step (n - step),
        total,
      )

-- Within the array, what is read in place is a window.
in_place-window :
    (r : Ring) (j i n : ℕ)
    → j + n ≤ rx_buf
    → j % rx_buf ≡ i % rx_buf
    → in_place r j n ≡ window r.rxq i n
unfolding in_place window
in_place-window r j i zero h e = refl
in_place-window r j i (suc n) h e =
    let inside : ltb j rx_buf ≡ true = ground arith in
    let here : j ≡ i % rx_buf = omega arith in
    rw (inside, in_place-window r (j + 1) (i + 1) n (omega arith) (omega arith))
      (ap (λ k. r.rxq k ∷ window r.rxq (i + 1) n) here)

-- A frame is the window of its bytes, of its header's where it is shorter and does not start in the
-- last four bytes of the array.
pub frame-window :
    {r : Ring} (dlen : ℕ)
    → IsValid r
    → dlen % 4 ≡ 0
    → dlen ≤ rx_buf
    → (r.rxqrp % rx_buf ≡ rx_buf - 4 → dlen < 8 → ⊥)
    → frame r dlen ≡ window r.rxq r.rxqrp (if ltb dlen 8 then 8 else dlen)
unfolding frame
frame-window {r} dlen v m h whole =
    let offs = r.rxqrp % rx_buf in
    elim (Bool-cases (ltb (rx_buf - offs) dlen)) [
      | inl round ↦
          let long : ltb dlen 8 ≡ false = ground arith in
          rw (round, long) (frame_bytes r.rxq r.rxqrp dlen (ltb→lt (rx_buf - offs) dlen round) h)
      | inr straight ↦
          let fits = ltb→le (rx_buf - offs) dlen straight in
          rw straight (
            in_place-window r offs r.rxqrp (if ltb dlen 8 then 8 else dlen)
              (elim (Bool-cases (ltb dlen 8)) [
                | inl short ↦ rw short (elim (Bool-cases (offs == (rx_buf - 4))) [
                  | inl last ↦ absurd (whole (ground arith) (ltb→lt dlen 8 short))
                  | inr before ↦ ground arith
                ])
                | inr long ↦ rw long (omega arith)
              ])
              (omega arith))
    ]

rd16-window :
    (q : ℕ → ℕ) (i n : ℕ)
    → 2 ≤ n
    → rd16 (window q i n) 0 ≡ q (i % rx_buf) + 256 * q ((i + 1) % rx_buf)
unfolding window
rd16-window q i zero h = absurd (omega arith)
rd16-window q i (suc zero) h = absurd (omega arith)
rd16-window q i (suc (suc n)) h = refl

-- The branch for a length that goes round the end is never taken: packets start at multiples of 4.
pub frame_len-contents : {r : Ring} → IsValid r → 2 ≤ used r → frame_len r ≡ rd16 (contents r) 0
unfolding frame_len
frame_len-contents {r} v h =
    let next : r.rxqrp % rx_buf + 1 ≡ (r.rxqrp + 1) % rx_buf = omega arith in
    rw (rd16-window r.rxq r.rxqrp (used r) h) (ground (arith, ap r.rxq next))

pub contents-consume :
    {r : Ring} (dlen : ℕ)
    → IsValid r
    → dlen ≤ used r
    → contents (consume r dlen) ≡ drop dlen (contents r)
unfolding consume
contents-consume {r} dlen v h =
    let left : used (consume r dlen) ≡ used r - dlen = omega arith in
    rw (drop-window r.rxq r.rxqrp dlen (used r) h, left)
      (window_mod r.rxq ((r.rxqrp + dlen) % 2 ^ 32) (r.rxqrp + dlen) (used r - dlen) (omega arith))

pub consume-IsValid :
    {r : Ring} (dlen : ℕ) → IsValid r → dlen ≤ used r → dlen % 4 ≡ 0 → IsValid (consume r dlen)
unfolding consume
consume-IsValid {r} dlen v h m = omega arith

-- A ring whose indices are the same holds nothing.
pub contents-nothing : (r : Ring) → r.rxqwp ≡ r.rxqrp → r.rxqrp < 2 ^ 32 → contents r ≡ []
unfolding window
contents-nothing r e h =
    let none_used : used r ≡ 0 = omega arith in ap (window r.rxq r.rxqrp) none_used
