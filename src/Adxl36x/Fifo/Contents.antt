-- ===== src/Adxl36x/Fifo/Contents.antt =====
-- examples/i2c-adxl36x/coremodel-adxl36x.c: the samples that wait in the FIFO, oldest first.
use coremodel.Base.{
  ℕ, zero, suc, ◌+◌, ◌%◌, ◌<◌, ◌≤◌, ◌≡◌, ◌≢◌, refl, sym, ap, ap₂, ◌∙◌, List, [], ◌∷◌, ◌++◌,
  append-nil, append_assoc, arith, get_or, set, get_or-set_self, length, length-set, u32,
}
use coremodel.Adxl36x.Fifo.{Fifo, fifo_size, put, put_all}

-- `n` values from the index `r` on.
abbrev pub contents : ℕ → ℕ → List ℕ → List ℕ
contents zero r m = []
contents (suc n) r m = get_or m (r % fifo_size) 0 ∷ contents n (suc r) m

pub length-contents : (n r : ℕ) (m : List ℕ) → length (contents n r m) ≡ n
length-contents zero r m = refl
length-contents (suc n) r m = ap suc (length-contents n (suc r) m)

pub contents-mod :
    (n r r' : ℕ) (m : List ℕ) → r % fifo_size ≡ r' % fifo_size → contents n r m ≡ contents n r' m
contents-mod zero r r' m e = refl
contents-mod (suc n) r r' m e =
    ap₂ ◌∷◌ (ap (λ i. get_or m i 0) e) (contents-mod n (suc r) (suc r') m (omega arith))

contents-snoc :
    (n r : ℕ) (m : List ℕ)
    → contents (suc n) r m ≡ contents n r m ++ (get_or m ((r + n) % fifo_size) 0 ∷ [])
contents-snoc zero r m = ap (λ k. get_or m (k % fifo_size) 0 ∷ []) (omega arith)
contents-snoc (suc n) r m =
    let e : suc r + n ≡ r + suc n = omega arith in
    ap (◌∷◌ (get_or m (r % fifo_size) 0)) (
      contents-snoc n (suc r) m
      ∙ ap (λ k. contents n (suc r) m ++ (get_or m (k % fifo_size) 0 ∷ [])) e)

get_or-set_apart : (xs : List ℕ) (i j v d : ℕ) → j ≢ i → get_or (set xs i v) j d ≡ get_or xs j d
get_or-set_apart [] i j v d h = refl
get_or-set_apart (x ∷ xs) zero zero v d h = absurd (h refl)
get_or-set_apart (x ∷ xs) zero (suc j) v d h = refl
get_or-set_apart (x ∷ xs) (suc i) zero v d h = refl
get_or-set_apart (x ∷ xs) (suc i) (suc j) v d h = get_or-set_apart xs i j v d (omega (arith, h))

contents-set :
    (n r i v : ℕ) (m : List ℕ)
    → n < fifo_size
    → (r + n) % fifo_size ≡ i
    → contents n r (set m i v) ≡ contents n r m
contents-set zero r i v m lt e = refl
contents-set (suc n) r i v m lt e =
    ap₂ ◌∷◌ (get_or-set_apart m i (r % fifo_size) v 0 (omega arith))
      (contents-set n (suc r) i v m (omega arith) (omega arith))

-- The `n` values that wait, where the write index is `n` behind the read index.
pub record Behind (n : ℕ) (f : Fifo) : Type 0 where
  pub full : length f.sample_fifo ≡ fifo_size
  pub placed : f.sample_fifo_wpt ≡ u32 (f.sample_fifo_rpt + n)

abbrev pub held : ℕ → Fifo → List ℕ
held n f = contents n f.sample_fifo_rpt f.sample_fifo

put-held :
    (n v : ℕ) (f : Fifo)
    → Behind n f
    → n < fifo_size
    → held (suc n) (put v f) ≡ held n f ++ (v ∷ [])
put-held n v f b lt =
    let at : (f.sample_fifo_rpt + n) % fifo_size ≡ f.sample_fifo_wpt % fifo_size =
      omega (arith, b.placed) in
    let i = f.sample_fifo_wpt % fifo_size in
    contents-snoc n f.sample_fifo_rpt (set f.sample_fifo i v)
    ∙ ap₂ (λ xs k. xs ++ (k ∷ [])) (contents-set n f.sample_fifo_rpt i v f.sample_fifo lt at)
        (ap (λ k. get_or (set f.sample_fifo i v) k 0) at
          ∙ get_or-set_self f.sample_fifo i v 0 (omega (arith, b.full)))

put-Behind : (n v : ℕ) (f : Fifo) → Behind n f → Behind (suc n) (put v f)
put-Behind n v f b = record {
  full = length-set f.sample_fifo _ v ∙ b.full;
  placed = omega (arith, b.placed);
}

-- What a run of writes to the FIFO does.
pub record Filled (n : ℕ) (vs : List ℕ) (f f' : Fifo) : Type 0 where
  pub behind : Behind (n + length vs) f'
  pub appended : held (n + length vs) f' ≡ held n f ++ vs
  pub same_rpt : f'.sample_fifo_rpt ≡ f.sample_fifo_rpt
  pub same_trig : f'.fifo_trig ≡ f.fifo_trig

pub put_all-Filled :
    (n : ℕ) (vs : List ℕ) (f : Fifo)
    → Behind n f
    → n + length vs ≤ fifo_size
    → Filled n vs f (put_all vs f)
unfolding put_all
put_all-Filled n [] f b le =
    let e : n + 0 ≡ n = omega arith in
    record {
      behind = rw e b;
      appended = rw e (sym (append-nil _));
      same_rpt = refl;
      same_trig = refl;
    }
put_all-Filled n (v ∷ vs) f b le =
    let rest = put_all-Filled (suc n) vs (put v f) (put-Behind n v f b) (omega arith) in
    let e : n + suc (length vs) ≡ suc n + length vs = omega arith in
    record {
      behind = rw e rest.behind;
      appended =
          rw e rest.appended
          ∙ ap (λ xs. xs ++ vs) (put-held n v f b (omega arith))
          ∙ append_assoc (held n f) (v ∷ []) vs;
      same_rpt = rest.same_rpt;
      same_trig = rest.same_trig;
    }
