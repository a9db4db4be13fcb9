-- ===== src/Switch/Table.antt =====
-- examples/eth-switch/eth-switch.c: the entries in the heap, as a table of addresses.
use coremodel.Base.{
  ℕ, zero, suc, ◌+◌, ◌-◌, ◌<◌, ◌≤◌, ◌≡◌, ◌≢◌, refl, sym, subst, ap, ◌∙◌, ◌||◌, Bool, true, false,
  Bool-cases, inl, inr, List, [], ◌∷◌, Option, none, some, arith, ltb, ◌==◌, if◌then◌else◌, length,
}
use coremodel.Switch.{
  MacEntry, Heap, write, Client, Run, ok, and_then, Walk, found, missed, walk, Located, before,
  locate_from, switch_cli_locate, purge_seconds,
}

-- The addresses of one client, in the order of its entries; none of these is old enough to be purged.
pub data Chain (now : ℕ) (h : Heap) : ℕ → List ℕ → Type 0 where
  nil : {p : ℕ} → p ≡ 0 → Chain now h p []
  cons :
      {p m : ℕ} {ms : List ℕ} (e : MacEntry)
      → p ≢ 0
      → h p ≡ some e
      → e.mac ≡ m
      → now ≤ e.ts + purge_seconds
      → Chain now h e.next ms
      → Chain now h p (m ∷ ms)

-- The number of a client, and its addresses.
pub record Row : Type 0 where
  pub id : ℕ
  pub macs : List ℕ

-- The clients have the addresses of the table, each at most `bound`.
pub data Holds (now bound : ℕ) (h : Heap) : List Client → List Row → Type 0 where
  end : Holds now bound h [] []
  row :
      {c : Client} {r : Row} {cs : List Client} {rs : List Row}
      → c.id ≡ r.id
      → length r.macs ≤ bound
      → Chain now h c.me r.macs
      → Holds now bound h cs rs
      → Holds now bound h (c ∷ cs) (r ∷ rs)

abbrev pub contains : ℕ → List ℕ → Bool
contains m [] = false
contains m (x ∷ xs) = (x == m) || contains m xs

-- The first client with the address.
abbrev pub lookup : ℕ → List Row → Option ℕ
lookup m [] = none
lookup m (r ∷ rs) = if contains m r.macs then some r.id else lookup m rs

-- What a search may do to the heap: it renews an entry, so that every chain stays and nothing is
-- allocated.
pub record Renewed (now : ℕ) (h h' : Heap) : Type 0 where
  pub chain : (p : ℕ) (ms : List ℕ) → Chain now h p ms → Chain now h' p ms
  pub same_free : (q : ℕ) → h q ≡ none → h' q ≡ none

touch-Chain :
    (now : ℕ) (h : Heap) (q : ℕ) (e : MacEntry)
    → h q ≡ some e
    → (p : ℕ) (ms : List ℕ) → Chain now h p ms
    → Chain now (write h q (some (record e { ts = now }))) p ms
unfolding write
touch-Chain now h q e at p [] (nil z) = nil z
touch-Chain now h q e at p (m ∷ ms) (cons e' nz at' eq fresh rest) =
    let tail = touch-Chain now h q e at e'.next ms rest in
    elim (Bool-cases (p == q)) [
      | inl same ↦
          (let here : p ≡ q = ground arith in
            let ee : e ≡ e' = cc in
            cons (record e { ts = now }) nz (rw same refl) (ap (λ x. x.mac) ee ∙ eq) (omega arith)
              (subst
                (λ (x : MacEntry). Chain now (write h q (some (record e { ts = now }))) x.next ms)
                (sym ee) tail))
      | inr other ↦ cons e' nz (rw other at') eq fresh tail
    ]

touch-Renewed :
    (now : ℕ) (h : Heap) (q : ℕ) (e : MacEntry)
    → h q ≡ some e
    → Renewed now h (write h q (some (record e { ts = now })))
unfolding write
touch-Renewed now h q e at = record {
  chain = touch-Chain now h q e at;
  same_free = λ k free. elim (Bool-cases (k == q)) [
    | inl same ↦ (let here : k ≡ q = ground arith in cc)
    | inr other ↦ rw other free
  ];
}

-- How a search through one client's fresh entries ends.
data Ended (now : ℕ) (c : Client) (h : Heap) : Bool → Run Walk → Type 0 where
  hit : (h' : Heap) → Renewed now h h' → Ended now c h true (ok (found c h'))
  miss : (pme : ℕ) → Ended now c h false (ok (missed pme c h))

module _ (fuel m now : ℕ) (c : Client) (p pme : ℕ) (h : Heap) (e : MacEntry) (nz : p ≢ 0)
    (at : h p ≡ some e) where
  walk_hit :
      e.mac ≡ m
      → walk (suc fuel) m now c p pme h ≡ ok (found c (write h p (some (record e { ts = now }))))
  unfolding walk
  walk_hit eq =
      let here : (p == 0) ≡ false = ground arith in
      let same : (e.mac == m) ≡ true = ground arith in rw here (rw (at, walk) (rw same))

  walk_next :
      e.mac ≢ m
      → now ≤ e.ts + purge_seconds
      → walk (suc fuel) m now c p pme h ≡ walk fuel m now c e.next p h
  unfolding walk
  walk_next ne fresh =
      let here : (p == 0) ≡ false = ground arith in
      let other : (e.mac == m) ≡ false = ground arith in
      let kept : ltb purge_seconds (now - e.ts) ≡ false = ground arith in
      rw here (rw (at, walk) (rw (other, kept)))

walk_end :
    (fuel m now : ℕ) (c : Client) (pme : ℕ) (h : Heap)
    → walk (suc fuel) m now c 0 pme h ≡ ok (missed pme c h)
unfolding walk
walk_end fuel m now c pme h = refl

walk-Ended :
    (fuel m now : ℕ) (c : Client) (p pme : ℕ) (h : Heap) (ms : List ℕ)
    → Chain now h p ms
    → length ms < fuel
    → Ended now c h (contains m ms) (walk fuel m now c p pme h)
walk-Ended zero m now c p pme h ms ch lt = absurd (omega arith)
walk-Ended (suc fuel) m now c p pme h [] (nil z) lt =
    rw z (rw (walk_end fuel m now c pme h) (miss pme))
walk-Ended (suc fuel) m now c p pme h (x ∷ ms) (cons e nz at eq fresh rest) lt =
    let onward = walk-Ended fuel m now c e.next p h ms rest (omega arith) in
    elim (Bool-cases (x == m)) [
      | inl same ↦ rw same (
          rw (walk_hit fuel m now c p pme h e nz at (ground arith))
            (hit (write h p (some (record e { ts = now }))) (touch-Renewed now h p e at)))
      | inr other ↦
          rw other (rw (walk_next fuel m now c p pme h e nz at (ground arith) fresh) onward)
    ]

-- What a search of all clients gives: the owner, the clients as they were, and a renewed heap.
pub data Found (now : ℕ) (cs : List Client) (h : Heap) (o : Option ℕ) : Run Located → Type 0 where
  located :
      (h' : Heap)
      → Renewed now h h'
      → Found now cs h o (ok (record { owner = o; clients = cs; heap = h' }))

before-Found :
    {now : ℕ} {cs : List Client} {h : Heap} {o : Option ℕ} {r : Run Located} (c : Client)
    → Found now cs h o r
    → Found now (c ∷ cs) h o (and_then r (λ l. ok (before c l)))
before-Found c (located h' n) = located h' n

module _ (fuel m now : ℕ) (c : Client) (cs : List Client) (h : Heap) (o : Option ℕ) where
  abbrev after_walk : Walk → Run Located
  after_walk w = elim w [
    | found c' h' ↦ ok (record { owner = some c'.id; clients = c' ∷ cs; heap = h' })
    | missed pme' c' h' ↦ and_then (locate_from fuel m now pme' cs h') (λ l. ok (before c' l))
  ]

  walk-Found :
      {b : Bool} {w : Run Walk}
      → Ended now c h b w
      → ((pme' : ℕ) → Found now cs h o (locate_from fuel m now pme' cs h))
      → Found now (c ∷ cs) h (if b then some c.id else o) (and_then w after_walk)
  walk-Found (hit h' n) rest = located h' n
  walk-Found (miss pme') rest = before-Found c (rest pme')

locate_from-Found :
    (fuel m now bound pme : ℕ) (h : Heap) (cs : List Client) (rs : List Row)
    → Holds now bound h cs rs
    → bound < fuel
    → Found now cs h (lookup m rs) (locate_from fuel m now pme cs h)
unfolding locate_from
locate_from-Found fuel m now bound pme h [] [] end lt =
    located h (record { chain = λ p ms ch. ch; same_free = λ q free. free })
locate_from-Found fuel m now bound pme h [] (r ∷ rs) t lt = elim t [ ]
locate_from-Found fuel m now bound pme h (c ∷ cs) [] t lt = elim t [ ]
locate_from-Found fuel m now bound pme h (c ∷ cs) (r ∷ rs) (row same few ch rest) lt =
    let go = walk-Ended fuel m now c c.me pme h r.macs ch (omega arith) in
    rw (← same) (
      walk-Found fuel m now c cs h (lookup m rs) go
        (λ pme'. locate_from-Found fuel m now bound pme' h cs rs rest lt))

-- The search finds the first client of the table that has the address.
pub locate-Found :
    (fuel m now bound : ℕ) (h : Heap) (cs : List Client) (rs : List Row)
    → Holds now bound h cs rs
    → bound < fuel
    → Found now cs h (lookup m rs) (switch_cli_locate fuel m now cs h)
unfolding switch_cli_locate
locate-Found fuel m now bound h cs rs t lt = locate_from-Found fuel m now bound 0 h cs rs t lt

pub Renewed-Holds :
    (now bound : ℕ) (h h' : Heap) (cs : List Client) (rs : List Row)
    → Renewed now h h'
    → Holds now bound h cs rs
    → Holds now bound h' cs rs
Renewed-Holds now bound h h' [] [] n end = end
Renewed-Holds now bound h h' [] (r ∷ rs) n t = elim t [ ]
Renewed-Holds now bound h h' (c ∷ cs) [] n t = elim t [ ]
Renewed-Holds now bound h h' (c ∷ cs) (r ∷ rs) n (row same few ch rest) =
    row same few (n.chain c.me r.macs ch) (Renewed-Holds now bound h h' cs rs n rest)
