-- ===== src/Switch/Forward.antt =====
-- examples/eth-switch/eth-switch.c: `switch_eth_tx` is a learning switch.
use coremodel.Base.{
  ℕ, suc, ◌<◌, ◌≤◌, ◌≡◌, ◌≢◌, refl, sym, ap, ap₂, ◌∙◌, true, false, Bool-cases, inl, inr, List, [],
  ◌∷◌, none, some, arith, ltb, ◌==◌, if◌then◌else◌, length, drop,
}
use coremodel.Switch.{
  MacEntry, Heap, write, Client, Run, ok, and_then, Located, switch_cli_add_mac, add_to, head_of,
  learn_source, forward, switch_eth_tx, Switched, is_owner, recipients, others, ids, buf2mac,
  broadcast_mac,
}
use coremodel.Switch.Table.{
  Chain, nil, cons, Row, Holds, end, row, lookup, Renewed, Found, located, locate-Found,
  Renewed-Holds,
}

-- The table of an abstract switch: the source of a frame is entered for its client unless the first
-- client that has it is that one.
abbrev pub enter : ℕ → ℕ → List Row → List Row
enter scli m [] = []
enter scli m (r ∷ rs) =
    if r.id == scli then record r { macs = m ∷ r.macs } ∷ rs else r ∷ enter scli m rs

abbrev pub learn : ℕ → ℕ → List Row → List Row
learn scli m rs = if is_owner scli (lookup m rs) then rs else enter scli m rs

abbrev pub row_ids : List Row → List ℕ
row_ids [] = []
row_ids (r ∷ rs) = r.id ∷ row_ids rs

-- A broadcast, and a frame to an address that no client has, go to all clients but the source; any
-- other frame to the first client that has the address.
abbrev pub targets : ℕ → ℕ → List Row → List ℕ
targets scli dmac rs =
    if dmac == broadcast_mac
    then others scli (row_ids rs)
    else recipients scli (lookup dmac rs) (row_ids rs)

ids-Holds :
    {now bound : ℕ} {h : Heap} (cs : List Client) (rs : List Row)
    → Holds now bound h cs rs
    → ids cs ≡ row_ids rs
ids-Holds [] [] end = refl
ids-Holds [] (r ∷ rs) t = elim t [ ]
ids-Holds (c ∷ cs) [] t = elim t [ ]
ids-Holds (c ∷ cs) (r ∷ rs) (row same few ch rest) = ap₂ ◌∷◌ same (ids-Holds cs rs rest)

-- Writing an entry at an address that was free leaves all chains.
fresh-Chain :
    (now : ℕ) (h : Heap) (q : ℕ) (e : MacEntry)
    → h q ≡ none
    → (p : ℕ) (ms : List ℕ) → Chain now h p ms
    → Chain now (write h q (some e)) p ms
unfolding write
fresh-Chain now h q e free p [] (nil z) = nil z
fresh-Chain now h q e free p (m ∷ ms) (cons e' nz at eq young rest) =
    let other : (p == q) ≡ false = ground arith in
    cons e' nz (rw other at) eq young (fresh-Chain now h q e free e'.next ms rest)

module _ (now bound : ℕ) (h h' : Heap)
    (keep : (p : ℕ) (ms : List ℕ) → Chain now h p ms → Chain now h' p ms) where
  kept-Holds :
      (cs : List Client) (rs : List Row) → Holds now bound h cs rs → Holds now (suc bound) h' cs rs
  kept-Holds [] [] end = end
  kept-Holds [] (r ∷ rs) t = elim t [ ]
  kept-Holds (c ∷ cs) [] t = elim t [ ]
  kept-Holds (c ∷ cs) (r ∷ rs) (row same few ch rest) =
      row same (omega arith) (keep c.me r.macs ch) (kept-Holds cs rs rest)

  -- The new entry heads the chain of its client.
  add_to-Holds :
      (scli q m : ℕ) (cs : List Client) (rs : List Row)
      → q ≢ 0
      → h' q ≡ some (record { next = head_of scli cs; mac = m; ts = now })
      → Holds now bound h cs rs
      → Holds now (suc bound) h' (add_to scli q cs) (enter scli m rs)
  unfolding add_to head_of
  add_to-Holds scli q m [] [] nz at end = end
  add_to-Holds scli q m [] (r ∷ rs) nz at t = elim t [ ]
  add_to-Holds scli q m (c ∷ cs) [] nz at t = elim t [ ]
  add_to-Holds scli q m (c ∷ cs) (r ∷ rs) nz at (row same few ch rest) =
      elim (Bool-cases (c.id == scli)) [
        | inl here ↦
            (let here' : (r.id == scli) ≡ true = ap (λ i. i == scli) (sym same) ∙ here in
              let e : MacEntry = record { next = c.me; mac = m; ts = now } in
              rw (here, here')
                (row same (omega arith)
                  (cons e nz (rw here at at) refl (omega arith) (keep c.me r.macs ch))
                  (kept-Holds cs rs rest)))
        | inr other ↦
            (let other' : (r.id == scli) ≡ false = ap (λ i. i == scli) (sym same) ∙ other in
              rw (other, other')
                (row same (omega arith) (keep c.me r.macs ch)
                  (add_to-Holds scli q m cs rs nz (rw other at at) rest)))
      ]

-- The state after the source was learned.
record Learned (now bound : ℕ) (rs : List Row) (run : Run (List Client × Heap)) : Type 0 where
  state : List Client × Heap
  runs : run ≡ ok state
  holds : Holds now (suc bound) state.1 state.0 rs

module _ (now bound fresh scli m : ℕ) (h : Heap) (cs : List Client) (rs : List Row)
    (t : Holds now bound h cs rs) (nz : fresh ≢ 0) (free : h fresh ≡ none) where
  add_mac-Holds :
      (h1 : Heap)
      → Renewed now h h1
      → let s = switch_cli_add_mac fresh now scli m cs h1 in
        Holds now (suc bound) s.1 s.0 (enter scli m rs)
  unfolding switch_cli_add_mac write
  add_mac-Holds h1 n =
      let some_memory : (fresh == 0) ≡ false = ground arith in
      let e : MacEntry = record { next = head_of scli cs; mac = m; ts = now } in
      let same : (fresh == fresh) ≡ true = ground arith in
      rw some_memory (
        add_to-Holds now bound h1 (write h1 fresh (some e))
          (fresh-Chain now h1 fresh e (n.same_free fresh free)) scli fresh m cs rs nz (rw same refl)
          (Renewed-Holds now bound h h1 cs rs n t))

  learned :
      {run : Run Located}
      → Found now cs h (lookup m rs) run
      → Learned now bound (learn scli m rs) (
          and_then run (λ l. ok (
            if is_owner scli l.owner
            then (l.clients, l.heap)
            else switch_cli_add_mac fresh now scli m l.clients l.heap)))
  learned (located h1 n) = elim (Bool-cases (is_owner scli (lookup m rs))) [
    | inl known ↦ record {
      state = (cs, h1);
      runs = rw known;
      holds = rw known (
          kept-Holds now bound h1 h1 (λ p ms ch. ch) cs rs
            (Renewed-Holds now bound h h1 cs rs n t));
    }
    | inr new ↦ record {
      state = switch_cli_add_mac fresh now scli m cs h1;
      runs = rw new;
      holds = rw new (add_mac-Holds h1 n);
    }
  ]

  learn_source-Learned :
      (fuel : ℕ)
      → bound < fuel
      → Learned now bound (learn scli m rs) (learn_source fuel now fresh scli m cs h)
  unfolding learn_source
  learn_source-Learned fuel lt = learned (locate-Found fuel m now bound h cs rs t lt)

-- A frame was switched to `tos`, and the clients have the table `rs`.
pub record Forwarded (now bound : ℕ) (tos : List ℕ) (rs : List Row) (run : Run Switched)
    : Type 0 where
  pub result : Switched
  pub runs : run ≡ ok result
  pub sent : result.sent ≡ tos
  pub holds : Holds now bound result.heap result.clients rs

module _ (now bound scli : ℕ) (h : Heap) (cs : List Client) (rs : List Row)
    (t : Holds now bound h cs rs) where
  answered :
      (dmac : ℕ) {run : Run Located}
      → Found now cs h (lookup dmac rs) run
      → Forwarded now bound (recipients scli (lookup dmac rs) (row_ids rs)) rs (
          and_then run (λ l. ok (record {
            sent = recipients scli l.owner (ids l.clients);
            clients = l.clients;
            heap = l.heap;
          })))
  answered dmac (located h1 n) = record {
    result = record { sent = recipients scli (lookup dmac rs) (ids cs); clients = cs; heap = h1 };
    runs = refl;
    sent = ap (recipients scli (lookup dmac rs)) (ids-Holds cs rs t);
    holds = Renewed-Holds now bound h h1 cs rs n t;
  }

  forward-Forwarded :
      (fuel dmac : ℕ)
      → bound < fuel
      → Forwarded now bound (targets scli dmac rs) rs (forward fuel now scli dmac cs h)
  unfolding forward
  forward-Forwarded fuel dmac lt = elim (Bool-cases (dmac == broadcast_mac)) [
    | inl all ↦ rw all (record {
      result = record { sent = others scli (ids cs); clients = cs; heap = h };
      runs = refl;
      sent = ap (others scli) (ids-Holds cs rs t);
      holds = t;
    })
    | inr one ↦ rw one (answered dmac (locate-Found fuel dmac now bound h cs rs t lt))
  ]

-- While no entry is old enough to be purged, the switch does what its table says. The source of a
-- frame is learned for its client, unless the first client that has it is that one. A frame to the
-- broadcast address or to an address that no client has goes to all clients but the source, in order,
-- and any other to the first client that has the address, and to no other. The search ends, no freed
-- entry is used, and the clients have the new table afterwards. The conditions: a whole header, fuel
-- above the longest chain, and a new entry that can be allocated.
pub switch_refines :
    (fuel now bound fresh scli : ℕ) (frame : List ℕ) (h : Heap) (cs : List Client) (rs : List Row)
    → Holds now bound h cs rs
    → suc bound < fuel
    → fresh ≢ 0
    → h fresh ≡ none
    → 12 ≤ length frame
    → let rs' = learn scli (buf2mac (drop 6 frame)) rs in
      Forwarded now
        (suc bound)
        (targets scli (buf2mac frame) rs')
        rs'
        (switch_eth_tx fuel now fresh scli frame cs h)
unfolding switch_eth_tx
switch_refines fuel now bound fresh scli frame h cs rs t lt nz free long =
    let l =
      learn_source-Learned now bound fresh scli (buf2mac (drop 6 frame)) h cs rs t nz free fuel
        (omega arith) in
    let whole : ltb (length frame) 12 ≡ false = ground arith in
    rw (whole, l.runs)
      (forward-Forwarded now (suc bound) scli l.state.1 l.state.0
        (learn scli (buf2mac (drop 6 frame)) rs) l.holds fuel (buf2mac frame) lt)
