-- ===== src/Switch/Clients/Freeing.antt =====
-- examples/eth-switch/eth-switch.c: what freeing a client does to the heap and to the list.
use coremodel.Base.{
  ℕ, zero, suc, ◌+◌, ◌-◌, ◌%◌, ◌^◌, ◌<◌, ◌≡◌, refl, sym, subst, ap, ◌∙◌, Bool, true, false,
  Bool-cases, inl, inr, List, [], ◌∷◌, none, some, arith, ◌==◌, if◌then◌else◌, length,
}
use coremodel.Switch.{Heap, write, Client, Run, ok, dec, ids, others}
use coremodel.Switch.Table.{Chain, nil, cons, contains}
use coremodel.Switch.Clients.{
  SwitchState, Link, free_entries, unlink_client, releases, Freed, client_free, Attempt, no_memory,
  malformed, unconnected, attached, switch_client_add,
}

-- The addresses of the first `n` entries from `p` on.
abbrev pub trail : ℕ → Heap → ℕ → List ℕ
trail zero h p = []
trail (suc n) h p = p ∷ elim (h p) [ none ↦ [] | some e ↦ trail n h e.next ]

-- A chain is as long as its head says.
Chain-length :
    (now : ℕ) (h : Heap) (p : ℕ) (ms ns : List ℕ)
    → Chain now h p ms
    → Chain now h p ns
    → length ms ≡ length ns
Chain-length now h p [] [] a b = refl
Chain-length now h p [] (n ∷ ns) (nil z) (cons e nz at eq y r) = absurd (nz z)
Chain-length now h p (m ∷ ms) [] (cons e nz at eq y r) (nil z) = absurd (nz z)
Chain-length now h p (m ∷ ms) (n ∷ ns) (cons e nz at eq y r) (cons e' nz' at' eq' y' r') =
    let same : e.next ≡ e'.next = ap (λ o. elim o [ none ↦ 0 | some x ↦ x.next ]) (sym at ∙ at') in
    ap suc (Chain-length now h e.next ms ns r (subst (λ q. Chain now h q ns) (sym same) r'))

-- Freeing an entry leaves every shorter chain, which does not go through it.
module _ (now : ℕ) (h : Heap) (p : ℕ) (ms : List ℕ) (ch : Chain now h p ms) where
  abbrev without : Heap
  without = write h p none

  elsewhere : (q : ℕ) (ns : List ℕ) → Chain now h q ns → length ns < length ms → (q == p) ≡ false
  elsewhere q ns r lt = elim (Bool-cases (q == p)) [
    | inl same ↦
        (let here : q ≡ p = ground arith in
          let long = Chain-length now h p ms ns ch (subst (λ x. Chain now h x ns) here r) in
          absurd (omega (arith, long)))
    | inr other ↦ other
  ]

  shorter-Chain :
      (q : ℕ) (ns : List ℕ) → Chain now h q ns → length ns < length ms → Chain now without q ns
  unfolding write
  shorter-Chain q [] (nil z) lt = nil z
  shorter-Chain q (n ∷ ns) (cons e nz at eq y r) lt =
      let other = elsewhere q (n ∷ ns) (cons e nz at eq y r) lt in
      cons e nz (rw other at) eq y (shorter-Chain e.next ns r (omega arith))

  shorter-trail :
      (q : ℕ) (ns : List ℕ)
      → Chain now h q ns
      → length ns < length ms
      → trail (length ns) without q ≡ trail (length ns) h q
  unfolding write
  shorter-trail q [] (nil z) lt = refl
  shorter-trail q (n ∷ ns) (cons e nz at eq y r) lt =
      let other = elsewhere q (n ∷ ns) (cons e nz at eq y r) lt in
      let rest = shorter-trail e.next ns r (omega arith) in rw other (rw at (ap (◌∷◌ q) rest))

-- The heap after the entries at `freed` are gone.
abbrev pub wiped : List ℕ → Heap → Heap
wiped freed h q = if contains q freed then none else h q

same_branches : {A : Type 0} (b : Bool) (x : A) → (if b then x else x) ≡ x
same_branches true x = refl
same_branches false x = refl

wiped-write :
    (h : Heap) (p q : ℕ) (freed : List ℕ) → wiped freed (write h p none) q ≡ wiped (p ∷ freed) h q
unfolding write
wiped-write h p q freed = elim (Bool-cases (q == p)) [
  | inl same ↦
      (let here : (p == q) ≡ true = ground arith in
        rw (same, here) (same_branches (contains q freed) none))
  | inr other ↦ (let there : (p == q) ≡ false = ground arith in rw (other, there) refl)
]

record Emptied (h : Heap) (freed : List ℕ) (run : Run (Client × Heap)) : Type 0 where
  client : Client
  heap : Heap
  runs : run ≡ ok (client, heap)
  at : (q : ℕ) → heap q ≡ wiped freed h q

free_entries-Emptied :
    (fuel now : ℕ) (c : Client) (h : Heap) (ms : List ℕ)
    → Chain now h c.me ms
    → length ms < fuel
    → Emptied h (trail (length ms) h c.me) (free_entries fuel c h)
unfolding free_entries
free_entries-Emptied zero now c h ms ch lt = absurd (omega arith)
free_entries-Emptied (suc fuel) now c h [] (nil z) lt =
    let here : (c.me == 0) ≡ true = ground arith in
    rw here (record { client = c; heap = h; runs = refl; at = λ q. refl })
free_entries-Emptied (suc fuel) now c h (m ∷ ms) (cons e nz at eq y r) lt =
    let here : (c.me == 0) ≡ false = ground arith in
    let whole = cons e nz at eq y r in
    let h1 = write h c.me none in
    let onward =
      free_entries-Emptied fuel now (record c { me = e.next; nme = dec c.nme }) h1 ms
        (shorter-Chain now h c.me (m ∷ ms) whole e.next ms r (omega arith)) (omega arith) in
    let rest = shorter-trail now h c.me (m ∷ ms) whole e.next ms r (omega arith) in
    rw here (
      rw at (record {
        client = onward.client;
        heap = onward.heap;
        runs = onward.runs;
        at = λ q.
            onward.at q
            ∙ ap (λ t. wiped t h1 q) rest
            ∙ wiped-write h c.me q (trail (length ms) h e.next);
      }))

others-unlink_client : (id : ℕ) (cs : List Client) → ids (unlink_client id cs) ≡ others id (ids cs)
unfolding unlink_client
others-unlink_client id [] = refl
others-unlink_client id (c ∷ cs) = elim (Bool-cases (c.id == id)) [
  | inl same ↦ rw same (others-unlink_client id cs)
  | inr other ↦ rw other (ap (◌∷◌ c.id) (others-unlink_client id cs))
]

-- Freeing a client ends, frees the entries of its list and nothing else, and leaves the other clients
-- in their order; the count of the clients is one less, round the end of the word. The conditions:
-- the list of the client is a chain at any time `now` (0 is a time at which no entry is old), and the
-- fuel is above its length.
pub client_free_clears :
    (fuel now : ℕ) (c : Client) (l : Link) (s : SwitchState) (h : Heap) (ms : List ℕ)
    → Chain now h c.me ms
    → length ms < fuel
    → (f : Freed) × (client_free fuel c l s h ≡ ok f)
      × ((q : ℕ) → f.heap q ≡ wiped (trail (length ms) h c.me) h q)
      × (ids f.state.clients ≡ others c.id (ids s.clients))
      × ((f.state.nclients + 1) % 2 ^ 32 ≡ s.nclients % 2 ^ 32)
unfolding client_free
client_free_clears fuel now c l s h ms ch lt =
    let e = free_entries-Emptied fuel now c h ms ch lt in
    let freed : Freed = record {
      calls = releases l;
      state = record {
        clients = unlink_client c.id s.clients;
        nclients = (s.nclients + 2 ^ 32 - 1) % 2 ^ 32;
      };
      heap = e.heap;
    } in
    (freed, rw e.runs refl, e.at, others-unlink_client c.id s.clients, omega arith)

-- The attempt does not give a handle.
abbrev pub is_failed : Attempt → Bool
is_failed no_memory = true
is_failed malformed = true
is_failed unconnected = true
is_failed (attached cm handle) = handle == 0

-- The count of the clients after an attempt that failed.
abbrev pub count_after : Attempt → ℕ → ℕ
count_after no_memory n = n
count_after a n = (n + 2 ^ 32 - 1) % 2 ^ 32

-- An attempt that does not give a handle leaves the clients, frees nothing of the heap, and ends with
-- the failure; but it counts one client less, round the end of the word, though none was counted for
-- it, unless there was no memory for it. The condition: no client has the number of the new one.
pub failed_add_counts_down :
    (fuel id : ℕ) (a : Attempt) (s : SwitchState) (h : Heap)
    → is_failed a ≡ true
    → unlink_client id s.clients ≡ s.clients
    → 0 < fuel
    → (f : Freed) × (switch_client_add fuel id a s h ≡ ok (false, f))
      × (f.heap ≡ h)
      × (f.state.clients ≡ s.clients)
      × (f.state.nclients ≡ count_after a s.nclients)
unfolding switch_client_add client_free free_entries
failed_add_counts_down zero id a s h failed absent enough = absurd (omega arith)
failed_add_counts_down (suc fuel) id no_memory s h failed absent enough =
    (_, refl, refl, refl, refl)
failed_add_counts_down (suc fuel) id malformed s h failed absent enough =
    (_, refl, refl, absent, refl)
failed_add_counts_down (suc fuel) id unconnected s h failed absent enough =
    (_, refl, refl, absent, refl)
failed_add_counts_down (suc fuel) id (attached cm handle) s h failed absent enough =
    let f : Freed = record {
      calls = releases (record { cm = cm; handle = 0 });
      state = record {
        clients = unlink_client id s.clients;
        nclients = (s.nclients + 2 ^ 32 - 1) % 2 ^ 32;
      };
      heap = h;
    } in
    (f, rw failed refl, refl, absent, refl)
