-- ===== src/Switch/Service.antt =====
-- examples/eth-switch/eth-switch.c: the loop that serves the clients, and the end of the program. What
-- the library's calls do with a client, callbacks included, is an argument.
use coremodel.Base.{
  ℕ, zero, suc, ◌++◌, ◌≤◌, arith, Bool, List, [], ◌∷◌, if◌then◌else◌, ℤ, pos, negsuc,
}
use coremodel.Switch.{Heap, Client, Run, ok, fault, out_of_fuel, and_then, ids}
use coremodel.Switch.Clients.{SwitchState, Link, Release, client_free}

-- `coremodel_preparefds` of a client, from the number of descriptors before it.
abbrev pub Prepare : Type 0
Prepare = ℕ → ℕ → ℤ

-- `coremodel_processfds` of a client, with its result.
abbrev pub Serve : Type 0
Serve = ℕ → SwitchState → Heap → Bool × SwitchState × Heap

-- A client that has trouble leaves the number as it was.
abbrev pub next_nfds : ℕ → ℤ → ℕ
next_nfds nfds (pos n) = n
next_nfds nfds (negsuc n) = nfds

unfoldable pub prepare_from : Prepare → ℕ → List ℕ → ℕ
prepare_from prepare nfds [] = nfds
prepare_from prepare nfds (i ∷ is) = prepare_from prepare (next_nfds nfds (prepare i nfds)) is

unfoldable pub ethernet_preparefds : Prepare → List ℕ → ℤ
unfolding prepare_from
ethernet_preparefds prepare [] = negsuc 0
ethernet_preparefds prepare (i ∷ is) = pos (prepare_from prepare 0 (i ∷ is))

-- When a client fails, the next one is freed, or NULL is, and the loop goes on with what was freed.
unfoldable pub ethernet_processfds : Serve → List ℕ → SwitchState → Heap → Run (SwitchState × Heap)
ethernet_processfds serve [] s h = ok (s, h)
ethernet_processfds serve (i ∷ is) s h =
    let (failed, s', h') = serve i s h in
    let rest = ethernet_processfds serve is s' h' in if failed then fault else rest

-- The rounds until `run` is cleared. The result is -1 when no client is left.
unfoldable pub ethernet_service_loop :
    List (Prepare × Serve) → SwitchState → Heap → Run (ℤ × SwitchState × Heap)
unfolding ethernet_preparefds ethernet_processfds
ethernet_service_loop [] s h = ok (pos 0, s, h)
ethernet_service_loop ((prepare, serve) ∷ rounds) s h =
    elim (ethernet_preparefds prepare (ids s.clients)) [
      | negsuc n ↦ ok (negsuc 0, s, h)
      | pos n ↦
          and_then (ethernet_processfds serve (ids s.clients) s h)
            (λ r. ethernet_service_loop rounds r.0 r.1)
    ]

-- `clients` is the list that is left; each turn frees its head.
unfoldable pub cleanup_turns :
    ℕ → ℕ → (ℕ → Link) → List Client → SwitchState → Heap → Run (List Release × SwitchState × Heap)
unfolding client_free
cleanup_turns fuel zero links cs s h = out_of_fuel
cleanup_turns fuel (suc n) links [] s h = ok ([], s, h)
cleanup_turns fuel (suc n) links (c ∷ cs) s h = and_then (client_free fuel c (links c.id) s h) (λ f.
    and_then (cleanup_turns fuel n links f.state.clients f.state f.heap)
      (λ r. ok (f.calls ++ r.0, r.1, r.2)))

unfoldable pub switch_cleanup_connections :
    ℕ → (ℕ → Link) → SwitchState → Heap → Run (List Release × SwitchState × Heap)
unfolding cleanup_turns
switch_cleanup_connections fuel links s h = cleanup_turns fuel fuel links s.clients s h

prepare_from-le :
    (prepare : Prepare) (is : List ℕ) (nfds : ℕ)
    → ((i n : ℕ) → n ≤ next_nfds n (prepare i n))
    → nfds ≤ prepare_from prepare nfds is
unfolding prepare_from
prepare_from-le prepare [] nfds grows = omega arith
prepare_from-le prepare (i ∷ is) nfds grows =
    omega (arith, grows i nfds, prepare_from-le prepare is (next_nfds nfds (prepare i nfds)) grows)

-- What each client of the list gave is at most `m`.
abbrev AllCovered : Prepare → ℕ → List ℕ → ℕ → Type 0
AllCovered prepare nfds [] m = Unit {0}
AllCovered prepare nfds (i ∷ is) m =
    let next = next_nfds nfds (prepare i nfds) in (next ≤ m) × AllCovered prepare next is m

-- The number of descriptors covers every client, if none gives less than it was given.
prepare_from-AllCovered :
    (prepare : Prepare) (is : List ℕ) (nfds : ℕ)
    → ((i n : ℕ) → n ≤ next_nfds n (prepare i n))
    → AllCovered prepare nfds is (prepare_from prepare nfds is)
unfolding prepare_from
prepare_from-AllCovered prepare [] nfds grows = tt
prepare_from-AllCovered prepare (i ∷ is) nfds grows =
    let next = next_nfds nfds (prepare i nfds) in
    (prepare_from-le prepare is next grows, prepare_from-AllCovered prepare is next grows)
