-- ===== src/Switch.antt =====
-- examples/eth-switch/eth-switch.c: a switch between the Ethernet interfaces of several machines. The
-- entries of the address tables are in a heap; time(2) and what calloc(3) gives are arguments.
pub mod Table
pub mod Arguments
pub mod Clients
pub mod Forward
pub mod Purge
pub mod Service
mod Tests
use coremodel.Base.{
  ℕ, zero, suc, ◌+◌, ◌-◌, ◌*◌, ◌%◌, ◌^◌, ◌||◌, Bool, true, false, List, [], ◌∷◌, Option, none, some,
  ltb, ◌==◌, if◌then◌else◌, length, drop, rd16, rd32, ℤ, pos, negsuc, is_zero,
}

-- `struct mac_entry`; the address 0 is NULL.
pub record MacEntry : Type 0 where
  pub next : ℕ
  pub mac : ℕ
  pub ts : ℕ

abbrev pub Heap : Type 0
Heap = ℕ → Option MacEntry

unfoldable pub write : Heap → ℕ → Option MacEntry → Heap
write h p c q = if q == p then c else h q

-- `struct client`, known by a number in place of its connection.
pub record Client : Type 0 where
  pub id : ℕ
  pub me : ℕ
  pub nme : ℤ

-- A fault is a use of NULL or of an entry that was freed.
pub data Run (A : Type 0) : Type 0 where
  ok : A → Run A
  fault : Run A
  out_of_fuel : Run A

abbrev pub and_then : {A B : Type 0} → Run A → (A → Run B) → Run B
and_then (ok a) k = k a
and_then fault k = fault
and_then out_of_fuel k = out_of_fuel

-- How the search through one client's entries ends: with the entry for the address, or at the end,
-- with what `pme` is left at.
pub data Walk : Type 0 where
  found : Client → Heap → Walk
  missed : ℕ → Client → Heap → Walk

-- SWITCH_MAC_PURGE_SECONDS
abbrev pub purge_seconds : ℕ
purge_seconds = 60

-- `n + 1` and `n - 1` on `int`.
abbrev pub inc : ℤ → ℤ
inc (pos n) = pos (n + 1)
inc (negsuc n) = if n == 0 then pos 0 else negsuc (n - 1)

abbrev pub dec : ℤ → ℤ
dec (pos n) = if n == 0 then negsuc 0 else pos (n - 1)
dec (negsuc n) = negsuc (n + 1)

-- `if(pme) pme->next = next;`
unfoldable pub relink : ℕ → ℕ → Heap → Run Heap
relink pme next' h = if pme == 0 then ok h else elim (h pme) [
  | none ↦ fault
  | some e ↦ ok (write h pme (some (record e { next = next' })))
]

-- `me->next`
unfoldable pub load_next : ℕ → Heap → Run ℕ
load_next p h = if p == 0 then fault else elim (h p) [ none ↦ fault | some e ↦ ok e.next ]

-- The loop over the entries of a client, from `me` on.
unfoldable pub walk : ℕ → ℕ → ℕ → Client → ℕ → ℕ → Heap → Run Walk
walk zero mac' now c me' pme h = out_of_fuel
walk (suc fuel) mac' now c me' pme h =
    let purged = λ (e : MacEntry). and_then (relink pme e.next h) (λ h1.
      let h2 = write h1 me' none in
      let c' : Client = record c { nme = dec c.nme } in
      if is_zero c'.nme
      then ok (missed 0 (record c' { me = 0 }) h2)
      else and_then (load_next pme h2) (λ n. walk fuel mac' now c' n pme h2)) in
    let next_entry = λ (e : MacEntry). walk fuel mac' now c e.next me' h in
    if me' == 0 then ok (missed pme c h) else elim (h me') [
      | none ↦ fault
      | some e ↦
          if e.mac == mac'
          then ok (found c (write h me' (some (record e { ts = now }))))
          else (if ltb purge_seconds (now - e.ts) then purged e else next_entry e)
    ]

-- What a search gives: the client, and the clients and entries after it.
pub record Located : Type 0 where
  pub owner : Option ℕ
  pub clients : List Client
  pub heap : Heap

abbrev before : Client → Located → Located
before c l = record l { clients = c ∷ l.clients }

-- `pme` goes on from one client to the next.
unfoldable pub locate_from : ℕ → ℕ → ℕ → ℕ → List Client → Heap → Run Located
locate_from fuel mac' now pme [] h = ok (record { owner = none; clients = []; heap = h })
locate_from fuel mac' now pme (c ∷ cs) h = and_then (walk fuel mac' now c c.me pme h) (λ w. elim w [
  | found c' h' ↦ ok (record { owner = some c'.id; clients = c' ∷ cs; heap = h' })
  | missed pme' c' h' ↦ and_then (locate_from fuel mac' now pme' cs h') (λ l. ok (before c' l))
])

unfoldable pub switch_cli_locate : ℕ → ℕ → ℕ → List Client → Heap → Run Located
unfolding locate_from
switch_cli_locate fuel mac' now cs h = locate_from fuel mac' now 0 cs h

-- The entry is put at `fresh`; 0 there is an allocation that failed.
add_to : ℕ → ℕ → List Client → List Client
add_to scli p [] = []
add_to scli p (c ∷ cs) =
    if c.id == scli then record c { me = p; nme = inc c.nme } ∷ cs else c ∷ add_to scli p cs

head_of : ℕ → List Client → ℕ
head_of scli [] = 0
head_of scli (c ∷ cs) = if c.id == scli then c.me else head_of scli cs

unfoldable pub switch_cli_add_mac : ℕ → ℕ → ℕ → ℕ → List Client → Heap → List Client × Heap
unfolding add_to head_of
switch_cli_add_mac fresh now scli mac' cs h = if fresh == 0 then (cs, h) else (
  add_to scli fresh cs,
  write h fresh (some (record { next = head_of scli cs; mac = mac'; ts = now })),
)

-- The six bytes of an address, as a number.
abbrev pub buf2mac : List ℕ → ℕ
buf2mac bs = rd32 bs 0 + 2 ^ 32 * rd16 bs 4

abbrev pub broadcast_mac : ℕ
broadcast_mac = 0xFFFFFFFFFFFF

-- The clients that a broadcast goes to.
abbrev pub others : ℕ → List ℕ → List ℕ
others scli [] = []
others scli (i ∷ is) = if i == scli then others scli is else i ∷ others scli is

abbrev pub ids : List Client → List ℕ
ids [] = []
ids (c ∷ cs) = c.id ∷ ids cs

-- What a frame leads to: the clients to whose interface `coremodel_eth_rx` passes it, in order.
pub record Switched : Type 0 where
  pub sent : List ℕ
  pub clients : List Client
  pub heap : Heap

abbrev pub is_owner : ℕ → Option ℕ → Bool
is_owner scli none = false
is_owner scli (some i) = i == scli

abbrev pub recipients : ℕ → Option ℕ → List ℕ → List ℕ
recipients scli none all = others scli all
recipients scli (some i) all = i ∷ []

-- The lookup of the source, which is learned if the search does not end at the client it came from.
unfoldable pub learn_source : ℕ → ℕ → ℕ → ℕ → ℕ → List Client → Heap → Run (List Client × Heap)
unfolding switch_cli_locate switch_cli_add_mac
learn_source fuel now fresh scli smac cs h = and_then (switch_cli_locate fuel smac now cs h) (λ l.
    ok (
      if is_owner scli l.owner
      then (l.clients, l.heap)
      else switch_cli_add_mac fresh now scli smac l.clients l.heap))

-- The lookup of the destination, and the calls of `coremodel_eth_rx`.
unfoldable pub forward : ℕ → ℕ → ℕ → ℕ → List Client → Heap → Run Switched
unfolding switch_cli_locate
forward fuel now scli dmac cs h =
    if dmac == broadcast_mac
    then ok (record { sent = others scli (ids cs); clients = cs; heap = h })
    else and_then (switch_cli_locate fuel dmac now cs h) (λ l. ok (record {
      sent = recipients scli l.owner (ids l.clients);
      clients = l.clients;
      heap = l.heap;
    }))

-- The callback of an interface's transmission. It takes all bytes of the frame.
unfoldable pub switch_eth_tx : ℕ → ℕ → ℕ → ℕ → List ℕ → List Client → Heap → Run Switched
unfolding learn_source forward
switch_eth_tx fuel now fresh scli frame cs h =
    if ltb (length frame) 12
    then ok (record { sent = []; clients = cs; heap = h })
    else and_then (learn_source fuel now fresh scli (buf2mac (drop 6 frame)) cs h)
        (λ s. forward fuel now scli (buf2mac frame) s.0 s.1)
