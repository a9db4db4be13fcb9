-- ===== src/Switch/Clients.antt =====
-- examples/eth-switch/eth-switch.c: adding and freeing a client. What the library's calls return are
-- arguments.
pub mod Freeing
use coremodel.Base.{
  ℕ, zero, suc, ◌+◌, ◌-◌, ◌%◌, ◌^◌, ◌++◌, Bool, true, false, List, [], ◌∷◌, Option, none, some,
  ◌==◌, if◌then◌else◌, pos,
}
use coremodel.Switch.{Heap, write, Client, Run, ok, fault, out_of_fuel, and_then, dec}

-- `struct switch_state`
pub record SwitchState : Type 0 where
  pub clients : List Client
  pub nclients : ℕ

-- `cm` and `handle` of a client; 0 is NULL.
pub record Link : Type 0 where
  pub cm : ℕ
  pub handle : ℕ

-- The calls of the library that freeing a client makes.
pub data Release : Type 0 where
  detached : ℕ → Release
  disconnected : ℕ → Release

-- The loop over the entries, which `me` heads.
unfoldable pub free_entries : ℕ → Client → Heap → Run (Client × Heap)
free_entries zero c h = out_of_fuel
free_entries (suc fuel) c h =
    let more =
      λ (n : ℕ). free_entries fuel (record c { me = n; nme = dec c.nme }) (write h c.me none) in
    if c.me == 0 then ok (c, h) else elim (h c.me) [ none ↦ fault | some e ↦ more e.next ]

-- The loop over the clients.
unfoldable pub unlink_client : ℕ → List Client → List Client
unlink_client id [] = []
unlink_client id (c ∷ cs) = let rest = unlink_client id cs in if c.id == id then rest else c ∷ rest

unfoldable pub releases : Link → List Release
releases l =
    (if l.handle == 0 then [] else detached l.handle ∷ [])
    ++ (if l.cm == 0 then [] else disconnected l.cm ∷ [])

pub record Freed : Type 0 where
  pub calls : List Release
  pub state : SwitchState
  pub heap : Heap

unfoldable pub client_free : ℕ → Client → Link → SwitchState → Heap → Run Freed
unfolding free_entries unlink_client releases
client_free fuel c l s h = and_then (free_entries fuel c h) (λ f. ok (record {
  calls = releases l;
  state = record {
    clients = unlink_client c.id s.clients;
    nclients = (s.nclients + 2 ^ 32 - 1) % 2 ^ 32;
  };
  heap = f.1;
}))

-- How an attempt to add a client goes: `calloc` failed, or the tuple is malformed, the connection
-- failed, or the attaching gave a handle, which may be NULL.
pub data Attempt : Type 0 where
  no_memory : Attempt
  malformed : Attempt
  unconnected : Attempt
  attached : ℕ → ℕ → Attempt

abbrev pub new_client : ℕ → Client
new_client id = record { id = id; me = 0; nme = pos 0 }

abbrev unchanged : SwitchState → Heap → Freed
unchanged s h = record { calls = []; state = s; heap = h }

-- With the result, which is true for 0.
unfoldable pub switch_client_add : ℕ → ℕ → Attempt → SwitchState → Heap → Run (Bool × Freed)
unfolding client_free
switch_client_add fuel id no_memory s h = ok (false, unchanged s h)
switch_client_add fuel id malformed s h =
    and_then (client_free fuel (new_client id) (record { cm = 0; handle = 0 }) s h)
      (λ f. ok (false, f))
switch_client_add fuel id unconnected s h =
    and_then (client_free fuel (new_client id) (record { cm = 0; handle = 0 }) s h)
      (λ f. ok (false, f))
switch_client_add fuel id (attached cm handle) s h =
    if handle == 0
    then and_then (client_free fuel (new_client id) (record { cm = cm; handle = 0 }) s h)
        (λ f. ok (false, f))
    else ok (
      true,
      unchanged
          (record { clients = new_client id ∷ s.clients; nclients = (s.nclients + 1) % 2 ^ 32 }) h,
    )
