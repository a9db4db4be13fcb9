-- ===== src/Switch/Tests.antt =====
-- examples/eth-switch/eth-switch.c: two machines and a few frames.
use coremodel.Base.{
  ℕ, zero, ◌+◌, ◌%◌, ◌^◌, ◌≡◌, refl, true, false, List, [], ◌∷◌, none, some, arith, pos, suc,
}
use coremodel.Switch.{MacEntry, Heap, Client, switch_eth_tx, ok, ids}
use coremodel.Switch.Table.{nil, cons, Row, Holds, end, row}
use coremodel.Switch.Forward.{learn, targets, Forwarded, switch_refines}
use coremodel.Connect.{split_target}
use coremodel.Switch.Arguments.{fields, overrun, switch_parse_tuple, coremodel_mktarget}
use coremodel.Switch.Arguments.Reading.{client_names_machine}
use coremodel.Switch.Clients.{SwitchState, Freed, client_free}
use coremodel.Switch.Clients.Freeing.{wiped, client_free_clears}

abbrev entry : MacEntry
entry = record { next = 0; mac = 7; ts = 100 }

abbrev memory : Heap
memory (suc zero) = some entry
memory n = none

abbrev left : Client
left = record { id = 5; me = 1; nme = pos 1 }

abbrev right : Client
right = record { id = 6; me = 0; nme = pos 0 }

abbrev clients : List Client
clients = left ∷ right ∷ []

abbrev left_row : Row
left_row = record { id = 5; macs = 7 ∷ [] }

abbrev right_row : Row
right_row = record { id = 6; macs = [] }

both : Holds 110 1 memory clients (left_row ∷ right_row ∷ [])
both =
    row refl (omega arith)
      (cons entry (λ e. absurd (omega arith)) refl refl (omega arith) (nil refl))
      (row refl (omega arith) (nil refl) end)

-- From station 9 to station 7.
abbrev station_frame : List ℕ
station_frame = 7 ∷ 0 ∷ 0 ∷ 0 ∷ 0 ∷ 0 ∷ 9 ∷ 0 ∷ 0 ∷ 0 ∷ 0 ∷ 0 ∷ 8 ∷ 0 ∷ []

switch_refines_example :
    let rs = learn 6 9 (left_row ∷ right_row ∷ []) in
    Forwarded 110 2 (targets 6 7 rs) rs (switch_eth_tx 3 110 2 6 station_frame clients memory)
switch_refines_example =
    switch_refines 3 110 1 2 6 station_frame memory clients (left_row ∷ right_row ∷ []) both
      (omega arith) (λ e. absurd (omega arith)) refl (omega arith)

to_the_left : targets 6 7 (learn 6 9 (left_row ∷ right_row ∷ [])) ≡ 5 ∷ []
to_the_left = refl

-- An entry of two that has not been seen for two minutes.
abbrev old : Client
old = record { id = 5; me = 1; nme = pos 2 }

abbrev running : SwitchState
running = record { clients = clients; nclients = 2 }

client_free_clears_example :
    (f : Freed) × (client_free 2 left (record { cm = 8; handle = 9 }) running memory ≡ ok f)
    × ((q : ℕ) → f.heap q ≡ wiped (1 ∷ []) memory q)
    × (ids f.state.clients ≡ 6 ∷ [])
    × ((f.state.nclients + 1) % 2 ^ 32 ≡ 2)
client_free_clears_example =
    client_free_clears 2 110 left (record { cm = 8; handle = 9 }) running memory (7 ∷ [])
      (cons entry (λ e. absurd (omega arith)) refl refl (omega arith) (nil refl)) (omega arith)

-- `h/"1/2"/e`
abbrev machine : List (List ℕ)
machine = (b'h' ∷ []) ∷ (b'1' ∷ b'/' ∷ b'2' ∷ []) ∷ (b'e' ∷ []) ∷ []

client_names_machine_example :
    (switch_parse_tuple (b'h' ∷ b'/' ∷ b'"' ∷ b'1' ∷ b'/' ∷ b'2' ∷ b'"' ∷ b'/' ∷ b'e' ∷ []) 3 b'/'
      ≡ fields machine)
    × (split_target (coremodel_mktarget machine) ≡ (b'h' ∷ [], some (b'1' ∷ b'/' ∷ b'2' ∷ [])))
client_names_machine_example =
    client_names_machine false true false (b'h' ∷ []) (b'1' ∷ b'/' ∷ b'2' ∷ []) (b'e' ∷ [])
      (omega arith) (omega arith) (omega arith) (omega arith) (omega arith)

-- A fourth separator.
too_many : switch_parse_tuple (b'a' ∷ b'/' ∷ b'b' ∷ b'/' ∷ b'/' ∷ b'/' ∷ []) 3 b'/' ≡ overrun
unfolding switch_parse_tuple
too_many = refl
