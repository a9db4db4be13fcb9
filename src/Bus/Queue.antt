-- ===== src/Bus/Queue.antt =====
-- coremodel.c: `coremodel_advance_if`, the loop over the packets that wait at an interface. The
-- handler of the interface's type is a parameter.
pub mod Round
pub mod Ends
pub mod Order
use coremodel.Base.{
  ℕ, zero, suc, ◌+◌, ◌*◌, Bool, List, [], ◌∷◌, Option, none, some, get_elem?, length, if◌then◌else◌,
  false,
}
use coremodel.Packet.{Packet}
use coremodel.If.{If, St, Verdict, done, hold, skip, restart, set_busy}

-- A list without its element at an index.
abbrev pub remove_at {ℓ} : {A : Type ℓ} → ℕ → List A → List A
remove_at k [] = []
remove_at zero (x ∷ xs) = xs
remove_at (suc k) (x ∷ xs) = x ∷ remove_at k xs

-- Rounds that suffice for `n` packets.
pub rounds : ℕ → ℕ
rounds n = (2 * n + 3) * (n + 1)

module _ {D : Type 0} where
  abbrev pub free_packet : ℕ → St D → St D
  free_packet k st = record st { cif = record (st.cif) { rxbufs = remove_at k st.cif.rxbufs } }

  module _ (advance : Packet → St D → Verdict × St D) where
    -- `k` is the place that `prxb` points to. `none` is a loop that the fuel did not finish.
    unfoldable pub advance_loop : ℕ → ℕ → St D → Option (St D)
    advance_loop zero k st = none
    advance_loop (suc fuel) k st = elim (get_elem? st.cif.rxbufs k) [
      | none ↦ some st
      | some pkt ↦ elim (advance pkt st).0 [
        | done ↦ advance_loop fuel 0 (free_packet k (advance pkt st).1)
        | hold ↦ some (advance pkt st).1
        | skip ↦ advance_loop fuel (suc k) (advance pkt st).1
        | restart ↦ advance_loop fuel 0 (advance pkt st).1
      ]
    ]

    unfoldable pub advance_if : St D → Option (St D)
    unfolding advance_loop rounds
    advance_if st =
        if st.cif.defer_pkt then some st else advance_loop (rounds (length st.cif.rxbufs)) 0 st

    -- `coremodel_ready_int`, the body of `coremodel_*_ready` and `coremodel_uart_txrdy`.
    unfoldable pub ready_int : St D → Option (St D)
    unfolding advance_if
    ready_int st = advance_if (set_busy false st)
