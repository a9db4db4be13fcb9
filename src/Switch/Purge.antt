-- ===== src/Switch/Purge.antt =====
-- examples/eth-switch/eth-switch.c: old entries, and stations that move.
use coremodel.Base.{
  ℕ, suc, ◌+◌, ◌-◌, ◌<◌, ◌≤◌, ◌≡◌, ◌≢◌, refl, subst, ap, ◌∙◌, ◌++◌, drop, true, false, List, [],
  ◌∷◌, none, some, arith, ltb, ◌==◌, length, pos, is_zero,
}
use coremodel.Switch.{
  MacEntry, Heap, Client, ok, fault, buf2mac, Switched, switch_eth_tx, walk, switch_cli_locate,
  purge_seconds, relink, load_next, is_owner, dec,
}
use coremodel.Switch.Table.{Row, Holds, lookup}
use coremodel.Switch.Forward.{learn, enter, switch_refines}

left_over : (n : ℕ) → is_zero (dec (pos (2 + n))) ≡ false
left_over n = ground arith

module _ (fuel m now : ℕ) (c : Client) (h : Heap) (e : MacEntry) (n : ℕ) (nz : c.me ≢ 0)
    (at : h c.me ≡ some e) (other : e.mac ≢ m) (old : purge_seconds < now - e.ts)
    (many : c.nme ≡ pos (2 + n)) where
  walk_old_head : walk (suc fuel) m now c c.me 0 h ≡ fault
  unfolding walk relink load_next
  walk_old_head =
      let here : (c.me == 0) ≡ false = ground arith in
      let differs : (e.mac == m) ≡ false = ground arith in
      let purge : ltb purge_seconds (now - e.ts) ≡ true = ground arith in
      let more : is_zero (dec c.nme) ≡ false = ap (λ k. is_zero (dec k)) many ∙ left_over n in
      rw here (rw (at, walk) (rw (differs, purge) (rw more)))

  -- If the newest entry of the first client is older than a minute and the client has another one, any
  -- search for another address frees the entry and then follows NULL.
  pub old_head_faults : (cs : List Client) → switch_cli_locate (suc fuel) m now (c ∷ cs) h ≡ fault
  unfolding switch_cli_locate
  old_head_faults cs = rw walk_old_head

-- The number of entries.
abbrev pub entries : List Row → ℕ
entries [] = 0
entries (r ∷ rs) = length r.macs + entries rs

-- No client has this number.
abbrev pub Absent : ℕ → List Row → Type 0
Absent i [] = Unit
Absent i (r ∷ rs) = (r.id ≢ i) × Absent i rs

lookup-append : (m a : ℕ) (xs ys : List Row) → lookup m xs ≡ some a → lookup m (xs ++ ys) ≡ some a
lookup-append m a [] ys h = cc
lookup-append m a (x ∷ xs) ys h = ground (arith, lookup-append m a xs ys)

enter-append :
    (scli m : ℕ) (xs ys : List Row)
    → Absent scli xs
    → enter scli m (xs ++ ys) ≡ xs ++ enter scli m ys
enter-append scli m [] ys h = refl
enter-append scli m (x ∷ xs) ys h =
    let other : (x.id == scli) ≡ false = ground (arith, h.0) in
    rw other (ap (◌∷◌ x) (enter-append scli m xs ys h.1))

entries-append : (xs ys : List Row) → entries (xs ++ ys) ≡ entries xs + entries ys
entries-append [] ys = omega arith
entries-append (x ∷ xs) ys = omega (arith, entries-append xs ys)

module _ (a scli m : ℕ) (xs : List Row) (r : Row) (ys : List Row) (ne : a ≢ scli)
    (known : lookup m xs ≡ some a) (absent : Absent scli xs) (here : r.id ≡ scli) where
  abbrev grown : List Row
  grown = xs ++ (record r { macs = m ∷ r.macs } ∷ ys)

  learn-moved : learn scli m (xs ++ (r ∷ ys)) ≡ grown
  learn-moved =
      let other : is_owner scli (some a) ≡ false = ground arith in
      let this : (r.id == scli) ≡ true = ground arith in
      rw (lookup-append m a xs (r ∷ ys) known)
        (rw other (enter-append scli m xs (r ∷ ys) absent ∙ ap (◌++◌ xs) (rw this)))

  learn_moved-entries : entries grown ≡ suc (entries (xs ++ (r ∷ ys)))
  learn_moved-entries =
      omega
        (arith, entries-append xs (r ∷ ys), entries-append xs (record r { macs = m ∷ r.macs } ∷ ys))

-- A station whose address was learned for one client, and that moves to a later one, is not found
-- there: each of its frames enters the address for the later client once more, and frames to it still
-- go to the earlier one. The conditions are those under which the switch does what its table says.
pub moved_station_stays :
    (fuel now bound fresh a scli : ℕ) (frame : List ℕ) (h : Heap) (cs : List Client) (xs : List Row)
    (r : Row) (ys : List Row)
    → a ≢ scli
    → lookup (buf2mac (drop 6 frame)) xs ≡ some a
    → Absent scli xs
    → r.id ≡ scli
    → Holds now bound h cs (xs ++ (r ∷ ys))
    → suc bound < fuel
    → fresh ≢ 0
    → h fresh ≡ none
    → 12 ≤ length frame
    → let m = buf2mac (drop 6 frame) in
      (s : Switched) × (rs : List Row) × (switch_eth_tx fuel now fresh scli frame cs h ≡ ok s)
      × Holds now (suc bound) s.heap s.clients rs
      × (lookup m rs ≡ some a)
      × (entries rs ≡ suc (entries (xs ++ (r ∷ ys))))
moved_station_stays fuel now bound fresh a scli frame h cs xs r ys ne known absent here t lt nz free
      long =
    let m = buf2mac (drop 6 frame) in
    let f =
      switch_refines fuel now bound fresh scli frame h cs (xs ++ (r ∷ ys)) t lt nz free long in
    let e = learn-moved a scli m xs r ys ne known absent here in
    (
      f.result,
      xs ++ (record r { macs = m ∷ r.macs } ∷ ys),
      f.runs,
      subst (λ rs. Holds now (suc bound) f.result.heap f.result.clients rs) e f.holds,
      lookup-append m a xs (record r { macs = m ∷ r.macs } ∷ ys) known,
      learn_moved-entries a scli m xs r ys ne known absent here,
    )
