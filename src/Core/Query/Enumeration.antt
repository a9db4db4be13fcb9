-- ===== src/Core/Query/Enumeration.antt =====
-- coremodel.c: the whole enumeration, over the responses of the host.
use coremodel.Base.{
  ℕ, ◌+◌, ◌%◌, ◌^◌, ◌++◌, ◌<◌, ◌≡◌, refl, sym, subst, ap, ◌||◌, ◌∙◌, Bool, true, false, Bool-cases,
  inl, inr, List, [], ◌∷◌, Option, none, some, arith, length, length-append, append_assoc,
  append-nil, map, ◌==◌,
}
use coremodel.Packet.{Packet}
use coremodel.Tx.{Io, push_packet, alloc_ok, allocs_left}
use coremodel.Core.State.{Core, Device}
use coremodel.Core.Query.{
  process_list_response, terminator, given_list, list_begin, list_end, next_request, free_list,
}
use coremodel.Core.Query.Entries.{list_bytes, AllListable}
use coremodel.Core.Query.Response.{list_response_appends, push_ok}

abbrev pub all_of : List (List Device) → List Device
all_of [] = []
all_of (ds ∷ dss) = ds ++ all_of dss

-- The host lists the devices of each part in one response, from the number `base` on.
abbrev pub ListFrom : ℕ → List Packet → List (List Device) → Type 0
ListFrom base [] [] = Unit {0}
ListFrom base [] (ds ∷ dss) = ⊥
ListFrom base (p ∷ ps) [] = ⊥
ListFrom base (p ∷ ps) (ds ∷ dss) =
    AllListable ds
    × (p.payload ≡ list_bytes ds)
    × (8 < p.len)
    × (base ≡ p.hflag % 2 ^ 15)
    × ListFrom (base + length ds) ps dss

module _ {D : Type 0} where
  -- The responses in order, until one reports an error.
  abbrev pub respond_all : List Packet → Core D → Bool × Core D
  respond_all [] cm = (false, cm)
  respond_all (p ∷ ps) cm =
      let (failed, cm') = process_list_response p cm in
      elim failed [ true ↦ (true, cm') | false ↦ respond_all ps cm' ]

  push_allocs : (q : Packet) (io : Io D) → io.allocs ≡ [] → (push_packet q none io).1.allocs ≡ []
  unfolding push_packet
  push_allocs q io e =
      let left : allocs_left io.allocs ≡ [] = ap allocs_left e in
      elim (Bool-cases (alloc_ok io.allocs)) [ inl k ↦ rw k left | inr k ↦ rw k left ]

  -- The list after some responses, and that nothing failed.
  pub record Listed (got : List Device) (query' : Bool) (out : Bool × Core D) : Type 0 where
    pub sound : out.0 ≡ false
    pub list : out.1.device_list ≡ some (got ++ (terminator ∷ []))
    pub query : out.1.query ≡ query'
    pub allocs : out.1.io.allocs ≡ []

  respond_one :
      (p : Packet) (got ds rest : List Device) (cm : Core D)
      → AllListable ds
      → p.payload ≡ list_bytes ds
      → 8 < p.len
      → length got ≡ p.hflag % 2 ^ 15
      → given_list cm.device_list ≡ got ++ rest
      → cm.io.allocs ≡ []
      → Listed (got ++ ds) cm.query (process_list_response p cm)
  respond_one p got ds rest cm l pay more base old ok =
      let e = list_response_appends p got ds rest cm l pay more old base ok in
      rw e (record {
        sound = refl;
        list = ap some (sym (append_assoc got ds (terminator ∷ [])));
        query = refl;
        allocs = push_allocs (next_request (length (got ++ ds)) cm.device_list_pkt) cm.io ok;
      })

  respond_next :
      (got ds : List Device) (dss : List (List Device)) (q : Bool) (ps : List Packet)
      (out : Bool × Core D)
      → Listed (got ++ ds) q out
      → ((cm : Core D)
          → cm.device_list ≡ some ((got ++ ds) ++ (terminator ∷ []))
          → cm.io.allocs ≡ []
          → Listed ((got ++ ds) ++ all_of dss) cm.query (respond_all ps cm))
      → Listed (got ++ (ds ++ all_of dss)) q (elim out.0 as (λ _. Bool × Core D) [
        | true ↦ (true, out.1)
        | false ↦ respond_all ps out.1
      ])
  respond_next got ds dss q ps (true, cm) l rest = cc (l.sound)
  respond_next got ds dss q ps (false, cm) l rest =
      let r = rest cm l.list l.allocs in
      record {
        sound = r.sound;
        list = r.list ∙ ap (λ x. some (x ++ (terminator ∷ []))) (append_assoc got ds (all_of dss));
        query = r.query ∙ l.query;
        allocs = r.allocs;
      }

  respond_rest :
      (ps : List Packet) (dss : List (List Device)) (got : List Device) (cm : Core D)
      → ListFrom (length got) ps dss
      → cm.device_list ≡ some (got ++ (terminator ∷ []))
      → cm.io.allocs ≡ []
      → Listed (got ++ all_of dss) cm.query (respond_all ps cm)
  respond_rest [] [] got cm f list ok = record {
    sound = refl;
    list = list ∙ ap (λ x. some (x ++ (terminator ∷ []))) (sym (append-nil got));
    query = refl;
    allocs = ok;
  }
  respond_rest [] (ds ∷ dss) got cm f list ok = absurd f
  respond_rest (p ∷ ps) [] got cm f list ok = absurd f
  respond_rest (p ∷ ps) (ds ∷ dss) got cm f list ok =
      let base : length got + length ds ≡ length (got ++ ds) =
        omega (arith, length-append got ds) in
      let onward = subst (λ n. ListFrom n ps dss) base f.4 in
      respond_next got ds dss cm.query ps (process_list_response p cm)
        (respond_one p got ds (terminator ∷ []) cm f.0 f.1 f.2 f.3 (ap given_list list) ok)
        (λ cm'. respond_rest ps dss (got ++ ds) cm' onward)

-- The responses of the host, the one that ends them, and what coremodel_list gives.
abbrev pub enumerated : {D : Type 0} → List Packet → Packet → Core D → Option (List Device) × Core D
enumerated ps end cm =
    let (failed, cm') = respond_all ps (list_begin cm).1 in
    let (failed', cm'') = process_list_response end cm' in list_end (failed || failed') cm''

-- The state behind `list_begin`.
abbrev begun : {D : Type 0} → Core D → Core D
begun cm = record cm { io = (push_packet (next_request 0 none) none cm.io).1; query = true }

list_begins :
    {D : Type 0} (cm : Core D)
    → cm.query ≡ false
    → cm.io.allocs ≡ []
    → list_begin cm ≡ (true, begun cm)
unfolding list_begin
list_begins cm idle ok =
    let accepted = push_ok (next_request 0 none) cm.io (ap alloc_ok ok) in rw (idle, accepted) refl

response_ends :
    {D : Type 0} (end : Packet) (cm : Core D)
    → end.len ≡ 8
    → process_list_response end cm ≡ (false, record cm { query = false })
unfolding process_list_response
response_ends end cm last = let empty : (end.len == 8) ≡ true = ground arith in rw empty refl

-- coremodel_list gives all devices that the host lists, in order and with the terminator behind them,
-- into however many responses it divides them, and leaves no query under way. The conditions: the
-- host gives each response the number of the devices before it, the one behind them is empty, no query
-- was under way and no list kept, and no allocation fails.
pub coremodel_list_gives_all :
    {D : Type 0} (p : Packet) (ps : List Packet) (ds : List Device) (dss : List (List Device))
    (end : Packet) (cm : Core D)
    → ListFrom 0 (p ∷ ps) (ds ∷ dss)
    → end.len ≡ 8
    → cm.query ≡ false
    → cm.device_list ≡ none
    → cm.io.allocs ≡ []
    → let (list, cm') = enumerated (p ∷ ps) end cm in
      (list ≡ some (all_of (ds ∷ dss) ++ (terminator ∷ [])))
      × ((list_begin cm).0 ≡ true)
      × (cm'.query ≡ false)
      × (cm'.device_list ≡ none)
unfolding list_end
coremodel_list_gives_all p ps ds dss end cm f last idle empty ok =
    let cm1 = begun cm in
    let allocs1 = push_allocs (next_request 0 none) cm.io ok in
    let base : 0 + length ds ≡ length ds = omega arith in
    let onward = subst (λ n. ListFrom n ps dss) base f.4 in
    let first = respond_one p [] ds [] cm1 f.0 f.1 f.2 f.3 (ap given_list empty) allocs1 in
    let all =
      respond_next [] ds dss true ps (process_list_response p cm1) first
        (λ cm'. respond_rest ps dss ds cm' onward) in
    let out = respond_all (p ∷ ps) cm1 in
    let ended = response_ends end out.1 last in
    rw (list_begins cm idle ok) (rw (ended, all.sound) (all.list, refl, refl, refl))

-- Freeing such a list frees the name of each device once.
free_list-all :
    (ds : List Device)
    → AllListable ds
    → free_list (ds ++ (terminator ∷ [])) ≡ some (map (λ (d : Device). d.name) ds)
unfolding free_list
free_list-all [] l = refl
free_list-all (d ∷ ds) l = rw (l.0.typed, free_list-all ds l.1) refl
