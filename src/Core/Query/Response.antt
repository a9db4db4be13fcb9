-- ===== src/Core/Query/Response.antt =====
-- coremodel.c: one response of the enumeration, as the list of devices grows.
use coremodel.Base.{
  ◌<◌, ltb, or-false, ℕ, ◌+◌, ◌%◌, ◌^◌, ◌++◌, ◌≤◌, ◌≡◌, refl, sym, ap, subst, ◌∙◌, Bool, true,
  false, List, [], ◌∷◌, none, some, arith, length, take, replicate, ◌==◌, length-append,
  append_assoc, take_exact, zero, suc,
}
use coremodel.Packet.{Packet}
use coremodel.Tx.{Io, push_packet, alloc_ok}
use coremodel.Core.State.{Core, Device}
use coremodel.Core.Query.{
  entries, truncated, place, alloc_all, next_request, process_list_response, terminator, given_list,
  blank,
}
use coremodel.Core.Query.Entries.{list_bytes, AllListable, entries-list_bytes, length-list_bytes}

place_lem :
    (base : ℕ) (found got rest : List Device)
    → length got ≡ base
    → place base found (got ++ rest) ≡ got ++ (found ++ (terminator ∷ []))
unfolding place
place_lem base found got rest e =
    ap (λ l. l ++ (found ++ (terminator ∷ [])))
      (ap (take base) (append_assoc got rest (replicate base blank))
        ∙ take_exact base got (rest ++ replicate base blank) (sym e))

pub alloc_all_ok : (n : ℕ) → alloc_all n [] ≡ (true, [])
unfolding alloc_all
alloc_all_ok zero = refl
alloc_all_ok (suc n) = alloc_all_ok n

abbrev pub with_allocs : {D : Type 0} → List Bool → Core D → Core D
with_allocs bs cm = record cm { io = record (cm.io) { allocs = bs } }

pub push_ok :
    {D : Type 0} (q : Packet) (io : Io D)
    → alloc_ok io.allocs ≡ true
    → (push_packet q none io).0 ≡ false
unfolding push_packet
push_ok q io ok = rw ok

module _ {D : Type 0} (p : Packet) (cm : Core D) where
  -- A response with entries, when no allocation fails.
  response_grows :
      8 < p.len
      → truncated (length p.payload) p.payload ≡ false
      → let found = entries (length p.payload) p.payload in
        let base = p.hflag % 2 ^ 15 in
        let cm0 = with_allocs [] cm in
        let (refused, io') =
          push_packet (next_request (base + length found) cm.device_list_pkt) none cm0.io in
        process_list_response p cm0 ≡ (
          refused,
          record cm0 {
            io = io';
            device_list = some (place base found (given_list cm.device_list));
          },
        )
  unfolding process_list_response
  response_grows long t =
      let more : (p.len == 8) ≡ false = ground arith in
      let whole : ltb p.len 8 ≡ false = ground arith in
      simp (
        more,
        t,
        whole,
        alloc_all_ok (length (entries (length p.payload) p.payload)),
        or-false cm.io.fault,
      )

module _ {D : Type 0} (p : Packet) (got ds rest : List Device) (cm : Core D) where
  -- A response that continues the list where it ends, and lists `ds`: they join those that the list
  -- has already, in order, behind them comes the terminator, and the request for what follows them
  -- is queued: it has the number of all devices so far, and the rest of a request for subdevices
  -- again. Nothing else changes, the query goes on, and nothing outside the response is read. All
  -- allocations are assumed to succeed.
  pub list_response_appends :
      AllListable ds
      → p.payload ≡ list_bytes ds
      → 8 < p.len
      → given_list cm.device_list ≡ got ++ rest
      → length got ≡ p.hflag % 2 ^ 15
      → cm.io.allocs ≡ []
      → process_list_response p cm ≡ (
        false,
        record cm {
          io = (push_packet (next_request (length (got ++ ds)) cm.device_list_pkt) none cm.io).1;
          device_list = some (got ++ (ds ++ (terminator ∷ [])));
        },
      )
  list_response_appends l pay more old base ok =
      let len = length p.payload in
      let many : length ds ≤ len = omega (arith, ap length pay, length-list_bytes ds) in
      let (whole, inside) = entries-list_bytes len ds l many in
      let e : entries len p.payload ≡ ds = ap (entries len) pay ∙ whole in
      let t : truncated len p.payload ≡ false = ap (truncated len) pay ∙ inside in
      let cm0 = with_allocs [] cm in
      let start : cm ≡ cm0 = ap (λ b. with_allocs b cm) ok in
      let grown = λ (n : ℕ) (list : List Device) (c : Core D).
        let (refused, io') = push_packet (next_request n c.device_list_pkt) none c.io in
        Path (Bool × Core D) (process_list_response p c)
          (false, record c { io = io'; device_list = some list }) in
      let total : p.hflag % 2 ^ 15 + length ds ≡ length (got ++ ds) =
        omega (arith, base, length-append got ds) in
      let list : place (p.hflag % 2 ^ 15) ds (given_list cm.device_list)
          ≡ got ++ (ds ++ (terminator ∷ [])) =
        ap (place (p.hflag % 2 ^ 15) ds) old ∙ place_lem (p.hflag % 2 ^ 15) ds got rest base in
      let num0 = p.hflag % 2 ^ 15 + length (entries len p.payload) in
      let list0 = place (p.hflag % 2 ^ 15) (entries len p.payload) (given_list cm.device_list) in
      let request0 = next_request num0 cm.device_list_pkt in
      let grown0 : Core D = record cm0 {
        io = (push_packet request0 none cm0.io).1;
        device_list = some list0;
      } in
      let here : grown num0 list0 cm0 =
        response_grows p cm more t ∙ ap (λ b. (b, grown0)) (push_ok request0 cm0.io refl) in
      subst (λ c. grown (length (got ++ ds)) (got ++ (ds ++ (terminator ∷ []))) c) (sym start)
        (subst (λ n. grown n (got ++ (ds ++ (terminator ∷ []))) cm0) total
          (subst (λ l. grown (p.hflag % 2 ^ 15 + length ds) l cm0) list
            (subst
              (λ f.
                grown (p.hflag % 2 ^ 15 + length f)
                  (place (p.hflag % 2 ^ 15) f (given_list cm.device_list)) cm0)
              e here)))
