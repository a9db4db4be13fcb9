-- ===== src/Core/Query.antt =====
-- coremodel.c: `coremodel_list`, `coremodel_list_subdevices` and `coremodel_process_list_response`.
pub mod Entries
pub mod Response
pub mod Enumeration
use Prim.Native.Nat.{bit_or}
use coremodel.Base.{
  ℕ, zero, suc, ◌+◌, ◌-◌, ◌*◌, ◌%◌, ◌^◌, ◌++◌, ◌||◌, ◌&&◌, Bool, true, false, List, [], ◌∷◌, Option,
  none, some, ltb, ◌==◌, if◌then◌else◌, align4, u16, le16, rd16, rd32, length, take, drop,
  replicate,
}
use coremodel.Packet.{Packet, conn_query}
use coremodel.Tx.{Io, push_packet, alloc_ok, allocs_left}
use coremodel.Core.State.{Core, Device, DeviceType, invalid, kind}

abbrev pub pkt_query_req_list : ℕ
pkt_query_req_list = 0x00

abbrev pub pkt_query_rsp_list : ℕ
pkt_query_rsp_list = 0x01

-- The entries of a response: type, length of the name, number, name, each padded to four bytes.
-- The fuel is the number of bytes, of which an entry takes eight at least.
pub entries : ℕ → List ℕ → List Device
entries zero bs = []
entries (suc fuel) [] = []
entries (suc fuel) (b ∷ bs) =
    let here = b ∷ bs in
    let strlen = rd16 here 2 in
    let entry : Device = record {
      type = kind (rd16 here 0);
      name = take strlen (drop 8 here);
      num = rd32 here 4;
    } in
    entry ∷ entries fuel (drop (align4 (8 + strlen)) here)

-- An entry reaches past the end of the packet.
pub truncated : ℕ → List ℕ → Bool
truncated zero bs = false
truncated (suc fuel) [] = false
truncated (suc fuel) (b ∷ bs) =
    let here = b ∷ bs in
    ltb (length here) (8 + rd16 here 2) || truncated fuel (drop (align4 (8 + rd16 here 2)) here)

abbrev pub blank : Device
blank = record { type = kind 0; name = []; num = 0 }

abbrev pub terminator : Device
terminator = record { type = invalid; name = []; num = 0 }

abbrev pub given_list : Option (List Device) → List Device
given_list none = []
given_list (some l) = l

-- The array after `realloc`, `memset` and the loop that fills it from index `base` on.
pub place : ℕ → List Device → List Device → List Device
place base found old = take base (old ++ replicate base blank) ++ (found ++ (terminator ∷ []))

-- `coremodel_free_list`: the names that are freed, up to the terminator; none past the end of a list
-- that has no terminator.
pub free_list : List Device → Option (List (List ℕ))
free_list [] = none
free_list (d ∷ ds) = elim d.type [
  | invalid ↦ some []
  | kind t ↦ elim (free_list ds) [ none ↦ none | some names ↦ some (d.name ∷ names) ]
]

-- One allocation for each of `n` names.
pub alloc_all : ℕ → List Bool → Bool × List Bool
alloc_all zero bs = (true, bs)
alloc_all (suc n) bs =
    let rest = alloc_all n (allocs_left bs) in if alloc_ok bs then rest else (false, allocs_left bs)

-- The request for the entries from `num` on.
pub next_request : ℕ → Option Packet → Packet
next_request num none = record {
  len = 8;
  conn = conn_query;
  pkt = pkt_query_req_list;
  bflag = 0;
  hflag = u16 num;
  payload = [];
}
next_request num (some p) = record p { hflag = u16 (bit_or num 0x8000) }

pub subdevice_request : ℕ → List ℕ → Packet
subdevice_request type name = record {
  len = 12 + length name;
  conn = conn_query;
  pkt = pkt_query_req_list;
  bflag = 0;
  hflag = 0x8000;
  payload = le16 type ++ (le16 (length name) ++ name);
}

module _ {D : Type 0} where
  abbrev pub set_io : Io D → Core D → Core D
  set_io io cm = record cm { io = io }

  -- The flag is the error result.
  unfoldable pub process_list_response : Packet → Core D → Bool × Core D
  unfolding entries truncated place alloc_all next_request
  process_list_response pkt cm =
      let len = length pkt.payload in
      let base = pkt.hflag % 2 ^ 15 in
      let found = entries len pkt.payload in
      let num = base + length found in
      let (named, allocs') = alloc_all (length found) (allocs_left cm.io.allocs) in
      let over = cm.io.fault || (truncated len pkt.payload || ltb pkt.len 8) in
      let failed = record cm {
        io = record (cm.io) { allocs = allocs_left cm.io.allocs };
        device_list = none;
        query = false;
      } in
      let unnamed = record cm {
        io = record (cm.io) { allocs = allocs'; fault = true };
        device_list = none;
        query = false;
      } in
      let io1 = record (cm.io) { allocs = allocs'; fault = over } in
      let (refused, io2) = push_packet (next_request num cm.device_list_pkt) none io1 in
      let grown = record cm {
        io = io2;
        device_list = some (place base found (given_list cm.device_list));
      } in
      if pkt.len == 8
      then (false, record cm { query = false })
      else (if alloc_ok cm.io.allocs
          then (if named then (refused, grown) else (false, unnamed))
          else (false, failed))

  -- `coremodel_list` and `coremodel_list_subdevices` up to the main loop: whether the query is under
  -- way.
  unfoldable pub list_begin : Core D → Bool × Core D
  unfolding next_request
  list_begin cm =
      let (failed, io') = push_packet (next_request 0 none) none cm.io in
      if cm.query
      then (false, cm)
      else (if failed then (false, set_io io' cm) else (true, record cm { io = io'; query = true }))

  unfoldable pub list_subdevices_begin : ℕ → List ℕ → Core D → Bool × Core D
  unfolding subdevice_request
  list_subdevices_begin type name cm =
      let request = subdevice_request type name in
      let (failed, io') = push_packet request none cm.io in
      if cm.query
      then (false, cm)
      else (if failed
          then (false, set_io io' cm)
          else (true, record cm { io = io'; query = true; device_list_pkt = some request }))

  -- The same behind the main loop: the list that is returned.
  unfoldable pub list_end : Bool → Core D → Option (List Device) × Core D
  list_end failed cm = (
    if failed then none else cm.device_list,
    record cm {
      device_list = none;
      device_list_pkt = none;
      query = if failed then false else cm.query;
    },
  )
