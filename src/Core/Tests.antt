-- ===== src/Core/Tests.antt =====
-- coremodel.c: a concrete connection with two interfaces.
use coremodel.Base.{ℕ, ◌≡◌, ◌≢◌, refl, Bool, true, false, List, [], ◌∷◌, Option, none, some, arith}
use coremodel.Packet.{Packet, conn_query, wire}
use coremodel.Tx.Flow.{pending}
use coremodel.Bus.Handler.{unknown}
use coremodel.Core.State.{Core, Device, kind, Attached, ConnIf, null}
use coremodel.Core.Query.{list_begin, terminator}
use coremodel.Core.Query.Enumeration.{enumerated, coremodel_list_gives_all}
use coremodel.Core.Query.Entries.{list_bytes, AllListable}
use coremodel.Core.Packets.{process_packet, pkt_query_rsp_conn}
use coremodel.Core.Attach.{attach_begin, attach_end, new_if, detach, disc_request}
use coremodel.Core.Attach.Handshake.{connected_by, requested, attach_connects}
use coremodel.Core.Attach.Detach.{OnlyOne, detach_stops}

abbrev uart0 : Device
uart0 = record { type = kind 0; name = b'u' ∷ b'0' ∷ []; num = 1 }

abbrev i2c1 : Device
i2c1 = record { type = kind 1; name = b'i' ∷ b'2' ∷ b'c' ∷ b'-' ∷ b'1' ∷ []; num = 9 }

abbrev found : List Device
found = i2c1 ∷ uart0 ∷ []

found-AllListable : AllListable found
found-AllListable = (
  record { typed = refl; type_fits = omega arith; name_fits = omega arith; num_fits = omega arith },
  (
    record {
      typed = refl;
      type_fits = omega arith;
      name_fits = omega arith;
      num_fits = omega arith;
    },
    tt,
  ),
)

abbrev attached : ℕ → ℕ → Attached ℕ
attached handle conn = record {
  handle = handle;
  func = unknown;
  cif = record new_if { conn = conn; defer_pkt = false };
}

abbrev core_with : Option (List Device) → ConnIf ℕ → Bool → Core ℕ
core_with list conn_if query = record {
  fd_open = true;
  io = record {
    txbufs = [];
    txflag = false;
    need_wake = false;
    wakes = 0;
    allocs = [];
    fault = false;
    dev = 0;
  };
  ring = record { rxq = λ i. 0; rxqwp = 0; rxqrp = 0 };
  device_list = list;
  device_list_pkt = none;
  query = query;
  defer_pkt = false;
  ifs = attached 70 4 ∷ attached 60 3 ∷ [];
  conn_if = conn_if;
}

abbrev idle : Core ℕ
idle = core_with none null false

-- The answer to a request for a connection: index 9 with five credits.
abbrev granted : Packet
granted = record {
  len = 12;
  conn = conn_query;
  pkt = pkt_query_rsp_conn;
  bflag = 0;
  hflag = 9;
  payload = 5 ∷ 0 ∷ 0 ∷ 0 ∷ [];
}

not_refused : granted.hflag ≢ conn_query
not_refused e = absurd (omega (arith, e))

attach_connects_example :
    let (begun, cm1) = attach_begin 80 0 unknown (b'u' ∷ []) 0 none 0 idle in
    let (bad, cm2) = process_packet granted cm1 in
    let after = requested 80 0 unknown (b'u' ∷ []) 0 none 0 idle in
    (begun ≡ true)
    × (cm1.io ≡ after.io)
    × (bad ≡ false)
    × (cm2.query ≡ false)
    × (attach_end false cm2 ≡ (
      some 80,
      record after {
        query = false;
        conn_if = null;
        ifs = connected_by 80 0 unknown (b'u' ∷ []) 0 none 0 idle granted ∷ idle.ifs;
      },
    ))
attach_connects_example =
    attach_connects 80 0 unknown (b'u' ∷ []) 0 none 0 idle refl refl refl granted refl refl
      not_refused

abbrev early : Packet
early = record { len = 9; conn = 3; pkt = 0; bflag = 0; hflag = 0; payload = 1 ∷ [] }

not_query : early.conn ≢ conn_query
not_query e = absurd (omega (arith, e))

only_second : OnlyOne (attached 60 3) idle.ifs
only_second = ((λ e. absurd (omega (arith, e))), ((λ e. refl), tt))

detach_stops_example :
    (pending (detach (attached 60 3) idle).io.txbufs ≡ wire (disc_request 3))
    × ((p : Packet)
        → p.conn ≡ 3
        → process_packet p (detach (attached 60 3) idle) ≡ (false, detach (attached 60 3) idle))
detach_stops_example = detach_stops (attached 60 3) idle only_second (omega arith) not_query refl

abbrev listing : ℕ → Device → Packet
listing base d = record {
  len = 24;
  conn = conn_query;
  pkt = 1;
  bflag = 0;
  hflag = base;
  payload = list_bytes (d ∷ []);
}

abbrev list_end_packet : Packet
list_end_packet = record { len = 8; conn = conn_query; pkt = 1; bflag = 0; hflag = 2; payload = [] }

coremodel_list_gives_all_example :
    let (list, cm') = enumerated (listing 0 i2c1 ∷ listing 1 uart0 ∷ []) list_end_packet idle in
    (list ≡ some (i2c1 ∷ uart0 ∷ terminator ∷ []))
    × ((list_begin idle).0 ≡ true)
    × (cm'.query ≡ false)
    × (cm'.device_list ≡ none)
coremodel_list_gives_all_example =
    coremodel_list_gives_all (listing 0 i2c1) (listing 1 uart0 ∷ []) (i2c1 ∷ []) ((uart0 ∷ []) ∷ [])
      list_end_packet idle
      (
        (found-AllListable.0, tt),
        refl,
        omega arith,
        refl,
        (found-AllListable.1, refl, omega arith, refl, tt),
      )
      refl refl refl refl
