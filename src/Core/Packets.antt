-- ===== src/Core/Packets.antt =====
-- coremodel.c: `coremodel_process_conn_response`, `coremodel_process_packet`,
-- `coremodel_defer_pkt_flush` and `coremodel_process_rxq`.
pub mod Deferred
pub mod Isolation
pub mod Sound
mod Tests
use coremodel.Base.{
  ℕ, ◌+◌, ◌++◌, ◌||◌, Bool, true, false, List, [], ◌∷◌, Option, none, some, ltb, ◌==◌,
  if◌then◌else◌, rd32,
}
use coremodel.Packet.{Packet, conn_query}
use coremodel.Tx.{Io, alloc_ok, allocs_left}
use coremodel.Ring.{Ring, process_rxq}
use coremodel.Core.State.{
  Core, Attached, ConnIf, null, waiting, linked, is_linked, advance_attached,
}
use coremodel.Core.Query.{pkt_query_rsp_list, process_list_response}

abbrev pub pkt_query_rsp_conn : ℕ
pkt_query_rsp_conn = 0x03

module _ {D : Type 0} where
  -- The connection index and the initial credit go to the interface; an index other than the
  -- failure's puts it at the head of the list. A second response for the same interface would put
  -- it into the list twice, and is recorded as a fault.
  unfoldable pub process_conn_response : Packet → Core D → Bool × Core D
  process_conn_response pkt cm =
      let connected = λ (a : Attached D). record a {
        cif = record (a.cif) {
          conn = pkt.hflag;
          cred = if ltb pkt.len 12 then a.cif.cred else rd32 pkt.payload 0;
        };
      } in
      (
        false,
        elim cm.conn_if [
          | null ↦ cm
          | waiting a ↦
              (if pkt.hflag == conn_query
                then record cm { query = false; conn_if = waiting (connected a) }
                else record cm {
                  query = false;
                  conn_if = linked a.handle;
                  ifs = connected a ∷ cm.ifs;
                })
          | linked h ↦ record cm { query = false; io = record (cm.io) { fault = true } }
        ],
      )

  -- The first interface of the list with this connection index.
  unfoldable pub find_if : ℕ → List (Attached D) → Option (Attached D)
  find_if conn [] = none
  find_if conn (a ∷ rest) = if a.cif.conn == conn then some a else find_if conn rest

  -- The interface with this connection index is given anew.
  unfoldable pub replace_if : ℕ → Attached D → List (Attached D) → List (Attached D)
  replace_if conn b [] = []
  replace_if conn b (a ∷ rest) = if a.cif.conn == conn then b ∷ rest else a ∷ replace_if conn b rest

  -- A packet joins the queue of its interface, and the interface is advanced. It is deferred if the
  -- interface is the one that is being attached. A packet shorter than its header is copied outside
  -- the buffer that is allocated for it.
  unfoldable pub receive_packet : Packet → Attached D → Core D → Core D
  receive_packet pkt a cm =
      let deferred = is_linked cm.conn_if a.handle in
      let queued = record a {
        cif = record (a.cif) { rxbufs = a.cif.rxbufs ++ (pkt ∷ []); defer_pkt = deferred };
      } in
      let io = record (cm.io) {
        allocs = allocs_left cm.io.allocs;
        fault = cm.io.fault || ltb pkt.len 8;
      } in
      let (a', io') = advance_attached queued io in
      record cm {
        ifs = replace_if pkt.conn a' cm.ifs;
        io = io';
        defer_pkt = cm.defer_pkt || deferred;
      }

  -- The flag is the error result: an allocation failed.
  unfoldable pub process_packet : Packet → Core D → Bool × Core D
  unfolding process_conn_response
  process_packet pkt cm =
      let answered =
        if pkt.pkt == pkt_query_rsp_list
        then process_list_response pkt cm
        else (if pkt.pkt == pkt_query_rsp_conn
            then process_conn_response pkt cm
            else (false, cm)) in
      if pkt.conn == conn_query
      then (if cm.query then answered else (false, cm))
      else elim (find_if pkt.conn cm.ifs) [
        | none ↦ (false, cm)
        | some a ↦
            (if alloc_ok cm.io.allocs
              then (false, receive_packet pkt a cm)
              else (true, record cm { io = record (cm.io) { allocs = allocs_left cm.io.allocs } }))
      ]

  -- `coremodel_defer_pkt_flush`: the interfaces whose packets were deferred are advanced, from the
  -- head of the list on.
  unfoldable pub flush_ifs : List (Attached D) → Io D → List (Attached D) × Io D
  flush_ifs [] io = ([], io)
  flush_ifs (a ∷ rest) io =
      let released = record a { cif = record (a.cif) { defer_pkt = false } } in
      let (a', io1) = if a.cif.defer_pkt then advance_attached released io else (a, io) in
      let (rest', io2) = flush_ifs rest io1 in (a' ∷ rest', io2)

  unfoldable pub defer_pkt_flush : Core D → Core D
  unfolding flush_ifs
  defer_pkt_flush cm =
      let (ifs', io') = flush_ifs cm.ifs cm.io in record cm { ifs = ifs'; io = io' }
