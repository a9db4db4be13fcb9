-- ===== src/Core/Attach/Handshake.antt =====
-- coremodel.c: attaching an interface, from the request to the handle that is returned.
use coremodel.Base.{
  ℕ, ◌≡◌, ◌≢◌, refl, true, false, List, ◌∷◌, Option, none, some, arith, ltb, ◌==◌, if◌then◌else◌,
  rd32,
}
use coremodel.Packet.{Packet, conn_query}
use coremodel.Tx.{push_packet, alloc_ok, allocs_left}
use coremodel.Bus.Handler.{Handlers}
use coremodel.Core.State.{Core, Attached, null, waiting, linked}
use coremodel.Core.Packets.{process_packet, process_conn_response, pkt_query_rsp_conn}
use coremodel.Core.Attach.{attach_begin, attach_end, conn_request, new_if}

module _ {D : Type 0} (handle type : ℕ) (func : Handlers D) (name : List ℕ) (addr : ℕ)
    (subname : Option (List ℕ)) (flags : ℕ) (cm : Core D) where
  -- The interface as the answer completes it.
  abbrev pub connected_by : Packet → Attached D
  connected_by p = record {
    handle = handle;
    func = func;
    cif = record new_if { conn = p.hflag; cred = if ltb p.len 12 then 0 else rd32 p.payload 0 };
  }

  -- The state once the request is queued.
  abbrev pub requested : Core D
  requested = record cm {
    io =
        (push_packet (conn_request type name addr subname flags) none
          (record (cm.io) { allocs = allocs_left cm.io.allocs })).1;
    conn_if = waiting (record { handle = handle; func = func; cif = new_if });
    query = true;
  }

  answer_connects :
      (p : Packet)
      → p.conn ≡ conn_query
      → p.pkt ≡ pkt_query_rsp_conn
      → p.hflag ≢ conn_query
      → process_packet p requested ≡ (
        false,
        record requested { query = false; conn_if = linked handle; ifs = connected_by p ∷ cm.ifs },
      )
  unfolding process_packet process_conn_response
  answer_connects p c k h =
      let other : (p.hflag == conn_query) ≡ false = ground arith in simp (c, k, other)

  answer_refuses :
      (p : Packet)
      → p.conn ≡ conn_query
      → p.pkt ≡ pkt_query_rsp_conn
      → p.hflag ≡ conn_query
      → process_packet p requested
        ≡ (false, record requested { query = false; conn_if = waiting (connected_by p) })
  unfolding process_packet process_conn_response
  answer_refuses p c k h =
      let same : (p.hflag == conn_query) ≡ true = ground arith in simp (c, k, same)

  module _ (idle : cm.query ≡ false) (first : alloc_ok cm.io.allocs ≡ true)
      (second : alloc_ok (allocs_left cm.io.allocs) ≡ true) where
    attach_requests : attach_begin handle type func name addr subname flags cm ≡ (true, requested)
    unfolding attach_begin push_packet
    attach_requests = simp (idle, first, second)

    -- An attach whose request is answered with a connection index: the request is queued and the
    -- query is under way; the answer ends the query and puts the interface, with that index and the
    -- credits of the answer, at the head of the list, before the attach returns; the attach returns
    -- the interface's handle. A query must not be under way, and both allocations must succeed.
    pub attach_connects :
        (p : Packet)
        → p.conn ≡ conn_query
        → p.pkt ≡ pkt_query_rsp_conn
        → p.hflag ≢ conn_query
        → let (begun, cm1) = attach_begin handle type func name addr subname flags cm in
          let (bad, cm2) = process_packet p cm1 in
          (begun ≡ true)
          × (cm1.io ≡ requested.io)
          × (bad ≡ false)
          × (cm2.query ≡ false)
          × (attach_end false cm2 ≡ (
            some handle,
            record requested { query = false; conn_if = null; ifs = connected_by p ∷ cm.ifs },
          ))
    unfolding attach_end
    attach_connects p c k h =
        rw attach_requests (rw (answer_connects p c k h) (refl, refl, refl, refl, refl))

    -- An attach that the guest refuses: the answer ends the query, and no handle is returned; the
    -- list of interfaces is as before.
    pub attach_refused :
        (p : Packet)
        → p.conn ≡ conn_query
        → p.pkt ≡ pkt_query_rsp_conn
        → p.hflag ≡ conn_query
        → attach_end false
            (process_packet p (attach_begin handle type func name addr subname flags cm).1).1
          ≡ (none, record requested { query = false; conn_if = null })
    unfolding attach_end
    attach_refused p c k h = rw attach_requests (rw (answer_refuses p c k h))
