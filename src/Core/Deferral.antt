-- ===== src/Core/Deferral.antt =====
-- coremodel.c: a packet that arrives during an attach is handled by the next `coremodel_preparefds`.
mod Tests
use coremodel.Base.{
  ℕ, ◌++◌, ◌≤◌, ◌≡◌, ◌≢◌, refl, sym, ap, subst, ◌∙◌, Bool, true, false, List, [], ◌∷◌, Option, none,
  some, arith, ◌==◌, if◌then◌else◌, ltb, not, ◌||◌,
}
use coremodel.Packet.{Packet, conn_query}
use coremodel.Tx.{Io, alloc_ok, allocs_left}
use coremodel.Core.State.{Core, Attached, ConnIf, null, waiting, linked, advance_attached}
use coremodel.Core.Packets.{process_packet, find_if, replace_if, flush_ifs, defer_pkt_flush}
use coremodel.Core.Packets.Deferred.{deferring, early_packet_waits}
use coremodel.Core.Attach.{attach_end}
use coremodel.Core.Loop.{Watch, preparefds}

abbrev pub NoneDeferred : {D : Type 0} → List (Attached D) → Type 0
NoneDeferred [] = Unit {0}
NoneDeferred (a ∷ rest) = (a.cif.defer_pkt ≡ false) × NoneDeferred rest

module _ {D : Type 0} where
  flush_ifs-none :
      (ifs : List (Attached D)) (io : Io D) → NoneDeferred ifs → flush_ifs ifs io ≡ (ifs, io)
  unfolding flush_ifs
  flush_ifs-none [] io n = refl
  flush_ifs-none (a ∷ rest) io n = simp (n.0, flush_ifs-none rest io n.1)

  -- The interface with one more packet waiting, and ready to be advanced.
  abbrev pub released : Packet → Attached D → Attached D
  released p a = record a {
    cif = record (a.cif) { rxbufs = a.cif.rxbufs ++ (p ∷ []); defer_pkt = false };
  }

  -- What `preparefds` finds after the packet has come and the attach has returned.
  abbrev pub attached_with : Packet → Attached D → List (Attached D) → Core D → Core D
  attached_with p a rest cm = record cm {
    ifs = deferring p a ∷ rest;
    io = record (cm.io) { allocs = allocs_left cm.io.allocs };
    defer_pkt = true;
    conn_if = null;
  }

  abbrev deferred_core : Packet → Core D → List (Attached D) → Core D
  deferred_core p cm l = record cm {
    ifs = l;
    io = record (cm.io) { allocs = allocs_left cm.io.allocs };
    defer_pkt = true;
  }

  abbrev pub ready_io : Core D → Io D
  ready_io cm = record (cm.io) {
    allocs = allocs_left cm.io.allocs;
    need_wake = true;
    txflag = false;
  }

  module _ (p : Packet) (a : Attached D) (rest : List (Attached D)) (cm : Core D) where
    flush_head :
        (io : Io D)
        → NoneDeferred rest
        → flush_ifs (deferring p a ∷ rest) io
          ≡ (let (a', io') = advance_attached (released p a) io in (a' ∷ rest, io'))
    unfolding flush_ifs
    flush_head io n =
        let (a', io') = advance_attached (released p a) io in simp (flush_ifs-none rest io' n)

    prepared :
        cm.fd_open ≡ true
        → NoneDeferred rest
        → (preparefds (attached_with p a rest cm)).1 ≡ (
            let (a', io') = advance_attached (released p a) (ready_io cm) in
            record cm { ifs = a' ∷ rest; io = io'; defer_pkt = false; conn_if = null })
    unfolding preparefds defer_pkt_flush
    prepared o n =
        let (a', io1) = advance_attached (released p a) (ready_io cm) in
        simp o (
          ap
            (λ (x : List (Attached D) × Io D). record cm {
              fd_open = true;
              ifs = a' ∷ x.0;
              io = x.1;
              defer_pkt = false;
              conn_if = null;
            })
            (flush_ifs-none rest io1 n))

    attach_ends :
        (c1 : Core D)
        → c1.conn_if ≡ linked a.handle
        → attach_end false c1 ≡ (some a.handle, record c1 { conn_if = null })
    unfolding attach_end
    attach_ends c1 e =
        ap
          (λ (x : ConnIf D). (elim x as (λ y. Option ℕ × Core D) [
            | null ↦ (none, c1)
            | waiting b ↦ (none, record c1 { conn_if = null })
            | linked k ↦ (some k, record c1 { conn_if = null })
          ]))
          e

    head_found :
        a.cif.conn ≡ p.conn
        → (find_if p.conn (a ∷ rest) ≡ some a)
          × (replace_if p.conn (deferring p a) (a ∷ rest) ≡ deferring p a ∷ rest)
    unfolding find_if replace_if
    head_found e = let same : (a.cif.conn == p.conn) ≡ true = ground arith in (simp same, simp same)

    -- A packet that comes for an interface while its attach is still under way is handled as soon as
    -- the attach has returned its handle and the main loop is entered again: the next
    -- `coremodel_preparefds` advances the interface with the packet behind those that waited before,
    -- and leaves the other interfaces as they are. The connection must be open, the allocation must
    -- succeed, and no other interface may be deferred.
    pub early_packet_is_handled :
        cm.ifs ≡ a ∷ rest
        → a.cif.conn ≡ p.conn
        → p.conn ≢ conn_query
        → cm.conn_if ≡ linked a.handle
        → alloc_ok cm.io.allocs ≡ true
        → 8 ≤ p.len
        → cm.fd_open ≡ true
        → NoneDeferred rest
        → let (handle, cm1) = attach_end false (process_packet p cm).1 in
          (handle ≡ some a.handle)
          × ((preparefds cm1).1 ≡ (
              let (a', io') = advance_attached (released p a) (ready_io cm) in
              record cm { ifs = a' ∷ rest; io = io'; defer_pkt = false; conn_if = null }))
    early_packet_is_handled list conn n c ok h o others =
        let (at, put) = head_found conn in
        let early = early_packet_waits p a cm n (ap (find_if p.conn) list ∙ at) c ok h in
        let listed = ap (replace_if p.conn (deferring p a)) list ∙ put in
        let waits = early ∙ ap (λ l. (false, deferred_core p cm l)) listed in
        let out : attach_end false (process_packet p cm).1
            ≡ (some a.handle, attached_with p a rest cm) =
          ap (λ x. attach_end false x.1) waits
          ∙ attach_ends (deferred_core p cm (deferring p a ∷ rest)) c in
        (ap (λ x. x.0) out, ap (λ x. (preparefds x.1).1) out ∙ prepared o others)
