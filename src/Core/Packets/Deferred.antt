-- ===== src/Core/Packets/Deferred.antt =====
-- coremodel.c: packets that arrive for an interface while its attach is still under way.
use coremodel.Base.{
  or-true, or-false, ◌++◌, ◌≡◌, ◌≢◌, refl, ap, ◌∙◌, true, false, [], ◌∷◌, some, arith, ltb, ◌==◌,
  ◌≤◌,
}
use coremodel.Packet.{Packet, conn_query}
use coremodel.Tx.{Io, alloc_ok, allocs_left}
use coremodel.If.{St}
use coremodel.Bus.Handler.{dispatch}
use coremodel.Bus.Queue.Round.{advance_if_deferred}
use coremodel.Core.State.{Core, Attached, linked, is_linked, advance_attached}
use coremodel.Core.Packets.{process_packet, receive_packet, find_if, replace_if}

module _ {D : Type 0} where
  -- The interface with one more packet waiting, and its flag set.
  abbrev pub deferring : Packet → Attached D → Attached D
  deferring p a = record a {
    cif = record (a.cif) { rxbufs = a.cif.rxbufs ++ (p ∷ []); defer_pkt = true };
  }

  advance_deferred :
      (a : Attached D) (io : Io D) → a.cif.defer_pkt ≡ true → advance_attached a io ≡ (a, io)
  unfolding advance_attached
  advance_deferred a io e =
      let st : St D = record { cif = a.cif; io = io } in
      rw (advance_if_deferred (dispatch a.func) st e)

  received :
      (p : Packet) (a : Attached D) (cm : Core D)
      → cm.conn_if ≡ linked a.handle
      → 8 ≤ p.len
      → receive_packet p a cm ≡ record cm {
        ifs = replace_if p.conn (deferring p a) cm.ifs;
        io = record (cm.io) { allocs = allocs_left cm.io.allocs };
        defer_pkt = true;
      }
  unfolding receive_packet
  received p a cm c h =
      let mine : is_linked cm.conn_if a.handle ≡ true =
        ap (λ i. is_linked i a.handle) c ∙ ground arith in
      let long : ltb p.len 8 ≡ false = ground arith in
      let io : Io D = record (cm.io) { allocs = allocs_left cm.io.allocs } in
      simp (
        mine,
        long,
        or-true cm.defer_pkt,
        or-false cm.io.fault,
        advance_deferred (deferring p a) io refl,
      )

  -- A packet for the interface that is being attached, although its answer is there already, joins
  -- the interface's queue behind the others, and is not handled: no callback of the device runs
  -- before `coremodel_attach_*` has returned the handle. Both flags are set, so that
  -- `coremodel_preparefds` handles it later.
  pub early_packet_waits :
      (p : Packet) (a : Attached D) (cm : Core D)
      → p.conn ≢ conn_query
      → find_if p.conn cm.ifs ≡ some a
      → cm.conn_if ≡ linked a.handle
      → alloc_ok cm.io.allocs ≡ true
      → 8 ≤ p.len
      → process_packet p cm ≡ (
        false,
        record cm {
          ifs = replace_if p.conn (deferring p a) cm.ifs;
          io = record (cm.io) { allocs = allocs_left cm.io.allocs };
          defer_pkt = true;
        },
      )
  unfolding process_packet
  early_packet_waits p a cm n e c ok h =
      let other : (p.conn == conn_query) ≡ false = ground arith in
      simp (other, e) (simp ok (ap (λ c. (false, c)) (received p a cm c h)))
