-- ===== src/Core/Attach/Detach.antt =====
-- coremodel.c: what is left of an interface behind `coremodel_detach`, and of all of them behind
-- `coremodel_disconnect`.
use coremodel.Base.{
  ℕ, zero, suc, ◌++◌, ◌≤◌, ◌≡◌, ◌≢◌, refl, sym, ap, ◌∙◌, true, false, List, [], ◌∷◌, none, arith,
  ◌==◌, length, ◌<◌, ◌^◌,
}
use coremodel.Packet.{Packet, conn_query, wire}
use coremodel.Packet.Wire.{IsWellFormed}
use coremodel.Tx.{alloc_ok}
use coremodel.Tx.Flow.{pending}
use coremodel.Tx.Push.{push_packet-Pushed}
use coremodel.Core.State.{Core, Attached}
use coremodel.Core.Packets.{process_packet, find_if}
use coremodel.Core.Attach.{unlink, detach, detach_all, disconnect, disc_request}

-- No other interface of the list has this one's connection index.
abbrev pub OnlyOne : {D : Type 0} → Attached D → List (Attached D) → Type 0
OnlyOne a [] = Unit {0}
OnlyOne a (b ∷ rest) = (b.cif.conn ≡ a.cif.conn → b.handle ≡ a.handle) × OnlyOne a rest

formed : (conn : ℕ) → conn < 2 ^ 16 → IsWellFormed (disc_request conn)
unfolding disc_request
formed conn h = record {
  len_fits = omega arith;
  conn_fits = omega arith;
  hflag_fits = h;
  sized = refl;
}

module _ {D : Type 0} where
  find_if-unlink :
      (a : Attached D) (ifs : List (Attached D))
      → OnlyOne a ifs
      → find_if a.cif.conn (unlink a.handle ifs) ≡ none
  unfolding find_if unlink
  find_if-unlink a [] o = refl
  find_if-unlink a (b ∷ rest) o = ground (arith, find_if-unlink a rest o.1)

  process_packet-unknown :
      (p : Packet) (cm : Core D)
      → p.conn ≢ conn_query
      → find_if p.conn cm.ifs ≡ none
      → process_packet p cm ≡ (false, cm)
  unfolding process_packet
  process_packet-unknown p cm n e =
      let other : (p.conn == conn_query) ≡ false = ground arith in simp (other, e)

  -- `coremodel_detach` queues one request to disconnect, with the interface's connection index,
  -- and from then on every packet of that connection is ignored: it changes nothing and calls no
  -- device. The interface must be the only one with its index, and the allocation succeed.
  pub detach_stops :
      (a : Attached D) (cm : Core D)
      → OnlyOne a cm.ifs
      → a.cif.conn < 2 ^ 16
      → a.cif.conn ≢ conn_query
      → alloc_ok cm.io.allocs ≡ true
      → (pending (detach a cm).io.txbufs ≡ pending cm.io.txbufs ++ wire (disc_request a.cif.conn))
        × ((p : Packet)
            → p.conn ≡ a.cif.conn
            → process_packet p (detach a cm) ≡ (false, detach a cm))
  unfolding detach
  detach_stops a cm o h n ok =
      let d = push_packet-Pushed (disc_request a.cif.conn) none cm.io (formed a.cif.conn h) ok in
      (
        d.queue,
        λ p e.
            process_packet-unknown p (detach a cm) (λ q. n (sym e ∙ q))
              (ap (λ c. find_if c (unlink a.handle cm.ifs)) e ∙ find_if-unlink a cm.ifs o),
      )

  length-unlink : (h : ℕ) (ifs : List (Attached D)) → length (unlink h ifs) ≤ length ifs
  unfolding unlink
  length-unlink h [] = omega arith
  length-unlink h (a ∷ rest) = ground (arith, length-unlink h rest)

  detach_head :
      (a : Attached D) (rest : List (Attached D)) (cm : Core D)
      → cm.ifs ≡ a ∷ rest
      → (detach a cm).ifs ≡ unlink a.handle rest
  unfolding detach unlink
  detach_head a rest cm e =
      let same : (a.handle == a.handle) ≡ true = ground arith in ap (unlink a.handle) e ∙ simp same

  detach_all-cons :
      (fuel : ℕ) (a : Attached D) (rest : List (Attached D)) (cm : Core D)
      → cm.ifs ≡ a ∷ rest
      → detach_all (suc fuel) cm ≡ detach_all fuel (detach a cm)
  unfolding detach_all
  detach_all-cons fuel a rest cm e =
      ap
        (λ (l : List (Attached D)). (elim l as (λ x. Core D) [
          | [] ↦ cm
          | b ∷ more ↦ detach_all fuel (detach b cm)
        ]))
        e

  detach_all-nil : (fuel : ℕ) (cm : Core D) → cm.ifs ≡ [] → (detach_all fuel cm).ifs ≡ []
  unfolding detach_all
  detach_all-nil zero cm e = e
  detach_all-nil (suc fuel) cm e =
      ap (λ (c : Core D). c.ifs)
        (ap
          (λ (l : List (Attached D)). (elim l as (λ x. Core D) [
            | [] ↦ cm
            | b ∷ more ↦ detach_all fuel (detach b cm)
          ]))
          e)
      ∙ e

  detach_all_ends :
      (fuel : ℕ) (ifs : List (Attached D)) (cm : Core D)
      → cm.ifs ≡ ifs
      → length ifs ≤ fuel
      → (detach_all fuel cm).ifs ≡ []
  detach_all_ends fuel [] cm e h = detach_all-nil fuel cm e
  detach_all_ends zero (a ∷ rest) cm e h = absurd (omega arith)
  detach_all_ends (suc fuel) (a ∷ rest) cm e h =
      ap (λ (c : Core D). c.ifs) (detach_all-cons fuel a rest cm e)
      ∙ detach_all_ends fuel (unlink a.handle rest) (detach a cm) (detach_head a rest cm e)
          (omega (arith, length-unlink a.handle rest))

  -- `coremodel_disconnect` ends with no interface left, whatever the list holds and whichever
  -- allocations fail.
  pub disconnect_detaches : (cm : Core D) → (disconnect cm).ifs ≡ []
  unfolding disconnect
  disconnect_detaches cm = detach_all_ends (length cm.ifs) cm.ifs cm refl (omega arith)
