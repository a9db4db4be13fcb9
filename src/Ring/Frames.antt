-- ===== src/Ring/Frames.antt =====
-- coremodel.c: `coremodel_process_rxq` on the bytes of packets that a peer sends, and on others.
use coremodel.Base.{
  ℕ, suc, ◌≤◌, ◌≡◌, sym, ◌++◌, Bool, false, List, [], ◌∷◌, arith, align4, length-append, drop_exact,
}
use coremodel.Packet.{Packet, wire}
use coremodel.Packet.Wire.{IsWellFormed, length-wire, decode-wire, rd16-wire}
use coremodel.Ring.{max_pkt}
use coremodel.Ring.Stream.{run}

-- A packet that a peer may send: it fits the receiver's limit.
pub record IsSendable (p : Packet) : Type 0 where
  pub formed : IsWellFormed p
  pub short : align4 p.len ≤ max_pkt

abbrev pub AllSendable : List Packet → Type 0
AllSendable [] = Unit {0}
AllSendable (p ∷ ps) = IsSendable p × AllSendable ps

pub AllSendable-append :
    (ps qs : List Packet) → AllSendable ps → AllSendable qs → AllSendable (ps ++ qs)
AllSendable-append [] qs v w = w
AllSendable-append (p ∷ ps) qs v w = (v.0, AllSendable-append ps qs v.1 w)

module _ {S : Type 0} (process : Packet → S → Bool × S) where
  -- The packets processed one after the other.
  unfoldable pub deliver : List Packet → S → S
  deliver [] s = s
  deliver (p ∷ ps) s = deliver ps (process p s).1

-- In the states that `Good` picks out processing a packet reports no error, and stays in them.
module _ {S : Type 0} (process : Packet → S → Bool × S) (Good : S → Type 0)
    (never : (p : Packet) (s : S) → Good s → ((process p s).0 ≡ false) × Good (process p s).1) where
  pub run-wire :
      (fuel : ℕ) (p : Packet) (more : List ℕ) (s : S)
      → IsSendable p
      → Good s
      → run process (suc fuel) (wire p ++ more) s ≡ run process fuel more (process p s).1
  unfolding run
  run-wire fuel p more s v g =
      let size = length-wire p v.formed in
      let total = length-append (wire p) more in
      rw
        (
          total,
          size,
          rd16-wire p more v.formed,
          decode-wire p more v.formed,
          (never p s g).0,
          drop_exact (align4 p.len) (wire p) more (sym size),
        )
        (ground arith)
