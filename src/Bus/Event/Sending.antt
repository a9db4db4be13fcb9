-- ===== src/Bus/Event/Sending.antt =====
-- coremodel.c: what `coremodel_event_signal` puts on the wire.
use coremodel.Base.{
  ℕ, ◌+◌, ◌*◌, ◌/◌, ◌%◌, ◌^◌, ◌++◌, ◌<◌, ◌≡◌, refl, ap₂, ◌∙◌, true, false, some, arith, ◌==◌,
  if◌then◌else◌, rd64,
}
use coremodel.Packet.{Packet, wire}
use coremodel.Packet.Wire.{IsWellFormed}
use coremodel.Tx.{with_data, alloc_ok}
use coremodel.Tx.Flow.{pending}
use coremodel.Tx.Push.{push_packet-Pushed}
use coremodel.If.{St, reply}
use coremodel.Bus.Event.{event_signal, le64, pkt_event_signal, event_signal_change}

-- The four bytes of a 32-bit word, and the two halves of a 64-bit one.
word_bytes :
    (n : ℕ)
    → n < 2 ^ 32
    → n % 65536 % 256
        + 256 * (n % 65536 / 256 % 256)
        + 65536 * (n / 65536 % 256 + 256 * (n / 65536 / 256 % 256))
      ≡ n
word_bytes n h = omega arith

halves : (n : ℕ) → n < 2 ^ 64 → n % 2 ^ 32 + 2 ^ 32 * (n / 2 ^ 32 % 2 ^ 32) ≡ n
halves n h = omega arith

-- Two 64-bit words in memory are read back as they were written.
pub rd64-le64 :
    (a b : ℕ)
    → a < 2 ^ 64
    → b < 2 ^ 64
    → (rd64 (le64 a ++ le64 b) 0 ≡ a) × (rd64 (le64 a ++ le64 b) 8 ≡ b)
rd64-le64 a b h k = (
  ap₂ (λ x y. x + 2 ^ 32 * y) (word_bytes (a % 2 ^ 32) (omega arith))
        (word_bytes (a / 2 ^ 32 % 2 ^ 32) (omega arith))
      ∙ halves a h,
  ap₂ (λ x y. x + 2 ^ 32 * y) (word_bytes (b % 2 ^ 32) (omega arith))
        (word_bytes (b / 2 ^ 32 % 2 ^ 32) (omega arith))
      ∙ halves b k,
)

module _ {D : Type 0} (data0 data1 chgonly : ℕ) (st : St D) where
  -- `coremodel_event_signal` sends one packet of 24 bytes on the interface's connection whose two
  -- words are the ones that it is given, with the flag for changes only as asked for, and reads
  -- nothing outside an object, if an allocation succeeds.
  pub event_signal_sends :
      data0 < 2 ^ 64
      → data1 < 2 ^ 64
      → st.cif.conn < 2 ^ 16
      → alloc_ok st.io.allocs ≡ true
      → (p : Packet) × (pending (event_signal data0 data1 chgonly st).io.txbufs
          ≡ pending st.io.txbufs ++ wire p)
        × (rd64 p.payload 0 ≡ data0)
        × (rd64 p.payload 8 ≡ data1)
        × (p.conn ≡ st.cif.conn)
        × ((p.bflag == event_signal_change) ≡ (if chgonly == 0 then false else true))
        × ((event_signal data0 data1 chgonly st).io.fault ≡ st.io.fault)
  unfolding event_signal
  event_signal_sends h k c ok =
      let words = le64 data0 ++ le64 data1 in
      let req =
        reply 24 st.cif.conn pkt_event_signal (if chgonly == 0 then 0 else event_signal_change) 0 in
      let formed : IsWellFormed (with_data req (some words)) = record {
        len_fits = omega arith;
        conn_fits = c;
        hflag_fits = omega arith;
        sized = refl;
      } in
      let d = push_packet-Pushed req (some words) st.io formed ok in
      (
        with_data req (some words),
        d.queue,
        (rd64-le64 data0 data1 h k).0,
        (rd64-le64 data0 data1 h k).1,
        refl,
        ground arith,
        d.unharmed,
      )
