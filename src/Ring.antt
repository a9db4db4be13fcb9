-- ===== src/Ring.antt =====
-- coremodel.c: the receive ring `rxq` of `struct coremodel`, `coremodel_process_rxq`, and the read
-- loop of `coremodel_processfds`. What a complete packet is handed to, `coremodel_process_packet`,
-- is a parameter here, and Core fills it in.
pub mod Window
pub mod Stream
pub mod Frames
pub mod Delivery
pub mod Fill
pub mod Rounds
pub mod Enough
pub mod Endless
mod Tests
use coremodel.Base.{
  ℕ, zero, suc, ◌+◌, ◌-◌, ◌*◌, ◌/◌, ◌%◌, ◌^◌, ◌++◌, Bool, List, [], ◌∷◌, Option, none, some, ltb,
  ◌==◌, if◌then◌else◌, sub_u32, align4, length, take, drop, get_or, min,
}
use coremodel.Packet.{Packet, decode}
use coremodel.Socket.{Answer, moved, eof, eintr, eagain, failed, End, drained, closed, econnreset}

abbrev pub rx_buf : ℕ
rx_buf = 4096

abbrev pub max_pkt : ℕ
max_pkt = 2048

-- `rxq` is the array as a function of the index; the indices run freely and wrap at 2^32.
pub record Ring : Type 0 where
  pub rxq : ℕ → ℕ
  pub rxqwp : ℕ
  pub rxqrp : ℕ

pub empty : Ring
empty = record { rxq = λ i. 0; rxqwp = 0; rxqrp = 0 }

-- `cm->rxqwp - cm->rxqrp`
abbrev pub used : Ring → ℕ
used r = sub_u32 r.rxqwp r.rxqrp

-- `n` bytes of the array from index `i` on.
pub slice : (ℕ → ℕ) → ℕ → ℕ → List ℕ
slice q i zero = []
slice q i (suc n) = q i ∷ slice q (i + 1) n

-- `n` bytes from index `i` on, going round at the end of the array.
pub window : (ℕ → ℕ) → ℕ → ℕ → List ℕ
window q i zero = []
window q i (suc n) = q (i % rx_buf) ∷ window q (i + 1) n

pub frame_len : Ring → ℕ
frame_len r =
    let offs = r.rxqrp % rx_buf in
    if r.rxqrp == rx_buf - 1
    then r.rxq (rx_buf - 1) + 256 * r.rxq 0
    else r.rxq offs + 256 * r.rxq (offs + 1)

-- `n` bytes read in place from index `offs` on. Behind the array stands `rxqwp`, the next member of
-- `struct coremodel`, least significant byte first.
pub in_place : Ring → ℕ → ℕ → List ℕ
in_place r offs zero = []
in_place r offs (suc n) =
    (if ltb offs rx_buf then r.rxq offs else r.rxqwp / 256 ^ (offs - rx_buf) % 256)
    ∷ in_place r (offs + 1) n

-- The packet's bytes: copied out in two parts where it goes round the end, read in place where it
-- does not. A packet shorter than its header is read in place too, header and all, past the end of
-- the array if it starts in the last four bytes.
pub frame : Ring → ℕ → List ℕ
unfolding slice in_place
frame r dlen =
    let offs = r.rxqrp % rx_buf in
    let step = rx_buf - offs in
    if ltb step dlen
    then slice r.rxq offs step ++ slice r.rxq 0 (dlen - step)
    else in_place r offs (if ltb dlen 8 then 8 else dlen)

pub consume : Ring → ℕ → Ring
consume r dlen = record r { rxqrp = (r.rxqrp + dlen) % 2 ^ 32 }

module _ {S : Type 0} (process : Packet → S → Bool × S) where
  -- `none` is a loop that the fuel did not finish. The flag of `process` is its error result, which
  -- leaves the packet in the ring.
  pub process_rxq : ℕ → Ring → S → Option (Ring × S)
  unfolding frame_len frame consume
  process_rxq zero r s = none
  process_rxq (suc fuel) r s =
      let dlen = align4 (frame_len r) in
      let skipped = process_rxq fuel (consume r dlen) s in
      let handed = process (decode (frame r dlen)) s in
      let handled = process_rxq fuel (consume r dlen) handed.1 in
      if ltb (used r) 8
      then some (r, s)
      else (if ltb (used r) dlen
          then some (r, s)
          else (if ltb max_pkt dlen
              then skipped
              else (if handed.0 then some (r, handed.1) else handled)))

-- read(2) into the array from index `offs` on.
pub blit : (ℕ → ℕ) → ℕ → List ℕ → ℕ → ℕ
blit q offs bs i =
    if ltb i offs then q i else if ltb i (offs + length bs) then get_or bs (i - offs) 0 else q i

abbrev pub room : Ring → ℕ
room r = min (rx_buf - used r) (rx_buf - r.rxqwp % rx_buf)

pub fill : Ring → List ℕ → Ring
unfolding blit
fill r bs = record r {
  rxq = blit r.rxq (r.rxqwp % rx_buf) bs;
  rxqwp = (r.rxqwp + length bs) % 2 ^ 32;
}

-- The read loop: `stream` holds the bytes that the peer has sent, and each round makes one call.
-- It ends as EAGAIN does when the answers, or the bytes, are used up.
pub read_loop : List Answer → List ℕ → Ring → End × List ℕ × Ring
unfolding fill
read_loop [] stream r = (drained, stream, r)
read_loop (moved n ∷ es) stream r =
    let chunk = take (min (suc n) (room r)) stream in
    let rest = read_loop es (drop (min (suc n) (room r)) stream) (fill r chunk) in
    if (rx_buf - used r) == 0
    then (drained, stream, r)
    else if length chunk == 0
    then (drained, stream, r)
    else rest
read_loop (eof ∷ es) stream r =
    if (rx_buf - used r) == 0 then (drained, stream, r) else (closed econnreset, stream, r)
read_loop (eintr ∷ es) stream r =
    let rest = read_loop es stream r in
    if (rx_buf - used r) == 0 then (drained, stream, r) else rest
read_loop (eagain ∷ es) stream r = (drained, stream, r)
read_loop (failed e ∷ es) stream r =
    if (rx_buf - used r) == 0 then (drained, stream, r) else (closed e, stream, r)

module _ {S : Type 0} where
  abbrev parsed : List ℕ → Option (Ring × S) → Option (End × List ℕ × Ring × S)
  parsed stream none = none
  parsed stream (some (r, s)) = some (drained, stream, r, s)

module _ {S : Type 0} (process : Packet → S → Bool × S) where
  abbrev parse_after : ℕ → S → End × List ℕ × Ring → Option (End × List ℕ × Ring × S)
  parse_after fuel s (closed e, stream, r) = some (closed e, stream, r, s)
  parse_after fuel s (drained, stream, r) = parsed stream (process_rxq process fuel r s)

  -- The receiving half of a call of `coremodel_processfds`: the read loop and, unless that closed
  -- the connection, the packets that are complete.
  pub receive : ℕ → List Answer → List ℕ → Ring → S → Option (End × List ℕ × Ring × S)
  unfolding process_rxq read_loop
  receive fuel es stream r s = parse_after fuel s (read_loop es stream r)

  -- One call after the other, each with the answers that its reads get.
  pub serve : ℕ → List (List Answer) → List ℕ → Ring → S → Option (List ℕ × Ring × S)
  unfolding receive
  serve fuel [] stream r s = some (stream, r, s)
  serve fuel (es ∷ calls) stream r s = elim (receive fuel es stream r s) [
    | none ↦ none
    | some (end, stream', r', s') ↦ serve fuel calls stream' r' s'
  ]
