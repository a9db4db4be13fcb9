-- ===== src/Tx.antt =====
-- coremodel.c: `coremodel_push_packet`, the transmit queue `txbufs`, and the write loop of
-- `coremodel_processfds`.
pub mod Flow
pub mod Push
mod Tests
use coremodel.Base.{
  ℕ, suc, ◌+◌, ◌-◌, ◌++◌, ◌||◌, Bool, true, false, List, [], ◌∷◌, Option, none, some, ltb, ◌==◌,
  if◌then◌else◌, align4, length, take, drop, min,
}
use coremodel.Packet.{Packet, wire}
use coremodel.Socket.{Answer, moved, eof, eintr, eagain, failed, End, drained, closed, econnreset}

pub record TxBuf : Type 0 where
  pub size : ℕ
  pub rptr : ℕ
  pub buf : List ℕ

-- The part of `struct coremodel` that sending uses, and the state `dev` of the device models.
-- `allocs` holds the outcomes of the coming calls of calloc, which succeed once it is used up;
-- `wakes` counts the runs of the loop that writes to the wake-up pipe; `fault` records an access
-- outside an object.
pub record Io (D : Type 0) : Type 0 where
  pub txbufs : List TxBuf
  pub txflag : Bool
  pub need_wake : Bool
  pub wakes : ℕ
  pub allocs : List Bool
  pub fault : Bool
  pub dev : D

abbrev pub alloc_ok : List Bool → Bool
alloc_ok [] = true
alloc_ok (b ∷ bs) = b

abbrev pub allocs_left : List Bool → List Bool
allocs_left [] = []
allocs_left (b ∷ bs) = bs

-- The packet with what follows its header: the first `len - 8` bytes of `data` where it is given,
-- `pkt->data` where it is NULL.
abbrev pub with_data : Packet → Option (List ℕ) → Packet
with_data pkt none = pkt
with_data pkt (some d) = record pkt { payload = take (pkt.len - 8) d }

-- The copies read past the end of the data, or have a negative size.
abbrev pub overrun : Packet → Option (List ℕ) → Bool
overrun pkt none = ltb (8 + length pkt.payload) pkt.len
overrun pkt (some d) = ltb (8 + length d) pkt.len || ltb pkt.len 8

module _ {D : Type 0} where
  -- The flag is the error result.
  unfoldable pub push_packet : Packet → Option (List ℕ) → Io D → Bool × Io D
  push_packet pkt data' io =
      let txb : TxBuf = record {
        size = align4 pkt.len;
        rptr = 0;
        buf = wire (with_data pkt data');
      } in
      if alloc_ok io.allocs
      then (
        false,
        record io {
          txbufs = io.txbufs ++ (txb ∷ []);
          txflag = true;
          wakes = if io.need_wake then io.wakes + 1 else io.wakes;
          allocs = allocs_left io.allocs;
          fault = io.fault || overrun pkt data';
        },
      )
      else (true, record io { allocs = allocs_left io.allocs })

-- The write loop: how it ends, the bytes that it has sent, and the queue that is left. It ends as
-- EAGAIN does when the answers are used up.
pub write_loop : List Answer → List TxBuf → End × List ℕ × List TxBuf
write_loop es [] = (drained, [], [])
write_loop [] (txb ∷ rest) = (drained, [], txb ∷ rest)
write_loop (moved n ∷ es) (txb ∷ rest) =
    let res = min (suc n) (txb.size - txb.rptr) in
    let bytes = take res (drop txb.rptr txb.buf) in
    let txb' : TxBuf = record txb { rptr = txb.rptr + res } in
    let (end, sent, queue) =
      write_loop es (if ltb (txb.rptr + res) txb.size then txb' ∷ rest else rest) in
    if res == 0 then (closed econnreset, [], txb ∷ rest) else (end, bytes ++ sent, queue)
write_loop (eof ∷ es) (txb ∷ rest) = (closed econnreset, [], txb ∷ rest)
write_loop (eintr ∷ es) (txb ∷ rest) = write_loop es (txb ∷ rest)
write_loop (eagain ∷ es) (txb ∷ rest) = (drained, [], txb ∷ rest)
write_loop (failed e ∷ es) (txb ∷ rest) = (closed e, [], txb ∷ rest)
