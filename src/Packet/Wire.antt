-- ===== src/Packet/Wire.antt =====
-- coremodel.c: a packet read back from its own bytes.
use coremodel.Base.{
  ℕ, ◌+◌, ◌-◌, ap, append_assoc, length-append, length-replicate, replicate, align4, ◌*◌, ◌/◌, ◌%◌,
  ◌^◌, ◌≤◌, ◌<◌, ◌≡◌, ◌++◌, List, arith, length, take, drop, rd16, take_all, take_exact,
  get_or-take, take-take, drop-take,
}
use coremodel.Packet.{Packet, header, decode, image, wire}

-- The fields fit their C types, and `data[]` holds what `len` announces.
pub record IsWellFormed (p : Packet) : Type 0 where
  pub len_fits : p.len < 2 ^ 16
  pub conn_fits : p.conn < 2 ^ 16
  pub hflag_fits : p.hflag < 2 ^ 16
  pub sized : p.len ≡ 8 + length p.payload

image-header : (p : Packet) → IsWellFormed p → image p ≡ header p ++ p.payload
unfolding image
image-header p w = unfold header in take_all p.len (header p ++ p.payload) (omega arith)

pub length-image : (p : Packet) → IsWellFormed p → length (image p) ≡ p.len
unfolding header
length-image p w = rw (image-header p w) (omega arith)

-- A well-formed packet is read back from its bytes, whatever padding follows them.
pub decode-image : (p : Packet) (pad : List ℕ) → IsWellFormed p → decode (image p ++ pad) ≡ p
unfolding decode header
decode-image p pad w = rw (image-header p w) (
    ground
      (arith, take_exact (p.len % 256 + 256 * (p.len / 256 % 256) - 8) p.payload pad (omega arith)))

-- Only the bytes that `len` announces, and those of the header, are read.
pub decode-take : (n : ℕ) (bs : List ℕ) → 8 ≤ n → rd16 bs 0 ≤ n → decode (take n bs) ≡ decode bs
unfolding decode
decode-take n bs h k = rw (drop-take 8 n bs) (
    ground (
      arith,
      get_or-take n 0 bs 0,
      get_or-take n 1 bs 0,
      get_or-take n 2 bs 0,
      get_or-take n 3 bs 0,
      get_or-take n 4 bs 0,
      get_or-take n 5 bs 0,
      get_or-take n 6 bs 0,
      get_or-take n 7 bs 0,
      take-take (rd16 bs 0 - 8) (n - 8) (drop 8 bs) (omega arith),
    ))

pub length-wire : (p : Packet) → IsWellFormed p → length (wire p) ≡ align4 p.len
unfolding wire
length-wire p w =
    rw (length-append (image p) (replicate (align4 p.len - p.len) 0))
      (omega (arith, length-image p w, length-replicate {A = ℕ} (align4 p.len - p.len) 0))

-- A well-formed packet is read back from the bytes that are sent for it, whatever follows them.
pub decode-wire : (p : Packet) (more : List ℕ) → IsWellFormed p → decode (wire p ++ more) ≡ p
unfolding wire
decode-wire p more w =
    rw (append_assoc (image p) (replicate (align4 p.len - p.len) 0) more)
      (decode-image p (replicate (align4 p.len - p.len) 0 ++ more) w)

-- The length that a receiver reads first.
pub rd16-wire : (p : Packet) (more : List ℕ) → IsWellFormed p → rd16 (wire p ++ more) 0 ≡ p.len
unfolding decode
rd16-wire p more w = ap (λ (q : Packet). q.len) (decode-wire p more w)
