-- ===== src/Packet.antt =====
-- coremodel.c: `struct coremodel_packet`, and the packet as it stands in a byte buffer.
pub mod Wire
mod Tests
use coremodel.Base.{
  ℕ, ◌+◌, ◌-◌, ◌++◌, List, [], ◌∷◌, le16, rd16, get_or, take, drop, replicate, align4,
}

-- `payload` is `data[]`, as long as the buffer that holds the packet.
pub record Packet : Type 0 where
  pub len : ℕ
  pub conn : ℕ
  pub pkt : ℕ
  pub bflag : ℕ
  pub hflag : ℕ
  pub payload : List ℕ

abbrev pub conn_query : ℕ
conn_query = 0xFFFF

-- The eight bytes in front of `data[]`, little-endian as on the hosts that the code casts on.
pub header : Packet → List ℕ
header p = le16 p.len ++ le16 p.conn ++ (p.pkt ∷ p.bflag ∷ []) ++ le16 p.hflag

-- The bytes of a packet, read through `struct coremodel_packet *`; `len` bytes belong to it.
unfoldable pub decode : List ℕ → Packet
decode raw = record {
  len = rd16 raw 0;
  conn = rd16 raw 2;
  pkt = get_or raw 4 0;
  bflag = get_or raw 5 0;
  hflag = rd16 raw 6;
  payload = take (rd16 raw 0 - 8) (drop 8 raw);
}

-- The first `len` bytes from `pkt` on: the header, and then `data[]`.
unfoldable pub image : Packet → List ℕ
unfolding header
image p = take p.len (header p ++ p.payload)

-- The packet as it is sent: padded to a multiple of four bytes.
unfoldable pub wire : Packet → List ℕ
unfolding image
wire p = image p ++ replicate (align4 p.len - p.len) 0

unfoldable pub wires : List Packet → List ℕ
unfolding wire
wires [] = []
wires (p ∷ ps) = wire p ++ wires ps
