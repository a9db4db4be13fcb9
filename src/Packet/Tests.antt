-- ===== src/Packet/Tests.antt =====
-- coremodel.c: a packet as bytes, on a concrete one.
use coremodel.Base.{◌≡◌, refl, ◌++◌, [], ◌∷◌, arith}
use coremodel.Packet.{Packet, decode, wire}
use coremodel.Packet.Wire.{IsWellFormed, decode-wire}

abbrev odd_packet : Packet
odd_packet = record {
  len = 11;
  conn = 515;
  pkt = 1;
  bflag = 255;
  hflag = 65534;
  payload = 1 ∷ 2 ∷ 3 ∷ [];
}

odd_packet-IsWellFormed : IsWellFormed odd_packet
odd_packet-IsWellFormed = record {
  len_fits = omega arith;
  conn_fits = omega arith;
  hflag_fits = omega arith;
  sized = refl;
}

odd_packet-wire : wire odd_packet ≡ 11 ∷ 0 ∷ 3 ∷ 2 ∷ 1 ∷ 255 ∷ 254 ∷ 255 ∷ 1 ∷ 2 ∷ 3 ∷ 0 ∷ []
unfolding wire
odd_packet-wire = refl

decode-wire_example : decode (wire odd_packet ++ (9 ∷ 9 ∷ [])) ≡ odd_packet
decode-wire_example = decode-wire odd_packet (9 ∷ 9 ∷ []) odd_packet-IsWellFormed
