-- ===== src/Bus/Can.antt =====
-- coremodel.c: CAN. coremodel.h: `coremodel_can_func_t`, `CAN_CTRL_DLC_MASK`, `CAN_ACK` and the
-- other results.
pub mod Keeping
pub mod Handshake
pub mod Sending
mod Tests
use coremodel.Base.{
  ◌≡◌, ◌≢◌, refl, arith, ℕ, ◌+◌, ◌-◌, ◌*◌, ◌%◌, ◌^◌, ◌++◌, ◌||◌, ◌&&◌, not, Bool, true, false, List,
  [], ◌∷◌, Option, none, some, ltb, ◌==◌, if◌then◌else◌, u8, u16, rd64, length, take, drop, get_or,
  ℤ, pos, negsuc, is_zero,
}
use coremodel.Packet.{Packet}
use coremodel.If.{
  If, St, Verdict, done, hold, skip, set_busy, set_trnidx, set_ebusy, push, reply, set_fault,
  restart, Same, Holds,
}

abbrev pub pkt_can_tx : ℕ
pkt_can_tx = 0x00

abbrev pub pkt_can_tx_ack : ℕ
pkt_can_tx_ack = 0x01

abbrev pub pkt_can_rx : ℕ
pkt_can_rx = 0x02

abbrev pub pkt_can_rx_ack : ℕ
pkt_can_rx_ack = 0x03

-- `tx` is given the bytes from `pkt->data` on, where the control words are, and those of the data.
pub record CanFunc (D : Type 0) : Type 0 where
  pub tx : Option (List ℕ → List ℕ → St D → ℤ × St D)
  pub rxcomplete : Option (ℕ → St D → St D)

abbrev pub can_nak : ℤ
can_nak = pos 1

-- `res == CAN_STALL`
abbrev pub is_stall : ℤ → Bool
is_stall (pos n) = false
is_stall (negsuc n) = n == 0

abbrev pub can_datalen : List ℕ
can_datalen = 0 ∷ 1 ∷ 2 ∷ 3 ∷ 4 ∷ 5 ∷ 6 ∷ 7 ∷ 8 ∷ 12 ∷ 16 ∷ 20 ∷ 24 ∷ 32 ∷ 48 ∷ 64 ∷ []

-- The data length that the control word announces.
unfoldable pub can_dlen : ℕ → ℕ
can_dlen ctrl = let dlc = ctrl % 2 ^ 11 in if ltb dlc 16 then get_or can_datalen dlc 0 else dlc + 1

-- `ebusy` as a flag: 1 and 0.
abbrev pub one_busy : ℕ → Bool
one_busy k = k == 0

abbrev pub none_busy : ℕ → Bool
none_busy k = false

abbrev is_null : Option (List ℕ) → Bool
is_null none = true
is_null (some d) = false

abbrev given : Option (List ℕ) → List ℕ
given none = []
given (some d) = d

module _ {D : Type 0} where
  -- The callback is given the identifier and the data in the packet; the code's test of the length
  -- leaves out the eight bytes of the header, and data that is not there is a fault.
  call_can_tx : Option (List ℕ → List ℕ → St D → ℤ × St D) → Packet → St D → ℤ × St D
  call_can_tx none pkt st = (can_nak, st)
  call_can_tx (some f) pkt st =
      let dlen = can_dlen (rd64 pkt.payload 0) in
      f pkt.payload (take dlen (drop 16 pkt.payload))
        (set_fault (ltb (length pkt.payload) (16 + dlen)) st)

  can_tx : CanFunc D → Packet → St D → Verdict × St D
  unfolding call_can_tx
  can_tx f pkt st =
      let (res, st') = call_can_tx f.tx pkt st in
      if is_stall res then (hold, set_busy true st') else (
        done,
        (push (reply 8 st'.cif.conn pkt_can_tx_ack pkt.bflag (if is_zero res then 0 else 1)) none
            st').1,
      )

  pub call_rxcomplete : Option (ℕ → St D → St D) → Packet → St D → St D
  call_rxcomplete none pkt st = st
  call_rxcomplete (some f) pkt st = f pkt.hflag st

  unfoldable pub advance_if_can : CanFunc D → Packet → St D → Verdict × St D
  unfolding can_tx call_rxcomplete
  advance_if_can f pkt st =
      if pkt.pkt == pkt_can_tx
      then (if st.cif.busy
          then (skip, st)
          else (if ltb pkt.len 16
              then (done, st)
              else (if ltb pkt.len (16 + can_dlen (rd64 pkt.payload 0))
                  then (done, st)
                  else can_tx f pkt st)))
      else (if pkt.pkt == pkt_can_rx_ack
          then (
            done,
            if pkt.bflag == st.cif.trnidx
                then call_rxcomplete f.rxcomplete pkt (set_ebusy none_busy st)
                else st,
          )
          else (done, st))

  -- `coremodel_can_rx_busy`
  unfoldable pub can_rx_busy : St D → Bool
  can_rx_busy st = st.cif.ebusy 0

  -- `coremodel_can_rx` on an interface that is there: its error result, and the state after it.
  -- `ctrl` holds the sixteen bytes of the two control words. The result of the push is not looked at.
  unfoldable pub can_rx : List ℕ → Option (List ℕ) → St D → ℕ × St D
  unfolding can_rx_busy
  can_rx ctrl data' st =
      let dlen = can_dlen (rd64 ctrl 0) in
      let trnidx' = (st.cif.trnidx + 1) % 256 in
      let edata = ctrl ++ take dlen (given data') in
      let st' = set_fault (ltb (length (given data')) dlen) (set_trnidx trnidx' st) in
      if can_rx_busy st || (not (dlen == 0) && is_null data') then (1, st) else (
        0,
        set_ebusy one_busy
            (push (reply (u16 (24 + dlen)) st.cif.conn pkt_can_rx trnidx' 0) (some edata) st').1,
      )

module _ {D : Type 0} where
  -- The callbacks of a CAN node leave its queue and `busy` alone.
  abbrev pub QuietCan : CanFunc D → Type 0
  QuietCan f =
      Holds f.tx (λ g. (c d : List ℕ) (st : St D) → Same st (g c d st).1)
      × Holds f.rxcomplete (λ g. (n : ℕ) (st : St D) → Same st (g n st))

  call_can_tx-Same :
      (f : Option (List ℕ → List ℕ → St D → ℤ × St D))
      → Holds f (λ g. (c d : List ℕ) (st : St D) → Same st (g c d st).1)
      → (pkt : Packet) (st : St D) → Same st (call_can_tx f pkt st).1
  unfolding call_can_tx
  call_can_tx-Same none q pkt st = (refl, refl)
  call_can_tx-Same (some f) q pkt st =
      let dlen = can_dlen (rd64 pkt.payload 0) in
      q pkt.payload (take dlen (drop 16 pkt.payload))
        (set_fault (ltb (length pkt.payload) (16 + dlen)) st)

  call_rxcomplete-Same :
      (f : Option (ℕ → St D → St D))
      → Holds f (λ g. (n : ℕ) (st : St D) → Same st (g n st))
      → (pkt : Packet) (st : St D) → Same st (call_rxcomplete f pkt st)
  unfolding call_rxcomplete
  call_rxcomplete-Same none q pkt st = (refl, refl)
  call_rxcomplete-Same (some f) q pkt st = q pkt.hflag st

  -- A packet is passed over only while the node is busy, and the node stays so.
  pub advance_if_can-queue :
      (f : CanFunc D)
      → QuietCan f
      → (pkt : Packet) (st : St D)
      → ((advance_if_can f pkt st).1.cif.rxbufs ≡ st.cif.rxbufs)
        × ((advance_if_can f pkt st).0 ≢ restart)
        × ((advance_if_can f pkt st).0 ≡ skip → (advance_if_can f pkt st).1 ≡ st)
  unfolding advance_if_can
  advance_if_can-queue f q pkt st =
      let tx = call_can_tx-Same f.tx q.0 pkt st in
      let complete = call_rxcomplete-Same f.rxcomplete q.1 pkt (set_ebusy none_busy st) in
      (ground (arith, tx, complete), ground (arith, tx, complete), ground (arith, tx, complete))
