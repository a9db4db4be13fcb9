-- ===== src/Examples/Cansend/Reading.antt =====
-- examples/can-cr3020-rtc/can-cansend.c: the frame that a text names.
use coremodel.Base.{
  ℕ, ◌+◌, ◌-◌, ◌*◌, ◌/◌, ◌%◌, ◌^◌, ◌++◌, ◌<◌, ◌≤◌, ◌≡◌, refl, ap₂, ap, ◌∙◌, true, false, List, [],
  ◌∷◌, some, arith, ltb, if◌then◌else◌, length, rd64, u8, drop, get_or,
}
use coremodel.Packet.{wire}
use coremodel.Tx.{alloc_ok}
use coremodel.Tx.Flow.{pending}
use coremodel.If.{St}
use coremodel.Bus.Can.{can_rx_busy, can_dlen, can_datalen, can_rx}
use coremodel.Bus.Can.Sending.{can_packet, can_rx-Sent}
use coremodel.Bus.Event.{le64}
use coremodel.Bus.Event.Sending.{rd64-le64}
use coremodel.Examples.Cansend.{read_address, read_byte, read_data, is_usable, cansend_main}

-- A hexadecimal digit, and the text of a frame.
abbrev pub hex : ℕ → ℕ
hex d = if ltb d 10 then b'0' + d else b'a' + (d - 10)

abbrev pub hex_text : List ℕ → List ℕ
hex_text [] = []
hex_text (b ∷ bs) = hex (b / 16) ∷ hex (b % 16) ∷ hex_text bs

abbrev pub frame_text : ℕ → ℕ → ℕ → List ℕ → List ℕ
frame_text a b c bs = (b'0' + a) ∷ (b'0' + b) ∷ (b'0' + c) ∷ b'#' ∷ hex_text bs

abbrev pub AllBytes : List ℕ → Type 0
AllBytes [] = Unit {0}
AllBytes (b ∷ bs) = (b < 2 ^ 8) × AllBytes bs

length-hex_text : (bs : List ℕ) → length (hex_text bs) ≡ 2 * length bs
length-hex_text [] = omega arith
length-hex_text (b ∷ bs) = omega (arith, length-hex_text bs)

read_byte-hex : (b old : ℕ) → b < 2 ^ 8 → read_byte (hex (b / 16)) (hex (b % 16)) old ≡ b
unfolding read_byte
read_byte-hex b old h = ground arith

read_data-hex_text : (bs mem : List ℕ) → AllBytes bs → read_data (length bs) (hex_text bs) mem ≡ bs
unfolding read_data
read_data-hex_text [] mem h = refl
read_data-hex_text (b ∷ bs) mem h =
    ap₂ ◌∷◌ (read_byte-hex b (get_or mem 0 0) h.0) (read_data-hex_text bs (drop 1 mem) h.1)

read_address-digits :
    (a b c : ℕ) (rest : List ℕ)
    → a < 10
    → b < 10
    → c < 10
    → read_address 3 0 ((b'0' + a) ∷ (b'0' + b) ∷ (b'0' + c) ∷ rest) ≡ a * 2 ^ 8 + b * 2 ^ 4 + c
unfolding read_address
read_address-digits a b c rest ha hb hc = ground arith

short_length : (n : ℕ) → n ≤ 8 → get_or can_datalen n 0 ≡ n
short_length n h = ground arith

-- A data length of up to eight bytes is its own code.
short_dlen : (k n : ℕ) → n ≤ 8 → can_dlen (k * 2 ^ 36 + n) ≡ n
unfolding can_dlen
short_dlen k n h =
    let code : (k * 2 ^ 36 + n) % 2 ^ 11 ≡ n = omega arith in
    let small : ltb n 16 ≡ true = ground arith in rw code (rw small (short_length n h))

-- The program sends the frame that its argument names, if that gives three decimal digits and up to
-- eight bytes of data: one PKT_CAN_RX is queued, whose control word has the digits as the identifier
-- and the number of the bytes, and whose data are the bytes, whatever was in the memory. The
-- conditions: no frame is in flight, and the allocation succeeds.
pub cansend_sends :
    {D : Type 0} (mem : List ℕ) (a b c : ℕ) (bs : List ℕ) (st : St D)
    → a < 10
    → b < 10
    → c < 10
    → AllBytes bs
    → length bs ≤ 8
    → st.cif.conn < 2 ^ 16
    → can_rx_busy st ≡ false
    → alloc_ok st.io.allocs ≡ true
    → let ctrl = (a * 2 ^ 8 + b * 2 ^ 4 + c) * 2 ^ 36 + length bs in
      (st' : St D) × (cansend_main mem (frame_text a b c bs) st ≡ some (0, st'))
      × (pending st'.io.txbufs
          ≡ pending st.io.txbufs ++ wire (can_packet (le64 ctrl ++ le64 0) bs st))
      × (st'.io.fault ≡ st.io.fault)
unfolding cansend_main
cansend_sends mem a b c bs st ha hb hc bytes few cfits idle ok =
    let n = length bs in
    let count = length-hex_text bs in
    let ctrl = (a * 2 ^ 8 + b * 2 ^ 4 + c) * 2 ^ 36 + n in
    let arg = frame_text a b c bs in
    let dln : u8 (length arg + 2 ^ 8 - 4) / 2 ≡ n = omega (arith, count) in
    let usable : is_usable arg ≡ true = ground (arith, count) in
    let id = read_address-digits a b c (b'#' ∷ hex_text bs) ha hb hc in
    let data' = read_data-hex_text bs mem bytes in
    let word = (rd64-le64 ctrl 0 (omega arith) (omega arith)).0 in
    let code : can_dlen (rd64 (le64 ctrl ++ le64 0) 0) ≡ n =
      ap can_dlen word ∙ short_dlen (a * 2 ^ 8 + b * 2 ^ 4 + c) n few in
    let sent = can_rx-Sent (le64 ctrl ++ le64 0) bs st refl code (omega arith) cfits idle ok in
    (
      (can_rx (le64 ctrl ++ le64 0) (some bs) st).1,
      rw (usable, dln)
          (rw (id, data')
            (ap (λ r. some (r, (can_rx (le64 ctrl ++ le64 0) (some bs) st).1)) sent.accepted)),
      sent.queue,
      sent.unharmed,
    )
