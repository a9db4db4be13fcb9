-- ===== src/Bus/Usbh.antt =====
-- coremodel.c: USB host. coremodel.h: `coremodel_usbh_func_t`, the tokens and the transfer results.
pub mod Keeping
pub mod Reset
pub mod Pause
mod Tests
use coremodel.Base.{
  ◌≡◌, ◌≢◌, refl, Bool-cases, inl, inr, arith, ℕ, ◌+◌, ◌-◌, ◌*◌, ◌/◌, ◌%◌, ◌^◌, ◌++◌, Bool, true,
  false, List, [], ◌∷◌, Option, none, some, ltb, ◌==◌, if◌then◌else◌, min, u16, le16, rd16, ℤ, pos,
  negsuc, is_neg, to_unsigned,
}
use coremodel.Packet.{Packet}
use coremodel.If.{
  If, St, Verdict, done, skip, restart, set_busy, set_ebusy, push, notify, reply, set_fault,
  write_rdbuf, rdbuf_size, data_len, hold, Same, Holds, QuietNotify, notify-Same,
}

abbrev pub pkt_usbh_reset : ℕ
pkt_usbh_reset = 0x00

abbrev pub pkt_usbh_xfr : ℕ
pkt_usbh_xfr = 0x01

abbrev pub pkt_usbh_done : ℕ
pkt_usbh_done = 0x02

abbrev pub usb_tkn_in : ℕ
usb_tkn_in = 1

abbrev pub usb_tkn_setup : ℕ
usb_tkn_setup = 2

-- `res == USB_XFR_NAK`
abbrev pub usb_xfr_nak : ℤ
usb_xfr_nak = negsuc 0

abbrev pub is_nak : ℤ → Bool
is_nak (pos n) = false
is_nak (negsuc n) = n == 0

-- The fields of `hflag` in a transfer.
abbrev pub tkn : Packet → ℕ
tkn pkt = pkt.hflag % 16

abbrev pub ep : Packet → ℕ
ep pkt = pkt.hflag / 16 % 16

abbrev pub dev_addr : Packet → ℕ
dev_addr pkt = pkt.hflag / 256 % 128

abbrev pub end_flag : Packet → ℕ
end_flag pkt = pkt.hflag / 2 ^ 15

-- The bit of the mask for an endpoint and token.
abbrev pub slot : Packet → ℕ
slot pkt = ep pkt * 4 + tkn pkt

-- `ebusy |= 1ul << k`, and `ebusy &= ~(1ul << k)`.
abbrev pub set_bit : (ℕ → Bool) → ℕ → ℕ → Bool
set_bit e k j = if j == k then true else e j

abbrev pub clear_bit : (ℕ → Bool) → ℕ → ℕ → Bool
clear_bit e k j = if j == k then false else e j

-- `xfr` takes the device, endpoint and token, the data to write, the size of the buffer and the end
-- flag; it returns its result and the bytes that it writes to the buffer.
pub record UsbhFunc (D : Type 0) : Type 0 where
  pub rst : Option (St D → St D)
  pub xfr : Option (ℕ → ℕ → ℕ → List ℕ → ℕ → ℕ → St D → ℤ × List ℕ × St D)

module _ {D : Type 0} where
  unfoldable pub usbh_reset : UsbhFunc D → St D → Verdict × St D
  usbh_reset f st =
      if st.cif.busy
      then (done, notify f.rst (set_ebusy (λ k. false) (set_busy false st)))
      else (restart, set_busy true st)

  -- The reply to a transfer that was done or refused for good.
  unfoldable pub usbh_reply : Packet → ℤ → St D → St D
  usbh_reply pkt res st =
      let hflag = tkn pkt + ep pkt * 16 + dev_addr pkt * 256 in
      let is_in = tkn pkt == usb_tkn_in in
      let stalled =
        (push (reply (if is_in then 8 else 10) st.cif.conn pkt_usbh_done pkt.bflag (hflag + 0x8000))
          (some (le16 0)) st).1 in
      let data_in =
        (push (reply (u16 (8 + to_unsigned res)) st.cif.conn pkt_usbh_done pkt.bflag hflag)
          (some st.cif.rdbuf) st).1 in
      let taken =
        (push (reply 10 st.cif.conn pkt_usbh_done pkt.bflag hflag)
          (some (le16 (u16 (to_unsigned res)))) st).1 in
      if is_neg res then stalled else if is_in then data_in else taken

  unfoldable pub usbh_result : Packet → ℤ × St D → Verdict × St D
  unfolding usbh_reply
  usbh_result pkt (res, st) =
      if tkn pkt == usb_tkn_setup
      then (done, st)
      else (if is_nak res
          then (skip, set_ebusy (set_bit st.cif.ebusy (slot pkt)) st)
          else (done, usbh_reply pkt res st))

  -- An IN transfer without its length is freed with no call.
  unfoldable pub usbh_call : UsbhFunc D → Packet → St D → Verdict × St D
  unfolding usbh_result
  usbh_call f pkt st = elim f.xfr [
    | none ↦ usbh_result pkt (usb_xfr_nak, st)
    | some xfr ↦
        let size = min (rd16 pkt.payload 0) rdbuf_size in
        let (res_in, bs, st_in) = xfr (dev_addr pkt) (ep pkt) (tkn pkt) [] size (end_flag pkt) st in
        let (res_out, bs', st_out) =
          xfr (dev_addr pkt) (ep pkt) (tkn pkt) pkt.payload (data_len pkt) (end_flag pkt) st in
        if tkn pkt == usb_tkn_in
        then (if ltb pkt.len 10
            then (done, st)
            else usbh_result pkt (res_in, write_rdbuf 0 bs st_in))
        else usbh_result pkt (res_out, st_out)
  ]

  unfoldable pub usbh_xfr : UsbhFunc D → Packet → St D → Verdict × St D
  usbh_xfr f pkt st =
      let shifted = set_fault (ltb 63 (slot pkt)) st in
      let cleared =
        if tkn pkt == usb_tkn_setup
        then set_ebusy (clear_bit st.cif.ebusy (slot pkt)) shifted
        else shifted in
      if cleared.cif.ebusy (slot pkt) then (skip, cleared) else usbh_call f pkt cleared

  unfoldable pub advance_if_usbh : UsbhFunc D → Packet → St D → Verdict × St D
  advance_if_usbh f pkt st =
      if pkt.pkt == pkt_usbh_reset
      then usbh_reset f st
      else (if pkt.pkt == pkt_usbh_xfr
          then (if st.cif.busy then (done, st) else usbh_xfr f pkt st)
          else (done, st))

module _ {D : Type 0} where
  -- The callbacks of a USB device leave its queue and `busy` alone.
  abbrev pub QuietUsbh : UsbhFunc D → Type 0
  QuietUsbh f =
      QuietNotify f.rst
      × Holds f.xfr
          (λ g. (a b c : ℕ) (bs : List ℕ) (n e : ℕ) (st : St D) → Same st (g a b c bs n e st).2)

  usbh_call-queue :
      (f : UsbhFunc D) (x : Option (ℕ → ℕ → ℕ → List ℕ → ℕ → ℕ → St D → ℤ × List ℕ × St D))
      → f.xfr ≡ x
      → Holds x
          (λ g. (a b c : ℕ) (bs : List ℕ) (n e : ℕ) (st : St D) → Same st (g a b c bs n e st).2)
      → (pkt : Packet) (st : St D)
      → ((usbh_call f pkt st).1.cif.rxbufs ≡ st.cif.rxbufs)
        × ((usbh_call f pkt st).0 ≢ restart)
        × ((usbh_call f pkt st).0 ≡ skip → (usbh_call f pkt st).1.cif.busy ≡ st.cif.busy)
  unfolding usbh_call
  usbh_call-queue f none e q pkt st = rw (e, usbh_call) (ground arith, ground arith, ground arith)
  usbh_call-queue f (some xfr) e q pkt st =
      let size = min (rd16 pkt.payload 0) rdbuf_size in
      let a = q (dev_addr pkt) (ep pkt) (tkn pkt) [] size (end_flag pkt) st in
      let b = q (dev_addr pkt) (ep pkt) (tkn pkt) pkt.payload (data_len pkt) (end_flag pkt) st in
      rw (e, usbh_call) (ground (arith, a, b), ground (arith, a, b), ground (arith, a, b))

  usbh_xfr-queue :
      (f : UsbhFunc D)
      → QuietUsbh f
      → (pkt : Packet) (st : St D)
      → ((usbh_xfr f pkt st).1.cif.rxbufs ≡ st.cif.rxbufs)
        × ((usbh_xfr f pkt st).0 ≢ restart)
        × ((usbh_xfr f pkt st).0 ≡ skip → (usbh_xfr f pkt st).1.cif.busy ≡ st.cif.busy)
  unfolding usbh_xfr
  usbh_xfr-queue f q pkt st =
      let shifted = set_fault (ltb 63 (slot pkt)) st in
      let a = usbh_call-queue f f.xfr refl q.1 pkt shifted in
      let b =
        usbh_call-queue f f.xfr refl q.1 pkt
          (set_ebusy (clear_bit st.cif.ebusy (slot pkt)) shifted) in
      elim (Bool-cases (tkn pkt == usb_tkn_setup)) [
        | inl e ↦ rw e (ground (arith, b), ground (arith, b), ground (arith, b))
        | inr e ↦ rw e (ground (arith, a), ground (arith, a), ground (arith, a))
      ]

  usbh_reset-queue :
      (f : UsbhFunc D)
      → QuietUsbh f
      → (st : St D)
      → ((usbh_reset f st).1.cif.rxbufs ≡ st.cif.rxbufs)
        × ((usbh_reset f st).0 ≡ restart
            → (st.cif.busy ≡ false) × ((usbh_reset f st).1.cif.busy ≡ true))
        × ((usbh_reset f st).0 ≢ skip)
  unfolding usbh_reset
  usbh_reset-queue f q st =
      let a = notify-Same f.rst q.0 (set_ebusy (λ k. false) (set_busy false st)) in
      (ground (arith, a), ground (arith, a), ground (arith, a))

  -- Going back to the first packet happens only at a reset, and sets `busy`.
  pub advance_if_usbh-queue :
      (f : UsbhFunc D)
      → QuietUsbh f
      → (pkt : Packet) (st : St D)
      → ((advance_if_usbh f pkt st).1.cif.rxbufs ≡ st.cif.rxbufs)
        × ((advance_if_usbh f pkt st).0 ≡ restart
            → (st.cif.busy ≡ false) × ((advance_if_usbh f pkt st).1.cif.busy ≡ true))
        × ((advance_if_usbh f pkt st).0 ≡ skip
            → (advance_if_usbh f pkt st).1.cif.busy ≡ st.cif.busy)
  unfolding advance_if_usbh
  advance_if_usbh-queue f q pkt st =
      let a = usbh_xfr-queue f q pkt st in
      let b = usbh_reset-queue f q st in
      (ground (arith, a, b), ground (arith, a, b), ground (arith, a, b))
