-- ===== src/Bus/Usbh/Keeping.antt =====
-- coremodel.c: `coremodel_advance_if_usbh` leaves the connection as it is.
use coremodel.Base.{
  ◌≡◌, refl, arith, ℕ, ◌+◌, ◌*◌, false, List, [], Option, none, some, ◌==◌, ltb, if◌then◌else◌, ℤ,
  to_unsigned, u16, le16, rd16, min, Bool-cases, inl, inr,
}
use coremodel.Packet.{Packet}
use coremodel.If.{
  St, Steady, SteadyNotify, notify-Steady, Holds, set_busy, set_ebusy, set_fault, reply,
  push-Steady, rdbuf_size, data_len, write_rdbuf,
}
use coremodel.Bus.Usbh.{
  UsbhFunc, advance_if_usbh, usbh_reset, usbh_reply, usbh_result, usbh_call, usbh_xfr, tkn, ep,
  dev_addr, end_flag, slot, clear_bit, usb_tkn_in, usb_tkn_setup, usb_xfr_nak, pkt_usbh_done,
}

abbrev SteadyXfer :
    {D : Type 0} → Option (ℕ → ℕ → ℕ → List ℕ → ℕ → ℕ → St D → ℤ × List ℕ × St D) → Type 0
SteadyXfer {D} f = Holds f (λ g.
    (c x y z : ℕ) (bs : List ℕ) (n e : ℕ) (st : St D)
    → Steady c st
    → Steady c (g x y z bs n e st).2)

abbrev pub SteadyUsbh : {D : Type 0} → UsbhFunc D → Type 0
SteadyUsbh f = SteadyNotify f.rst × SteadyXfer f.xfr

module _ {D : Type 0} (c : ℕ) (pkt : Packet) (st : St D) (s : Steady c st) where
  usbh_reply-Steady : (res : ℤ) → Steady c (usbh_reply pkt res st)
  unfolding usbh_reply
  usbh_reply-Steady res =
      let hflag = tkn pkt + ep pkt * 16 + dev_addr pkt * 256 in
      let is_in = tkn pkt == usb_tkn_in in
      ground (
        arith,
        push-Steady c
            (reply (if is_in then 8 else 10) st.cif.conn pkt_usbh_done pkt.bflag (hflag + 0x8000))
            (some (le16 0)) st s,
        push-Steady c (reply (u16 (8 + to_unsigned res)) st.cif.conn pkt_usbh_done pkt.bflag hflag)
            (some st.cif.rdbuf) st s,
        push-Steady c (reply 10 st.cif.conn pkt_usbh_done pkt.bflag hflag)
            (some (le16 (u16 (to_unsigned res)))) st s,
      )

  usbh_result-Steady : (res : ℤ) → Steady c (usbh_result pkt (res, st)).1
  unfolding usbh_result
  usbh_result-Steady res = ground (arith, usbh_reply-Steady res, s)

  usbh_reset-Steady : (f : UsbhFunc D) → SteadyUsbh f → Steady c (usbh_reset f st).1
  unfolding usbh_reset
  usbh_reset-Steady f q =
      ground (arith, notify-Steady f.rst q.0 c (set_ebusy (λ k. false) (set_busy false st)) s, s)

module _ {D : Type 0} (c : ℕ) (pkt : Packet) (st : St D) (s : Steady c st) where
  usbh_call-Steady :
      (f : UsbhFunc D) (x : Option (ℕ → ℕ → ℕ → List ℕ → ℕ → ℕ → St D → ℤ × List ℕ × St D))
      → f.xfr ≡ x
      → SteadyXfer x
      → Steady c (usbh_call f pkt st).1
  unfolding usbh_call
  usbh_call-Steady f none e q = rw (e, usbh_call) (usbh_result-Steady c pkt st s usb_xfr_nak)
  usbh_call-Steady f (some xfr) e q =
      let size = min (rd16 pkt.payload 0) rdbuf_size in
      let a = q c (dev_addr pkt) (ep pkt) (tkn pkt) [] size (end_flag pkt) st s in
      let b =
        q c (dev_addr pkt) (ep pkt) (tkn pkt) pkt.payload (data_len pkt) (end_flag pkt) st s in
      let (res_in, bs, st_in) = xfr (dev_addr pkt) (ep pkt) (tkn pkt) [] size (end_flag pkt) st in
      let (res_out, bs', st_out) =
        xfr (dev_addr pkt) (ep pkt) (tkn pkt) pkt.payload (data_len pkt) (end_flag pkt) st in
      let in_done = usbh_result-Steady c pkt (write_rdbuf 0 bs st_in) a res_in in
      let out_done = usbh_result-Steady c pkt st_out b res_out in
      rw (e, usbh_call) (ground (arith, in_done, out_done, s))

module _ {D : Type 0} (c : ℕ) (pkt : Packet) (st : St D) (s : Steady c st) where
  usbh_xfr-Steady : (f : UsbhFunc D) → SteadyUsbh f → Steady c (usbh_xfr f pkt st).1
  unfolding usbh_xfr
  usbh_xfr-Steady f q =
      let shifted = set_fault (ltb 63 (slot pkt)) st in
      let a = usbh_call-Steady c pkt shifted s f f.xfr refl q.1 in
      let b =
        usbh_call-Steady c pkt (set_ebusy (clear_bit st.cif.ebusy (slot pkt)) shifted) s f f.xfr
          refl q.1 in
      elim (Bool-cases (tkn pkt == usb_tkn_setup)) [
        | inl e ↦ rw e (ground (arith, b, s))
        | inr e ↦ rw e (ground (arith, a, s))
      ]

  pub advance_if_usbh-Steady :
      (f : UsbhFunc D) → SteadyUsbh f → Steady c (advance_if_usbh f pkt st).1
  unfolding advance_if_usbh
  advance_if_usbh-Steady f q =
      ground (arith, usbh_xfr-Steady f q, usbh_reset-Steady c pkt st s f q, s)
