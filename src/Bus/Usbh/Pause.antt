-- ===== src/Bus/Usbh/Pause.antt =====
-- coremodel.c: the endpoints of a USB device that answered a transfer with NAK, and
-- `coremodel_usbh_ready`.
use coremodel.Base.{
  or-false, ℕ, ◌+◌, ◌*◌, ◌≡◌, ◌≢◌, ap, ◌∙◌, true, false, List, Option, some, arith, ltb, ◌==◌,
  if◌then◌else◌, ◌<◌, ℤ,
}
use coremodel.Packet.{Packet}
use coremodel.If.{St, skip, set_ebusy, set_fault, data_len}
use coremodel.Bus.Usbh.{
  UsbhFunc, advance_if_usbh, usbh_xfr, usbh_call, usbh_result, pkt_usbh_xfr, usb_tkn_setup,
  usb_tkn_in, slot, tkn, ep, dev_addr, end_flag, set_bit, clear_bit, usb_xfr_nak,
}
use coremodel.Bus.Queue.{advance_if}

module _ {D : Type 0} (f : UsbhFunc D) where
  unfoldable pub usbh_ready : ℕ → ℕ → St D → Option (St D)
  unfolding advance_if advance_if_usbh
  usbh_ready ep' tkn' st =
      advance_if (advance_if_usbh f) (set_ebusy (clear_bit st.cif.ebusy (ep' * 4 + tkn')) st)

  shift_ok : (n : ℕ) (st : St D) → n < 64 → set_fault (ltb 63 n) st ≡ st
  shift_ok n st h =
      let e : ltb 63 n ≡ false = ground arith in
      ap (λ c. set_fault c st) e
      ∙ ap (λ b. record st { io = record (st.io) { fault = b } }) (or-false st.io.fault)

  -- A transfer that is no SETUP, when no reset is under way.
  usb_xfr_plain :
      (p : Packet) (st : St D)
      → p.pkt ≡ pkt_usbh_xfr
      → tkn p ≢ usb_tkn_setup
      → slot p < 64
      → st.cif.busy ≡ false
      → advance_if_usbh f p st ≡ (if st.cif.ebusy (slot p) then (skip, st) else usbh_call f p st)
  unfolding advance_if_usbh usbh_xfr
  usb_xfr_plain p st e n s b =
      let t : (tkn p == usb_tkn_setup) ≡ false = ground arith in
      simp (e, b, t, shift_ok (slot p) st s)

  -- A transfer to an endpoint that is paused, other than a SETUP, waits: its handler goes on to the
  -- packet behind it, with the device not called and the state as it was.
  pub usb_paused_waits :
      (p : Packet) (st : St D)
      → p.pkt ≡ pkt_usbh_xfr
      → tkn p ≢ usb_tkn_setup
      → slot p < 64
      → st.cif.busy ≡ false
      → st.cif.ebusy (slot p) ≡ true
      → advance_if_usbh f p st ≡ (skip, st)
  usb_paused_waits p st e n s b w =
      usb_xfr_plain p st e n s b ∙ ap (λ c. if c then (skip, st) else usbh_call f p st) w

  called :
      (xfr : ℕ → ℕ → ℕ → List ℕ → ℕ → ℕ → St D → ℤ × List ℕ × St D) (p : Packet) (st : St D)
      → f.xfr ≡ some xfr
      → (tkn p == usb_tkn_setup) ≡ false
      → (tkn p == usb_tkn_in) ≡ false
      → (xfr (dev_addr p) (ep p) (tkn p) p.payload (data_len p) (end_flag p) st).0 ≡ usb_xfr_nak
      → usbh_call f p st ≡ (
        skip,
        (let st1 = (xfr (dev_addr p) (ep p) (tkn p) p.payload (data_len p) (end_flag p) st).2 in
            set_ebusy (set_bit st1.cif.ebusy (slot p)) st1),
      )
  unfolding usbh_call usbh_result
  called xfr p st h t t' r = rw (h, usbh_call) (rw (t, t', r))

  -- A device that answers an OUT transfer with NAK pauses exactly that endpoint and token, and the
  -- transfer stays in the queue.
  pub usb_nak_pauses :
      (xfr : ℕ → ℕ → ℕ → List ℕ → ℕ → ℕ → St D → ℤ × List ℕ × St D) (p : Packet) (st : St D)
      → f.xfr ≡ some xfr
      → p.pkt ≡ pkt_usbh_xfr
      → tkn p ≢ usb_tkn_setup
      → tkn p ≢ usb_tkn_in
      → slot p < 64
      → st.cif.busy ≡ false
      → st.cif.ebusy (slot p) ≡ false
      → (xfr (dev_addr p) (ep p) (tkn p) p.payload (data_len p) (end_flag p) st).0 ≡ usb_xfr_nak
      → advance_if_usbh f p st ≡ (
        skip,
        (let st1 = (xfr (dev_addr p) (ep p) (tkn p) p.payload (data_len p) (end_flag p) st).2 in
            set_ebusy (set_bit st1.cif.ebusy (slot p)) st1),
      )
  usb_nak_pauses xfr p st h e n i s b w r =
      let t : (tkn p == usb_tkn_setup) ≡ false = ground arith in
      let t' : (tkn p == usb_tkn_in) ≡ false = ground arith in
      usb_xfr_plain p st e n s b
      ∙ ap (λ c. if c then (skip, st) else usbh_call f p st) w
      ∙ called xfr p st h t t' r
