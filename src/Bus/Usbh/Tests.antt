-- ===== src/Bus/Usbh/Tests.antt =====
-- coremodel.c: USB transfers on a concrete device.
use coremodel.Base.{ℕ, ◌≡◌, refl, false, List, [], ◌∷◌, some}
use coremodel.Packet.{Packet}
use coremodel.Bus.Tests.{DevSt, st_with, no_bits}
use coremodel.Bus.Queue.{advance_loop}
use coremodel.Bus.Usbh.{UsbhFunc, advance_if_usbh, set_bit, usb_xfr_nak}
use coremodel.Bus.Usbh.Reset.{after_reset, usb_reset_flushes}

-- A device that is never ready, and counts its resets.
abbrev refusing : UsbhFunc (List ℕ)
refusing = record {
  rst = some (λ st. record st { io = record (st.io) { dev = 1 ∷ st.io.dev } });
  xfr = some (λ a b c bs n e st. (usb_xfr_nak, [], st));
}

-- An OUT transfer (token 0) to endpoint 2, and a bus reset.
abbrev out_packet : Packet
out_packet = record { len = 10; conn = 3; pkt = 1; bflag = 9; hflag = 0x0120; payload = 1 ∷ 2 ∷ [] }

abbrev reset_packet : Packet
reset_packet = record { len = 8; conn = 3; pkt = 0; bflag = 0; hflag = 0; payload = [] }

abbrev paused : DevSt
paused =
    st_with 0 false (set_bit no_bits 8) (out_packet ∷ out_packet ∷ reset_packet ∷ out_packet ∷ [])

usb_reset_flushes_example :
    advance_loop (advance_if_usbh refusing) 9 2 paused
    ≡ advance_loop
        (advance_if_usbh refusing)
        5
        0
        (after_reset refusing reset_packet (out_packet ∷ []) paused)
usb_reset_flushes_example =
    usb_reset_flushes refusing 5 (out_packet ∷ out_packet ∷ []) reset_packet (out_packet ∷ [])
      paused refl (refl, (refl, tt)) refl refl
