-- ===== src/Keyboard/Tests.antt =====
-- examples/usbh/coremodel-usbh.c: the keyboard at concrete transfers.
use coremodel.Base.{ℕ, ◌≡◌, refl, false, List, [], ◌∷◌, arith, take}
use coremodel.Bus.Usbh.{usb_xfr_nak}
use coremodel.Keyboard.{Vkb, vkb_init, test_usbh_xfr_int}
use coremodel.Keyboard.Descriptors.{vkb_dev_desc, vkb_hid_report_desc}
use coremodel.Keyboard.Control.{IsVkb, xfr-IsVkb}
use coremodel.Keyboard.Transfers.{read_in, get_descriptor, descriptor_in_parts}

-- The first 8 bytes of the device descriptor.
abbrev first_bytes : Vkb
first_bytes = (test_usbh_xfr_int 0 2 (get_descriptor 0x80 1 8) 8 vkb_init).state

first_read : read_in (8 ∷ []) first_bytes ≡ 18 ∷ 1 ∷ 0 ∷ 2 ∷ 0 ∷ 0 ∷ 0 ∷ 8 ∷ []
first_read = (descriptor_in_parts 8 (8 ∷ []) vkb_init (omega arith)).0

-- A poll of the interrupt endpoint.
xfr-IsVkb_example :
    let h = test_usbh_xfr_int 1 1 [] 8 vkb_init in
    (h.fault ≡ false) × IsVkb h.state × (◌≡◌ {A = ℕ} 1 1 → ◌≡◌ {A = ℕ} 1 1 → h.result ≡ usb_xfr_nak)
xfr-IsVkb_example =
    xfr-IsVkb 1 1 [] 8 vkb_init
      (record { within = omega arith; small = omega arith; full = refl; silent = refl })
      (record { setup = λ e. absurd (omega arith); out = λ e. absurd (omega arith) }) (omega arith)

-- GET_STATUS with a length of 1024.
abbrev get_status : List ℕ
get_status = 0x80 ∷ 0 ∷ 0 ∷ 0 ∷ 0 ∷ 0 ∷ 0 ∷ 4 ∷ []

descriptor_in_parts_example :
    let asked =
      λ (kind type : ℕ). (test_usbh_xfr_int 0 2 (get_descriptor kind type 18) 8 vkb_init).state in
    (read_in (8 ∷ 8 ∷ 8 ∷ []) (asked 0x80 1) ≡ take 24 (take 18 vkb_dev_desc))
    × (read_in (8 ∷ 8 ∷ 8 ∷ []) (asked 0x81 0x22) ≡ take 24 (take 18 vkb_hid_report_desc))
descriptor_in_parts_example = descriptor_in_parts 18 (8 ∷ 8 ∷ 8 ∷ []) vkb_init (omega arith)
