-- ===== src/Keyboard/Descriptors.antt =====
-- examples/usbh/coremodel-usbh.c: the descriptors of the keyboard, as bytes.
use coremodel.Base.{ℕ, List, [], ◌∷◌}

abbrev pub vkb_dev_desc : List ℕ
vkb_dev_desc = 18 ∷ 1 ∷ 0 ∷ 2 ∷ 0 ∷ 0 ∷ 0 ∷ 8 ∷ 0x6B ∷ 0x1D ∷ 4 ∷ 1 ∷ 1 ∷ 1 ∷ 1 ∷ 2 ∷ 0 ∷ 1 ∷ []

abbrev pub vkb_conf_desc : List ℕ
vkb_conf_desc =
    9 ∷ 2 ∷ 0 ∷ 0 ∷ 1 ∷ 1 ∷ 3 ∷ 0xA0 ∷ 0 ∷ 9 ∷ 4 ∷ 0 ∷ 0 ∷ 1 ∷ 3 ∷ 1 ∷ 1 ∷ 4 ∷ 9 ∷ 0x21 ∷ 0x11 ∷ 1
    ∷ 0x21 ∷ 1 ∷ 0x22 ∷ 0x3F ∷ 0 ∷ 7 ∷ 5 ∷ 0x81 ∷ 3 ∷ 8 ∷ 0 ∷ 2 ∷ []

abbrev pub vkb_str_desc_00 : List ℕ
vkb_str_desc_00 = 0 ∷ 3 ∷ 9 ∷ 4 ∷ []

-- "Corellium"
abbrev pub vkb_str_desc_01 : List ℕ
vkb_str_desc_01 =
    0 ∷ 3 ∷ b'C' ∷ 0 ∷ b'o' ∷ 0 ∷ b'r' ∷ 0 ∷ b'e' ∷ 0 ∷ b'l' ∷ 0 ∷ b'l' ∷ 0 ∷ b'i' ∷ 0 ∷ b'u' ∷ 0
    ∷ b'm' ∷ 0 ∷ []

-- "Keyboard", which is also the third.
abbrev pub vkb_str_desc_02 : List ℕ
vkb_str_desc_02 =
    0 ∷ 3 ∷ b'K' ∷ 0 ∷ b'e' ∷ 0 ∷ b'y' ∷ 0 ∷ b'b' ∷ 0 ∷ b'o' ∷ 0 ∷ b'a' ∷ 0 ∷ b'r' ∷ 0 ∷ b'd' ∷ 0
    ∷ []

-- "HID Device"
abbrev pub vkb_str_desc_04 : List ℕ
vkb_str_desc_04 =
    0 ∷ 3 ∷ b'H' ∷ 0 ∷ b'I' ∷ 0 ∷ b'D' ∷ 0 ∷ b' ' ∷ 0 ∷ b'D' ∷ 0 ∷ b'e' ∷ 0 ∷ b'v' ∷ 0 ∷ b'i' ∷ 0
    ∷ b'c' ∷ 0 ∷ b'e' ∷ 0 ∷ []

abbrev pub vkb_str_desc_tbl : List (List ℕ)
vkb_str_desc_tbl =
    vkb_str_desc_00 ∷ vkb_str_desc_01 ∷ vkb_str_desc_02 ∷ vkb_str_desc_02 ∷ vkb_str_desc_04 ∷ []

abbrev pub vkb_hid_report_desc : List ℕ
vkb_hid_report_desc =
    0x05 ∷ 0x01 ∷ 0x09 ∷ 0x06 ∷ 0xA1 ∷ 0x01 ∷ 0x05 ∷ 0x07 ∷ 0x19 ∷ 0xE0 ∷ 0x29 ∷ 0xE7 ∷ 0x15 ∷ 0x00
    ∷ 0x25 ∷ 0x01 ∷ 0x75 ∷ 0x01 ∷ 0x95 ∷ 0x08 ∷ 0x81 ∷ 0x02 ∷ 0x95 ∷ 0x01 ∷ 0x75 ∷ 0x08 ∷ 0x81
    ∷ 0x01 ∷ 0x95 ∷ 0x05 ∷ 0x75 ∷ 0x01 ∷ 0x05 ∷ 0x08 ∷ 0x19 ∷ 0x01 ∷ 0x29 ∷ 0x05 ∷ 0x91 ∷ 0x02
    ∷ 0x95 ∷ 0x01 ∷ 0x75 ∷ 0x03 ∷ 0x91 ∷ 0x01 ∷ 0x95 ∷ 0x06 ∷ 0x75 ∷ 0x08 ∷ 0x15 ∷ 0x00 ∷ 0x25
    ∷ 0x65 ∷ 0x05 ∷ 0x07 ∷ 0x19 ∷ 0x00 ∷ 0x29 ∷ 0x65 ∷ 0x81 ∷ 0x00 ∷ 0xC0 ∷ []
