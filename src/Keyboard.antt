-- ===== src/Keyboard.antt =====
-- examples/usbh/coremodel-usbh.c: a keyboard on the USB host interface.
pub mod Descriptors
pub mod Control
pub mod Transfers
mod Tests
use coremodel.Base.{
  ℕ, ◌+◌, ◌-◌, ◌*◌, ◌/◌, ◌%◌, ◌^◌, ◌++◌, ◌&&◌, ◌||◌, Bool, true, false, List, [], ◌∷◌, Option, none,
  some, min, ltb, ◌==◌, if◌then◌else◌, get_or, get_elem?, length, take, drop, replicate, le16, rd16,
  sub_u32, ℤ, pos, negsuc,
}
use coremodel.If.{St, set_fault}
use coremodel.Bus.Usbh.{UsbhFunc, usb_xfr_nak}
use coremodel.Keyboard.Descriptors.{
  vkb_dev_desc, vkb_conf_desc, vkb_str_desc_tbl, vkb_hid_report_desc,
}

-- `vkb_state`
pub record Vkb : Type 0 where
  pub b_addr : ℕ
  pub in_setup : Bool
  pub bm_req_type : ℕ
  pub b_request : ℕ
  pub w_value : ℕ
  pub w_index : ℕ
  pub w_length : ℕ
  pub ep0buf : List ℕ
  pub ep0ptr : ℕ
  pub last_report : List ℕ
  pub has_report : Bool

abbrev pub ep0buf_size : ℕ
ep0buf_size = 512

-- A static object: all zeros.
abbrev pub vkb_init : Vkb
vkb_init = record {
  b_addr = 0;
  in_setup = false;
  bm_req_type = 0;
  b_request = 0;
  w_value = 0;
  w_index = 0;
  w_length = 0;
  ep0buf = replicate ep0buf_size 0;
  ep0ptr = 0;
  last_report = replicate 8 0;
  has_report = false;
}

-- `USB_XFR_STALL`
abbrev pub usb_xfr_stall : ℤ
usb_xfr_stall = negsuc 1

-- What a transfer leads to: its result, the bytes that it writes to the buffer, whether it went
-- outside an object, and the state.
pub record Handled : Type 0 where
  pub result : ℤ
  pub bytes : List ℕ
  pub fault : Bool
  pub state : Vkb

abbrev pub answer : ℤ → Vkb → Handled
answer res v = record { result = res; bytes = []; fault = false; state = v }

-- `memcpy(ep0buf + at, bs, length bs)`, cut at the end of the buffer.
abbrev pub store_at : ℕ → List ℕ → List ℕ → List ℕ
store_at at bs buf = take ep0buf_size (take at buf ++ (bs ++ drop (at + length bs) buf))

-- The request's length is cut to the descriptor's, and as much of the descriptor is made ready.
abbrev pub offer : List ℕ → Vkb → Vkb
offer desc v =
    let n = min (length desc) v.w_length in
    record v { w_length = n; ep0buf = store_at 0 (take n desc) v.ep0buf }

abbrev pub patch : ℕ → List ℕ → Vkb → Vkb
patch at bs v = record v { ep0buf = store_at at bs v.ep0buf }

get_string : Option (List ℕ) → Vkb → Option Vkb
get_string none v = none
get_string (some desc) v = let v' = offer desc v in some (patch 0 (v'.w_length % 256 ∷ []) v')

-- The requests of the host for a descriptor; `none` is a stall.
unfoldable pub get_descr : Vkb → Option Vkb
unfolding get_string
get_descr v =
    let kind = v.w_value / 256 in
    if v.b_request == 0x06
    then (if v.bm_req_type == 0x80
        then (if kind == 1
            then some (offer vkb_dev_desc v)
            else (if kind == 2
                then (let v' = offer vkb_conf_desc v in some (patch 2 (le16 v'.w_length) v'))
                else (if kind == 3
                    then get_string (get_elem? vkb_str_desc_tbl (v.w_value % 256)) v
                    else none)))
        else (if (v.bm_req_type == 0x81) && (kind == 0x22)
            then some (offer vkb_hid_report_desc v)
            else none))
    else none

-- `bmReqType & USB_CTRL_DIR_IN`
abbrev pub is_in : Vkb → Bool
is_in v = (v.bm_req_type / 128 % 2) == 1

-- The fields of the request. A SETUP of less than eight bytes is read past its end.
abbrev pub request : List ℕ → Vkb → Vkb
request buf v = record v {
  bm_req_type = get_or buf 0 0;
  b_request = get_or buf 1 0;
  w_value = rd16 buf 2;
  w_index = rd16 buf 4;
  w_length = rd16 buf 6;
  in_setup = true;
  ep0ptr = 0;
}

abbrev pub flagged : Bool → Handled → Handled
flagged b h = record h { fault = h.fault || b }

unfoldable pub described : ℕ → Vkb → Option Vkb → Handled
described size v none = answer usb_xfr_stall v
described size v (some v') = answer (pos size) v'

unfoldable pub set_up : List ℕ → ℕ → Vkb → Handled
unfolding described
set_up buf size v =
    let v' = request buf v in
    flagged (ltb (length buf) 8)
      (if is_in v' then described size v' (get_descr v') else described size v' (some v'))

-- The bytes of the request that are left, or as many as the transfer has.
abbrev pub step_of : ℕ → Vkb → ℕ
step_of size v = min (sub_u32 v.w_length v.ep0ptr) size

-- The data that the host sends.
unfoldable pub take_out : List ℕ → ℕ → Vkb → Handled
take_out buf size v =
    let step = step_of size v in
    record {
      result = pos step;
      bytes = [];
      fault = ltb ep0buf_size (v.ep0ptr + step) || ltb (length buf) step;
      state = record v {
        ep0buf = store_at v.ep0ptr (take step buf) v.ep0buf;
        ep0ptr = (v.ep0ptr + step) % 2 ^ 32;
      };
    }

unfoldable pub control_out : List ℕ → ℕ → Vkb → Handled
control_out buf size v =
    if v.in_setup
    then (if is_in v
        then answer (pos size) (record v { in_setup = false })
        else take_out buf size v)
    else answer usb_xfr_stall v

-- A request without data for the host, at its status stage.
unfoldable pub status_in : ℕ → Vkb → Handled
status_in size v =
    let v' : Vkb = record v { in_setup = false } in
    if (v.bm_req_type == 0x00) && (v.b_request == 0x05)
    then answer (pos size) (record v' { b_addr = v.w_value % 256 })
    else if (v.bm_req_type == 0x00) && (v.b_request == 0x09)
    then answer (pos size) v'
    else if (v.bm_req_type == 0x02) && (v.b_request == 0x01)
    then answer (pos size) v'
    else answer usb_xfr_stall v'

-- The data for the host.
unfoldable pub give_in : ℕ → Vkb → Handled
give_in size v =
    let step = step_of size v in
    record {
      result = pos step;
      bytes = take step (drop v.ep0ptr v.ep0buf);
      fault = ltb ep0buf_size (v.ep0ptr + step);
      state = record v { ep0ptr = (v.ep0ptr + step) % 2 ^ 32 };
    }

unfoldable pub control_in : ℕ → Vkb → Handled
control_in size v =
    if v.in_setup
    then (if is_in v then give_in size v else status_in size v)
    else answer usb_xfr_stall v

unfoldable pub interrupt_in : ℕ → Vkb → Handled
interrupt_in size v =
    if v.has_report
    then record {
      result = pos (min 8 size);
      bytes = take (min 8 size) v.last_report;
      fault = false;
      state = record v { has_report = false };
    }
    else answer usb_xfr_nak v

-- Endpoints are below 128, so that `ep | tkn << 7` is a sum.
unfoldable pub test_usbh_xfr_int : ℕ → ℕ → List ℕ → ℕ → Vkb → Handled
test_usbh_xfr_int ep tkn buf size v =
    let key = ep + tkn * 128 in
    if key == 0x100
    then set_up buf size v
    else if key == 0x00
    then control_out buf size v
    else if key == 0x80
    then control_in size v
    else if key == 0x81
    then interrupt_in size v
    else answer usb_xfr_nak v

-- The callbacks; what they print is left out. The state is a static object of the program.
unfoldable pub test_usbh_func : UsbhFunc Vkb
unfolding test_usbh_xfr_int
test_usbh_func = record {
  rst = some (λ st. st);
  xfr = some (λ dev ep tkn buf size end_flag st.
      let h = test_usbh_xfr_int ep tkn buf size st.io.dev in
      (h.result, h.bytes, set_fault h.fault (record st { io = record (st.io) { dev = h.state } })));
}
