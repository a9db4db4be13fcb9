-- ===== src/Keyboard/Control.antt =====
-- examples/usbh/coremodel-usbh.c: the state between transfers, and what breaks it.
use coremodel.Base.{
  ℕ, ◌+◌, ◌*◌, ◌/◌, ◌%◌, ◌^◌, ◌++◌, ◌<◌, ◌≤◌, ◌≡◌, ◌≢◌, ◌&&◌, refl, ap, Bool, true, false, List, [],
  ◌∷◌, Option, none, some, arith, min, ltb, ◌==◌, if◌then◌else◌, get_or, sub_u32, get_elem?, le16,
  rd16, length, length-append, length-take, length-drop, take, drop, pos, ℤ,
}
use coremodel.Keyboard.Descriptors.{
  vkb_dev_desc, vkb_conf_desc, vkb_str_desc_tbl, vkb_hid_report_desc,
}
use coremodel.Bus.Usbh.{usb_xfr_nak}
use coremodel.Keyboard.{
  Vkb, Handled, get_descr, get_string, offer, store_at, ep0buf_size, usb_xfr_stall,
  test_usbh_xfr_int, set_up, control_in, control_out, take_out, give_in, status_in, described,
  request, answer, interrupt_in, is_in, step_of,
}

-- What holds between transfers.
pub record IsVkb (v : Vkb) : Type 0 where
  pub within : v.ep0ptr ≤ v.w_length
  pub small : v.w_length ≤ ep0buf_size
  pub full : length v.ep0buf ≡ ep0buf_size
  pub silent : v.has_report ≡ false

pub length-store_at :
    (at : ℕ) (bs buf : List ℕ)
    → length buf ≡ ep0buf_size
    → at ≤ ep0buf_size
    → length (store_at at bs buf) ≡ ep0buf_size
length-store_at at bs buf h le =
    let rest = drop (at + length bs) buf in
    omega (
      arith,
      length-take ep0buf_size (take at buf ++ (bs ++ rest)),
      length-append (take at buf) (bs ++ rest),
      length-append bs rest,
      length-take at buf,
      length-drop (at + length bs) buf,
    )

offer-IsVkb : (desc : List ℕ) (v : Vkb) → v.ep0ptr ≡ 0 → IsVkb v → IsVkb (offer desc v)
offer-IsVkb desc v z ok = record {
  within = omega arith;
  small = omega arith;
  full =
      length-store_at 0 (take (min (length desc) v.w_length) desc) v.ep0buf ok.full (omega arith);
  silent = ok.silent;
}

patch-IsVkb :
    (at : ℕ) (bs : List ℕ) (v : Vkb)
    → at ≤ ep0buf_size
    → IsVkb v
    → IsVkb (record v { ep0buf = store_at at bs v.ep0buf })
patch-IsVkb at bs v le ok = record {
  within = ok.within;
  small = ok.small;
  full = length-store_at at bs v.ep0buf ok.full le;
  silent = ok.silent;
}

-- A request is stalled, or leaves a state that is in order.
data Fine : Option Vkb → Type 0 where
  stalled : Fine none
  ready : {v : Vkb} → IsVkb v → Fine (some v)

Fine-if : (b : Bool) {x y : Option Vkb} → Fine x → Fine y → Fine (if b then x else y)
Fine-if true p q = p
Fine-if false p q = q

get_string-IsVkb : (o : Option (List ℕ)) (v : Vkb) → v.ep0ptr ≡ 0 → IsVkb v → Fine (get_string o v)
unfolding get_string
get_string-IsVkb none v z ok = stalled
get_string-IsVkb (some desc) v z ok =
    let v' = offer desc v in
    ready (patch-IsVkb 0 (v'.w_length % 256 ∷ []) v' (omega arith) (offer-IsVkb desc v z ok))

get_descr-IsVkb : (v : Vkb) → v.ep0ptr ≡ 0 → IsVkb v → Fine (get_descr v)
unfolding get_descr
get_descr-IsVkb v z ok =
    let kind = v.w_value / 256 in
    let conf = offer vkb_conf_desc v in
    let text = get_string-IsVkb (get_elem? vkb_str_desc_tbl (v.w_value % 256)) v z ok in
    Fine-if (v.b_request == 0x06)
      (Fine-if (v.bm_req_type == 0x80)
        (Fine-if (kind == 1) (ready (offer-IsVkb vkb_dev_desc v z ok)) (
          Fine-if (kind == 2)
            (ready (
              patch-IsVkb 2 (le16 conf.w_length) conf (omega arith)
                (offer-IsVkb vkb_conf_desc v z ok)))
            (Fine-if (kind == 3) text stalled)))
        (Fine-if ((v.bm_req_type == 0x81) && (kind == 0x22))
          (ready (offer-IsVkb vkb_hid_report_desc v z ok)) stalled))
      stalled

-- What the host has to keep to: a whole SETUP that asks for what the buffer holds, and as many bytes
-- as an OUT announces.
pub record IsSmall (tkn : ℕ) (buf : List ℕ) (size : ℕ) : Type 0 where
  pub setup : tkn ≡ 2 → (8 ≤ length buf) × (rd16 buf 6 ≤ ep0buf_size)
  pub out : tkn ≡ 0 → size ≤ length buf

pub record IsKept (h : Handled) : Type 0 where
  pub sound : h.fault ≡ false
  pub kept : IsVkb h.state

IsKept-if : (b : Bool) {x y : Handled} → IsKept x → IsKept y → IsKept (if b then x else y)
IsKept-if true p q = p
IsKept-if false p q = q

step_le :
    (size : ℕ) (v : Vkb)
    → IsVkb v
    → (v.ep0ptr + step_of size v ≤ v.w_length) × (step_of size v ≤ size)
step_le size v ok = omega arith

answer-IsKept : (res : ℤ) (v : Vkb) → IsVkb v → IsKept (answer res v)
answer-IsKept res v ok = record { sound = refl; kept = ok }

described-IsKept :
    (size : ℕ) (v : Vkb) (o : Option Vkb) → IsVkb v → Fine o → IsKept (described size v o)
unfolding described
described-IsKept size v none ok stalled = answer-IsKept usb_xfr_stall v ok
described-IsKept size v (some v') ok (ready k) = answer-IsKept (pos size) v' k

set_up-IsVkb :
    (buf : List ℕ) (size : ℕ) (v : Vkb)
    → IsVkb v
    → 8 ≤ length buf
    → rd16 buf 6 ≤ ep0buf_size
    → IsKept (set_up buf size v)
unfolding set_up
set_up-IsVkb buf size v ok long small =
    let v' = request buf v in
    let ok' : IsVkb v' = record {
      within = omega arith;
      small = small;
      full = ok.full;
      silent = ok.silent;
    } in
    let h =
      IsKept-if (is_in v')
        (described-IsKept size v' (get_descr v') ok' (get_descr-IsVkb v' refl ok'))
        (described-IsKept size v' (some v') ok' (ready ok')) in
    let eight : ltb (length buf) 8 ≡ false = ground arith in
    record { sound = ground (arith, h.sound); kept = h.kept }

take_out-IsVkb :
    (buf : List ℕ) (size : ℕ) (v : Vkb) → IsVkb v → size ≤ length buf → IsKept (take_out buf size v)
unfolding take_out
take_out-IsVkb buf size v ok long =
    let step = step_of size v in
    let le = step_le size v ok in
    record {
      sound = ground arith;
      kept = record {
        within = omega arith;
        small = ok.small;
        full = length-store_at v.ep0ptr (take step buf) v.ep0buf ok.full (omega arith);
        silent = ok.silent;
      };
    }

give_in-IsVkb : (size : ℕ) (v : Vkb) → IsVkb v → IsKept (give_in size v)
unfolding give_in
give_in-IsVkb size v ok =
    let le = step_le size v ok in
    record {
      sound = ground arith;
      kept = record { within = omega arith; small = ok.small; full = ok.full; silent = ok.silent };
    }

status_in-IsVkb : (size : ℕ) (v : Vkb) → IsVkb v → IsKept (status_in size v)
unfolding status_in
status_in-IsVkb size v ok = ground arith

control_out-IsVkb :
    (buf : List ℕ) (size : ℕ) (v : Vkb)
    → IsVkb v
    → size ≤ length buf
    → IsKept (control_out buf size v)
unfolding control_out
control_out-IsVkb buf size v ok long =
    IsKept-if v.in_setup
      (IsKept-if (is_in v)
        (answer-IsKept (pos size) (record v { in_setup = false })
          (record { within = ok.within; small = ok.small; full = ok.full; silent = ok.silent }))
        (take_out-IsVkb buf size v ok long))
      (answer-IsKept usb_xfr_stall v ok)

control_in-IsVkb : (size : ℕ) (v : Vkb) → IsVkb v → IsKept (control_in size v)
unfolding control_in
control_in-IsVkb size v ok =
    IsKept-if v.in_setup (IsKept-if (is_in v) (give_in-IsVkb size v ok) (status_in-IsVkb size v ok))
      (answer-IsKept usb_xfr_stall v ok)

-- The interrupt endpoint never has a report.
interrupt_in-IsVkb :
    (size : ℕ) (v : Vkb)
    → IsVkb v
    → IsKept (interrupt_in size v) × ((interrupt_in size v).result ≡ usb_xfr_nak)
unfolding interrupt_in
interrupt_in-IsVkb size v ok = ground arith

IsKept-dif :
    (b : Bool) {x y : Handled} → (b ≡ true → IsKept x) → IsKept y → IsKept (if b then x else y)
IsKept-dif true p q = p refl
IsKept-dif false p q = q

handled-IsKept :
    (ep tkn : ℕ) (buf : List ℕ) (size : ℕ) (v : Vkb)
    → IsVkb v
    → IsSmall tkn buf size
    → ep < 128
    → IsKept (test_usbh_xfr_int ep tkn buf size v)
unfolding test_usbh_xfr_int
handled-IsKept ep tkn buf size v ok small low =
    let key = ep + tkn * 128 in
    IsKept-dif (key == 0x100)
      (λ e. let s = small.setup (ground arith) in set_up-IsVkb buf size v ok s.0 s.1)
      (IsKept-dif (key == 0x00) (λ e. control_out-IsVkb buf size v ok (small.out (ground arith)))
        (IsKept-if (key == 0x80) (control_in-IsVkb size v ok) (
          IsKept-if (key == 0x81) (interrupt_in-IsVkb size v ok).0
            (answer-IsKept usb_xfr_nak v ok))))

-- No transfer reads or writes outside the control buffer, and the state stays in order, if each SETUP
-- has its eight bytes and asks for at most 512, and each OUT has the bytes that it announces; the
-- interrupt endpoint never has a report.
pub xfr-IsVkb :
    (ep tkn : ℕ) (buf : List ℕ) (size : ℕ) (v : Vkb)
    → IsVkb v
    → IsSmall tkn buf size
    → ep < 128
    → let h = test_usbh_xfr_int ep tkn buf size v in
      (h.fault ≡ false) × IsVkb h.state × (ep ≡ 1 → tkn ≡ 1 → h.result ≡ usb_xfr_nak)
unfolding test_usbh_xfr_int
xfr-IsVkb ep tkn buf size v ok small low =
    let k = handled-IsKept ep tkn buf size v ok small low in
    (k.sound, k.kept, λ e t. rw (e, t) (interrupt_in-IsVkb size v ok).1)

-- A request that is stalled still counts as the current one: a host that asks for more than 512 bytes
-- with any request but GET_DESCRIPTOR, and reads on after the stall, is given 512 bytes of the control
-- buffer and then, from the next byte on, memory behind it.
pub stalled_request_over_reads :
    (buf : List ℕ) (n : ℕ) (v : Vkb)
    → get_or buf 0 0 / 128 % 2 ≡ 1
    → get_or buf 1 0 ≢ 0x06
    → 512 < rd16 buf 6
    → rd16 buf 6 < 2 ^ 16
    → 0 < n
    → let h1 = test_usbh_xfr_int 0 2 buf 8 v in
      let h2 = test_usbh_xfr_int 0 1 [] 512 h1.state in
      let h3 = test_usbh_xfr_int 0 1 [] n h2.state in
      (h1.result ≡ usb_xfr_stall) × (h2.result ≡ pos 512) × (h3.fault ≡ true)
unfolding test_usbh_xfr_int set_up get_descr described control_in give_in
stalled_request_over_reads buf n v to_host other long word some_bytes =
    let reads : is_in (request buf v) ≡ true = ground arith in
    let refused : (get_or buf 1 0 == 0x06) ≡ false = ground arith in
    let whole : min (sub_u32 (rd16 buf 6) 0) 512 ≡ 512 = omega arith in
    rw (reads, refused) (rw reads (refl, ap pos whole, rw reads (ground arith)))
