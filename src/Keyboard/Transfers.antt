-- ===== src/Keyboard/Transfers.antt =====
-- examples/usbh/coremodel-usbh.c: what a host reads of a descriptor.
use coremodel.Base.{
  ℕ, zero, suc, ◌+◌, ◌-◌, ◌*◌, ◌/◌, ◌%◌, ◌^◌, ◌++◌, ◌<◌, ◌≤◌, ◌≡◌, refl, sym, ap, ap₂, ◌∙◌, true,
  List, [], ◌∷◌, arith, min, le16, rd16, sub_u32, length, length-take, take, drop, take-take,
  drop-take, take-drop-take, drop-drop, take_past, take_exact,
}
use native.Mathlib.Decide.{dec_lt}
use coremodel.Keyboard.{
  Vkb, test_usbh_xfr_int, control_in, give_in, set_up, step_of, is_in, described, get_descr,
  request, ep0buf_size, store_at, offer,
}
use coremodel.Keyboard.Control.{length-store_at}
use coremodel.Keyboard.Descriptors.{vkb_dev_desc, vkb_conf_desc, vkb_hid_report_desc}

-- The data of IN transfers of these sizes, one after the other.
pub read_in : List ℕ → Vkb → List ℕ
read_in [] v = []
read_in (n ∷ ns) v = let h = test_usbh_xfr_int 0 1 [] n v in h.bytes ++ read_in ns h.state

abbrev pub total : List ℕ → ℕ
total [] = 0
total (n ∷ ns) = n + total ns

-- A request for the host is under way.
record IsReading (v : Vkb) : Type 0 where
  started : v.in_setup ≡ true
  to_host : is_in v ≡ true
  within : v.ep0ptr ≤ v.w_length
  word : v.w_length < 2 ^ 32

-- What is left of it.
abbrev left : Vkb → List ℕ
left v = take (v.w_length - v.ep0ptr) (drop v.ep0ptr v.ep0buf)

in-give_in : (n : ℕ) (v : Vkb) → IsReading v → test_usbh_xfr_int 0 1 [] n v ≡ give_in n v
unfolding test_usbh_xfr_int control_in
in-give_in n v r = rw (r.started, r.to_host)

next_ptr : (n : ℕ) (v : Vkb) → IsReading v → (give_in n v).state.ep0ptr ≡ v.ep0ptr + step_of n v
unfolding give_in
next_ptr n v r = omega arith

cut :
    (k n m w : ℕ) (xs : List ℕ)
    → k ≡ min w n
    → take k xs ++ take m (take (w - k) (drop k xs)) ≡ take (n + m) (take w xs)
cut k n m w xs e =
    let whole = take w xs in
    let joined : take k xs ++ take m (take (w - k) (drop k xs)) ≡ take (k + m) whole =
      ap₂ ◌++◌ (sym (take-take k w xs (omega arith))) (ap (take m) (sym (drop-take k w xs)))
      ∙ take-drop-take k m whole in
    joined ∙ elim (dec_lt w n) [
      | yes h ↦
          take_past (k + m) (n + m) whole (omega (arith, length-take w xs))
            (omega (arith, length-take w xs))
      | no h ↦ ap (λ i. take (i + m) whole) (omega arith)
    ]

read_in-left : (ns : List ℕ) (v : Vkb) → IsReading v → read_in ns v ≡ take (total ns) (left v)
unfolding read_in give_in
read_in-left [] v r = refl
read_in-left (n ∷ ns) v r =
    let step = step_of n v in
    let v' = (give_in n v).state in
    let next : v'.ep0ptr ≡ v.ep0ptr + step = next_ptr n v r in
    let r' : IsReading v' = record {
      started = r.started;
      to_host = r.to_host;
      within = omega arith;
      word = r.word;
    } in
    let rest : left v' ≡ take (v.w_length - v.ep0ptr - step) (drop step (drop v.ep0ptr v.ep0buf)) =
      ap₂ (λ i j. take i (drop j v.ep0buf)) (omega (arith, next)) next
      ∙ ap (take (v.w_length - v.ep0ptr - step)) (sym (drop-drop v.ep0ptr step v.ep0buf)) in
    rw (in-give_in n v r) (
      ap (◌++◌ (take step (drop v.ep0ptr v.ep0buf)))
        (read_in-left ns v' r' ∙ ap (take (total ns)) rest)
      ∙ cut step n (total ns) (v.w_length - v.ep0ptr) (drop v.ep0ptr v.ep0buf) (omega arith))

take_min : (w : ℕ) (xs : List ℕ) → take (min (length xs) w) xs ≡ take w xs
take_min w xs = elim (dec_lt w (length xs)) [
  | yes h ↦ ap (λ k. take k xs) (omega arith)
  | no h ↦ take_past (min (length xs) w) w xs (omega arith) (omega arith)
]

offered :
    (desc buf : List ℕ) (w : ℕ)
    → length desc ≤ ep0buf_size
    → let n = min (length desc) w in
      take (n - 0) (drop 0 (store_at 0 (take n desc) buf)) ≡ take w desc
offered desc buf w h =
    let n = min (length desc) w in
    let rest = drop (0 + length (take n desc)) buf in
    take-take (n - 0) ep0buf_size (take n desc ++ rest) (omega arith)
    ∙ take_exact (n - 0) (take n desc) rest (omega (arith, length-take n desc))
    ∙ take_min w desc

read_in-offer :
    (desc : List ℕ) (sizes : List ℕ) (v : Vkb)
    → v.in_setup ≡ true
    → is_in v ≡ true
    → v.w_length < 2 ^ 16
    → length desc ≤ ep0buf_size
    → read_in sizes (offer desc (record v { ep0ptr = 0 }))
      ≡ take (total sizes) (take v.w_length desc)
read_in-offer desc sizes v started to_host word h =
    let v' = offer desc (record v { ep0ptr = 0 }) in
    let r : IsReading v' = record {
      started = started;
      to_host = to_host;
      within = omega arith;
      word = omega arith;
    } in
    read_in-left sizes v' r ∙ ap (take (total sizes)) (offered desc v.ep0buf v.w_length h)

-- The length of the request is read back.
word_le : (w : ℕ) → w < 2 ^ 16 → w % 256 + 256 * (w / 256 % 256) ≡ w
word_le w h = omega arith

-- A SETUP that asks for `w` bytes of a descriptor.
abbrev pub get_descriptor : ℕ → ℕ → ℕ → List ℕ
get_descriptor kind type w = kind ∷ 0x06 ∷ 0 ∷ type ∷ 0 ∷ 0 ∷ le16 w

-- A host that asks for `w` bytes of the device descriptor, or of the report descriptor, and reads them
-- in transfers of any sizes, is given that descriptor from its start: what the sizes add up to, cut
-- at `w` and at the end of the descriptor, whatever state the keyboard was in.
pub descriptor_in_parts :
    (w : ℕ) (sizes : List ℕ) (v : Vkb)
    → w < 2 ^ 16
    → let asked =
        λ (kind type : ℕ). (test_usbh_xfr_int 0 2 (get_descriptor kind type w) 8 v).state in
      (read_in sizes (asked 0x80 1) ≡ take (total sizes) (take w vkb_dev_desc))
      × (read_in sizes (asked 0x81 0x22) ≡ take (total sizes) (take w vkb_hid_report_desc))
unfolding test_usbh_xfr_int set_up described get_descr
descriptor_in_parts w sizes v word =
    let got = λ (desc : List ℕ). ap (λ k. take (total sizes) (take k desc)) (word_le w word) in
    (
      read_in-offer vkb_dev_desc sizes (request (get_descriptor 0x80 1 w) v) refl refl (omega arith)
            (omega arith)
          ∙ got vkb_dev_desc,
      read_in-offer vkb_hid_report_desc sizes (request (get_descriptor 0x81 0x22 w) v) refl refl
            (omega arith) (omega arith)
          ∙ got vkb_hid_report_desc,
    )

-- The bytes made ready for a configuration request of four bytes at least.
conf_ready : List ℕ → ℕ → List ℕ
conf_ready buf w = store_at 2 (le16 w) (store_at 0 (take w vkb_conf_desc) buf)

rd16-conf_ready :
    (w size : ℕ) (buf : List ℕ)
    → 4 ≤ w
    → w ≤ length vkb_conf_desc
    → w ≤ size
    → rd16 (take (min w size) (conf_ready buf w)) 2 ≡ w
unfolding conf_ready
rd16-conf_ready zero size buf four le all = absurd (omega arith)
rd16-conf_ready (suc zero) size buf four le all = absurd (omega arith)
rd16-conf_ready (suc (suc zero)) size buf four le all = absurd (omega arith)
rd16-conf_ready (suc (suc (suc zero))) size buf four le all = absurd (omega arith)
rd16-conf_ready (suc (suc (suc (suc m)))) size buf four le all =
    let w = suc (suc (suc (suc m))) in let e : min w size ≡ w = omega arith in rw e (omega arith)

-- The configuration descriptor says that it is as long as the request, where a host expects the
-- length of the whole: a host that reads its first bytes, four at least, to learn how many to ask for
-- next learns only how many it has asked for.
pub total_length_is_request :
    (w size : ℕ) (v : Vkb)
    → length v.ep0buf ≡ ep0buf_size
    → 4 ≤ w
    → w ≤ length vkb_conf_desc
    → w ≤ size
    → let asked = (test_usbh_xfr_int 0 2 (get_descriptor 0x80 2 w) 8 v).state in
      let bs = (test_usbh_xfr_int 0 1 [] size asked).bytes in (length bs ≡ w) × (rd16 bs 2 ≡ w)
unfolding test_usbh_xfr_int set_up described get_descr control_in give_in conf_ready
total_length_is_request w size v full four le all =
    let short : min (length vkb_conf_desc) w ≡ w = omega arith in
    let buf = conf_ready v.ep0buf w in
    let long =
      length-store_at 2 (le16 w) (store_at 0 (take w vkb_conf_desc) v.ep0buf)
        (length-store_at 0 (take w vkb_conf_desc) v.ep0buf full (omega arith)) (omega arith) in
    let all_left : min (sub_u32 w 0) size ≡ min w size = omega arith in
    rw (word_le w (omega arith), short, all_left)
      (
        length-take (min w size) buf ∙ omega (arith, long),
        rd16-conf_ready w size v.ep0buf four le all,
      )
