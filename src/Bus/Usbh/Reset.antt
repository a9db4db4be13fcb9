-- ===== src/Bus/Usbh/Reset.antt =====
-- coremodel.c: what a bus reset does to the USB transfers that wait before it.
use coremodel.Base.{
  ℕ, suc, ◌+◌, ◌≡◌, refl, ap, ◌∙◌, ◌++◌, true, false, List, [], ◌∷◌, some, arith, if◌then◌else◌,
  get_elem?, length,
}
use coremodel.Packet.{Packet}
use coremodel.If.{St, done, restart, set_busy, set_ebusy, notify}
use coremodel.Bus.Usbh.{UsbhFunc, advance_if_usbh, usbh_reset, pkt_usbh_reset, pkt_usbh_xfr}
use coremodel.Bus.Queue.{free_packet, advance_loop}
use coremodel.Bus.Queue.Round.{loop_done, loop_restart}

abbrev pub AllTransfers : List Packet → Type 0
AllTransfers [] = Unit {0}
AllTransfers (p ∷ ps) = (p.pkt ≡ pkt_usbh_xfr) × AllTransfers ps

get_elem?-behind :
    (ts : List Packet) (p : Packet) (rest : List Packet)
    → get_elem? (ts ++ (p ∷ rest)) (length ts) ≡ some p
get_elem?-behind [] p rest = refl
get_elem?-behind (t ∷ ts) p rest = get_elem?-behind ts p rest

module _ {D : Type 0} (f : UsbhFunc D) where
  -- The interface with another queue.
  abbrev pub with_queue : List Packet → St D → St D
  with_queue q st = record st { cif = record (st.cif) { rxbufs = q } }

  -- The state once the reset itself has been handled: nothing is paused any more, and the device
  -- has been told.
  abbrev pub after_reset : Packet → List Packet → St D → St D
  after_reset p rest st =
      free_packet 0
        (notify f.rst (set_ebusy (λ k. false) (set_busy false (with_queue (p ∷ rest) st))))

  advance_busy :
      (p : Packet) (st : St D)
      → p.pkt ≡ pkt_usbh_xfr
      → st.cif.busy ≡ true
      → advance_if_usbh f p st ≡ (done, st)
  unfolding advance_if_usbh
  advance_busy p st e b = ground (arith, e, b)

  advance_reset :
      (p : Packet) (st : St D)
      → p.pkt ≡ pkt_usbh_reset
      → advance_if_usbh f p st ≡ (
          if st.cif.busy
          then (done, notify f.rst (set_ebusy (λ k. false) (set_busy false st)))
          else (restart, set_busy true st))
  unfolding advance_if_usbh usbh_reset
  advance_reset p st e = ground (arith, e)

  -- With `busy` set, the transfers before the reset are freed one by one.
  flush :
      (fuel : ℕ) (ts : List Packet) (p : Packet) (rest : List Packet) (st : St D)
      → AllTransfers ts
      → p.pkt ≡ pkt_usbh_reset
      → st.cif.busy ≡ true
      → advance_loop (advance_if_usbh f) (length ts + suc fuel) 0 (with_queue (ts ++ (p ∷ rest)) st)
        ≡ advance_loop (advance_if_usbh f) fuel 0 (after_reset p rest st)
  flush fuel [] p rest st all e b =
      let st1 = with_queue (p ∷ rest) st in
      let a = advance_reset p st1 e in
      let v : advance_if_usbh f p st1
          ≡ (done, notify f.rst (set_ebusy (λ k. false) (set_busy false st1))) =
        a
        ∙ ap
            (λ c.
              if c
              then (done, notify f.rst (set_ebusy (λ k. false) (set_busy false st1)))
              else (restart, set_busy true st1))
            b in
      let le : 0 + suc fuel ≡ suc fuel = omega arith in
      ap (λ n. advance_loop (advance_if_usbh f) n 0 st1) le
      ∙ loop_done (advance_if_usbh f) fuel 0 st1 refl (ap (λ x. x.0) v)
      ∙ ap (λ x. advance_loop (advance_if_usbh f) fuel 0 (free_packet 0 x.1)) v
  flush fuel (t ∷ ts) p rest st all e b =
      let st1 = with_queue ((t ∷ ts) ++ (p ∷ rest)) st in
      let v = advance_busy t st1 all.0 b in
      let le : suc (length ts) + suc fuel ≡ suc (length ts + suc fuel) = omega arith in
      ap (λ n. advance_loop (advance_if_usbh f) n 0 st1) le
      ∙ loop_done (advance_if_usbh f) (length ts + suc fuel) 0 st1 refl (ap (λ x. x.0) v)
      ∙ ap (λ x. advance_loop (advance_if_usbh f) (length ts + suc fuel) 0 (free_packet 0 x.1)) v
      ∙ flush fuel ts p rest st all.1 e b

  -- A bus reset that waits behind transfers, with no reset under way: it makes the loop go back to
  -- the first packet, every transfer that was queued before it is freed with no call of the device,
  -- then the reset is handled once: the mask of the paused endpoints is clear, the device is told,
  -- and the loop goes on with the packets behind the reset.
  pub usb_reset_flushes :
      (fuel : ℕ) (ts : List Packet) (p : Packet) (rest : List Packet) (st : St D)
      → st.cif.rxbufs ≡ ts ++ (p ∷ rest)
      → AllTransfers ts
      → p.pkt ≡ pkt_usbh_reset
      → st.cif.busy ≡ false
      → advance_loop (advance_if_usbh f) (suc (length ts + suc fuel)) (length ts) st
        ≡ advance_loop (advance_if_usbh f) fuel 0 (after_reset p rest st)
  usb_reset_flushes fuel ts p rest st q all e b =
      let v : advance_if_usbh f p st ≡ (restart, set_busy true st) =
        advance_reset p st e
        ∙ ap
            (λ c.
              if c
              then (done, notify f.rst (set_ebusy (λ k. false) (set_busy false st)))
              else (restart, set_busy true st))
            b in
      loop_restart (advance_if_usbh f) (length ts + suc fuel) (length ts) st
        (ap (λ l. get_elem? l (length ts)) q ∙ get_elem?-behind ts p rest) (ap (λ x. x.0) v)
      ∙ ap (λ x. advance_loop (advance_if_usbh f) (length ts + suc fuel) 0 x.1) v
      ∙ ap
          (λ l.
            advance_loop (advance_if_usbh f) (length ts + suc fuel) 0
              (with_queue l (set_busy true st)))
          q
      ∙ flush fuel ts p rest (set_busy true st) all e refl
