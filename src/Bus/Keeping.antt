-- ===== src/Bus/Keeping.antt =====
-- coremodel.c: `coremodel_advance_if` leaves an interface on its connection.
use coremodel.Base.{
  ℕ, zero, suc, Option, none, some, get_elem?, length, Option-cases, Bool-cases, inl, inr,
}
use coremodel.Packet.{Packet}
use coremodel.If.{St, Verdict, Steady}
use coremodel.Bus.Queue.{free_packet, advance_loop, advance_if, rounds}
use coremodel.Bus.Queue.Round.{
  Verdict-cases, loop_end, loop_done, loop_hold, loop_skip, loop_restart, advance_if_now,
  advance_if_deferred,
}
use coremodel.Bus.Handler.{Handlers, uart, i2c, spi, gpio, usbh, can, eth, event, unknown, dispatch}
use coremodel.Bus.Uart.Keeping.{SteadyUart, advance_if_uart-Steady}
use coremodel.Bus.Eth.Keeping.{SteadyEth, advance_if_eth-Steady}
use coremodel.Bus.I2c.Keeping.{SteadyI2c, advance_if_i2c-Steady}
use coremodel.Bus.Spi.Keeping.{SteadySpi, advance_if_spi-Steady}
use coremodel.Bus.Gpio.Keeping.{SteadyGpio, advance_if_gpio-Steady}
use coremodel.Bus.Event.Keeping.{SteadyEvent, advance_if_event-Steady}
use coremodel.Bus.Can.Keeping.{SteadyCan, advance_if_can-Steady}
use coremodel.Bus.Usbh.Keeping.{SteadyUsbh, advance_if_usbh-Steady}

module _ {D : Type 0} where
  -- The callbacks keep the interface's connection, and let no later allocation fail.
  abbrev pub SteadyHandlers : Handlers D → Type 0
  SteadyHandlers (uart f) = SteadyUart f
  SteadyHandlers (i2c f) = SteadyI2c f
  SteadyHandlers (spi f) = SteadySpi f
  SteadyHandlers (gpio f) = SteadyGpio f
  SteadyHandlers (usbh f) = SteadyUsbh f
  SteadyHandlers (can f) = SteadyCan f
  SteadyHandlers (eth f) = SteadyEth f
  SteadyHandlers (event f) = SteadyEvent f
  SteadyHandlers unknown = Unit {0}

  dispatch-Steady :
      (h : Handlers D)
      → SteadyHandlers h
      → (c : ℕ) (pkt : Packet) (st : St D) → Steady c st
      → Steady c (dispatch h pkt st).1
  unfolding dispatch
  dispatch-Steady (uart f) q c pkt st s = advance_if_uart-Steady f q c pkt st s
  dispatch-Steady (i2c f) q c pkt st s = advance_if_i2c-Steady c pkt st s f q
  dispatch-Steady (spi f) q c pkt st s = advance_if_spi-Steady c pkt st s f q
  dispatch-Steady (gpio f) q c pkt st s = advance_if_gpio-Steady c pkt st s f q
  dispatch-Steady (usbh f) q c pkt st s = advance_if_usbh-Steady c pkt st s f q
  dispatch-Steady (can f) q c pkt st s = advance_if_can-Steady c pkt st s f q
  dispatch-Steady (eth f) q c pkt st s = advance_if_eth-Steady f q c pkt st s
  dispatch-Steady (event f) q c pkt st s = advance_if_event-Steady c pkt st s f q
  dispatch-Steady unknown q c pkt st s = s

  abbrev pub SteadyOut : ℕ → Option (St D) → Type 0
  SteadyOut c none = Unit {0}
  SteadyOut c (some st) = Steady c st

  module _ (c : ℕ) (advance : Packet → St D → Verdict × St D)
      (kept : (pkt : Packet) (st : St D) → Steady c st → Steady c (advance pkt st).1) where
    loop-Steady :
        (fuel k : ℕ) (st : St D) → Steady c st → SteadyOut c (advance_loop advance fuel k st)
    loop-Steady zero k st s = unfold advance_loop in tt
    loop-Steady (suc fuel) k st s = elim (Option-cases (get_elem? st.cif.rxbufs k)) [
      | inl e ↦ rw (loop_end advance fuel k st e) s
      | inr (pkt, e) ↦
          let st1 = (advance pkt st).1 in
          let s1 = kept pkt st s in
          elim (Verdict-cases (advance pkt st).0) [
            | inl v ↦
                rw (loop_done advance fuel k st e v) (loop-Steady fuel 0 (free_packet k st1) s1)
            | inr (inl v) ↦ rw (loop_hold advance fuel k st e v) s1
            | inr (inr (inl v)) ↦
                rw (loop_skip advance fuel k st e v) (loop-Steady fuel (suc k) st1 s1)
            | inr (inr (inr v)) ↦
                rw (loop_restart advance fuel k st e v) (loop-Steady fuel 0 st1 s1)
          ]
    ]

  pub advance_if-Steady :
      (h : Handlers D)
      → SteadyHandlers h
      → (c : ℕ) (st : St D) → Steady c st
      → SteadyOut c (advance_if (dispatch h) st)
  advance_if-Steady h q c st s = elim (Bool-cases st.cif.defer_pkt) [
    | inl e ↦ rw (advance_if_deferred (dispatch h) st e) s
    | inr e ↦
        rw (advance_if_now (dispatch h) st e) (
          loop-Steady c (dispatch h) (dispatch-Steady h q c) (rounds (length st.cif.rxbufs)) 0 st s)
  ]
