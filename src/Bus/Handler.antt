-- ===== src/Bus/Handler.antt =====
-- coremodel.c: the dispatch on `cif->type` in `coremodel_advance_if`, with the callbacks that
-- `coremodel_attach_int` stores beside the type.
use coremodel.Base.{◌≡◌, refl, ap, ◌∙◌, ◌⊎◌, inl, false, some, arith, length}
use coremodel.Packet.{Packet}
use coremodel.If.{St, Verdict, done, hold}
use coremodel.Bus.Uart.{UartFunc, advance_if_uart, QuietUart, advance_if_uart-queue}
use coremodel.Bus.Eth.{EthFunc, advance_if_eth, QuietEth, advance_if_eth-queue}
use coremodel.Bus.I2c.{I2cFunc, advance_if_i2c, QuietI2c, advance_if_i2c-queue}
use coremodel.Bus.Spi.{SpiFunc, advance_if_spi, QuietSpi, advance_if_spi-queue}
use coremodel.Bus.Gpio.{GpioFunc, advance_if_gpio, QuietGpio, advance_if_gpio-queue}
use coremodel.Bus.Event.{EventFunc, advance_if_event, QuietEvent, advance_if_event-queue}
use coremodel.Bus.Can.{CanFunc, advance_if_can, QuietCan, advance_if_can-queue}
use coremodel.Bus.Usbh.{UsbhFunc, advance_if_usbh, QuietUsbh, advance_if_usbh-queue}
use coremodel.Bus.Queue.{advance_if, rounds}
use coremodel.Bus.Queue.Ends.{IsOrderly, advance_if_ends, lt-rounds}
use coremodel.Bus.Queue.Round.{advance_if_now}
use coremodel.Bus.Queue.Order.{IsInOrder, Advanced, loop-Advanced}

pub data Handlers (D : Type 0) : Type 0 where
  uart : UartFunc D → Handlers D
  i2c : I2cFunc D → Handlers D
  spi : SpiFunc D → Handlers D
  gpio : GpioFunc D → Handlers D
  usbh : UsbhFunc D → Handlers D
  can : CanFunc D → Handlers D
  eth : EthFunc D → Handlers D
  event : EventFunc D → Handlers D
  unknown : Handlers D

module _ {D : Type 0} where
  unfoldable pub dispatch : Handlers D → Packet → St D → Verdict × St D
  dispatch (uart f) pkt st = advance_if_uart f pkt st
  dispatch (i2c f) pkt st = advance_if_i2c f pkt st
  dispatch (spi f) pkt st = advance_if_spi f pkt st
  dispatch (gpio f) pkt st = advance_if_gpio f pkt st
  dispatch (usbh f) pkt st = advance_if_usbh f pkt st
  dispatch (can f) pkt st = advance_if_can f pkt st
  dispatch (eth f) pkt st = advance_if_eth f pkt st
  dispatch (event f) pkt st = advance_if_event f pkt st
  dispatch unknown pkt st = (done, st)

  -- The callbacks leave the queue and the `busy` flag of their interface alone.
  abbrev pub Quiet : Handlers D → Type 0
  Quiet (uart f) = QuietUart f
  Quiet (i2c f) = QuietI2c f
  Quiet (spi f) = QuietSpi f
  Quiet (gpio f) = QuietGpio f
  Quiet (usbh f) = QuietUsbh f
  Quiet (can f) = QuietCan f
  Quiet (eth f) = QuietEth f
  Quiet (event f) = QuietEvent f
  Quiet unknown = Unit {0}

  -- The types whose handlers never pass a packet over: all but USB and CAN.
  abbrev pub IsFifo : Handlers D → Type 0
  IsFifo (usbh f) = ⊥
  IsFifo (can f) = ⊥
  IsFifo _ = Unit {0}

  Settled : (Packet → St D → Verdict × St D) → Type 0
  Settled advance =
      (p : Packet) (st : St D)
      → ((advance p st).1.cif.rxbufs ≡ st.cif.rxbufs)
        × (((advance p st).0 ≡ done) ⊎ ((advance p st).0 ≡ hold))

  dispatch-Settled : (h : Handlers D) → Quiet h → IsFifo h → Settled (dispatch h)
  unfolding dispatch Settled
  dispatch-Settled (uart f) q i = advance_if_uart-queue f q
  dispatch-Settled (i2c f) q i = advance_if_i2c-queue f q
  dispatch-Settled (spi f) q i = advance_if_spi-queue f q
  dispatch-Settled (gpio f) q i = advance_if_gpio-queue f q
  dispatch-Settled (usbh f) q i = absurd i
  dispatch-Settled (can f) q i = absurd i
  dispatch-Settled (eth f) q i = advance_if_eth-queue f q
  dispatch-Settled (event f) q i = advance_if_event-queue f q
  dispatch-Settled unknown q i = λ p st. (refl, inl refl)

  Settled-IsOrderly :
      (advance : Packet → St D → Verdict × St D) → Settled advance → IsOrderly advance
  unfolding Settled
  Settled-IsOrderly advance s = record {
    keeps_queue = λ p st. (s p st).0;
    restart_once = λ p st e. ground (arith, s p st);
    skip_keeps = λ p st e. ground (arith, s p st);
  }

  dispatch-IsOrderly : (h : Handlers D) → Quiet h → IsOrderly (dispatch h)
  unfolding dispatch
  dispatch-IsOrderly (usbh f) q = record {
    keeps_queue = λ p st. (advance_if_usbh-queue f q p st).0;
    restart_once = λ p st. (advance_if_usbh-queue f q p st).1;
    skip_keeps = λ p st. (advance_if_usbh-queue f q p st).2;
  }
  dispatch-IsOrderly (can f) q = record {
    keeps_queue = λ p st. (advance_if_can-queue f q p st).0;
    restart_once = λ p st e. absurd ((advance_if_can-queue f q p st).1 e);
    skip_keeps = λ p st e. ap (λ (t : St D). t.cif.busy) ((advance_if_can-queue f q p st).2 e);
  }
  dispatch-IsOrderly (uart f) q = Settled-IsOrderly _ (dispatch-Settled (uart f) q tt)
  dispatch-IsOrderly (i2c f) q = Settled-IsOrderly _ (dispatch-Settled (i2c f) q tt)
  dispatch-IsOrderly (spi f) q = Settled-IsOrderly _ (dispatch-Settled (spi f) q tt)
  dispatch-IsOrderly (gpio f) q = Settled-IsOrderly _ (dispatch-Settled (gpio f) q tt)
  dispatch-IsOrderly (eth f) q = Settled-IsOrderly _ (dispatch-Settled (eth f) q tt)
  dispatch-IsOrderly (event f) q = Settled-IsOrderly _ (dispatch-Settled (event f) q tt)
  dispatch-IsOrderly unknown q = Settled-IsOrderly _ (dispatch-Settled unknown q tt)

  -- `coremodel_advance_if` ends for every type of interface, whatever packets wait and whatever its
  -- state is, if the callbacks leave the queue and `busy` alone.
  pub advance_if-dispatch_ends :
      (h : Handlers D)
      → Quiet h
      → (st : St D) → (st' : St D) × (advance_if (dispatch h) st ≡ some st')
  advance_if-dispatch_ends h q st = advance_if_ends (dispatch h) (dispatch-IsOrderly h q) st

  -- For all types but USB and CAN the packets that wait are handled strictly in the order of their
  -- arrival: those that are freed are the first ones, each handled in the state that the one before
  -- it left, and the loop stops behind the last packet or at one that is held, with none after it
  -- touched. The callbacks are assumed to leave the queue and `busy` alone.
  pub advance_if-Advanced :
      (h : Handlers D)
      → Quiet h
      → IsFifo h
      → (st : St D) → st.cif.defer_pkt ≡ false
      → (st' : St D) × (advance_if (dispatch h) st ≡ some st') × Advanced (dispatch h) st st'
  unfolding Settled
  advance_if-Advanced h q i st e =
      let s = dispatch-Settled h q i in
      let n = length st.cif.rxbufs in
      let orderly : IsInOrder (dispatch h) = record {
        keeps_queue = λ p st. (s p st).0;
        settles = λ p st. (s p st).1;
      } in
      let (st', out, a) =
        loop-Advanced (dispatch h) orderly (rounds n) st.cif.rxbufs st refl (lt-rounds n) in
      (st', advance_if_now (dispatch h) st e ∙ out, a)
