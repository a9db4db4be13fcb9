-- ===== src/Bus/Gpio/Keeping.antt =====
-- coremodel.c: `coremodel_advance_if_gpio` leaves the connection as it is.
use coremodel.Base.{arith, ℕ, Option, none, some, ℤ}
use coremodel.Packet.{Packet}
use coremodel.If.{St, Steady, Holds}
use coremodel.Bus.Gpio.{GpioFunc, advance_if_gpio, call_notify, to_int16}

abbrev pub SteadyGpio : {D : Type 0} → GpioFunc D → Type 0
SteadyGpio {D} f =
    Holds f.notify (λ g. (c : ℕ) (v : ℤ) (st : St D) → Steady c st → Steady c (g v st))

module _ {D : Type 0} (c : ℕ) (pkt : Packet) (st : St D) (s : Steady c st) where
  call_notify-Steady :
      (f : Option (ℤ → St D → St D))
      → Holds f (λ g. (c : ℕ) (v : ℤ) (st : St D) → Steady c st → Steady c (g v st))
      → Steady c (call_notify f pkt st)
  unfolding call_notify
  call_notify-Steady none q = s
  call_notify-Steady (some f) q = q c (to_int16 pkt.hflag) st s

  pub advance_if_gpio-Steady :
      (f : GpioFunc D) → SteadyGpio f → Steady c (advance_if_gpio f pkt st).1
  unfolding advance_if_gpio
  advance_if_gpio-Steady f q = ground (arith, call_notify-Steady f.notify q, s)
