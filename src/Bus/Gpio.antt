-- ===== src/Bus/Gpio.antt =====
-- coremodel.c: GPIO. coremodel.h: `coremodel_gpio_func_t`.
pub mod Keeping
use coremodel.Base.{
  ◌≡◌, refl, ◌⊎◌, arith, ℕ, ◌+◌, ◌-◌, ◌%◌, ◌^◌, Bool, Option, none, some, ltb, ◌==◌, if◌then◌else◌,
  u16, ℤ, pos, negsuc, to_unsigned,
}
use coremodel.Packet.{Packet}
use coremodel.If.{If, St, Verdict, done, push, reply, hold, Same, Holds}

abbrev pub pkt_gpio_update : ℕ
pkt_gpio_update = 0x00

abbrev pub pkt_gpio_force : ℕ
pkt_gpio_force = 0x01

pub record GpioFunc (D : Type 0) : Type 0 where
  pub notify : Option (ℤ → St D → St D)

-- `(int16_t)w`
abbrev pub to_int16 : ℕ → ℤ
to_int16 w = if ltb w (2 ^ 15) then pos w else negsuc (2 ^ 16 - w - 1)

module _ {D : Type 0} where
  call_notify : Option (ℤ → St D → St D) → Packet → St D → St D
  call_notify none pkt st = st
  call_notify (some f) pkt st = f (to_int16 pkt.hflag) st

  unfoldable pub advance_if_gpio : GpioFunc D → Packet → St D → Verdict × St D
  unfolding call_notify
  advance_if_gpio f pkt st =
      if pkt.pkt == pkt_gpio_update then (done, call_notify f.notify pkt st) else (done, st)

  -- `coremodel_gpio_set` on an interface that is there.
  unfoldable pub gpio_set : ℕ → ℤ → St D → St D
  gpio_set drven mvolt st =
      (push
        (reply 8 st.cif.conn pkt_gpio_force (if drven == 0 then 0 else 1) (u16 (to_unsigned mvolt)))
        none st).1

module _ {D : Type 0} where
  -- The callback of a GPIO pin leaves its queue and `busy` alone.
  abbrev pub QuietGpio : GpioFunc D → Type 0
  QuietGpio f = Holds f.notify (λ g. (v : ℤ) (st : St D) → Same st (g v st))

  call_notify-Same :
      (f : Option (ℤ → St D → St D))
      → Holds f (λ g. (v : ℤ) (st : St D) → Same st (g v st))
      → (pkt : Packet) (st : St D) → Same st (call_notify f pkt st)
  unfolding call_notify
  call_notify-Same none q pkt st = (refl, refl)
  call_notify-Same (some f) q pkt st = q (to_int16 pkt.hflag) st

  pub advance_if_gpio-queue :
      (f : GpioFunc D)
      → QuietGpio f
      → (pkt : Packet) (st : St D)
      → ((advance_if_gpio f pkt st).1.cif.rxbufs ≡ st.cif.rxbufs)
        × (((advance_if_gpio f pkt st).0 ≡ done) ⊎ ((advance_if_gpio f pkt st).0 ≡ hold))
  unfolding advance_if_gpio
  advance_if_gpio-queue f q pkt st = ground (arith, call_notify-Same f.notify q pkt st)
