-- ===== src/Adxl36x/Device.antt =====
-- examples/i2c-adxl36x/coremodel-adxl36x.c: what may happen to the device, in any order: the lock
-- makes each callback one step.
use coremodel.Base.{ℕ, List, ◌≡◌, true, ℤ}
use coremodel.Adxl36x.State.{Adxl36x, Host, Pin, adi_adxl36x_init}
use coremodel.Adxl36x.Write.{adi_adxl36x_write}
use coremodel.Adxl36x.Read.{adi_adxl36x_read}
use coremodel.Adxl36x.Sampling.{adi_adxl36x_start, adi_adxl36x_stop, process_cb, gpio_notify}

-- The callbacks of the bus, the expiry of a timer that is armed, and the callback of a pin. The
-- first timer may have expired before the step that stopped it, so that it counts at any time.
pub data Step (host : Host) : Adxl36x → Adxl36x → Type 0 where
  started : {s : Adxl36x} → Step host s (adi_adxl36x_start s)
  written : {s : Adxl36x} (bs : List ℕ) → Step host s (adi_adxl36x_write host bs s)
  read : {s : Adxl36x} (olds : List ℕ) → Step host s (adi_adxl36x_read host olds s).1
  stopped : {s : Adxl36x} → Step host s (adi_adxl36x_stop s)
  sampled : {s : Adxl36x} → Step host s (process_cb host 0 s)
  expired :
      {s : Adxl36x} (i : ℕ) → (s.control.tmevt i).armed ≡ true → Step host s (process_cb host i s)
  notified : {s : Adxl36x} (idx : ℕ) (mvolt : ℤ) → Step host s (gpio_notify idx mvolt s)

-- The states of a device with these pins.
pub data Reached (host : Host) (pins : ℕ → Pin) : Adxl36x → Type 0 where
  fresh : Reached host pins (adi_adxl36x_init host pins)
  next : {s s' : Adxl36x} → Reached host pins s → Step host s s' → Reached host pins s'
