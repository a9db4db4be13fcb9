-- ===== src/Adxl36x/Tests.antt =====
-- examples/i2c-adxl36x: the accelerometer in a concrete transaction, and its FIFO.
use coremodel.Base.{
  ℕ, ◌*◌, ◌/◌, ◌≡◌, refl, false, not, List, [], ◌∷◌, arith, ◌==◌, ltb, if◌then◌else◌, pos,
  replicate,
}
use coremodel.Adxl36x.{Registers, store}
use coremodel.Adxl36x.Timers.{IsSettime}
use coremodel.Adxl36x.State.{Adxl36x, Host, Pin, adi_adxl36x_init}
use coremodel.Adxl36x.Write.{adi_adxl36x_write}
use coremodel.Adxl36x.Read.{read_status2}
use coremodel.Adxl36x.Sampling.{process_cb}
use coremodel.Adxl36x.Registers.{host_read, host_write, registers_read_back}
use coremodel.Adxl36x.Device.{Reached, fresh, next, written, sampled}
use coremodel.Adxl36x.Detection.{nothing_detected}
use coremodel.Adxl36x.Fifo.{Fifo}
use coremodel.Adxl36x.Fifo.Filling.{IsFifo, waiting}
use coremodel.Adxl36x.Fifo.Queue.{Use, sample, byte_read, run, run_queue, fifo_is_queue}

-- Exact arithmetic, and a timer that is armed unless its first time is 0 or a time is refused.
abbrev host : Host
host = record {
  period = λ rate. 2000000000 / rate;
  periods = λ ticks rate. ticks * 2000000000 / rate;
  settime = λ value interval armed.
      if ltb 999999999 value
      then armed
      else (if ltb 999999999 interval then armed else not (value == 0));
}

host-IsSettime : IsSettime host.settime
host-IsSettime = record { disarms = λ armed. refl; stays_off = λ interval. ground arith }

-- No pin is attached.
abbrev pins : ℕ → Pin
pins i = record { attached = false; mvolt = pos 0 }

abbrev device : Adxl36x
device = adi_adxl36x_init host pins

registers_read_back_example :
    host_read host 0x20 (0 ∷ 0 ∷ 0 ∷ []) (host_write host 0x20 (0xFF ∷ 0xFF ∷ 0x12 ∷ []) device)
    ≡ 0x7F ∷ 0xFC ∷ 0x12 ∷ []
unfolding adi_adxl36x_init
registers_read_back_example =
    registers_read_back host 0x20 (0xFF ∷ 0xFF ∷ 0x12 ∷ []) (0 ∷ 0 ∷ 0 ∷ []) device refl
      (omega arith) (omega arith) refl

-- Detection of activity with a low threshold, and measuring; then a sample.
abbrev settings : List ℕ
settings = 0x22 ∷ 5 ∷ 0 ∷ 0 ∷ 0 ∷ 0 ∷ 1 ∷ 0 ∷ 0x80 ∷ 0 ∷ 0 ∷ 0x23 ∷ 2 ∷ []

abbrev active : Adxl36x
active = process_cb host 0 (adi_adxl36x_write host settings device)

active-Reached : Reached host pins active
active-Reached = next (next fresh (written settings)) sampled

nothing_detected_example :
    ((active.control.tmevt 1).armed ≡ false)
    × (active.status.act ≡ false)
    × (active.status.inact ≡ false)
    × ((read_status2 host active).0 ≡ 0)
nothing_detected_example =
    nothing_detected host pins active 1 host-IsSettime active-Reached
      (λ e. absurd (omega (arith, e)))

-- Samples of the first axis at the width of 8 bits, in the mode that keeps the oldest ones.
abbrev narrow : Registers
narrow = store 0x28 0x09 (store 0x3C 0x40 (λ a. 0))

abbrev empty_fifo : Fifo
empty_fifo = record {
  sample_fifo = replicate 2048 0;
  sample_fifo_wpt = 0;
  sample_fifo_rpt = 0;
  fifo_count = 0;
  sample_size = 0;
  sample_count = 0;
  read_count = 0;
  fifo_trig = 0;
}

empty_fifo-IsFifo : IsFifo empty_fifo
empty_fifo-IsFifo = record {
  behind = record { full = refl; placed = refl };
  rpt_fits = omega arith;
  bounded = omega arith;
  untriggered = refl;
}

abbrev uses : List Use
uses = sample 640 0 ∷ sample 128 0 ∷ byte_read 9 ∷ byte_read 9 ∷ byte_read 9 ∷ []

fifo_is_queue_example :
    ((run narrow uses device.status empty_fifo).0 ≡ 10 ∷ 2 ∷ 9 ∷ [])
    × (waiting (run narrow uses device.status empty_fifo).1 ≡ [])
    × IsFifo (run narrow uses device.status empty_fifo).1
unfolding run_queue
fifo_is_queue_example = fifo_is_queue narrow uses device.status empty_fifo refl empty_fifo-IsFifo

-- One sample of one channel.
abbrev one_sample : Fifo
one_sample = record empty_fifo {
  sample_fifo_wpt = 1;
  fifo_count = 1;
  sample_size = 1;
  sample_count = 1;
}
