-- ===== src/Adxl36x/State.antt =====
-- examples/i2c-adxl36x/coremodel-adxl36x.c: `adi_adxl36x_state_t` and `adi_adxl36x_reset`.
use coremodel.Base.{ℕ, Bool, true, false, List, [], ◌∷◌, ◌==◌, if◌then◌else◌, ltb, ℤ, replicate}
use coremodel.Adxl36x.{Registers, Status, Status2}
use coremodel.Adxl36x.Timers.{
  Settime, Timers, timer_evt_init, timer_evt_reset, timer_evt_set_oneshot,
}
use coremodel.Adxl36x.Fifo.{Fifo, fifo_size}

-- `struct coremodel_gpio_pin`; `attached` is that it has a handle.
pub record Pin : Type 0 where
  pub attached : Bool
  pub mvolt : ℤ

-- What the code uses of the host: the arithmetic on `float`, for the nanoseconds of a period, from
-- twice the rate, and of a number of periods; and timerfd_settime(2).
pub record Host : Type 0 where
  pub period : ℕ → ℕ
  pub periods : ℕ → ℕ → ℕ
  pub settime : Settime

-- What the writes of registers set besides the registers. `twice_odr` is 2 * `odr`, and `gpio_sets`
-- has the calls of `coremodel_gpio_set`, the last one first.
pub record Control : Type 0 where
  pub act_threshold : ℕ
  pub inact_threshold : ℕ
  pub temp_threshold_h : ℕ
  pub temp_threshold_l : ℕ
  pub time_inact : ℕ
  pub time_temp_act : ℕ
  pub time_temp_inact : ℕ
  pub activity_mode : ℕ
  pub data_range : ℕ
  pub twice_odr : ℕ
  pub timer_count : ℕ
  pub tmevt : Timers
  pub pins : ℕ → Pin
  pub gpio_sets : List (ℕ × ℕ)

-- The values of `accel` and `temp` are never negative. `fault` is an access out of bounds.
pub record Adxl36x : Type 0 where
  pub regs : Registers
  pub status : Status
  pub status2 : Status2
  pub fifo : Fifo
  pub control : Control
  pub addr : ℕ
  pub count : ℕ
  pub stc : ℕ
  pub accel : List ℕ
  pub temp : ℕ
  pub act_ref : List ℕ
  pub inact_ref : List ℕ
  pub tap_sample : ℕ
  pub tap_state : ℕ
  pub tap_time : ℕ
  pub tme_cnt : ℕ
  pub tme_init : ℕ
  pub irq_line : ℕ → Bool
  pub fault : Bool

-- `timer_evt_set_oneshot(&state->tmevt[idx], ((float)ticks / state->odr) * 1000000000)`
abbrev pub oneshot : Host → ℕ → ℕ → Control → Control
oneshot host idx ticks c = record c {
  tmevt = timer_evt_set_oneshot host.settime idx (host.periods ticks c.twice_odr) c.tmevt;
}

abbrev pub set_pin : ℕ → ℕ → Control → Control
set_pin idx mvolt' c =
    if (c.pins idx).attached then record c { gpio_sets = (idx, mvolt') ∷ c.gpio_sets } else c

-- The registers after a reset.
abbrev pub reset_regs : Registers
reset_regs a =
    if a == 0x00
    then 0xAD
    else (if a == 0x01
        then 0x1D
        else (if a == 0x02
            then 0xF7
            else (if a == 0x03
                then 0x03
                else (if a == 0x1F
                    then 0x52
                    else (if a == 0x29 then 0x80 else (if a == 0x2C then 0x23 else 0))))))

abbrev reset_status : Status
reset_status = record {
  data_ready = false;
  fifo_ready = false;
  fifo_water_mark = false;
  fifo_over_run = false;
  act = false;
  inact = false;
  awake = true;
  err_user_regs = false;
}

abbrev reset_status2 : Status2
reset_status2 = record {
  tap_one = false;
  tap_two = false;
  temp_adc_low = false;
  temp_adc_hi = false;
}

-- The registers of the pedometer but for its count, and what is not named, stay.
unfoldable pub adi_adxl36x_reset : Host → Adxl36x → Adxl36x
adi_adxl36x_reset host s = record s {
  regs = λ a. if ltb 0x48 a then s.regs a else reset_regs a;
  status = reset_status;
  status2 = reset_status2;
  fifo = record (s.fifo) {
    sample_fifo = replicate fifo_size 0;
    sample_fifo_wpt = 0;
    sample_fifo_rpt = 0;
    sample_count = 0;
    fifo_trig = 0;
  };
  control = record (s.control) {
    twice_odr = 200;
    timer_count = 0;
    tmevt = timer_evt_reset host.settime s.control.tmevt;
  };
  stc = 0;
  accel = replicate 3 256;
  act_ref = replicate 3 0;
  inact_ref = replicate 3 0;
  tap_sample = 0;
  tap_state = 0;
  tap_time = 0;
  tme_cnt = 0;
  tme_init = 0;
}

-- What calloc(3) and `timer_evt_init` leave, with these pins.
abbrev adi_adxl36x_new : (ℕ → Pin) → Adxl36x
adi_adxl36x_new pins' = record {
  regs = λ a. 0;
  status = record reset_status { awake = false };
  status2 = reset_status2;
  fifo = record {
    sample_fifo = replicate fifo_size 0;
    sample_fifo_wpt = 0;
    sample_fifo_rpt = 0;
    fifo_count = 0;
    sample_size = 0;
    sample_count = 0;
    read_count = 0;
    fifo_trig = 0;
  };
  control = record {
    act_threshold = 0;
    inact_threshold = 0;
    temp_threshold_h = 0;
    temp_threshold_l = 0;
    time_inact = 0;
    time_temp_act = 0;
    time_temp_inact = 0;
    activity_mode = 0;
    data_range = 0;
    twice_odr = 0;
    timer_count = 0;
    tmevt = timer_evt_init;
    pins = pins';
    gpio_sets = [];
  };
  addr = 0;
  count = 0;
  stc = 0;
  accel = replicate 3 0;
  temp = 0;
  act_ref = replicate 3 0;
  inact_ref = replicate 3 0;
  tap_sample = 0;
  tap_state = 0;
  tap_time = 0;
  tme_cnt = 0;
  tme_init = 0;
  irq_line = λ i. false;
  fault = false;
}

-- The device as `main` starts it.
unfoldable pub adi_adxl36x_init : Host → (ℕ → Pin) → Adxl36x
unfolding adi_adxl36x_reset
adi_adxl36x_init host pins' = adi_adxl36x_reset host (adi_adxl36x_new pins')
