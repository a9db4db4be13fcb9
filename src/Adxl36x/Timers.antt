-- ===== src/Adxl36x/Timers.antt =====
-- examples/i2c-adxl36x/coremodel-adxl36x.c: `struct timer_evt` and the functions `timer_evt_*`.
use coremodel.Base.{◌≡◌, ℕ, Bool, true, false, ltb, ◌==◌, if◌then◌else◌}

-- `value` and `interval` are the nanoseconds of `itime`, whose seconds stay 0. `armed` is the state
-- of the timer of timerfd_settime(2), and `watched` is that epoll(7) reports it.
pub record Timer : Type 0 where
  pub value : ℕ
  pub interval : ℕ
  pub armed : Bool
  pub watched : Bool

-- Whether a timer is armed after timerfd_settime(2), from the nanoseconds of the first time and of
-- the interval, and from whether it was armed.
abbrev pub Settime : Type 0
Settime = ℕ → ℕ → Bool → Bool

-- A first time of 0 disarms; more nanoseconds than there are in a second are refused, which leaves a
-- timer that is not armed as it is.
pub record IsSettime (settime : Settime) : Type 0 where
  pub disarms : (armed : Bool) → settime 0 0 armed ≡ false
  pub stays_off : (interval : ℕ) → settime 0 interval false ≡ false

abbrev set_time : Settime → ℕ → ℕ → Timer → Timer
set_time settime value' interval' t = record t { armed = settime value' interval' t.armed }

-- The array `tmevt`, of eight timers.
abbrev pub Timers : Type 0
Timers = ℕ → Timer

abbrev change : ℕ → (Timer → Timer) → Timers → Timers
change idx f ts = λ i. if i == idx then f (ts i) else ts i

abbrev no_timer : Timer
no_timer = record { value = 0; interval = 0; armed = false; watched = false }

abbrev cleared : Settime → Timer → Timer
cleared st t = set_time st 0 0 (record t { value = 0; interval = 0; watched = false })

unfoldable pub timer_evt_reset : Settime → Timers → Timers
timer_evt_reset st ts = λ i. if ltb i 8 then record (cleared st (ts i)) { watched = true } else ts i

unfoldable pub timer_evt_start : Settime → Timers → Timers
timer_evt_start st = change 0 (λ t. set_time st t.value t.interval (record t { watched = true }))

unfoldable pub timer_evt_stop : Settime → Timers → Timers
timer_evt_stop st = change 0 (λ t. set_time st 0 0 (record t { watched = false }))

-- `nsec` is the period that the code computes from the frequency.
unfoldable pub timer_evt_set_frequency : Settime → ℕ → Timers → Timers
timer_evt_set_frequency st nsec =
    change 0 (λ t. record (cleared st t) { value = nsec; interval = nsec; watched = true })

-- The first time is left 0.
unfoldable pub timer_evt_set_oneshot : Settime → ℕ → ℕ → Timers → Timers
timer_evt_set_oneshot st idx nsec ts =
    if idx == 0
    then ts
    else change idx
        (λ t.
          let t' = record (cleared st t) { interval = nsec; watched = true } in
          set_time st t'.value t'.interval t')
        ts

-- `timer_evt_init`, of which only the first timer is started later.
unfoldable pub timer_evt_init : Timers
timer_evt_init = λ i. if ltb i 8 then record no_timer { watched = true } else no_timer
