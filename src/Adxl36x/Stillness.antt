-- ===== src/Adxl36x/Stillness.antt =====
-- examples/i2c-adxl36x/coremodel-adxl36x.c: only the timer of the samples is ever armed.
use coremodel.Base.{either, ℕ, ◌/◌, ◌%◌, ◌≡◌, ◌≢◌, false, arith, ◌==◌, ltb, if◌then◌else◌}
use coremodel.Adxl36x.{Registers, any_bit, reg_time_act, reg_temp_ctl, reg_filter_ctl}
use coremodel.Adxl36x.Timers.{
  Timers, Settime, IsSettime, timer_evt_init, timer_evt_reset, timer_evt_start, timer_evt_stop,
  timer_evt_set_frequency, timer_evt_set_oneshot,
}
use coremodel.Adxl36x.State.{Control, Host, oneshot, set_pin}
use coremodel.Adxl36x.Write.{
  write_effect, activity_effect, int_low_effect, filter_effect, temp_effect, act_en, inact_en,
  enabled, high_low, odr_of,
}

-- Only the first timer is armed.
abbrev pub Still : Timers → Type 0
Still ts = (i : ℕ) → i ≢ 0 → (ts i).armed ≡ false

module _ (settime : Settime) (ok : IsSettime settime) where
  pub timer_evt_start-Still : (ts : Timers) → Still ts → Still (timer_evt_start settime ts)
  unfolding timer_evt_start
  timer_evt_start-Still ts h i ne = let other : (i == 0) ≡ false = ground arith in rw other (h i ne)

  pub timer_evt_stop-Still : (ts : Timers) → Still ts → Still (timer_evt_stop settime ts)
  unfolding timer_evt_stop
  timer_evt_stop-Still ts h i ne = let other : (i == 0) ≡ false = ground arith in rw other (h i ne)

  timer_evt_set_frequency-Still :
      (nsec : ℕ) (ts : Timers) → Still ts → Still (timer_evt_set_frequency settime nsec ts)
  unfolding timer_evt_set_frequency
  timer_evt_set_frequency-Still nsec ts h i ne =
      let other : (i == 0) ≡ false = ground arith in rw other (h i ne)

  timer_evt_set_oneshot-Still :
      (idx nsec : ℕ) (ts : Timers) → Still ts → Still (timer_evt_set_oneshot settime idx nsec ts)
  unfolding timer_evt_set_oneshot
  timer_evt_set_oneshot-Still idx nsec ts h i ne =
      let k = h i ne in
      let off = ok.disarms (ts i).armed in
      let stays = ok.stays_off nsec in ground (arith, k, off, stays)

  pub timer_evt_reset-Still : (ts : Timers) → Still ts → Still (timer_evt_reset settime ts)
  unfolding timer_evt_reset
  timer_evt_reset-Still ts h i ne =
      let k = h i ne in let off = ok.disarms (ts i).armed in ground (arith, k, off)

  pub timer_evt_init-Still : Still timer_evt_init
  unfolding timer_evt_init
  timer_evt_init-Still i ne = ground arith

-- The effects of a write on the timers.
abbrev pub Calm : Control → Type 0
Calm c = Still c.tmevt

pub set_pin-Calm : (idx mvolt : ℕ) (c : Control) → Calm c → Calm (set_pin idx mvolt c)
set_pin-Calm idx mvolt c h = either Calm (c.pins idx).attached h h

int_low_effect-Calm : (idx v : ℕ) (c : Control) → Calm c → Calm (int_low_effect idx v c)
unfolding int_low_effect
int_low_effect-Calm idx v c h = either Calm ((v / 128 % 2) == 1) (set_pin-Calm idx 3300 c h) h

module _ (host : Host) (ok : IsSettime host.settime) where
  pub oneshot-Calm : (idx ticks : ℕ) (c : Control) → Calm c → Calm (oneshot host idx ticks c)
  oneshot-Calm idx ticks c h =
      timer_evt_set_oneshot-Still host.settime ok idx (host.periods ticks c.twice_odr) c.tmevt h

  activity_effect-Calm :
      (addr : ℕ) (regs : Registers) (c : Control) → Calm c → Calm (activity_effect host addr regs c)
  unfolding activity_effect
  activity_effect-Calm addr regs c h =
      let time' = high_low (regs 0x25) (regs 0x26) in
      let inactive =
        either Calm (enabled (inact_en regs))
          (oneshot-Calm 2 time' (record c { time_inact = time' }) h) h in
      either Calm (addr == 0x21) h (
        either Calm (addr == 0x22)
          (either Calm (enabled (act_en regs)) (oneshot-Calm 1 (regs reg_time_act) c h) h)
          (either Calm (addr == 0x24) h
            (either Calm (addr == 0x26) inactive (either Calm (addr == 0x27) h h))))

  temp_effect-Calm :
      (addr : ℕ) (regs : Registers) (c : Control) → Calm c → Calm (temp_effect host addr regs c)
  unfolding temp_effect
  temp_effect-Calm addr regs c h =
      let c1 = record c { time_temp_inact = regs 0x42 / 16; time_temp_act = regs 0x42 % 16 } in
      let c2 = if any_bit (regs reg_temp_ctl) 2 then oneshot host 4 c1.time_temp_act c1 else c1 in
      let h2 : Calm c2 =
        either Calm (any_bit (regs reg_temp_ctl) 2) (oneshot-Calm 4 c1.time_temp_act c1 h) h in
      let timed =
        either Calm (any_bit (regs reg_temp_ctl) 8) (oneshot-Calm 5 c2.time_temp_inact c2 h2) h2 in
      either Calm (addr == 0x3E) h (
        either Calm (addr == 0x3F) h (
          either Calm (addr == 0x40) h
            (either Calm (addr == 0x41) h (either Calm (addr == 0x42) timed h))))

  filter_effect-Calm : (regs : Registers) (c : Control) → Calm c → Calm (filter_effect host regs c)
  unfolding filter_effect
  filter_effect-Calm regs c h =
      timer_evt_set_frequency-Still host.settime ok
        (host.period (odr_of (regs reg_filter_ctl % 8) c.twice_odr)) c.tmevt h

  pub write_effect-Calm :
      (addr : ℕ) (regs : Registers) (c : Control) → Calm c → Calm (write_effect host addr regs c)
  unfolding write_effect
  write_effect-Calm addr regs c h =
      either Calm (ltb addr 0x28) (activity_effect-Calm addr regs c h) (
        either Calm (addr == 0x2A) (int_low_effect-Calm 0 (regs 0x2A) c h) (
          either Calm (addr == 0x2B) (int_low_effect-Calm 1 (regs 0x2B) c h) (
            either Calm (addr == 0x2C) (filter_effect-Calm regs c h)
              (temp_effect-Calm addr regs c h))))
