-- ===== src/Adxl36x/Detection.antt =====
-- examples/i2c-adxl36x/coremodel-adxl36x.c: what the timers that are never armed would have set.
use coremodel.Base.{
  either, ℕ, ◌+◌, ◌%◌, ◌^◌, ◌≡◌, ◌≢◌, refl, sym, subst, true, false, not, ◌&&◌, Bool-cases, inl,
  inr, List, arith, ◌==◌, ltb, if◌then◌else◌, length, get_or, is_zero,
}
use coremodel.Adxl36x.{
  Registers, Status, status2_byte, any_bit, measuring, reg_temp_ctl, reg_fifo_control,
}
use coremodel.Adxl36x.Fifo.{
  Fifo, put_sample, fifo_samples, fifo_wsize, water_mark, adi_adxl36x_fifo_sample, add_sample,
}
use coremodel.Adxl36x.Timers.{IsSettime, timer_evt_init, timer_evt_stop}
use coremodel.Adxl36x.State.{Adxl36x, Host, Pin, set_pin, adi_adxl36x_init, adi_adxl36x_reset}
use coremodel.Adxl36x.Write.{with_timers}
use coremodel.Adxl36x.Sampling.{
  adi_adxl36x_accel_convert, adi_adxl36x_temp_convert, adi_adxl36x_stop, irq_level, irq_update_line,
  adi_adxl36x_irq_update, tap_check, start_tap, tap_begin, data_ready_set, comp_sample, sample_axes,
  sample_temp, sample_fifo, comp_case, adi_adxl36x_comp_cb, process_cb, gpio_notify,
}
use coremodel.Adxl36x.Read.{read_status2}
use coremodel.Adxl36x.Device.{
  Step, started, written, read, stopped, sampled, expired, notified, Reached, fresh, next,
}
use coremodel.Adxl36x.Stillness.{
  timer_evt_start-Still, timer_evt_stop-Still, timer_evt_reset-Still, timer_evt_init-Still,
  oneshot-Calm, set_pin-Calm,
}
use coremodel.Adxl36x.Quiet.{NoneSeen, IsQuiet, start-IsQuiet, write-IsQuiet, read-IsQuiet}

-- The FIFO sets no bit of a detection.
abbrev Marked : Status × Fifo → Type 0
Marked p = NoneSeen p.0

add_sample-Marked :
    (regs : Registers) (vs : List ℕ) (st : Status) (f : Fifo)
    → NoneSeen st
    → Marked (add_sample regs vs st f)
unfolding add_sample
add_sample-Marked regs vs st f q =
    let f' = if length vs == 0 then f else put_sample vs f in
    let marked =
      either NoneSeen (ltb f'.sample_count (fifo_samples regs)) {x = st}
        {y = record st { fifo_water_mark = true }} q q in
    either Marked (ltb (fifo_wsize f) (length vs)) {x = (st, f)} {y = (water_mark regs f' st, f')} q
      marked

fifo_sample-Marked :
    (regs : Registers) (accel0 temp : ℕ) (st : Status) (f : Fifo)
    → NoneSeen st
    → Marked (adi_adxl36x_fifo_sample regs accel0 temp st f)
unfolding adi_adxl36x_fifo_sample
fifo_sample-Marked regs accel0 temp st f q =
    either Marked _ {x = (record st { fifo_over_run = true }, f)} q
      (either Marked _ {x = (st, f)} q (add_sample-Marked regs _ st f q))

sample_temp-IsQuiet : (s : Adxl36x) → IsQuiet s → IsQuiet (sample_temp s)
unfolding sample_temp adi_adxl36x_temp_convert
sample_temp-IsQuiet s q =
    either IsQuiet (any_bit (s.regs reg_temp_ctl) 1)
      {x = data_ready_set (adi_adxl36x_temp_convert s)} {y = s} q q

sample_fifo-IsQuiet : (s : Adxl36x) → IsQuiet s → IsQuiet (sample_fifo s)
unfolding sample_fifo
sample_fifo-IsQuiet s (h, (none, none2)) =
    let p = adi_adxl36x_fifo_sample s.regs (get_or s.accel 0 0) s.temp s.status s.fifo in
    let marked = fifo_sample-Marked s.regs (get_or s.accel 0 0) s.temp s.status s.fifo none in
    either IsQuiet ((s.regs reg_fifo_control % 4) == 0) {x = s}
      {y = record s { status = p.0; fifo = p.1 }} (h, (none, none2)) (h, (marked, none2))

irq_update_line-IsQuiet : (idx : ℕ) (s : Adxl36x) → IsQuiet s → IsQuiet (irq_update_line idx s)
irq_update_line-IsQuiet idx s (h, q) =
    let irql = irq_level idx s in
    let level = if is_zero (s.control.pins idx).mvolt then 3300 else 0 in
    either IsQuiet (if irql then s.irq_line idx else not (s.irq_line idx)) {x = s}
      {y = record s {
        control = set_pin idx level s.control;
        irq_line = λ i. if i == idx then irql else s.irq_line i;
      }}
      (h, q) (set_pin-Calm idx level s.control h, q)

module _ (host : Host) (ok : IsSettime host.settime) where
  start_tap-IsQuiet : (s : Adxl36x) → IsQuiet s → IsQuiet (start_tap host s)
  start_tap-IsQuiet s (h, q) = (oneshot-Calm host ok 3 (s.regs 0x30) s.control h, q)

  tap_begin-IsQuiet : (s : Adxl36x) → IsQuiet s → IsQuiet (tap_begin host s)
  unfolding tap_begin
  tap_begin-IsQuiet s q =
      let strong = ltb (s.regs 0x2F) (tap_check s) in
      let taken = either IsQuiet strong {x = start_tap host s} {y = s} (start_tap-IsQuiet s q) q in
      let in_time =
        either IsQuiet (ltb s.tme_cnt ((s.tap_time + s.regs 0x32) % 2 ^ 64))
          {x = if strong then start_tap host s else s}
          {y = record s { tap_time = 0; tap_state = 0 }} taken q in
      let second =
        either IsQuiet (s.tap_state == 2)
          {x = if ltb s.tme_cnt ((s.tap_time + s.regs 0x32) % 2 ^ 64)
            then (if strong then start_tap host s else s)
            else record s { tap_time = 0; tap_state = 0 }}
          {y = s} in_time q in
      either IsQuiet (s.tap_state == 0) {x = if strong then start_tap host s else s} taken second

  sample_axes-IsQuiet : (s : Adxl36x) → IsQuiet s → IsQuiet (sample_axes host s)
  unfolding sample_axes adi_adxl36x_accel_convert
  sample_axes-IsQuiet s q =
      let taps = not (s.regs 0x2F == 0) && ((s.tap_sample % 2) == 0) in
      let measured = data_ready_set (adi_adxl36x_accel_convert s) in
      let tapped =
        either IsQuiet taps {x = tap_begin host measured} {y = measured}
          (tap_begin-IsQuiet measured q) q in
      either IsQuiet (measuring s.regs) {x = if taps then tap_begin host measured else measured}
        {y = s} tapped q

  comp_sample-IsQuiet : (s : Adxl36x) → IsQuiet s → IsQuiet (comp_sample host s)
  unfolding comp_sample
  comp_sample-IsQuiet s q =
      let s1 = sample_axes host s in
      let q1 = sample_axes-IsQuiet s q in
      sample_fifo-IsQuiet (sample_temp s1) (sample_temp-IsQuiet s1 q1)

  sampled-IsQuiet : (s : Adxl36x) → IsQuiet s → IsQuiet (process_cb host 0 s)
  unfolding process_cb adi_adxl36x_comp_cb adi_adxl36x_irq_update comp_case
  sampled-IsQuiet s (h, q) =
      let counted = record s {
        control = record (s.control) { timer_count = (s.control.timer_count + 1) % 2 ^ 64 };
      } in
      let stopped' = record (with_timers (timer_evt_stop host.settime) counted) {
        tme_cnt = counted.control.timer_count;
      } in
      let s1 = comp_sample host stopped' in
      let q1 =
        comp_sample-IsQuiet stopped' (timer_evt_stop-Still host.settime ok s.control.tmevt h, q) in
      let s2 = irq_update_line 0 s1 in
      let q2 = irq_update_line-IsQuiet 1 s2 (irq_update_line-IsQuiet 0 s1 q1) in
      (timer_evt_start-Still host.settime ok (irq_update_line 1 s2).control.tmevt q2.0, q2.1)

  Step-IsQuiet : {s s' : Adxl36x} → Step host s s' → IsQuiet s → IsQuiet s'
  unfolding adi_adxl36x_stop gpio_notify
  Step-IsQuiet {s} started q = start-IsQuiet s q
  Step-IsQuiet {s} (written bs) q = write-IsQuiet host ok bs s q
  Step-IsQuiet {s} (read olds) q = read-IsQuiet host ok olds s q
  Step-IsQuiet stopped q = q
  Step-IsQuiet {s} sampled q = sampled-IsQuiet s q
  Step-IsQuiet {s} (expired i armed) q = elim (Bool-cases (i == 0)) [
    | inl first ↦
        (let e : i ≡ 0 = ground arith in
          subst (λ k. IsQuiet (process_cb host k s)) (sym e) (sampled-IsQuiet s q))
    | inr other ↦ (let ne : i ≢ 0 = ground arith in let off = q.0 i ne in absurd cc)
  ]
  Step-IsQuiet (notified idx mvolt) q = q

  Reached-IsQuiet : {pins : ℕ → Pin} {s : Adxl36x} → Reached host pins s → IsQuiet s
  unfolding adi_adxl36x_init adi_adxl36x_reset
  Reached-IsQuiet fresh = (
    timer_evt_reset-Still host.settime ok timer_evt_init (timer_evt_init-Still host.settime ok),
    ((refl, refl), (refl, refl, refl, refl)),
  )
  Reached-IsQuiet (next r st) = Step-IsQuiet st (Reached-IsQuiet r)

-- If timerfd_settime(2) disarms a timer whose first time is 0, the device never detects anything: in
-- any order of callbacks and expired timers, no timer but the first is armed, the status has neither
-- activity nor inactivity, and REG_STATUS_2 reads as 0.
pub nothing_detected :
    (host : Host) (pins : ℕ → Pin) (s : Adxl36x) (i : ℕ)
    → IsSettime host.settime
    → Reached host pins s
    → i ≢ 0
    → ((s.control.tmevt i).armed ≡ false)
      × (s.status.act ≡ false)
      × (s.status.inact ≡ false)
      × ((read_status2 host s).0 ≡ 0)
unfolding read_status2 status2_byte
nothing_detected host pins s i ok r ne =
    let (still, (none, none2)) = Reached-IsQuiet host ok r in
    (still i ne, none.0, none.1, rw none2.0 (rw none2.1 (rw none2.2 (rw none2.3 refl))))
