-- ===== src/Adxl36x/Quiet.antt =====
-- examples/i2c-adxl36x/coremodel-adxl36x.c: the callbacks of the bus detect nothing.
use coremodel.Base.{
  either, ℕ, ◌≡◌, refl, Bool, true, false, ◌||◌, ◌&&◌, inl, inr, List, [], ◌∷◌, Option-cases, ◌==◌,
  if◌then◌else◌,
}
use coremodel.Adxl36x.{
  Status, Status2, status_byte, any_bit, measuring, reg_status, reg_i2c_fifo_data, reg_self_test,
  reg_temp_ctl,
}
use coremodel.Adxl36x.Timers.{IsSettime}
use coremodel.Adxl36x.State.{Adxl36x, Control, Host, oneshot}
use coremodel.Adxl36x.Write.{
  write_case, write_register, write_bytes, adi_adxl36x_write, after_write, before_write,
}
use coremodel.Adxl36x.Sampling.{
  adi_adxl36x_accel_convert, adi_adxl36x_temp_convert, adi_adxl36x_start,
}
use coremodel.Adxl36x.Read.{
  ack_default, ack_link, ack_status, read_status, read_status2, read_self_test, source_of, unnamed,
  is_x_data, read_register, step_read, adi_adxl36x_read, read_kept, read_other, read_samples,
}
use coremodel.Adxl36x.Stillness.{
  Still, Calm, timer_evt_start-Still, timer_evt_stop-Still, oneshot-Calm, write_effect-Calm,
}

-- Neither activity nor inactivity has been detected, and no tap and no temperature.
abbrev pub NoneSeen : Status → Type 0
NoneSeen st = (st.act ≡ false) × (st.inact ≡ false)

abbrev pub NoneSeen2 : Status2 → Type 0
NoneSeen2 st =
    (st.tap_one ≡ false)
    × (st.tap_two ≡ false)
    × (st.temp_adc_low ≡ false)
    × (st.temp_adc_hi ≡ false)

abbrev pub IsQuiet : Adxl36x → Type 0
IsQuiet s = Still s.control.tmevt × (NoneSeen s.status × NoneSeen2 s.status2)

pub start-IsQuiet : (s : Adxl36x) → IsQuiet s → IsQuiet (adi_adxl36x_start s)
unfolding adi_adxl36x_start
start-IsQuiet s q =
    let s1 = if measuring s.regs then adi_adxl36x_accel_convert s else s in
    let q1 : IsQuiet s1 =
      either IsQuiet (measuring s.regs) {x = adi_adxl36x_accel_convert s} {y = s} q q in
    either IsQuiet (s.count == 0)
      (either IsQuiet (any_bit (s.regs reg_temp_ctl) 1) {x = adi_adxl36x_temp_convert s1} {y = s1}
        q1 q1)
      q

and_false : (b : Bool) → (b && false) ≡ false
and_false true = refl
and_false false = refl

-- A read of either status acknowledges what was not detected.
abbrev Acked : Status × Control → Type 0
Acked (st, c) = Still c.tmevt × NoneSeen st

abbrev After : ℕ × Adxl36x → Type 0
After p = IsQuiet p.1

read_self_test-IsQuiet : (a : ℕ) (s : Adxl36x) → IsQuiet s → After (read_self_test a s)
unfolding read_self_test
read_self_test-IsQuiet a s q = either After (a == 0x0F) q (either After (a == 0x0E) q q)

read_kept-IsQuiet : (a : ℕ) (s : Adxl36x) → IsQuiet s → After (read_kept a s)
unfolding read_kept
read_kept-IsQuiet a s q =
    either After (is_x_data a && any_bit (s.regs reg_self_test) 1) {x = read_self_test a s}
      {y = (s.regs (source_of a), s)} (read_self_test-IsQuiet a s q) q

module _ (host : Host) (ok : IsSettime host.settime) where
  after_write-IsQuiet : (s : Adxl36x) → IsQuiet s → IsQuiet (after_write host s)
  unfolding after_write
  after_write-IsQuiet s (h, q) =
      either IsQuiet (measuring s.regs) (timer_evt_start-Still host.settime ok s.control.tmevt h, q)
        (h, q)

  write_register-IsQuiet : (a d : ℕ) (s : Adxl36x) → IsQuiet s → IsQuiet (write_register host a d s)
  unfolding write_register
  write_register-IsQuiet a d s (h, q) = elim (Option-cases (write_case a)) [
    | inl e ↦ rw (e, write_register) (h, q)
    | inr (m, e) ↦ rw (e, write_register) (write_effect-Calm host ok a _ s.control h, q)
  ]

  write_bytes-IsQuiet : (ds : List ℕ) (s : Adxl36x) → IsQuiet s → IsQuiet (write_bytes host ds s)
  unfolding write_bytes
  write_bytes-IsQuiet [] s q = q
  write_bytes-IsQuiet (d ∷ ds) s q =
      write_bytes-IsQuiet ds _
        (either IsQuiet (s.count == 0) q (write_register-IsQuiet s.addr d s q))

  pub write-IsQuiet :
      (bs : List ℕ) (s : Adxl36x) → IsQuiet s → IsQuiet (adi_adxl36x_write host bs s)
  unfolding adi_adxl36x_write
  write-IsQuiet bs s (h, q) = after_write-IsQuiet (write_bytes host bs (before_write host s)) (
      write_bytes-IsQuiet bs (before_write host s)
        (timer_evt_stop-Still host.settime ok s.control.tmevt h, q))

  read_status-IsQuiet : (s : Adxl36x) → IsQuiet s → IsQuiet (read_status host s).1
  unfolding read_status ack_status ack_link ack_default
  read_status-IsQuiet s (h, (none, none2)) =
      let calm : Acked (record (s.status) { act = false; inact = false }, s.control) =
        (h, (refl, refl)) in
      let acked =
        either Acked (s.control.activity_mode == 3) calm
          (either Acked (s.control.activity_mode == 1) calm calm) in
      rw (none.0, read_status) (rw (none.1, read_status) (acked.0, (acked.1, none2)))

  read_status2-IsQuiet : (s : Adxl36x) → IsQuiet s → IsQuiet (read_status2 host s).1
  unfolding read_status2
  read_status2-IsQuiet s (h, (none, none2)) =
      let hi = any_bit (s.regs reg_temp_ctl) 2 && s.status2.temp_adc_hi in
      let low = any_bit (s.regs reg_temp_ctl) 8 && s.status2.temp_adc_low in
      let c1 = if hi then oneshot host 4 s.control.time_temp_act s.control else s.control in
      let h1 : Calm c1 =
        either Calm hi (oneshot-Calm host ok 4 s.control.time_temp_act s.control h) h in
      let h2 = either Calm low (oneshot-Calm host ok 5 c1.time_temp_inact c1 h1) h1 in
      (h2, (none, (refl, refl, rw none2.2 (and_false _), rw none2.3 (and_false _))))

  read_other-IsQuiet : (a : ℕ) (s : Adxl36x) → IsQuiet s → After (read_other host a s)
  unfolding read_other
  read_other-IsQuiet a s q =
      let statuses =
        either After (a == 0x45) {x = read_status2 host s} {y = read_kept a s}
          (read_status2-IsQuiet s q) (read_kept-IsQuiet a s q) in
      either After (a == 0x44) {x = (status_byte s.status, s)}
        {y = if a == 0x45 then read_status2 host s else read_kept a s} q statuses

  read_register-IsQuiet : (a old : ℕ) (s : Adxl36x) → IsQuiet s → After (read_register host a old s)
  unfolding read_register read_samples
  read_register-IsQuiet a old s q =
      let samples =
        either After (a == reg_i2c_fifo_data) {x = read_samples old s} {y = read_other host a s} q
          (read_other-IsQuiet a s q) in
      let named =
        either After (a == reg_status) {x = read_status host s}
          {y = if a == reg_i2c_fifo_data then read_samples old s else read_other host a s}
          (read_status-IsQuiet s q) samples in
      either After (unnamed a) {x = (old, s)}
        {y = if a == reg_status
          then read_status host s
          else (if a == reg_i2c_fifo_data then read_samples old s else read_other host a s)}
        q named

  pub read-IsQuiet :
      (olds : List ℕ) (s : Adxl36x) → IsQuiet s → IsQuiet (adi_adxl36x_read host olds s).1
  unfolding adi_adxl36x_read
  read-IsQuiet [] s q = q
  read-IsQuiet (old ∷ olds) s q =
      let s1 = (read_register host s.addr old s).1 in
      let q1 = read_register-IsQuiet s.addr old s q in
      read-IsQuiet olds (step_read s1)
        (either IsQuiet ((s1.count == 0) || (s1.addr == reg_i2c_fifo_data)) q1 q1)
