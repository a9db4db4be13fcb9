-- ===== src/Adxl36x/Sampling.antt =====
-- examples/i2c-adxl36x/coremodel-adxl36x.c: `adi_adxl36x_accel_convert`, `adi_adxl36x_temp_convert`,
-- `adi_adxl36x_start`, `adi_adxl36x_stop`, `adi_adxl36x_irq_update` and `adi_adxl36x_comp_cb`.
use Prim.Native.Nat.{bit_and}
use coremodel.Base.{
  ℤ, ℕ, ◌+◌, ◌-◌, ◌*◌, ◌/◌, ◌%◌, ◌^◌, ◌||◌, ◌&&◌, not, Bool, true, false, [], ◌∷◌, ◌==◌,
  if◌then◌else◌, ltb, get_or, set, replicate, is_zero, u32,
}
use coremodel.Adxl36x.{
  Registers, store, any_bit, status_byte, status2_byte, reg_time_act, reg_fifo_control,
  reg_filter_ctl, reg_temp_ctl, reg_axis_mask, measuring,
}
use coremodel.Adxl36x.Timers.{timer_evt_start, timer_evt_stop}
use coremodel.Adxl36x.Fifo.{adi_adxl36x_fifo_sample}
use coremodel.Adxl36x.State.{Adxl36x, Host, oneshot, set_pin}
use coremodel.Adxl36x.Write.{act_en, inact_en, with_timers}

-- The bits of the range choose among three scales.
abbrev pub data_range_of : Registers → ℕ
data_range_of regs = regs reg_filter_ctl / 64 % 4

-- The acceleration is a constant of the source; a fourth range reads behind `range_scale`, where the
-- model has 1.
abbrev pub accel_of : ℕ → ℕ
accel_of range = (2509 * 256000000 + 32768) / 2510502 / get_or (1 ∷ 2 ∷ 4 ∷ []) range 1 / 16

-- A value in two registers, the high byte first.
abbrev pub store_data : ℕ → ℕ → Registers → Registers
store_data addr v regs = store (addr + 1) (v % 256 / 4 * 4) (store addr (v / 256 % 256) regs)

unfoldable pub adi_adxl36x_accel_convert : Adxl36x → Adxl36x
adi_adxl36x_accel_convert s =
    let range = data_range_of s.regs in
    let v = accel_of range in
    record s {
      regs = store_data 0x12 v (store_data 0x10 v (store_data 0x0E v s.regs));
      accel = replicate 3 (v / 4);
      fault = s.fault || (range == 3);
    }

abbrev pub temp_of : ℕ
temp_of = ((6400 - 6400) * 13824 / 256 + 42240) / 64

unfoldable pub adi_adxl36x_temp_convert : Adxl36x → Adxl36x
adi_adxl36x_temp_convert s = record s { regs = store_data 0x14 temp_of s.regs; temp = temp_of / 4 }

unfoldable pub adi_adxl36x_stop : Adxl36x → Adxl36x
adi_adxl36x_stop s = record s { count = 0; addr = 0 }

unfoldable pub adi_adxl36x_start : Adxl36x → Adxl36x
unfolding adi_adxl36x_accel_convert adi_adxl36x_temp_convert
adi_adxl36x_start s =
    if s.count == 0
    then (let s1 = if measuring s.regs then adi_adxl36x_accel_convert s else s in
        if any_bit (s.regs reg_temp_ctl) 1 then adi_adxl36x_temp_convert s1 else s1)
    else s

-- The level of one of the two interrupt lines.
abbrev pub irq_level : ℕ → Adxl36x → Bool
irq_level idx s =
    let lower = s.regs (0x2A + idx) in
    let upper = s.regs (0x3A + idx) in
    any_bit (bit_and (status_byte s.status) lower) 0x7F
    || (any_bit (bit_and (status2_byte s.status2) upper) 0xBF
        || any_bit (bit_and (status_byte s.status) upper) 0x80)

-- A change of the line sets the pin by the level that was last notified for it.
abbrev pub irq_update_line : ℕ → Adxl36x → Adxl36x
irq_update_line idx s =
    let irql = irq_level idx s in
    let level = if is_zero (s.control.pins idx).mvolt then 3300 else 0 in
    let same = if irql then s.irq_line idx else not (s.irq_line idx) in
    if same then s else record s {
      control = set_pin idx level s.control;
      irq_line = λ i. if i == idx then irql else s.irq_line i;
    }

unfoldable pub adi_adxl36x_irq_update : Adxl36x → Adxl36x
adi_adxl36x_irq_update s = irq_update_line 1 (irq_update_line 0 s)

abbrev pub with_oneshot : Host → ℕ → ℕ → Adxl36x → Adxl36x
with_oneshot host idx ticks s = record s { control = oneshot host idx ticks s.control }

-- `accel` on the axis that taps are detected on, which is none if the bits are 3.
abbrev pub tap_axis : Registers → ℕ
tap_axis regs = regs reg_axis_mask / 16 % 4

abbrev pub tap_check : Adxl36x → ℕ
tap_check s = get_or s.accel (tap_axis s.regs) 0

abbrev pub start_tap : Host → Adxl36x → Adxl36x
start_tap host s = with_oneshot host 3 (s.regs 0x30) (record s { tap_sample = 1 })

-- The beginning of a tap.
unfoldable pub tap_begin : Host → Adxl36x → Adxl36x
tap_begin host s =
    let strong = ltb (s.regs 0x2F) (tap_check s) in
    if s.tap_state == 0
    then (if strong then start_tap host s else s)
    else (if s.tap_state == 2
        then (if ltb s.tme_cnt ((s.tap_time + s.regs 0x32) % 2 ^ 64)
            then (if strong then start_tap host s else s)
            else record s { tap_time = 0; tap_state = 0 })
        else s)

abbrev pub data_ready_set : Adxl36x → Adxl36x
data_ready_set s = record s { status = record (s.status) { data_ready = true } }

-- `case 0`: the acceleration, the temperature, and the FIFO.
unfoldable pub sample_axes : Host → Adxl36x → Adxl36x
unfolding tap_begin adi_adxl36x_accel_convert
sample_axes host s =
    let taps = not (s.regs 0x2F == 0) && ((s.tap_sample % 2) == 0) in
    let measured = data_ready_set (adi_adxl36x_accel_convert s) in
    let tapped = if taps then tap_begin host measured else measured in
    if measuring s.regs then tapped else s

unfoldable pub sample_temp : Adxl36x → Adxl36x
unfolding adi_adxl36x_temp_convert
sample_temp s =
    if any_bit (s.regs reg_temp_ctl) 1 then data_ready_set (adi_adxl36x_temp_convert s) else s

unfoldable pub sample_fifo : Adxl36x → Adxl36x
sample_fifo s =
    let (status', fifo') =
      adi_adxl36x_fifo_sample s.regs (get_or s.accel 0 0) s.temp s.status s.fifo in
    if (s.regs reg_fifo_control % 4) == 0 then s else record s { status = status'; fifo = fifo' }

unfoldable pub comp_sample : Host → Adxl36x → Adxl36x
unfolding sample_axes sample_temp sample_fifo
comp_sample host s = sample_fifo (sample_temp (sample_axes host s))

-- `abs(a - b)`
abbrev pub distance : ℕ → ℕ → ℕ
distance a b = a - b + (b - a)

-- The value of `check` that is compared, by the two bits of the mode.
abbrev pub checked : ℕ → ℕ → ℕ → ℕ → ℕ
checked en v ref check = if en == 1 then v else (if en == 3 then distance v ref else check)

-- One turn of the loop of `case 1`; `check` goes on from one axis to the next.
unfoldable pub comp_act_axis : Host → ℕ → ℕ × Adxl36x → ℕ × Adxl36x
comp_act_axis host i (check, s) =
    let v = get_or s.accel i 0 / 4 in
    let check' = checked (act_en s.regs) v (get_or s.act_ref i 0) check in
    let active = record s { status = record (s.status) { act = true; awake = true } } in
    let looped =
      if s.control.activity_mode == 3
      then with_oneshot host 2 s.control.time_inact active
      else active in
    let next =
      if ltb s.control.act_threshold check'
      then looped
      else record s { act_ref = set s.act_ref i (u32 v) } in
    if any_bit (s.regs reg_axis_mask) (2 ^ i) then (check, s) else (check', next)

unfoldable pub comp_act : Host → Adxl36x → Adxl36x
unfolding comp_act_axis
comp_act host s = (comp_act_axis host 2 (comp_act_axis host 1 (comp_act_axis host 0 (0, s)))).1

-- One turn of the loop of `case 2`.
unfoldable pub comp_inact_axis : Host → ℕ → ℕ × Adxl36x → ℕ × Adxl36x
comp_inact_axis host i (check, s) =
    let v = get_or s.accel i 0 / 4 in
    let check' = checked (inact_en s.regs) v (get_or s.inact_ref i 0) check in
    let inactive = record s { status = record (s.status) { inact = true } } in
    let asleep = record s { status = record (s.status) { inact = true; awake = false } } in
    let looped =
      if s.control.activity_mode == 3
      then with_oneshot host 1 (s.regs reg_time_act) asleep
      else inactive in
    let next =
      if ltb check' s.control.inact_threshold
      then looped
      else record s { inact_ref = set s.inact_ref i (u32 v) } in
    if any_bit (s.regs reg_axis_mask) (2 ^ i) then (check, s) else (check', next)

unfoldable pub comp_inact : Host → Adxl36x → Adxl36x
unfolding comp_inact_axis
comp_inact host s =
    (comp_inact_axis host 2 (comp_inact_axis host 1 (comp_inact_axis host 0 (0, s)))).1

-- `case 3`: the end of a tap, or of the time after it.
unfoldable pub comp_tap : Host → Adxl36x → Adxl36x
comp_tap host s =
    let weak = ltb (tap_check s) (s.regs 0x2F) in
    let latent = s.regs 0x31 in
    let once = record s {
      status2 = record (s.status2) { tap_one = true };
      tap_time = (s.tme_cnt + latent) % 2 ^ 64;
      tap_state = 1;
    } in
    let twice = if weak then record s { status2 = record (s.status2) { tap_two = true } } else s in
    if s.tap_state == 0
    then (if weak then with_oneshot host 3 latent once else record s { tap_sample = 0 })
    else (if s.tap_state == 1
        then record s { tap_sample = 0; tap_state = 2 }
        else (if s.tap_state == 2
            then record twice { tap_time = 0; tap_state = 0; tap_sample = 0 }
            else s))

-- `case 4` and `case 5`.
unfoldable pub comp_temp_act : Adxl36x → Adxl36x
comp_temp_act s =
    if ltb s.temp s.control.temp_threshold_h
    then s
    else record s { status2 = record (s.status2) { temp_adc_hi = true } }

unfoldable pub comp_temp_inact : Adxl36x → Adxl36x
comp_temp_inact s =
    if ltb s.control.temp_threshold_l s.temp
    then s
    else record s { status2 = record (s.status2) { temp_adc_low = true } }

unfoldable pub comp_case : Host → ℕ → Adxl36x → Adxl36x
unfolding comp_sample comp_act comp_inact comp_tap comp_temp_act comp_temp_inact
comp_case host icomp s =
    if icomp == 0
    then comp_sample host s
    else (if icomp == 1
        then comp_act host s
        else (if icomp == 2
            then comp_inact host s
            else (if icomp == 3
                then comp_tap host s
                else (if icomp == 4
                    then comp_temp_act s
                    else (if icomp == 5 then comp_temp_inact s else s)))))

unfoldable pub adi_adxl36x_comp_cb : Host → ℕ → Adxl36x → Adxl36x
unfolding comp_case adi_adxl36x_irq_update
adi_adxl36x_comp_cb host icomp s =
    let stopped = with_timers (timer_evt_stop host.settime) s in
    let s' = comp_case host icomp (record stopped { tme_cnt = s.control.timer_count }) in
    with_timers (timer_evt_start host.settime) (adi_adxl36x_irq_update s')

-- `process_cb`, for the timer `idx` that has expired.
unfoldable pub process_cb : Host → ℕ → Adxl36x → Adxl36x
unfolding adi_adxl36x_comp_cb
process_cb host idx s =
    let counted = record s {
      control = record (s.control) { timer_count = (s.control.timer_count + 1) % 2 ^ 64 };
    } in
    adi_adxl36x_comp_cb host idx (if idx == 0 then counted else s)

-- `gpio_notify`, for one of the two pins.
unfoldable pub gpio_notify : ℕ → ℤ → Adxl36x → Adxl36x
gpio_notify idx mvolt' s = record s {
  control = record (s.control) {
    pins = λ i. if i == idx then record (s.control.pins i) { mvolt = mvolt' } else s.control.pins i;
  };
}
