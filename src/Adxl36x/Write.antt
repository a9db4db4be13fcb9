-- ===== src/Adxl36x/Write.antt =====
-- examples/i2c-adxl36x/coremodel-adxl36x.c: `adi_adxl36x_write`.
use Prim.Native.Nat.{bit_and, bit_or}
use coremodel.Base.{
  ℕ, ◌+◌, ◌*◌, ◌/◌, ◌%◌, ◌||◌, Bool, List, [], ◌∷◌, Option, none, some, ◌==◌, if◌then◌else◌, u8,
  get_or, get_elem?, ltb, ◌-◌,
}
use coremodel.Adxl36x.{
  Registers, store, any_bit, reg_time_act, reg_act_inact_ctl, reg_filter_ctl, reg_temp_ctl,
  measuring,
}
use coremodel.Adxl36x.Timers.{Timers, timer_evt_start, timer_evt_stop, timer_evt_set_frequency}
use coremodel.Adxl36x.State.{Adxl36x, Control, Host, oneshot, set_pin}

-- The cases of the switch of a write for the registers from 0x1F to 0x43, and from 0x49 to 0x4D: the
-- member of the state that is set, and the bits that it keeps. A member has the address of the register
-- that the header names like it.
abbrev pub config_cases : List (ℕ × ℕ)
config_cases =
    (0x1F, 0x02)
    ∷ (0x20, 0x7F)
    ∷ (0x21, 0xFC)
    ∷ (0x22, 0xFF)
    ∷ (0x23, 0x7F)
    ∷ (0x24, 0xFC)
    ∷ (0x25, 0xFF)
    ∷ (0x26, 0xFF)
    ∷ (0x27, 0xFF)
    ∷ (0x28, 0x7F)
    ∷ (0x29, 0xFF)
    ∷ (0x2A, 0xFF)
    ∷ (0x2B, 0xFF)
    ∷ (0x2C, 0xEF)
    ∷ (0x2D, 0x7F)
    ∷ (0x2E, 0x03)
    ∷ (0x2F, 0xFF)
    ∷ (0x30, 0xFF)
    ∷ (0x31, 0xFF)
    ∷ (0x32, 0xFF)
    ∷ (0x33, 0x1F)
    ∷ (0x34, 0x1F)
    ∷ (0x35, 0x1F)
    ∷ (0x36, 0x3F)
    ∷ (0x37, 0x3F)
    ∷ (0x38, 0x3F)
    ∷ (0x39, 0xDF)
    ∷ (0x3A, 0xDF)
    ∷ (0x3B, 0xDF)
    ∷ (0x3C, 0xCB)
    ∷ (0x3D, 0x8B)
    ∷ (0x3E, 0x7F)
    ∷ (0x3F, 0xFC)
    ∷ (0x40, 0x7F)
    ∷ (0x41, 0xFC)
    ∷ (0x42, 0xFF)
    ∷ (0x43, 0x37)
    ∷ []

abbrev pedometer_cases : List (ℕ × ℕ)
pedometer_cases = (0x49, 0x07) ∷ (0x4A, 0x7F) ∷ (0x4B, 0xFF) ∷ (0x4C, 0x7F) ∷ (0x4D, 0xFF) ∷ []

unfoldable pub write_case : ℕ → Option (ℕ × ℕ)
write_case addr =
    if ltb addr 0x1F
    then none
    else (if ltb addr 0x49
        then get_elem? config_cases (addr - 0x1F)
        else get_elem? pedometer_cases (addr - 0x49))

-- A threshold or a time, from its two registers.
abbrev pub high_low : ℕ → ℕ → ℕ
high_low h l = l / 4 + h * 64

-- Detection is enabled, absolute or with a reference: the two bits are 1 or 3.
abbrev pub enabled : ℕ → Bool
enabled bits = (bits == 1) || (bits == 3)

abbrev pub act_en : Registers → ℕ
act_en regs = regs reg_act_inact_ctl % 4

abbrev pub inact_en : Registers → ℕ
inact_en regs = regs reg_act_inact_ctl / 4 % 4

-- The cases REG_THRESH_ACT_L to REG_ACT_INACT_CTL; `regs` are the registers after the write.
unfoldable pub activity_effect : Host → ℕ → Registers → Control → Control
activity_effect host addr regs c =
    if addr == 0x21
    then record c { act_threshold = high_low (regs 0x20) (regs 0x21) }
    else (if addr == 0x22
        then (if enabled (act_en regs) then oneshot host 1 (regs reg_time_act) c else c)
        else (if addr == 0x24
            then record c { inact_threshold = high_low (regs 0x23) (regs 0x24) }
            else (if addr == 0x26
                then (let c' = record c { time_inact = high_low (regs 0x25) (regs 0x26) } in
                    if enabled (inact_en regs) then oneshot host 2 c'.time_inact c' else c')
                else (if addr == 0x27
                    then record c { activity_mode = regs reg_act_inact_ctl / 16 % 4 }
                    else c))))

-- An interrupt that is active when low sets the pin.
unfoldable pub int_low_effect : ℕ → ℕ → Control → Control
int_low_effect idx v c = if (v / 128 % 2) == 1 then set_pin idx 3300 c else c

-- Twice the rates of REG_FILTER_CTL_ODR; the rest leaves the rate as it is.
abbrev pub odr_of : ℕ → ℕ → ℕ
odr_of bits odr' = get_or (25 ∷ 50 ∷ 100 ∷ 200 ∷ 400 ∷ 800 ∷ []) bits odr'

unfoldable pub filter_effect : Host → Registers → Control → Control
filter_effect host regs c =
    let odr' = odr_of (regs reg_filter_ctl % 8) c.twice_odr in
    record c {
      data_range = regs reg_filter_ctl / 64 % 4;
      twice_odr = odr';
      timer_count = 0;
      tmevt = timer_evt_set_frequency host.settime (host.period odr') c.tmevt;
    }

-- The cases REG_TEMP_ADC_OVER_THRSH_H to REG_TEMP_ADC_TIMER.
unfoldable pub temp_effect : Host → ℕ → Registers → Control → Control
temp_effect host addr regs c =
    if addr == 0x3E
    then record c { temp_threshold_h = regs 0x3E * 64 }
    else (if addr == 0x3F
        then record c { temp_threshold_h = bit_or c.temp_threshold_h (regs 0x3F / 4) }
        else (if addr == 0x40
            then record c { temp_threshold_l = regs 0x40 * 64 }
            else (if addr == 0x41
                then record c { temp_threshold_l = bit_or c.temp_threshold_l (regs 0x41 / 4) }
                else (if addr == 0x42
                    then (let c1 = record c {
                      time_temp_inact = regs 0x42 / 16;
                      time_temp_act = regs 0x42 % 16;
                    } in
                        let c2 =
                          if any_bit (regs reg_temp_ctl) 2
                          then oneshot host 4 c1.time_temp_act c1
                          else c1 in
                        if any_bit (regs reg_temp_ctl) 8
                        then oneshot host 5 c2.time_temp_inact c2
                        else c2)
                    else c))))

unfoldable pub write_effect : Host → ℕ → Registers → Control → Control
unfolding activity_effect int_low_effect filter_effect temp_effect
write_effect host addr regs c =
    if ltb addr 0x28
    then activity_effect host addr regs c
    else (if addr == 0x2A
        then int_low_effect 0 (regs 0x2A) c
        else (if addr == 0x2B
            then int_low_effect 1 (regs 0x2B) c
            else (if addr == 0x2C
                then filter_effect host regs c
                else temp_effect host addr regs c)))

-- One byte for a register; one that cannot be written drops it.
unfoldable pub write_register : Host → ℕ → ℕ → Adxl36x → Adxl36x
write_register host addr' d s = elim (write_case addr') [
  | none ↦ s
  | some (member, mask) ↦
      (let regs' = store member (bit_and d mask) s.regs in
        record s { regs = regs'; control = write_effect host addr' regs' s.control })
]

-- `state->count` and `state->addr` are bytes: after 255 of them the next one is an address again.
abbrev pub step_write : Adxl36x → Adxl36x
step_write s = record s { count = u8 (s.count + 1); addr = u8 (s.addr + 1) }

unfoldable pub write_bytes : Host → List ℕ → Adxl36x → Adxl36x
unfolding write_register
write_bytes host [] s = s
write_bytes host (d ∷ ds) s =
    let next =
      if s.count == 0
      then record s { addr = d % 128; count = 1 }
      else step_write (write_register host s.addr d s) in
    write_bytes host ds next

abbrev pub with_timers : (Timers → Timers) → Adxl36x → Adxl36x
with_timers f s = record s { control = record (s.control) { tmevt = f s.control.tmevt } }

-- The code before the loop, and the code after it.
abbrev pub before_write : Host → Adxl36x → Adxl36x
before_write host s = record (with_timers (timer_evt_stop host.settime) s) {
  tme_cnt = s.control.timer_count;
}

unfoldable pub after_write : Host → Adxl36x → Adxl36x
after_write host s =
    if measuring s.regs
    then with_timers (timer_evt_start host.settime) (record s { tme_init = 1 })
    else record s { tme_init = 0 }

unfoldable pub adi_adxl36x_write : Host → List ℕ → Adxl36x → Adxl36x
unfolding write_bytes after_write
adi_adxl36x_write host bs s = after_write host (write_bytes host bs (before_write host s))
