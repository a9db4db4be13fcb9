-- ===== src/Rtc/Regs.antt =====
-- examples/i2c-ds3231-rtc/i2c-ds3231.c: the registers of the clock, and its alarms. The DS3234 of
-- examples/spi-ds3234-rtc/spi-ds3234.c has the same ones.
use coremodel.Base.{
  ℕ, ◌+◌, ◌*◌, ◌/◌, ◌%◌, ◌-◌, Bool, false, true, ltb, ◌==◌, if◌then◌else◌, u8, pos,
}
use coremodel.Rtc.{Tm, format_7bit_bcd, format_6bit_bcd, format_5bit_bcd, sub_int}

-- What `ds3231_state_t` and `ds3234_state_t` share.
pub record Regs : Type 0 where
  pub system_time : ℕ
  pub index : ℕ
  pub twelve_hour_flag : ℕ
  pub alarm1_sec : ℕ
  pub alarm1_min : ℕ
  pub alarm1_hours : ℕ
  pub alarm1_day_date : ℕ
  pub alarm2_min : ℕ
  pub alarm2_hours : ℕ
  pub alarm2_day_date : ℕ
  pub control : ℕ
  pub status : ℕ
  pub aging : ℕ

-- The values at power-on.
abbrev pub regs_init : ℕ → Regs
regs_init now = record {
  system_time = now;
  index = 0;
  twelve_hour_flag = 0;
  alarm1_sec = 0;
  alarm1_min = 0;
  alarm1_hours = 0;
  alarm1_day_date = 1;
  alarm2_min = 0;
  alarm2_hours = 0;
  alarm2_day_date = 1;
  control = 0x1C;
  status = 0x88;
  aging = 0;
}

-- `(v & 0x80) > 0`, `(v & 0x40) > 0`
abbrev pub bit7 : ℕ → Bool
bit7 v = (v / 128 % 2) == 1

abbrev pub bit6 : ℕ → Bool
bit6 v = (v / 64 % 2) == 1

-- The hour in the mode that the flag chooses.
abbrev pub hours_byte : ℕ → Tm → ℕ
hours_byte flag now =
    if ltb 0 flag
    then (if ltb 11 now.tm_hour
        then format_5bit_bcd (sub_int now.tm_hour 12) + 0x60
        else format_5bit_bcd (sub_int now.tm_hour 12) + 0x40)
    else format_6bit_bcd (pos now.tm_hour)

-- The day of an alarm, by week or by month.
abbrev pub day_matches : ℕ → Tm → Bool
day_matches day now =
    if bit6 day then day % 64 == now.tm_wday + 1 else day % 64 == format_6bit_bcd (pos now.tm_mday)

-- Whether alarm 1 is to be raised; `old` is the second of the last start.
unfoldable pub alarm1_due : ℕ → Tm → Regs → Bool
alarm1_due old now r =
    if bit7 r.alarm1_sec
    then (if old == format_7bit_bcd (pos now.tm_sec) then false else true)
    else (if bit7 r.alarm1_min
        then r.alarm1_sec % 128 == format_7bit_bcd (pos now.tm_sec)
        else (if bit7 r.alarm1_hours
            then r.alarm1_min % 128 == format_7bit_bcd (pos now.tm_min)
            else (if bit7 r.alarm1_day_date
                then r.alarm1_hours % 128 == hours_byte r.twelve_hour_flag now
                else day_matches r.alarm1_day_date now)))

-- Whether alarm 2 is to be raised; `old` is the minute of the last start.
unfoldable pub alarm2_due : ℕ → Tm → Regs → Bool
alarm2_due old now r =
    if bit7 r.alarm2_min
    then (if old == format_7bit_bcd (pos now.tm_min) then false else true)
    else (if bit7 r.alarm2_hours
        then r.alarm2_min % 128 == format_7bit_bcd (pos now.tm_min)
        else (if bit7 r.alarm2_day_date
            then r.alarm2_hours % 128 == hours_byte r.twelve_hour_flag now
            else day_matches r.alarm2_day_date now))

-- `s |= 1`, `s |= 2`
abbrev pub set_a1f : Bool → ℕ → ℕ
set_a1f due s = if due then s - s % 2 + 1 else s

abbrev pub set_a2f : Bool → ℕ → ℕ
set_a2f due s = if due then s - s / 2 % 2 * 2 + 2 else s

-- What a start of the bus does: the clock is read again, and the alarms are compared with it.
unfoldable pub read_clock : (ℕ → Tm) → ℕ → Regs → Regs
read_clock localtime now r =
    let old = localtime r.system_time in
    let s1 = set_a1f (alarm1_due old.tm_sec (localtime now) r) r.status in
    record r { system_time = now; status = set_a2f (alarm2_due old.tm_min (localtime now) r) s1 }

-- A register of the clock, as it is read. Register 0x0D is that of the second alarm's day, but it
-- gives that of the first.
unfoldable pub read_reg : Tm → Regs → ℕ → ℕ
read_reg now r offset =
    if offset == 0
    then format_7bit_bcd (pos now.tm_sec)
    else if offset == 1
    then format_7bit_bcd (pos now.tm_min)
    else if offset == 2
    then u8 (hours_byte r.twelve_hour_flag now)
    else if offset == 3
    then u8 (now.tm_wday + 1)
    else if offset == 4
    then format_6bit_bcd (pos now.tm_mday)
    else if offset == 5
    then u8 (now.tm_year / 100 * 128 + format_5bit_bcd (pos (now.tm_mon + 1)))
    else if offset == 6
    then u8 (now.tm_year % 100 / 10 * 16 + now.tm_year % 10)
    else if offset == 7
    then r.alarm1_sec
    else if offset == 8
    then r.alarm1_min
    else if offset == 9
    then r.alarm1_hours
    else if offset == 0xA
    then r.alarm1_day_date
    else if offset == 0xB
    then r.alarm2_min
    else if offset == 0xC
    then r.alarm2_hours
    else if offset == 0xD
    then r.alarm1_day_date
    else if offset == 0xE
    then r.control
    else if offset == 0xF
    then r.status
    else if offset == 0x10
    then r.aging
    else if offset == 0x11
    then 0x19
    else 0x40

-- A write of any register but the status: the time and the temperature are read only, and register
-- 0x0D sets the day of the first alarm.
unfoldable pub write_reg : ℕ → ℕ → Regs → Regs
write_reg offset d r =
    if offset == 2
    then record r { twelve_hour_flag = if bit6 d then 1 else 0 }
    else if offset == 7
    then record r { alarm1_sec = d }
    else if offset == 8
    then record r { alarm1_min = d }
    else if offset == 9
    then record r { alarm1_hours = d }
    else if offset == 0xA
    then record r { alarm1_day_date = d }
    else if offset == 0xB
    then record r { alarm2_min = d }
    else if offset == 0xC
    then record r { alarm2_hours = d }
    else if offset == 0xD
    then record r { alarm1_day_date = d }
    else if offset == 0xE
    then record r { control = d % 32 }
    else if offset == 0x10
    then record r { aging = d }
    else r
