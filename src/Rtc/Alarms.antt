-- ===== src/Rtc/Alarms.antt =====
-- examples/i2c-ds3231-rtc/i2c-ds3231.c and examples/spi-ds3234-rtc/spi-ds3234.c: the alarm flags.
use coremodel.Base.{ℕ, ◌/◌, ◌%◌, ◌<◌, ◌≤◌, ◌≡◌, ◌≢◌, ◌||◌, ◌&&◌, not, Bool, true, arith, ◌==◌}
use coremodel.Rtc.{Tm}
use coremodel.Rtc.Regs.{Regs, alarm1_due, alarm2_due, bit7, write_reg}
use coremodel.Rtc.Ds3234.{Ds3234, access_reg, spi_ds3234_cs}

-- A1F and A2F of the status.
abbrev pub a1f : ℕ → Bool
a1f status = (status % 2) == 1

abbrev pub a2f : ℕ → Bool
a2f status = (status / 2 % 2) == 1

-- Asserting the chip select raises exactly the flags of the alarms that are due, and clears none; the
-- other bits of the status stay, and the clock stands at the time that was read.
pub start_raises :
    (localtime : ℕ → Tm) (now csel : ℕ) (s : Ds3234)
    → csel ≢ 0
    → let old = localtime s.regs.system_time in
      let s' = spi_ds3234_cs localtime now csel s in
      (a1f s'.regs.status ≡ a1f s.regs.status || alarm1_due old.tm_sec (localtime now) s.regs)
      × (a2f s'.regs.status ≡ a2f s.regs.status || alarm2_due old.tm_min (localtime now) s.regs)
      × (s'.regs.status / 4 ≡ s.regs.status / 4)
      × (s'.regs.system_time ≡ now)
unfolding spi_ds3234_cs
start_raises localtime now csel s h = ground arith

write_reg-status : (k d : ℕ) (r : Regs) → (write_reg k d r).status ≡ r.status
unfolding write_reg
write_reg-status k d r = ground arith

-- The host never raises an alarm flag: any access leaves a flag as it is, unless it writes a 0 to the
-- flag's bit of the status register, which clears it.
pub flags_only_cleared :
    (now : Tm) (addr : ℕ) (write : Bool) (d : ℕ) (s : Ds3234)
    → let s' = (access_reg now addr write d s).1 in
      let written = write && (addr == 0xF) in
      (a1f s'.regs.status ≡ a1f s.regs.status && not (written && not (a1f d)))
      × (a2f s'.regs.status ≡ a2f s.regs.status && not (written && not (a2f d)))
unfolding access_reg
flags_only_cleared now addr write d s = ground (arith, write_reg-status addr d s.regs)

-- The alarm of every second compares the old second with the BCD digits of the new one: from the
-- tenth second of a minute on it is raised by any start, also when no second has passed.
pub every_second_spurious :
    (now : Tm) (r : Regs)
    → bit7 r.alarm1_sec ≡ true
    → 10 ≤ now.tm_sec
    → now.tm_sec < 60
    → alarm1_due now.tm_sec now r ≡ true
unfolding alarm1_due
every_second_spurious now r on lo hi = ground arith
