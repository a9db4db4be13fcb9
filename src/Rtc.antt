-- ===== src/Rtc.antt =====
-- examples/i2c-ds3231-rtc/i2c-ds3231.c and examples/spi-ds3234-rtc/spi-ds3234.c: real-time clocks.
-- localtime(3) and time(2) are arguments of the callbacks. The types and the BCD digits stand here;
-- examples/can-cr3020-rtc/can-cr3020.c has the same ones.
pub mod Regs
pub mod Ds3231
pub mod Ds3234
pub mod Alarms
pub mod Answering
pub mod Memory
pub mod Reading
pub mod Registers
pub mod Settable
pub mod Transferring
mod Tests
use coremodel.Base.{ℕ, ◌+◌, ◌-◌, ◌*◌, ◌/◌, ◌%◌, ◌^◌, Bool, ltb, ◌==◌, if◌then◌else◌, ℤ, pos, negsuc}

-- `struct tm`
pub record Tm : Type 0 where
  pub tm_sec : ℕ
  pub tm_min : ℕ
  pub tm_hour : ℕ
  pub tm_mday : ℕ
  pub tm_mon : ℕ
  pub tm_year : ℕ
  pub tm_wday : ℕ

-- The division truncates, and `& 0x7f` is taken of the two's complement.
abbrev pub format_7bit_bcd : ℤ → ℕ
format_7bit_bcd (pos v) = (v / 10 * 16 + v % 10) % 2 ^ 7
format_7bit_bcd (negsuc v) = (2 ^ 7 - ((v + 1) / 10 * 16 + (v + 1) % 10) % 2 ^ 7) % 2 ^ 7

abbrev pub format_6bit_bcd : ℤ → ℕ
format_6bit_bcd v = format_7bit_bcd v % 2 ^ 6

abbrev pub format_5bit_bcd : ℤ → ℕ
format_5bit_bcd v = format_7bit_bcd v % 2 ^ 5

-- `a - b` on `int`, for small numbers that are not negative.
abbrev pub sub_int : ℕ → ℕ → ℤ
sub_int a b = if ltb a b then negsuc (b - a - 1) else pos (a - b)
