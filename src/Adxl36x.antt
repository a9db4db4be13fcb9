-- ===== src/Adxl36x.antt =====
-- examples/i2c-adxl36x: the accelerometer behind an I2C bus. This file has its registers and its
-- status, from coremodel-adxl36x.h and the state of coremodel-adxl36x.c; the children have the rest.
pub mod Timers
pub mod Fifo
pub mod State
pub mod Write
pub mod Read
pub mod Sampling
pub mod Layout
pub mod Registers
pub mod Device
pub mod Stillness
pub mod Quiet
pub mod Detection
mod Tests
use Prim.Native.Nat.{bit_and}
use coremodel.Base.{ℕ, ◌+◌, ◌*◌, ◌/◌, ◌%◌, Bool, true, false, ◌==◌, if◌then◌else◌, not}

-- The registers that the code keeps a byte for, by their addresses.
abbrev pub Registers : Type 0
Registers = ℕ → ℕ

abbrev pub store : ℕ → ℕ → Registers → Registers
store addr v regs = λ a. if a == addr then v else regs a

-- `!!(v & m)`
abbrev pub any_bit : ℕ → ℕ → Bool
any_bit v m = not (bit_and v m == 0)

abbrev bit : Bool → ℕ
bit true = 1
bit false = 0

-- The bits of `status[0]`, from the lowest one on.
pub record Status : Type 0 where
  pub data_ready : Bool
  pub fifo_ready : Bool
  pub fifo_water_mark : Bool
  pub fifo_over_run : Bool
  pub act : Bool
  pub inact : Bool
  pub awake : Bool
  pub err_user_regs : Bool

unfoldable pub status_byte : Status → ℕ
status_byte s =
    bit s.data_ready
    + bit s.fifo_ready * 2
    + bit s.fifo_water_mark * 4
    + bit s.fifo_over_run * 8
    + bit s.act * 16
    + bit s.inact * 32
    + bit s.awake * 64
    + bit s.err_user_regs * 128

-- The bits of `status[1]` that the code sets; the others stay 0.
pub record Status2 : Type 0 where
  pub tap_one : Bool
  pub tap_two : Bool
  pub temp_adc_low : Bool
  pub temp_adc_hi : Bool

unfoldable pub status2_byte : Status2 → ℕ
status2_byte s = bit s.tap_one + bit s.tap_two * 2 + bit s.temp_adc_low * 4 + bit s.temp_adc_hi * 8

abbrev pub reg_status : ℕ
reg_status = 0x0B

abbrev pub reg_i2c_fifo_data : ℕ
reg_i2c_fifo_data = 0x18

abbrev pub reg_soft_reset : ℕ
reg_soft_reset = 0x1F

abbrev pub reg_time_act : ℕ
reg_time_act = 0x22

abbrev pub reg_act_inact_ctl : ℕ
reg_act_inact_ctl = 0x27

abbrev pub reg_fifo_control : ℕ
reg_fifo_control = 0x28

abbrev pub reg_fifo_samples : ℕ
reg_fifo_samples = 0x29

abbrev pub reg_filter_ctl : ℕ
reg_filter_ctl = 0x2C

abbrev pub reg_power_ctl : ℕ
reg_power_ctl = 0x2D

abbrev pub reg_self_test : ℕ
reg_self_test = 0x2E

abbrev pub reg_adc_ctl : ℕ
reg_adc_ctl = 0x3C

abbrev pub reg_temp_ctl : ℕ
reg_temp_ctl = 0x3D

abbrev pub reg_axis_mask : ℕ
reg_axis_mask = 0x43

-- `(power_ctl & REG_POWER_CTL_MEASURE_MASK) == 2`
abbrev pub measuring : Registers → Bool
measuring regs = (regs reg_power_ctl % 4) == 2
