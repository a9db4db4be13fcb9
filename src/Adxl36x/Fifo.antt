-- ===== src/Adxl36x/Fifo.antt =====
-- examples/i2c-adxl36x/coremodel-adxl36x.c: `adi_adxl36x_fifo_sample`, and the register that the
-- samples are read from.
pub mod Contents
pub mod Filling
pub mod Queue
pub mod Wide
use Prim.Native.Nat.{bit_or}
use coremodel.Base.{
  ℕ, ◌+◌, ◌*◌, ◌/◌, ◌%◌, ◌^◌, ◌||◌, ◌&&◌, true, List, [], ◌∷◌, map, ltb, ◌==◌, if◌then◌else◌,
  get_or, set, length, u8, u16, u32, sub_u32,
}
use coremodel.Adxl36x.{Registers, Status, reg_fifo_control, reg_fifo_samples, reg_adc_ctl}

abbrev pub fifo_size : ℕ
fifo_size = 2048

pub record Fifo : Type 0 where
  pub sample_fifo : List ℕ
  pub sample_fifo_wpt : ℕ
  pub sample_fifo_rpt : ℕ
  pub fifo_count : ℕ
  pub sample_size : ℕ
  pub sample_count : ℕ
  pub read_count : ℕ
  pub fifo_trig : ℕ

-- The two bits of the width of a sample, from the register ADC_CTL.
abbrev pub fifo_width : Registers → ℕ
fifo_width regs = regs reg_adc_ctl / 64 % 4

-- A value in the FIFO; `tag` is the number of its channel.
abbrev pub temp_buf : ℕ → ℕ → ℕ → ℕ
temp_buf width tag v =
    if width == 1
    then u16 v / 64
    else (if width == 2 then u16 v / 16 else bit_or (u16 v) (tag * 2 ^ 14))

pub data Channel : Type 0 where
  x_axis y_axis z_axis temperature adc : Channel

-- The channels of REG_FIFO_CONTROL_CHANNEL_SELECT_*; none for the values without a name.
abbrev pub channels : ℕ → List Channel
channels select =
    get_or
      ((x_axis ∷ y_axis ∷ z_axis ∷ [])
        ∷ (x_axis ∷ [])
        ∷ (y_axis ∷ [])
        ∷ (z_axis ∷ [])
        ∷ (x_axis ∷ y_axis ∷ z_axis ∷ temperature ∷ [])
        ∷ (x_axis ∷ temperature ∷ [])
        ∷ (y_axis ∷ temperature ∷ [])
        ∷ (z_axis ∷ temperature ∷ [])
        ∷ (x_axis ∷ y_axis ∷ z_axis ∷ adc ∷ [])
        ∷ (x_axis ∷ adc ∷ [])
        ∷ (y_axis ∷ adc ∷ [])
        ∷ (z_axis ∷ adc ∷ [])
        ∷ [])
      select []

-- Every axis is given the first element of `accel`.
abbrev pub channel_value : ℕ → ℕ → ℕ → Channel → ℕ
channel_value width accel0 temp c = elim c [
  | x_axis ↦ temp_buf width 0 accel0
  | y_axis ↦ temp_buf width 1 accel0
  | z_axis ↦ temp_buf width 2 accel0
  | temperature ↦ temp_buf width 3 temp
  | adc ↦ 0
]

abbrev pub fifo_rsize : Fifo → ℕ
fifo_rsize f = sub_u32 f.sample_fifo_wpt f.sample_fifo_rpt

abbrev pub fifo_wsize : Fifo → ℕ
fifo_wsize f = sub_u32 fifo_size (fifo_rsize f)

abbrev pub fifo_samples : Registers → ℕ
fifo_samples regs = regs reg_fifo_control / 4 % 2 * 256 + regs reg_fifo_samples

-- `sample_fifo[sample_fifo_wpt%FIFO_SIZE] = v; sample_fifo_wpt++;`
abbrev pub put : ℕ → Fifo → Fifo
put v f = record f {
  sample_fifo = set f.sample_fifo (f.sample_fifo_wpt % fifo_size) v;
  sample_fifo_wpt = u32 (f.sample_fifo_wpt + 1);
}

unfoldable pub put_all : List ℕ → Fifo → Fifo
put_all [] f = f
put_all (v ∷ vs) f = put_all vs (put v f)

-- One sample, which has the values `vs`.
unfoldable pub put_sample : List ℕ → Fifo → Fifo
unfolding put_all
put_sample vs f = record (put_all vs f) {
  sample_size = length vs;
  sample_count = u32 (f.sample_count + 1);
  fifo_count = u32 (f.fifo_count + length vs);
}

abbrev pub water_mark : Registers → Fifo → Status → Status
water_mark regs f st =
    if ltb f.sample_count (fifo_samples regs) then st else record st { fifo_water_mark = true }

-- What remains once the mode has let the sample through. A sample without channels only has the
-- count tested.
unfoldable pub add_sample : Registers → List ℕ → Status → Fifo → Status × Fifo
unfolding put_sample
add_sample regs vs st f =
    let f' = if length vs == 0 then f else put_sample vs f in
    if ltb (fifo_wsize f) (length vs) then (st, f) else (water_mark regs f' st, f')

unfoldable pub adi_adxl36x_fifo_sample : Registers → ℕ → ℕ → Status → Fifo → Status × Fifo
unfolding add_sample
adi_adxl36x_fifo_sample regs accel0 temp st f =
    let control = regs reg_fifo_control % 4 in
    let full = fifo_wsize f == 0 in
    let waits = (f.sample_count == fifo_samples regs) || (f.fifo_trig == 0) || full in
    let values =
      map (channel_value (fifo_width regs) accel0 temp)
        (channels (regs reg_fifo_control / 8 % 16)) in
    if (control == 1) && full
    then (record st { fifo_over_run = true }, f)
    else (if (control == 3) && waits then (st, f) else add_sample regs values st f)

abbrev pub oldest : Fifo → ℕ
oldest f = get_or f.sample_fifo (f.sample_fifo_rpt % fifo_size) 0

-- `sample_fifo_rpt++; fifo_count--;`
abbrev pub drop_oldest : Fifo → Fifo
drop_oldest f = record f {
  sample_fifo_rpt = u32 (f.sample_fifo_rpt + 1);
  fifo_count = sub_u32 f.fifo_count 1;
}

-- The byte that is read next, at each width.
unfoldable pub read_value : ℕ → Fifo → ℕ × Fifo
read_value width f =
    let f' = drop_oldest f in
    let low : ℕ × Fifo = (oldest f % 256, f') in
    let part = f.read_count % 3 in
    if width == 1
    then low
    else (if width == 2
        then (if part == 0
            then (u8 (oldest f / 16), f)
            else (if part == 1
                then (bit_or (oldest f % 16 * 16) (oldest f' / 256 % 16), f')
                else low))
        else (if (f.read_count % 2) == 0 then (u8 (oldest f / 256), f) else low))

-- A byte of REG_I2C_FIFO_DATA; the byte of the buffer, `old`, stays when the FIFO is empty.
unfoldable pub read_fifo : Registers → ℕ → Fifo → ℕ × Fifo
unfolding read_value
read_fifo regs old f =
    let (d, f1) = read_value (fifo_width regs) f in
    let last = (f1.fifo_count % f1.sample_size) == 0 in
    let counted = if last then sub_u32 f1.sample_count 1 else f1.sample_count in
    if f.fifo_count == 0
    then (old, f)
    else (d, record f1 { sample_count = counted; read_count = u32 (f1.read_count + 1) })
