-- ===== src/Adxl36x/Read.antt =====
-- examples/i2c-adxl36x/coremodel-adxl36x.c: `adi_adxl36x_read`, and the callbacks.
use coremodel.Base.{
  ℕ, ◌+◌, ◌/◌, ◌%◌, ◌-◌, ◌||◌, ◌&&◌, not, Bool, true, false, List, [], ◌∷◌, ◌==◌, if◌then◌else◌,
  ltb, get_or, u8, some, take, drop, pos, length,
}
use coremodel.If.{set_fault, St}
use coremodel.Bus.I2c.{I2cFunc}
use coremodel.Adxl36x.{
  Registers, Status, any_bit, status_byte, status2_byte, reg_status, reg_i2c_fifo_data,
  reg_soft_reset, reg_time_act, reg_self_test, reg_temp_ctl,
}
use coremodel.Adxl36x.Fifo.{read_fifo}
use coremodel.Adxl36x.State.{Adxl36x, Control, Host, oneshot}
use coremodel.Adxl36x.Write.{act_en, inact_en, adi_adxl36x_write}
use coremodel.Adxl36x.Sampling.{data_range_of, adi_adxl36x_start, adi_adxl36x_stop}

abbrev restart_act : Host → Registers → Control → Control
restart_act host regs c = if act_en regs == 0 then c else oneshot host 1 (regs reg_time_act) c

abbrev restart_inact : Host → Registers → Control → Control
restart_inact host regs c = if inact_en regs == 0 then c else oneshot host 2 c.time_inact c

-- The modes of REG_ACT_INACT_CTL_LINKLOOP: what a read of the status does to activity and inactivity.
unfoldable pub ack_default : Host → Registers → Status → Control → Status × Control
ack_default host regs st c =
    let c1 = if st.act then restart_inact host regs c else c in
    let c2 = if st.inact then restart_act host regs c1 else c1 in
    (record st { act = false; inact = false }, c2)

unfoldable pub ack_link : Host → Registers → Status → Control → Status × Control
ack_link host regs st c =
    if st.act
    then (record st { act = false; awake = true }, restart_inact host regs c)
    else (if st.inact
        then (record st { inact = false; awake = false }, restart_act host regs c)
        else (st, c))

unfoldable pub ack_status : Host → Registers → Status → Control → Status × Control
unfolding ack_default ack_link
ack_status host regs st c =
    let (st', c') =
      if c.activity_mode == 3
      then (record st { act = false; inact = false }, c)
      else (if c.activity_mode == 1 then ack_link host regs st c else ack_default host regs st c) in
    (
      record st' {
        data_ready = false;
        fifo_water_mark = false;
        fifo_over_run = false;
        fifo_ready = false;
        err_user_regs = false;
      },
      c',
    )

unfoldable pub read_status : Host → Adxl36x → ℕ × Adxl36x
unfolding ack_status
read_status host s =
    let (st', c') = ack_status host s.regs s.status s.control in
    (status_byte s.status, record s { status = st'; control = c' })

-- A read of REG_STATUS_2 clears a bit of the temperature only while its detection is enabled.
unfoldable pub read_status2 : Host → Adxl36x → ℕ × Adxl36x
read_status2 host s =
    let hi = any_bit (s.regs reg_temp_ctl) 2 && s.status2.temp_adc_hi in
    let low = any_bit (s.regs reg_temp_ctl) 8 && s.status2.temp_adc_low in
    let c1 = if hi then oneshot host 4 s.control.time_temp_act s.control else s.control in
    let c2 = if low then oneshot host 5 c1.time_temp_inact c1 else c1 in
    (
      status2_byte s.status2,
      record s {
        status2 = record {
          tap_one = false;
          tap_two = false;
          temp_adc_low = not low && s.status2.temp_adc_low;
          temp_adc_hi = not hi && s.status2.temp_adc_hi;
        };
        control = c2;
      },
    )

-- A self-test value; a fourth range reads behind `self_test_value`, where the model has 0.
abbrev pub self_test_value : ℕ → ℕ → ℕ
self_test_value range stc' =
    get_or (get_or ((1440 ∷ 4320 ∷ []) ∷ (2880 ∷ 8640 ∷ []) ∷ (5760 ∷ 17280 ∷ []) ∷ []) range [])
      stc' 0

abbrev pub next_stc : Adxl36x → Adxl36x
next_stc s = record s { stc = if s.stc == 0 then 1 else 0 }

abbrev pub tested : Adxl36x → Adxl36x
tested s = record s { fault = s.fault || (data_range_of s.regs == 3) }

-- REG_XDATA, REG_XDATA_H and REG_XDATA_L, in the self-test.
unfoldable pub read_self_test : ℕ → Adxl36x → ℕ × Adxl36x
read_self_test addr' s =
    let v = self_test_value (data_range_of s.regs) s.stc in
    if addr' == 0x0F
    then (v % 256, next_stc (tested s))
    else (if addr' == 0x0E then (v / 256 % 256, tested s) else (v / 256 % 256, next_stc (tested s)))

-- The members that the cases of the switch of a read give, from REG_SOFT_RESET to REG_AXIS_MASK.
abbrev pub config_sources : List ℕ
config_sources =
    0x1F ∷ 0x20 ∷ 0x21 ∷ 0x22 ∷ 0x23 ∷ 0x24 ∷ 0x25 ∷ 0x26 ∷ 0x27 ∷ 0x28 ∷ 0x29 ∷ 0x2A ∷ 0x2B ∷ 0x2C
    ∷ 0x2D ∷ 0x2E ∷ 0x2F ∷ 0x30 ∷ 0x31 ∷ 0x32 ∷ 0x33 ∷ 0x34 ∷ 0x35 ∷ 0x36 ∷ 0x37 ∷ 0x38 ∷ 0x39
    ∷ 0x3A ∷ 0x3B ∷ 0x3C ∷ 0x3D ∷ 0x3E ∷ 0x3F ∷ 0x40 ∷ 0x41 ∷ 0x42 ∷ 0x43 ∷ []

-- The member that a case gives; REG_XDATA, REG_YDATA and REG_ZDATA give the high bytes.
abbrev pub source_of : ℕ → ℕ
source_of addr' =
    if addr' == 0x08
    then 0x0E
    else (if addr' == 0x09
        then 0x10
        else (if addr' == 0x0A
            then 0x12
            else (if ltb addr' 0x1F then addr' else get_or config_sources (addr' - 0x1F) addr')))

-- No case of the switch.
abbrev pub unnamed : ℕ → Bool
unnamed addr' = (addr' == 0x04) || ((ltb 0x18 addr' && ltb addr' 0x1F) || ltb 0x4D addr')

abbrev pub is_x_data : ℕ → Bool
is_x_data addr' = (addr' == 0x08) || ((addr' == 0x0E) || (addr' == 0x0F))

-- The registers that read what is kept, but for the self-test.
unfoldable pub read_kept : ℕ → Adxl36x → ℕ × Adxl36x
unfolding read_self_test
read_kept addr' s =
    if is_x_data addr' && any_bit (s.regs reg_self_test) 1
    then read_self_test addr' s
    else (s.regs (source_of addr'), s)

-- REG_STATUS_COPY and REG_STATUS_2, and the registers that are kept.
unfoldable pub read_other : Host → ℕ → Adxl36x → ℕ × Adxl36x
unfolding read_status2 read_kept
read_other host addr' s =
    if addr' == 0x44
    then (status_byte s.status, s)
    else (if addr' == 0x45 then read_status2 host s else read_kept addr' s)

unfoldable pub read_samples : ℕ → Adxl36x → ℕ × Adxl36x
read_samples old s = let (d, f) = read_fifo s.regs old s.fifo in (d, record s { fifo = f })

-- One byte of a register; `old` is the byte that is in the buffer.
unfoldable pub read_register : Host → ℕ → ℕ → Adxl36x → ℕ × Adxl36x
unfolding read_status read_samples read_other
read_register host addr' old s =
    if unnamed addr'
    then (old, s)
    else (if addr' == reg_status
        then read_status host s
        else (if addr' == reg_i2c_fifo_data then read_samples old s else read_other host addr' s))

-- The address stays at the FIFO, and goes round from the register before it.
abbrev pub step_read : Adxl36x → Adxl36x
step_read s =
    let addr' = u8 (s.addr + 1) in
    let round = if addr' == reg_i2c_fifo_data then reg_soft_reset else addr' in
    if (s.count == 0) || (s.addr == reg_i2c_fifo_data)
    then s
    else record s { count = u8 (s.count + 1); addr = round }

-- A read into a buffer that has the bytes `olds`.
unfoldable pub adi_adxl36x_read : Host → List ℕ → Adxl36x → List ℕ × Adxl36x
unfolding read_register
adi_adxl36x_read host [] s = ([], s)
adi_adxl36x_read host (old ∷ olds) s =
    let (d, s1) = read_register host s.addr old s in
    let (ds, s2) = adi_adxl36x_read host olds (step_read s1) in (d ∷ ds, s2)

abbrev with_dev : (Adxl36x → Adxl36x) → St Adxl36x → St Adxl36x
with_dev f st =
    let dev' = f st.io.dev in
    set_fault dev'.fault (record st { io = record (st.io) { dev = dev' } })

-- The callbacks; a read goes to the buffer of the interface.
unfoldable pub adi_adxl36x_func : Host → I2cFunc Adxl36x
unfolding adi_adxl36x_read adi_adxl36x_write
adi_adxl36x_func host = record {
  start = some (λ st. (pos 1, with_dev adi_adxl36x_start st));
  write = some (λ len bs st. (pos len, with_dev (adi_adxl36x_write host (take len bs)) st));
  read = some (λ len st.
      let olds = take len (drop st.cif.offs st.cif.rdbuf) in
      let (bs, dev') = adi_adxl36x_read host olds st.io.dev in
      (pos (length bs), bs, with_dev (λ d. dev') st));
  stop = some (with_dev adi_adxl36x_stop);
}
