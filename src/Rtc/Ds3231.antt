-- ===== src/Rtc/Ds3231.antt =====
-- examples/i2c-ds3231-rtc/i2c-ds3231.c: the clock behind an I2C bus.
use coremodel.Base.{
  ℕ, ◌+◌, ◌-◌, ◌*◌, ◌/◌, ◌%◌, zero, suc, Bool, true, false, List, [], ◌∷◌, some, ◌==◌,
  if◌then◌else◌, length, take, u8, pos,
}
use coremodel.If.{set_fault}
use coremodel.Bus.I2c.{I2cFunc}
use coremodel.Rtc.{Tm}
use coremodel.Rtc.Regs.{Regs, regs_init, read_clock, read_reg, write_reg}

-- `ds3231_state_t`
pub record Ds3231 : Type 0 where
  pub regs : Regs
  pub start : ℕ

abbrev pub ds3231_init : ℕ → Ds3231
ds3231_init now = record { regs = regs_init now; start = 0 }

unfoldable pub i2c_ds3231_start : (ℕ → Tm) → ℕ → Ds3231 → Ds3231
unfolding read_clock
i2c_ds3231_start localtime now s = record { regs = read_clock localtime now s.regs; start = 1 }

-- The value that a write of the status leaves, and that the next one in the same call starts from.
abbrev pub status_after : ℕ → ℕ → ℕ → ℕ
status_after temp d status =
    let t = if (d / 8 % 2) == 1 then 8 else temp in
    let t' = if (d / 2 % 2) == 1 then u8 (t + status / 2 % 2 * 2) else t in
    if (d % 2) == 1 then u8 (t' + status % 2) else t'

-- The loop of a write, from the `idx`th byte on; `temp` is the variable of that name.
unfoldable pub write_from : ℕ → ℕ → List ℕ → Regs → Regs
write_from idx temp [] r = r
write_from idx temp (d ∷ ds) r =
    let offset = (idx + r.index) % 0x13 in
    let st = status_after temp d r.status in
    if offset == 0xF
    then write_from (suc idx) st ds (record r { status = st })
    else write_from (suc idx) temp ds (write_reg offset d r)

-- The index after a loop over the bytes up to `len`: that of the last one, and one more.
abbrev pub next_index : ℕ → Regs → Regs
next_index len r = record r { index = ((len - 1 + r.index) % 0x13 + 1) % 0x13 }

-- `len` is the number of the bytes. When no byte is left for the loop, the code computes the index
-- from a variable that was never set, or reads `data[0]` where there is none: a fault.
unfoldable pub i2c_ds3231_write : List ℕ → Ds3231 → Bool × Ds3231
unfolding write_from
i2c_ds3231_write [] s = (true, record s { start = 0 })
i2c_ds3231_write (d ∷ ds) s =
    let addressed = record (s.regs) { index = d } in
    if s.start == 1
    then (if length ds == 0 then (false, record { regs = addressed; start = 0 }) else (
      false,
      record { regs = next_index (suc (length ds)) (write_from 1 0x80 ds addressed); start = 0 },
    ))
    else (
      false,
      record s { regs = next_index (suc (length ds)) (write_from 0 0x80 (d ∷ ds) s.regs) },
    )

-- The loop of a read.
unfoldable pub read_from : Tm → Regs → ℕ → ℕ → List ℕ
read_from now r idx zero = []
read_from now r idx (suc n) = read_reg now r ((idx + r.index) % 0x13) ∷ read_from now r (suc idx) n

-- A read of no bytes uses the variable that was never set.
unfoldable pub i2c_ds3231_read : (ℕ → Tm) → ℕ → Ds3231 → Bool × List ℕ × Ds3231
unfolding read_from
i2c_ds3231_read localtime len s = if len == 0 then (true, [], s) else (
  false,
  read_from (localtime s.regs.system_time) s.regs 0 len,
  record s { regs = next_index len s.regs },
)

-- The callbacks. `localtime` and `now` are what localtime(3) and time(2) give.
unfoldable pub i2c_ds3231_func : (ℕ → Tm) → ℕ → I2cFunc Ds3231
unfolding i2c_ds3231_start i2c_ds3231_write i2c_ds3231_read
i2c_ds3231_func localtime now = record {
  start = some (λ st. (
    pos 1,
    record st { io = record (st.io) { dev = i2c_ds3231_start localtime now st.io.dev } },
  ));
  write = some (λ len bs st.
      let (fault, dev') = i2c_ds3231_write (take len bs) st.io.dev in
      (pos len, set_fault fault (record st { io = record (st.io) { dev = dev' } })));
  read = some (λ len st.
      let (fault, bs, dev') = i2c_ds3231_read localtime len st.io.dev in
      (pos len, bs, set_fault fault (record st { io = record (st.io) { dev = dev' } })));
  stop = some (λ st. st);
}
