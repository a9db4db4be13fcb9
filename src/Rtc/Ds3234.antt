-- ===== src/Rtc/Ds3234.antt =====
-- examples/spi-ds3234-rtc/spi-ds3234.c: the clock behind an SPI bus, with its static memory.
use coremodel.Base.{
  ℕ, ◌+◌, ◌-◌, ◌*◌, ◌/◌, ◌%◌, ◌||◌, zero, suc, Bool, true, false, List, [], ◌∷◌, some, ltb, ◌==◌,
  if◌then◌else◌, get_or, set, length, take, replicate, pos,
}
use coremodel.If.{set_fault}
use coremodel.Bus.Spi.{SpiFunc}
use coremodel.Rtc.{Tm}
use coremodel.Rtc.Regs.{Regs, regs_init, read_clock, read_reg, write_reg, bit7}

-- `ds3234_state_t`
pub record Ds3234 : Type 0 where
  pub regs : Regs
  pub sram_address : ℕ
  pub sram_data : List ℕ

-- `sram` is what malloc(3) left in the 256 bytes.
abbrev pub ds3234_init : ℕ → List ℕ → Ds3234
ds3234_init now sram = record { regs = regs_init now; sram_address = 0; sram_data = sram }

unfoldable pub spi_ds3234_cs : (ℕ → Tm) → ℕ → ℕ → Ds3234 → Ds3234
unfolding read_clock
spi_ds3234_cs localtime now csel s =
    if csel == 0 then s else record s { regs = read_clock localtime now s.regs }

-- Bit 3 is set, bits 1 and 0 are cleared by a 0.
abbrev pub status_written : ℕ → ℕ → ℕ
status_written d status =
    let s3 = status - status / 8 % 2 * 8 + d / 8 % 2 * 8 in
    let s1 = if (d / 2 % 2) == 0 then s3 - s3 / 2 % 2 * 2 else s3 in
    if (d % 2) == 0 then s1 - s1 % 2 else s1

abbrev pub step_address : Ds3234 → Ds3234
step_address s = record s { sram_address = (s.sram_address + 1) % 0xFF }

-- Writing a register of the clock returns the byte written, but for the status and the temperature.
unfoldable pub access_rtc : Tm → ℕ → Bool → ℕ → Ds3234 → ℕ × Ds3234
access_rtc now addr write d s =
    if addr == 0xF
    then (let r' =
          if write then record (s.regs) { status = status_written d s.regs.status } else s.regs in
        (r'.status, record s { regs = r' }))
    else (if write
        then (
          if ltb 0x10 addr then read_reg now s.regs addr else d,
          record s { regs = write_reg addr d s.regs },
        )
        else (read_reg now s.regs addr, s))

-- The address of the memory, and the memory.
unfoldable pub access_sram : ℕ → Bool → ℕ → Ds3234 → ℕ × Ds3234
access_sram addr write d s =
    if addr == 0x18
    then (if write then (d, record s { sram_address = d }) else (s.sram_address, s))
    else (if write
        then (d, step_address (record s { sram_data = set s.sram_data s.sram_address d }))
        else (get_or s.sram_data s.sram_address 0, step_address s))

-- The callers pass the registers up to 0x12, 0x18 and 0x19.
unfoldable pub access_reg : Tm → ℕ → Bool → ℕ → Ds3234 → ℕ × Ds3234
unfolding access_rtc access_sram
access_reg now addr write d s =
    if ltb addr 0x13
    then access_rtc now addr write d s
    else if (addr == 0x18) || (addr == 0x19)
    then access_sram addr write d s
    else (d, s)

-- The loops that access one register for each byte from the `idx`th on.
unfoldable pub rtc_burst : Tm → ℕ → Bool → ℕ → List ℕ → Ds3234 → List ℕ × Ds3234
rtc_burst now addr write idx [] s = ([], s)
rtc_burst now addr write idx (d ∷ ds) s =
    let (v, s1) = access_reg now ((addr + idx - 1) % 0x13) write d s in
    let (vs, s2) = rtc_burst now addr write (suc idx) ds s1 in (v ∷ vs, s2)

unfoldable pub sram_burst : Tm → Bool → List ℕ → Ds3234 → List ℕ × Ds3234
sram_burst now write [] s = ([], s)
sram_burst now write (d ∷ ds) s =
    let (v, s1) = access_reg now 0x19 write d s in
    let (vs, s2) = sram_burst now write ds s1 in (v ∷ vs, s2)

-- `'0' + (idx & 63)`
unfoldable pub byte_count : ℕ → ℕ → List ℕ
byte_count idx zero = []
byte_count idx (suc n) = (48 + idx % 64) ∷ byte_count (suc idx) n

abbrev single : Tm → ℕ → Bool → ℕ → Ds3234 → List ℕ × Ds3234
single now addr write d s =
    if write then (0 ∷ [], s) else (let (v, s1) = access_reg now addr write d s in (v ∷ [], s1))

-- A transfer of the bytes `cmd ∷ ds`: the bytes that are read, and the state.
unfoldable pub transfer : Tm → ℕ → List ℕ → Ds3234 → List ℕ × Ds3234
transfer now cmd ds s =
    let write = bit7 cmd in
    let addr = cmd % 128 in
    if ltb addr 0x13
    then (if length ds == 0
        then single now addr write cmd s
        else (let (vs, s') = rtc_burst now addr write 1 ds s in (0 ∷ vs, s')))
    else (if addr == 0x18
        then (if length ds == 0
            then single now addr write cmd s
            else (let (v, s') = access_reg now addr write (get_or ds 0 0) s in
                (0 ∷ v ∷ replicate (length ds - 1) 0, s')))
        else (if addr == 0x19
            then (if length ds == 0
                then single now addr write cmd s
                else (let (vs, s') = sram_burst now write ds s in (0 ∷ vs, s')))
            else (byte_count 0 (suc (length ds)), s)))

-- A transfer without bytes reads the first byte of each buffer, and writes one: a fault.
unfoldable pub spi_ds3234_xfr : (ℕ → Tm) → List ℕ → Ds3234 → Bool × List ℕ × Ds3234
unfolding transfer
spi_ds3234_xfr localtime [] s = (true, [], s)
spi_ds3234_xfr localtime (cmd ∷ ds) s =
    let (vs, s') = transfer (localtime s.regs.system_time) cmd ds s in (false, vs, s')

-- The callbacks. `localtime` and `now` are what localtime(3) and time(2) give.
unfoldable pub spi_ds3234_func : (ℕ → Tm) → ℕ → SpiFunc Ds3234
unfolding spi_ds3234_cs spi_ds3234_xfr
spi_ds3234_func localtime now = record {
  cs = some (λ csel st. record st {
    io = record (st.io) { dev = spi_ds3234_cs localtime now csel st.io.dev };
  });
  xfr = some (λ len bs st.
      let (fault, vs, dev') = spi_ds3234_xfr localtime (take len bs) st.io.dev in
      (pos len, vs, set_fault fault (record st { io = record (st.io) { dev = dev' } })));
}
