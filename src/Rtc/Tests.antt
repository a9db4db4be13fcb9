-- ===== src/Rtc/Tests.antt =====
-- examples/i2c-ds3231-rtc/i2c-ds3231.c and examples/spi-ds3234-rtc/spi-ds3234.c at a concrete time.
use coremodel.Base.{ℕ, ◌+◌, ◌%◌, ◌≡◌, refl, false, [], ◌∷◌, ◌++◌, arith, length, replicate}
use coremodel.Packet.{Packet, wire}
use coremodel.Tx.Flow.{pending}
use coremodel.If.{St, done}
use coremodel.Bus.I2c.{advance_if_i2c}
use coremodel.Bus.Spi.{advance_if_spi}
use coremodel.Rtc.{Tm}
use coremodel.Rtc.Regs.{read_reg}
use coremodel.Rtc.Ds3231.{Ds3231, ds3231_init, i2c_ds3231_read, i2c_ds3231_func}
use coremodel.Rtc.Ds3234.{Ds3234, ds3234_init, access_reg, transfer, rtc_burst, spi_ds3234_func}
use coremodel.Rtc.Reading.{read_in_parts, clock_reads_back}
use coremodel.Rtc.Answering.{clock_answers}
use coremodel.Rtc.Transferring.{spi_clock_answers}
use coremodel.Rtc.Memory.{read_sram, write_sram, sram_reads_back}

-- 22:50:37 on Saturday, 15 August 2026.
abbrev evening : Tm
evening = record {
  tm_sec = 37;
  tm_min = 50;
  tm_hour = 22;
  tm_mday = 15;
  tm_mon = 7;
  tm_year = 126;
  tm_wday = 6;
}

abbrev localtime : ℕ → Tm
localtime t = record evening { tm_sec = t % 60 }

abbrev chip : Ds3231
chip = ds3231_init 37

abbrev spi_chip : Ds3234
spi_chip = ds3234_init 37 (replicate 256 0)

read_in_parts_example :
    let (f1, bs1, s1) = i2c_ds3231_read localtime 18 chip in
    let (f2, bs2, s2) = i2c_ds3231_read localtime 3 s1 in
    let (f, bs, s') = i2c_ds3231_read localtime 21 chip in
    (bs ≡ bs1 ++ bs2) × (s' ≡ s2) × (f ≡ false) × (f1 ≡ false) × (f2 ≡ false)
read_in_parts_example = read_in_parts localtime 18 3 chip (omega arith) (omega arith)

clock_reads_back_example :
    (i2c_ds3231_read localtime 7 chip).1 ≡ 0x37 ∷ 0x50 ∷ 0x22 ∷ 7 ∷ 0x15 ∷ 0x88 ∷ 0x26 ∷ []
clock_reads_back_example = clock_reads_back localtime chip refl refl (omega arith)

sram_reads_back_example :
    read_sram evening 252 3 (write_sram evening 252 (1 ∷ 2 ∷ 3 ∷ []) spi_chip) ≡ 0 ∷ 1 ∷ 2 ∷ 3 ∷ []
sram_reads_back_example = sram_reads_back evening 252 1 (2 ∷ 3 ∷ []) spi_chip refl (omega arith)

-- The clock behind the third connection, with nothing to send yet.
abbrev clock_if : St Ds3231
clock_if = record {
  cif = record {
    conn = 3;
    trnidx = 0;
    cred = 0;
    busy = false;
    offs = 0;
    defer_pkt = false;
    ebusy = λ i. false;
    rxbufs = [];
    rdbuf = [];
  };
  io = record {
    txbufs = [];
    txflag = false;
    need_wake = false;
    wakes = 0;
    allocs = [];
    fault = false;
    dev = chip;
  };
}

abbrev seven_asked : Packet
seven_asked = record { len = 8; conn = 3; pkt = 2; bflag = 7; hflag = 5; payload = [] }

abbrev seven_done : Packet
seven_done = record {
  len = 15;
  conn = 3;
  pkt = 4;
  bflag = 0;
  hflag = 5;
  payload = 0x37 ∷ 0x50 ∷ 0x22 ∷ 7 ∷ 0x15 ∷ 0x88 ∷ 0x26 ∷ [];
}

clock_answers_example :
    let (verdict, st2) = advance_if_i2c (i2c_ds3231_func localtime 37) seven_asked clock_if in
    (verdict ≡ done) × (pending st2.io.txbufs ≡ wire seven_done) × (st2.io.fault ≡ false)
unfolding i2c_ds3231_read read_reg
clock_answers_example =
    clock_answers localtime 37 seven_asked clock_if refl (omega arith) (omega arith) (omega arith)
      refl refl (omega arith) refl

-- The same for the chip on an SPI bus, which is asked for its second and its minute.
abbrev spi_if : St Ds3234
spi_if = record {
  cif = clock_if.cif;
  io = record {
    txbufs = [];
    txflag = false;
    need_wake = false;
    wakes = 0;
    allocs = [];
    fault = false;
    dev = spi_chip;
  };
}

abbrev two_asked : Packet
two_asked = record { len = 11; conn = 3; pkt = 1; bflag = 0; hflag = 5; payload = 0 ∷ 0 ∷ 0 ∷ [] }

spi_clock_answers_example :
    let out = transfer evening 0 (0 ∷ 0 ∷ []) spi_chip in
    let (verdict, st2) = advance_if_spi (spi_ds3234_func (λ t. evening) 37) two_asked spi_if in
    (verdict ≡ done)
    × (pending st2.io.txbufs
        ≡ wire (record two_asked { pkt = 2; len = 8 + length out.0; payload = out.0 }))
    × (length out.0 ≡ 3)
    × (st2.io.dev ≡ out.1)
    × (st2.io.fault ≡ false)
spi_clock_answers_example =
    spi_clock_answers (λ t. evening) 37 0 (0 ∷ 0 ∷ []) two_asked spi_if refl refl refl (omega arith)
      (omega arith) refl refl (omega arith) refl

two_bytes : (transfer evening 0 (0 ∷ 0 ∷ []) spi_chip).0 ≡ 0 ∷ 0x37 ∷ 0x50 ∷ []
unfolding transfer access_reg rtc_burst read_reg
two_bytes = refl
