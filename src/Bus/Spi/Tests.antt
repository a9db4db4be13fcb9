-- ===== src/Bus/Spi/Tests.antt =====
-- coremodel.c: a long transfer to a concrete SPI device.
use coremodel.Base.{ℕ, ◌≡◌, refl, false, List, [], ◌∷◌, none, some, arith, pos, replicate}
use coremodel.Packet.{Packet}
use coremodel.If.{set_offs, set_trnidx, write_rdbuf}
use coremodel.Bus.Tests.{DevSt, st_with, no_bits}
use coremodel.Bus.Queue.{advance_if}
use coremodel.Bus.Spi.{SpiFunc, advance_if_spi}
use coremodel.Bus.Spi.Parts.{spi_long_transfer_waits}

-- It answers every byte with 7.
abbrev sevens : SpiFunc (List ℕ)
sevens = record { cs = none; xfr = some (λ n bs st. (pos n, replicate n 7, st)) }

abbrev long_packet : Packet
long_packet = record {
  len = 308;
  conn = 3;
  pkt = 1;
  bflag = 0;
  hflag = 5;
  payload = replicate 300 1;
}

abbrev long_transfer : DevSt
long_transfer = st_with 0 false no_bits (long_packet ∷ [])

spi_long_transfer_waits_example :
    advance_if (advance_if_spi sevens) long_transfer
    ≡ some (set_offs 256 (write_rdbuf 0 (replicate 256 7) (set_trnidx 5 long_transfer)))
spi_long_transfer_waits_example =
    spi_long_transfer_waits sevens (λ n bs st. (pos n, replicate n 7, st)) long_packet
      (replicate 256 7) long_transfer {st1 = set_trnidx 5 long_transfer} refl refl refl refl
      (omega arith) (omega arith) [] refl refl refl refl
