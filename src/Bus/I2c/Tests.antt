-- ===== src/Bus/I2c/Tests.antt =====
-- coremodel.c: a stall and a read of concrete I2C devices.
use coremodel.Base.{ℕ, ◌≡◌, refl, true, false, List, [], ◌∷◌, none, some, pos}
use coremodel.Packet.{Packet}
use coremodel.If.{set_busy, set_trnidx, write_rdbuf}
use coremodel.Bus.Tests.{DevSt, st_with, no_bits}
use coremodel.Bus.Queue.{advance_if}
use coremodel.Bus.I2c.{I2cFunc, advance_if_i2c}
use coremodel.Bus.I2c.Stall.{i2c_stall_waits}

-- It has nothing to read yet.
abbrev not_ready : I2cFunc (List ℕ)
not_ready = record {
  start = none;
  write = none;
  read = some (λ n st. (pos 0, [], st));
  stop = none;
}

abbrev read_request : Packet
read_request = record { len = 8; conn = 3; pkt = 2; bflag = 4; hflag = 5; payload = [] }

abbrev asked : DevSt
asked = st_with 0 false no_bits (read_request ∷ [])

abbrev stalled : DevSt
stalled = set_busy true (write_rdbuf 0 [] (set_trnidx 5 asked))

i2c_stall_waits_example :
    (advance_if (advance_if_i2c not_ready) asked ≡ some stalled)
    × (advance_if (advance_if_i2c not_ready) stalled ≡ some stalled)
i2c_stall_waits_example =
    i2c_stall_waits not_ready (λ n st. (pos 0, [], st)) read_request [] asked
      {st1 = set_trnidx 5 asked} refl refl [] refl refl refl refl refl refl
