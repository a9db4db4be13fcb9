-- ===== src/I2cMux.antt =====
-- examples/i2c-mux/coremodel-i2c-mux.c: a multiplexer of I2C buses, which attaches the devices of the
-- channels that are selected.
pub mod Selection
pub mod Transactions
mod Tests
use coremodel.Base.{
  ℕ, zero, suc, ◌+◌, ◌/◌, ◌%◌, ◌^◌, ◌||◌, ◌&&◌, not, Bool, true, false, List, [], ◌∷◌, ◌++◌, ltb,
  leb, ◌==◌, if◌then◌else◌, length, get_or, set, replicate, u8, some, pos, take,
}
use coremodel.If.{St}
use coremodel.Bus.I2c.{I2cFunc}

abbrev pub channel_limit : ℕ
channel_limit = 8

-- `struct i2c_coremodel_device`: its address, and its handle, 0 for NULL. The name, the functions and
-- the pointer of the device are only passed on.
pub record MuxDevice : Type 0 where
  pub addr : ℕ
  pub handle : ℕ

-- The calls of the library, the last one first.
pub data Call : Type 0 where
  attach : (addr : ℕ) → Call
  detach : (handle : ℕ) → Call

-- `i2c_mux_state_t`; the count of a channel is the length of its list.
pub record I2cMux : Type 0 where
  pub channel : List (List MuxDevice)
  pub count : ℕ
  pub chan : ℕ
  pub chanp : ℕ
  pub write : Bool
  pub stop : Bool
  pub calls : List Call

abbrev pub i2c_mux_init : I2cMux
i2c_mux_init = record {
  channel = replicate channel_limit [];
  count = 0;
  chan = 0;
  chanp = 0;
  write = false;
  stop = false;
  calls = [];
}

-- The flag is the error result.
unfoldable pub i2c_mux_connect : ℕ → ℕ → I2cMux → Bool × I2cMux
i2c_mux_connect channel' addr' m =
    let devices = get_or m.channel channel' [] in
    let device : MuxDevice = record { addr = addr'; handle = 0 } in
    if leb 128 addr' || (leb channel_limit channel' || leb 128 (length devices))
    then (true, m)
    else (false, record m { channel = set m.channel channel' (devices ++ (device ∷ [])) })

-- What `coremodel_attach_i2c` returns for an address, after the calls so far.
abbrev pub Attach : Type 0
Attach = List Call → ℕ → ℕ

unfoldable pub attach_devices : Attach → List Call → List MuxDevice → List MuxDevice × List Call
attach_devices answer calls [] = ([], calls)
attach_devices answer calls (d ∷ ds) =
    let (ds', calls') = attach_devices answer (attach d.addr ∷ calls) ds in
    (record d { handle = answer calls d.addr } ∷ ds', calls')

abbrev pub detach_one : MuxDevice → List Call → List Call
detach_one d calls = if d.handle == 0 then calls else detach d.handle ∷ calls

unfoldable pub detach_devices : List Call → List MuxDevice → List MuxDevice × List Call
detach_devices calls [] = ([], calls)
detach_devices calls (d ∷ ds) =
    let (ds', calls') = detach_devices (detach_one d calls) ds in
    (record d { handle = 0 } ∷ ds', calls')

-- `chan & (1 << i)`
abbrev pub selected : ℕ → ℕ → Bool
selected chan i = (chan / 2 ^ i % 2) == 1

abbrev pub same : Bool → Bool → Bool
same true b = b
same false b = not b

-- The loop over the channels, from the `i`th on.
unfoldable pub update_from :
    Attach → ℕ → ℕ → ℕ → List Call → List (List MuxDevice) → List (List MuxDevice) × List Call
unfolding attach_devices detach_devices
update_from answer chanp chan i calls [] = ([], calls)
update_from answer chanp chan i calls (ds ∷ rest) =
    let moved =
      if selected chan i then attach_devices answer calls ds else detach_devices calls ds in
    let now = if same (selected chanp i) (selected chan i) then (ds, calls) else moved in
    let (rest', calls') = update_from answer chanp chan (suc i) now.1 rest in
    (now.0 ∷ rest', calls')

unfoldable pub i2c_mux_update_channels : Attach → I2cMux → I2cMux
unfolding update_from
i2c_mux_update_channels answer m =
    let (channel', calls') = update_from answer m.chanp m.chan 0 m.calls m.channel in
    record m { channel = channel'; calls = calls' }

unfoldable pub i2c_mux_write : List ℕ → I2cMux → I2cMux
i2c_mux_write [] m = m
i2c_mux_write (d ∷ ds) m =
    let first = record m { chanp = m.chan; write = true } in
    let begun = if m.count == 0 then first else m in
    i2c_mux_write ds (record begun { chan = d; count = u8 (m.count + 1) })

unfoldable pub i2c_mux_read : ℕ → I2cMux → List ℕ
i2c_mux_read len m = replicate len m.chan

unfoldable pub i2c_mux_stop : I2cMux → I2cMux
i2c_mux_stop m = record m { stop = true; count = 0 }

-- What `main` does after each `coremodel_mainloop`.
unfoldable pub i2c_mux_round : Attach → I2cMux → I2cMux
unfolding i2c_mux_update_channels
i2c_mux_round answer m =
    if m.write && m.stop
    then i2c_mux_update_channels answer (record m { write = false; stop = false })
    else m

abbrev with_mux : (I2cMux → I2cMux) → St I2cMux → St I2cMux
with_mux f st = record st { io = record (st.io) { dev = f st.io.dev } }

-- The callbacks.
unfoldable pub i2c_mux_func : I2cFunc I2cMux
unfolding i2c_mux_write i2c_mux_read i2c_mux_stop
i2c_mux_func = record {
  start = some (λ st. (pos 1, st));
  write = some (λ len bs st. (pos len, with_mux (i2c_mux_write (take len bs)) st));
  read = some (λ len st. (pos len, i2c_mux_read len st.io.dev, st));
  stop = some (with_mux i2c_mux_stop);
}
