-- ===== src/I2cMux/Tests.antt =====
-- examples/i2c-mux/coremodel-i2c-mux.c: a multiplexer with a device on each of two channels.
use coremodel.Base.{ℕ, suc, ◌≡◌, refl, [], ◌∷◌, arith, length, replicate}
use coremodel.I2cMux.{
  I2cMux, Attach, MuxDevice, i2c_mux_init, i2c_mux_connect, i2c_mux_round, selected,
}
use coremodel.I2cMux.Selection.{Answers, Marked}
use coremodel.I2cMux.Transactions.{host_write, write_selects}

-- Each attaching has its number as the handle.
abbrev numbered : Attach
numbered calls addr = suc (length calls)

numbered-Answers : Answers numbered
numbered-Answers calls addr e = absurd (omega (arith, e))

abbrev device : ℕ → MuxDevice
device addr = record { addr = addr; handle = 0 }

abbrev mux : I2cMux
mux = record i2c_mux_init { channel = (device 0x60 ∷ []) ∷ (device 0x61 ∷ []) ∷ replicate 6 [] }

connected : (i2c_mux_connect 1 0x61 (i2c_mux_connect 0 0x60 i2c_mux_init).1).1 ≡ mux
unfolding i2c_mux_connect
connected = refl

none_selected : Marked (selected 0) 0 mux.channel
none_selected = ((refl, tt), ((refl, tt), (tt, (tt, (tt, (tt, (tt, (tt, tt))))))))

write_selects_example :
    let m' = i2c_mux_round numbered (host_write 2 (1 ∷ []) mux) in
    (m'.chan ≡ 1) × Marked (selected 1) 0 m'.channel
write_selects_example =
    write_selects numbered 2 (1 ∷ []) mux numbered-Answers refl (omega arith) none_selected
