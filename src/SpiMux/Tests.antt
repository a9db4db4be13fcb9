-- ===== src/SpiMux/Tests.antt =====
-- examples/spi-mux/coremodel-spi-mux.c: the multiplexer while its first channel is attached.
use coremodel.Base.{suc, true, [], ◌∷◌, arith, length, pos, ◌==◌, if◌then◌else◌}
use coremodel.SpiMux.{SpiMux, AttachSpi, spi_mux_init, spi_mux_round}
use coremodel.SpiMux.Selection.{Selects, AlwaysAttaches, one_pin_attaches}

-- Each attaching has its number as the handle.
abbrev numbered : AttachSpi
numbered calls channel = suc (length calls)

numbered-AlwaysAttaches : AlwaysAttaches numbered
numbered-AlwaysAttaches calls channel e = absurd (omega (arith, e))

abbrev enabled_mux : SpiMux
enabled_mux = record spi_mux_init { handle = λ i. if i == 0 then 5 else 0; en = true }

enabled_mux-Selects : Selects enabled_mux
enabled_mux-Selects i = ground arith

one_pin_attaches_example : Selects (spi_mux_round numbered ((1, pos 3300) ∷ []) [] [] enabled_mux)
one_pin_attaches_example =
    one_pin_attaches numbered 1 (pos 3300) enabled_mux numbered-AlwaysAttaches enabled_mux-Selects
