-- ===== src/SpiMux.antt =====
-- examples/spi-mux/coremodel-spi-mux.c: a multiplexer of a chip select, which attaches the device of the
-- channel that three pins select, while a fourth enables it.
pub mod Selection
mod Tests
use coremodel.Base.{
  ℕ, ◌+◌, ◌-◌, ◌*◌, ◌/◌, ◌%◌, ◌^◌, not, Bool, true, false, List, [], ◌∷◌, ltb, ◌==◌, if◌then◌else◌,
  ℤ, pos, is_zero,
}

-- The calls of the library, the last one first.
pub data SpiCall : Type 0 where
  attach_spi : (channel : ℕ) → SpiCall
  detach_spi : (handle : ℕ) → SpiCall

-- `spi_mux_state_t`: the handles of the channels, 0 for NULL, and the levels of the pins. The names,
-- the functions and the pointers of the devices are only passed on.
pub record SpiMux : Type 0 where
  pub handle : ℕ → ℕ
  pub mvolt : ℕ → ℤ
  pub chan : ℕ
  pub chanp : ℕ
  pub update_pin : Bool
  pub en : Bool
  pub calls : List SpiCall

abbrev pub spi_mux_init : SpiMux
spi_mux_init = record {
  handle = λ i. 0;
  mvolt = λ i. pos 0;
  chan = 0;
  chanp = 0;
  update_pin = false;
  en = false;
  calls = [];
}

-- `chan &= ~(1 << i); chan |= b << i`
abbrev with_bit : ℕ → Bool → ℕ → ℕ
with_bit i b chan = chan - chan / 2 ^ i % 2 * 2 ^ i + (if b then 2 ^ i else 0)

unfoldable pub spi_mux_gpio_notify : ℕ → ℤ → SpiMux → SpiMux
spi_mux_gpio_notify pin_idx mvolt' m =
    let level = λ (i : ℕ). if i == pin_idx then mvolt' else m.mvolt i in
    let noted = record m { chanp = m.chan; update_pin = true } in
    if ltb pin_idx 3
    then record noted { mvolt = level; chan = with_bit pin_idx (not (is_zero mvolt')) m.chan }
    else if pin_idx == 3
    then record noted { mvolt = level; en = not (is_zero mvolt') }
    else noted

-- What `coremodel_mainloop` brings: notifications of pins, in order.
unfoldable pub notify_all : List (ℕ × ℤ) → SpiMux → SpiMux
unfolding spi_mux_gpio_notify
notify_all [] m = m
notify_all (n ∷ ns) m = notify_all ns (spi_mux_gpio_notify n.0 n.1 m)

abbrev pub put_handle : ℕ → ℕ → SpiMux → SpiMux
put_handle i h m = record m { handle = λ k. if k == i then h else m.handle k }

unfoldable pub detach_previous : SpiMux → SpiMux
detach_previous m =
    let h = m.handle m.chanp in
    if h == 0 then m else record (put_handle m.chanp 0 m) { calls = detach_spi h ∷ m.calls }

-- What `coremodel_attach_spi` returns after the calls so far.
abbrev pub AttachSpi : Type 0
AttachSpi = List SpiCall → ℕ → ℕ

unfoldable pub attach_selected : AttachSpi → SpiMux → SpiMux
attach_selected answer m =
    if m.en
    then record (put_handle m.chan (answer m.calls m.chan) m) {
      calls = attach_spi m.chan ∷ m.calls;
    }
    else m

-- A turn of the loop of `main`, with what each of its three calls of `coremodel_mainloop` brings.
unfoldable pub spi_mux_round :
    AttachSpi → List (ℕ × ℤ) → List (ℕ × ℤ) → List (ℕ × ℤ) → SpiMux → SpiMux
unfolding notify_all detach_previous attach_selected
spi_mux_round answer ns1 ns2 ns3 m =
    let m1 = notify_all ns1 m in
    let detached = notify_all ns2 (detach_previous (record m1 { update_pin = false })) in
    if m1.update_pin then notify_all ns3 (attach_selected answer detached) else m1
