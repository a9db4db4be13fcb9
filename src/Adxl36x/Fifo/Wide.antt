-- ===== src/Adxl36x/Fifo/Wide.antt =====
-- examples/i2c-adxl36x/coremodel-adxl36x.c: the count of samples at the width of 16 bits.
use coremodel.Base.{ap, ◌∙◌, ℕ, ◌+◌, ◌%◌, ◌^◌, ◌<◌, ◌≡◌, ◌≢◌, arith, true, ◌==◌, u32, sub_u32}
use coremodel.Adxl36x.{Registers}
use coremodel.Adxl36x.Fifo.{Fifo, fifo_width, read_fifo, read_value}

-- The two bytes of the oldest value.
abbrev pub read_both : Registers → ℕ → ℕ → Fifo → Fifo
read_both regs old old' f = (read_fifo regs old' (read_fifo regs old f).1).1

at_boundary : (f : Fifo) (n : ℕ) → f.sample_size ≡ 1 → ((n % f.sample_size) == 0) ≡ true
at_boundary f n single = ap (λ k. (n % k) == 0) single ∙ ground arith

read_fifo_first :
    (regs : Registers) (old : ℕ) (f : Fifo)
    → fifo_width regs ≡ 0
    → f.read_count % 2 ≡ 0
    → f.sample_size ≡ 1
    → f.fifo_count ≢ 0
    → (read_fifo regs old f).1
      ≡ record f { sample_count = sub_u32 f.sample_count 1; read_count = u32 (f.read_count + 1) }
unfolding read_fifo read_value
read_fifo_first regs old f width even single some =
    let last = at_boundary f f.fifo_count single in ground (arith, width, even, some, last)

read_fifo_second :
    (regs : Registers) (old : ℕ) (f : Fifo)
    → fifo_width regs ≡ 0
    → f.read_count % 2 ≡ 1
    → f.sample_size ≡ 1
    → f.fifo_count ≢ 0
    → ((read_fifo regs old f).1.sample_count ≡ sub_u32 f.sample_count 1)
      × ((read_fifo regs old f).1.fifo_count ≡ sub_u32 f.fifo_count 1)
unfolding read_fifo read_value
read_fifo_second regs old f width odd single some =
    let last = at_boundary f (sub_u32 f.fifo_count 1) single in
    ground (arith, width, odd, some, last)

-- At the width of 16 bits, with one channel, reading the two bytes of the oldest value takes two from
-- the count of the samples and one from that of the values: the last sample leaves the first count
-- below 0, at 2^32 - 1.
pub wide_sample_counts_twice :
    (regs : Registers) (old old' : ℕ) (f : Fifo)
    → fifo_width regs ≡ 0
    → f.read_count % 2 ≡ 0
    → f.sample_size ≡ 1
    → f.fifo_count ≢ 0
    → f.sample_count < 2 ^ 32
    → ((read_both regs old old' f).sample_count ≡ sub_u32 f.sample_count 2)
      × ((read_both regs old old' f).fifo_count ≡ sub_u32 f.fifo_count 1)
wide_sample_counts_twice regs old old' f width even single some fits =
    let f1 = record f {
      sample_count = sub_u32 f.sample_count 1;
      read_count = u32 (f.read_count + 1);
    } in
    let second = read_fifo_second regs old' f1 width (omega arith) single some in
    rw (read_fifo_first regs old f width even single some, read_both)
      (second.0 ∙ omega arith, second.1)
