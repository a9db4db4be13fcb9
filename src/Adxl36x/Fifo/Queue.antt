-- ===== src/Adxl36x/Fifo/Queue.antt =====
-- examples/i2c-adxl36x/coremodel-adxl36x.c: the FIFO as a queue of at most 2048 values, read a byte
-- for each.
use coremodel.Base.{
  ℕ, zero, suc, ◌+◌, ◌%◌, ◌≡◌, refl, ap, ap₂, ◌∙◌, true, false, List, [], ◌∷◌, arith, ◌==◌, u32,
  sub_u32,
}
use coremodel.Adxl36x.{Registers, Status}
use coremodel.Adxl36x.Fifo.{Fifo, fifo_width, adi_adxl36x_fifo_sample, read_value, read_fifo}
use coremodel.Adxl36x.Fifo.Contents.{contents, contents-mod, held}
use coremodel.Adxl36x.Fifo.Filling.{IsFifo, waiting, added, values, refused, fifo_sample-Sampled}

-- A byte of the oldest value, at the width of 8 bits.
abbrev pub take_byte : ℕ → List ℕ → ℕ × List ℕ
take_byte old [] = (old, [])
take_byte old (v ∷ vs) = (v % 256, vs)

record Taken (expected : ℕ × List ℕ) (p : ℕ × Fifo) : Type 0 where
  is_fifo : IsFifo p.1
  byte : p.0 ≡ expected.0
  queue : waiting p.1 ≡ expected.1

next_contents : (n r : ℕ) (m : List ℕ) → contents n (u32 (r + 1)) m ≡ contents n (suc r) m
next_contents n r m = contents-mod n (u32 (r + 1)) (suc r) m (omega arith)

read_some-Taken :
    (regs : Registers) (old n : ℕ) (f : Fifo)
    → fifo_width regs ≡ 1
    → IsFifo f
    → f.fifo_count ≡ suc n
    → Taken (take_byte old (held (suc n) f)) (read_fifo regs old f)
unfolding read_fifo read_value
read_some-Taken regs old n f width ok e =
    let some : (f.fifo_count == 0) ≡ false = ground (arith, e) in
    let narrow : (fifo_width regs == 1) ≡ true = ground (arith, width) in
    let fewer : sub_u32 f.fifo_count 1 ≡ n = omega (arith, e, ok.bounded) in
    rw (some, read_fifo)
      (rw (narrow, read_value)
        (record {
          is_fifo = record {
            behind = record {
              full = ok.behind.full;
              placed = omega (arith, ok.behind.placed, e, ok.bounded, ok.rpt_fits);
            };
            rpt_fits = omega arith;
            bounded = omega (arith, e, ok.bounded);
            untriggered = ok.untriggered;
          };
          byte = refl;
          queue =
              ap (λ k. contents k (u32 (f.sample_fifo_rpt + 1)) f.sample_fifo) fewer
              ∙ next_contents n f.sample_fifo_rpt f.sample_fifo;
        }))

read_fifo-Taken :
    (regs : Registers) (old n : ℕ) (f : Fifo)
    → fifo_width regs ≡ 1
    → IsFifo f
    → f.fifo_count ≡ n
    → Taken (take_byte old (held n f)) (read_fifo regs old f)
unfolding read_fifo
read_fifo-Taken regs old zero f width ok e =
    let none : (f.fifo_count == 0) ≡ true = ground (arith, e) in
    rw (none, read_fifo)
      (record {
        is_fifo = ok;
        byte = refl;
        queue = ap (λ k. contents k f.sample_fifo_rpt f.sample_fifo) e;
      })
read_fifo-Taken regs old (suc n) f width ok e = read_some-Taken regs old n f width ok e

-- What happens to the FIFO: a sample of these values, or a byte read into a buffer that has `old`.
pub data Use : Type 0 where
  sample : (accel0 temp : ℕ) → Use
  byte_read : (old : ℕ) → Use

-- The bytes that are read, and the FIFO that is left.
unfoldable pub run : Registers → List Use → Status → Fifo → List ℕ × Fifo
run regs [] st f = ([], f)
run regs (sample accel0 temp ∷ us) st f =
    let (st', f') = adi_adxl36x_fifo_sample regs accel0 temp st f in run regs us st' f'
run regs (byte_read old ∷ us) st f =
    let (d, f') = read_fifo regs old f in let (ds, f'') = run regs us st f' in (d ∷ ds, f'')

-- The same of a queue, which drops a sample that does not fit as a whole.
unfoldable pub run_queue : Registers → List Use → List ℕ → List ℕ × List ℕ
run_queue regs [] q = ([], q)
run_queue regs (sample accel0 temp ∷ us) q =
    let vs = values regs accel0 temp in run_queue regs us (added (refused regs q vs) q vs)
run_queue regs (byte_read old ∷ us) q =
    let (d, q') = take_byte old q in let (ds, q'') = run_queue regs us q' in (d ∷ ds, q'')

-- At the width of 8 bits, the FIFO is a queue of at most 2048 values: whatever samples and reads
-- come, in any order, the bytes read are those of the values in the order in which they were added,
-- one byte for each, a read of the empty FIFO leaves the byte of the buffer, and a sample is dropped
-- as a whole if it does not fit or if the mode is that of the trigger.
pub fifo_is_queue :
    (regs : Registers) (us : List Use) (st : Status) (f : Fifo)
    → fifo_width regs ≡ 1
    → IsFifo f
    → ((run regs us st f).0 ≡ (run_queue regs us (waiting f)).0)
      × (waiting (run regs us st f).1 ≡ (run_queue regs us (waiting f)).1)
      × IsFifo (run regs us st f).1
unfolding run run_queue
fifo_is_queue regs [] st f width ok = (refl, refl, ok)
fifo_is_queue regs (sample accel0 temp ∷ us) st f width ok =
    let step = fifo_sample-Sampled regs accel0 temp st f ok in
    let (st', f') = adi_adxl36x_fifo_sample regs accel0 temp st f in
    let (bytes, left, is_fifo) = fifo_is_queue regs us st' f' width step.is_fifo in
    (
      bytes ∙ ap (λ k. (run_queue regs us k).0) step.queue,
      left ∙ ap (λ k. (run_queue regs us k).1) step.queue,
      is_fifo,
    )
fifo_is_queue regs (byte_read old ∷ us) st f width ok =
    let step = read_fifo-Taken regs old f.fifo_count f width ok refl in
    let (d, f') = read_fifo regs old f in
    let (bytes, left, is_fifo) = fifo_is_queue regs us st f' width step.is_fifo in
    let q : waiting f' ≡ (take_byte old (waiting f)).1 = step.queue in
    (
      ap₂ ◌∷◌ step.byte (bytes ∙ ap (λ k. (run_queue regs us k).0) q),
      left ∙ ap (λ k. (run_queue regs us k).1) q,
      is_fifo,
    )
