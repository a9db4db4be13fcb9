-- ===== src/Adxl36x/Fifo/Filling.antt =====
-- examples/i2c-adxl36x/coremodel-adxl36x.c: what a sample adds to the FIFO.
use coremodel.Base.{
  ℕ, suc, ◌+◌, ◌-◌, ◌/◌, ◌%◌, ◌^◌, ◌<◌, ◌≤◌, ◌≡◌, sym, ◌∙◌, Bool, true, false, ◌||◌, ◌&&◌,
  Bool-cases, branch, ◌⊎◌, inl, inr, List, [], ◌∷◌, ◌++◌, append-nil, map, arith, ltb, ◌==◌,
  if◌then◌else◌, length, u32,
}
use coremodel.Adxl36x.{Registers, Status, reg_fifo_control}
use coremodel.Adxl36x.Fifo.{
  Fifo, fifo_size, fifo_width, fifo_rsize, fifo_wsize, fifo_samples, channels, channel_value,
  put_sample, add_sample, adi_adxl36x_fifo_sample,
}
use coremodel.Adxl36x.Fifo.Contents.{length-contents, Behind, held, put_all-Filled}

pub record IsFifo (f : Fifo) : Type 0 where
  pub behind : Behind f.fifo_count f
  pub rpt_fits : f.sample_fifo_rpt < 2 ^ 32
  pub bounded : f.fifo_count ≤ fifo_size
  pub untriggered : f.fifo_trig ≡ 0

abbrev pub waiting : Fifo → List ℕ
waiting f = held f.fifo_count f

rsize-count : (f : Fifo) → IsFifo f → fifo_rsize f ≡ f.fifo_count
rsize-count f ok = omega (arith, ok.behind.placed, ok.rpt_fits, ok.bounded)

wsize-count : (f : Fifo) → IsFifo f → fifo_wsize f ≡ fifo_size - f.fifo_count
wsize-count f ok = omega (arith, rsize-count f ok, ok.bounded)

-- What a sample may do: it is added, with these values, or nothing changes.
abbrev pub added : Bool → List ℕ → List ℕ → List ℕ
added dropped q vs = q ++ (if dropped then [] else vs)

pub record Sampled (q : List ℕ) (f : Fifo) : Type 0 where
  pub is_fifo : IsFifo f
  pub queue : waiting f ≡ q

put_sample-Sampled :
    (vs : List ℕ) (f : Fifo)
    → IsFifo f
    → f.fifo_count + length vs ≤ fifo_size
    → Sampled (waiting f ++ vs) (put_sample vs f)
unfolding put_sample
put_sample-Sampled vs f ok le =
    let filled = put_all-Filled f.fifo_count vs f ok.behind le in
    let n : u32 (f.fifo_count + length vs) ≡ f.fifo_count + length vs = omega arith in
    record {
      is_fifo = record {
        behind = rw n (record { full = filled.behind.full; placed = filled.behind.placed });
        rpt_fits = omega (arith, filled.same_rpt, ok.rpt_fits);
        bounded = rw n le;
        untriggered = filled.same_trig ∙ ok.untriggered;
      };
      queue = rw n filled.appended;
    }

same-Sampled : (f : Fifo) → IsFifo f → Sampled (waiting f ++ []) f
same-Sampled f ok = record { is_fifo = ok; queue = sym (append-nil _) }

too_many : List ℕ → List ℕ → Bool
too_many q vs = ltb fifo_size (length q + length vs)

unchanged-Sampled :
    (b : Bool) (vs : List ℕ) (f : Fifo)
    → IsFifo f
    → (b ≡ true) ⊎ (length vs ≡ 0)
    → Sampled (added b (waiting f) vs) f
unchanged-Sampled true vs f ok why = same-Sampled f ok
unchanged-Sampled false [] f ok why = same-Sampled f ok
unchanged-Sampled false (v ∷ vs) f ok (inl e) = absurd cc
unchanged-Sampled false (v ∷ vs) f ok (inr e) = absurd (omega arith)

put_some-Sampled :
    (vs : List ℕ) (f : Fifo)
    → IsFifo f
    → f.fifo_count + length vs ≤ fifo_size
    → Sampled (waiting f ++ vs) (if length vs == 0 then f else put_sample vs f)
put_some-Sampled [] f ok le = same-Sampled f ok
put_some-Sampled (v ∷ vs) f ok le =
    let some : (suc (length vs) == 0) ≡ false = ground arith in
    rw some (put_sample-Sampled (v ∷ vs) f ok le)

add_sample-Sampled :
    (regs : Registers) (vs : List ℕ) (st : Status) (f : Fifo)
    → IsFifo f
    → Sampled (added (too_many (waiting f) vs) (waiting f) vs) (add_sample regs vs st f).1
unfolding add_sample too_many
add_sample-Sampled regs vs st f ok =
    let size = wsize-count f ok in
    let long : length (waiting f) ≡ f.fifo_count =
      length-contents f.fifo_count f.sample_fifo_rpt f.sample_fifo in
    let bound = ok.bounded in
    elim (Bool-cases (ltb (fifo_wsize f) (length vs))) [
      | inl small ↦
          (let many : ltb fifo_size (length (waiting f) + length vs) ≡ true =
              ground (arith, size, long) in
            rw (small, add_sample) (rw many (same-Sampled f ok)))
      | inr room ↦
          (let fits : f.fifo_count + length vs ≤ fifo_size = ground (arith, size, bound, room) in
            let few : ltb fifo_size (length (waiting f) + length vs) ≡ false =
              ground (arith, long) in
            rw (room, add_sample) (rw few (put_some-Sampled vs f ok fits)))
    ]

-- The values of a sample, and whether the FIFO takes none.
abbrev pub values : Registers → ℕ → ℕ → List ℕ
values regs accel0 temp =
    map (channel_value (fifo_width regs) accel0 temp) (channels (regs reg_fifo_control / 8 % 16))

abbrev pub refused : Registers → List ℕ → List ℕ → Bool
refused regs q vs = ((regs reg_fifo_control % 4) == 3) || ltb fifo_size (length q + length vs)

pub fifo_sample-Sampled :
    (regs : Registers) (accel0 temp : ℕ) (st : Status) (f : Fifo)
    → IsFifo f
    → let vs = values regs accel0 temp in
      Sampled
        (added (refused regs (waiting f) vs) (waiting f) vs)
        (adi_adxl36x_fifo_sample regs accel0 temp st f).1
unfolding adi_adxl36x_fifo_sample too_many
fifo_sample-Sampled regs accel0 temp st f ok =
    let vs = values regs accel0 temp in
    let q = waiting f in
    let control = regs reg_fifo_control % 4 in
    let full = fifo_wsize f == 0 in
    let waits = (f.sample_count == fifo_samples regs) || (f.fifo_trig == 0) || full in
    let P = λ (p : Status × Fifo). Sampled (added (refused regs q vs) q vs) p.1 in
    let size = wsize-count f ok in
    let long : length q ≡ f.fifo_count =
      length-contents f.fifo_count f.sample_fifo_rpt f.sample_fifo in
    let trig = ok.untriggered in
    branch P ((control == 1) && full)
      (λ stop. unchanged-Sampled (refused regs q vs) vs f ok (ground (arith, stop, size, long)))
      (λ on.
        branch P ((control == 3) && waits)
          (λ hold. unchanged-Sampled (refused regs q vs) vs f ok (inl (ground (arith, hold))))
          (λ pass.
            let other : (control == 3) ≡ false = ground (arith, pass, trig) in
            rw other (add_sample-Sampled regs vs st f ok)))
