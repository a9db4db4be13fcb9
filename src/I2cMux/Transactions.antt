-- ===== src/I2cMux/Transactions.antt =====
-- examples/i2c-mux/coremodel-i2c-mux.c: what the writes of the host select.
use coremodel.Base.{
  ℕ, ◌+◌, ◌≡◌, ◌≢◌, ◌<◌, refl, subst, ap₂, ◌∙◌, Bool, true, false, List, [], ◌∷◌, arith, ◌==◌,
  length, u8,
}
use coremodel.I2cMux.{I2cMux, Attach, selected, i2c_mux_write, i2c_mux_stop, i2c_mux_round}
use coremodel.I2cMux.Selection.{
  Answers, Marked, updated, Marked-cong, round-Marked, round-chan, updated-selected,
}

-- The last byte of a write.
abbrev pub last_of : ℕ → List ℕ → ℕ
last_of d [] = d
last_of d (e ∷ es) = last_of e es

record Wrote (chanp chan : ℕ) (m m' : I2cMux) : Type 0 where
  channel_same : m'.channel ≡ m.channel
  chanp_is : m'.chanp ≡ chanp
  chan_is : m'.chan ≡ chan
  write_same : m'.write ≡ m.write

write_on-Wrote :
    (ds : List ℕ) (m : I2cMux)
    → m.count ≢ 0
    → m.count + length ds < 256
    → Wrote m.chanp (last_of m.chan ds) m (i2c_mux_write ds m)
unfolding i2c_mux_write
write_on-Wrote [] m busy short = record {
  channel_same = refl;
  chanp_is = refl;
  chan_is = refl;
  write_same = refl;
}
write_on-Wrote (d ∷ ds) m busy short =
    let later : (m.count == 0) ≡ false = ground arith in
    let rest =
      write_on-Wrote ds (record m { chan = d; count = u8 (m.count + 1) }) (omega arith)
        (omega arith) in
    rw (later, i2c_mux_write)
      (record {
        channel_same = rest.channel_same;
        chanp_is = rest.chanp_is;
        chan_is = rest.chan_is;
        write_same = rest.write_same;
      })

-- A write of the host, to the end.
abbrev pub host_write : ℕ → List ℕ → I2cMux → I2cMux
host_write d ds m = i2c_mux_stop (i2c_mux_write (d ∷ ds) m)

first_write-Wrote :
    (d : ℕ) (ds : List ℕ) (m : I2cMux)
    → m.count ≡ 0
    → length ds < 255
    → Wrote m.chan (last_of d ds) (record m { write = true }) (i2c_mux_write (d ∷ ds) m)
unfolding i2c_mux_write
first_write-Wrote d ds m idle short =
    let first : (m.count == 0) ≡ true = ground arith in
    let begun = record m { chanp = m.chan; write = true; chan = d; count = u8 (m.count + 1) } in
    let rest = write_on-Wrote ds begun (omega arith) (omega arith) in
    rw (first, i2c_mux_write)
      (record {
        channel_same = rest.channel_same;
        chanp_is = rest.chanp_is;
        chan_is = rest.chan_is;
        write_same = rest.write_same;
      })

-- What a write leaves for the round.
record Written (chanp chan : ℕ) (m m' : I2cMux) : Type 0 where
  wrote : Wrote chanp chan (record m { write = true }) m'
  idle : m'.count ≡ 0
  stopped : m'.stop ≡ true

host_write-Written :
    (d : ℕ) (ds : List ℕ) (m : I2cMux)
    → m.count ≡ 0
    → length ds < 255
    → Written m.chan (last_of d ds) m (host_write d ds m)
unfolding i2c_mux_stop
host_write-Written d ds m idle short =
    let w = first_write-Wrote d ds m idle short in
    record {
      wrote = record {
        channel_same = w.channel_same;
        chanp_is = w.chanp_is;
        chan_is = w.chan_is;
        write_same = w.write_same;
      };
      idle = refl;
      stopped = refl;
    }

-- A round after a write of the host, from a state in which `sel` says what is attached.
Written-Marked :
    (answer : Attach) (chanp chan : ℕ) (sel : ℕ → Bool) (m m' : I2cMux)
    → Answers answer
    → Written chanp chan m m'
    → Marked sel 0 m.channel
    → Marked (updated chanp chan sel) 0 (i2c_mux_round answer m').channel
Written-Marked answer chanp chan sel m m' ok w h =
    let marked : Marked sel 0 m'.channel = rw w.wrote.channel_same h in
    let done = round-Marked answer sel m' ok w.wrote.write_same w.stopped marked in
    Marked-cong (updated m'.chanp m'.chan sel) (updated chanp chan sel) 0
      (i2c_mux_round answer m').channel
      (λ k. ap₂ (λ p c. updated p c sel k) w.wrote.chanp_is w.wrote.chan_is) done

-- If every attaching succeeds, a write of 1 to 255 bytes to the multiplexer selects the channels of its
-- last byte: after the next round, the devices of the channels whose bit is set are attached and no
-- others, if this was so before of the channels selected then.
pub write_selects :
    (answer : Attach) (d : ℕ) (ds : List ℕ) (m : I2cMux)
    → Answers answer
    → m.count ≡ 0
    → length ds < 255
    → Marked (selected m.chan) 0 m.channel
    → let m' = i2c_mux_round answer (host_write d ds m) in
      (m'.chan ≡ last_of d ds) × Marked (selected (last_of d ds)) 0 m'.channel
write_selects answer d ds m ok idle short h =
    let w = host_write-Written d ds m idle short in
    let m1 = host_write d ds m in
    (
      round-chan answer m1 ∙ w.wrote.chan_is,
      Marked-cong (updated m.chan (last_of d ds) (selected m.chan)) (selected (last_of d ds)) 0
          (i2c_mux_round answer m1).channel (updated-selected m.chan (last_of d ds))
          (Written-Marked answer m.chan (last_of d ds) (selected m.chan) m m1 ok w h),
    )

-- If every attaching succeeds, and the host writes `c` and then `d` before the next round, that round
-- only touches the channels in which `c` and `d` differ: the others stay as they were before `c`,
-- whatever `d` selects.
pub second_write_hides_first :
    (answer : Attach) (c d : ℕ) (m : I2cMux)
    → Answers answer
    → m.count ≡ 0
    → Marked (selected m.chan) 0 m.channel
    → let m' = i2c_mux_round answer (host_write d [] (host_write c [] m)) in
      (m'.chan ≡ d) × Marked (updated c d (selected m.chan)) 0 m'.channel
second_write_hides_first answer c d m ok idle h =
    let w1 = host_write-Written c [] m idle (omega arith) in
    let m1 = host_write c [] m in
    let w2 = host_write-Written d [] m1 w1.idle (omega arith) in
    let m2 = host_write d [] m1 in
    let marked : Marked (selected m.chan) 0 m1.channel = rw w1.wrote.channel_same h in
    let done = Written-Marked answer m1.chan d (selected m.chan) m1 m2 ok w2 marked in
    (
      round-chan answer m2 ∙ w2.wrote.chan_is,
      subst (λ k. Marked (updated k d (selected m.chan)) 0 (i2c_mux_round answer m2).channel)
          w1.wrote.chan_is done,
    )
