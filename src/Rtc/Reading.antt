-- ===== src/Rtc/Reading.antt =====
-- examples/i2c-ds3231-rtc/i2c-ds3231.c: what a host reads from the clock, and where its writes go.
use coremodel.Base.{
  ℕ, zero, suc, ◌+◌, ◌*◌, ◌/◌, ◌%◌, ◌<◌, ◌≤◌, ◌≡◌, refl, sym, ap, ap₂, ◌∙◌, ◌++◌, true, false, [],
  ◌∷◌, arith, ◌==◌,
}
use coremodel.Rtc.{Tm}
use coremodel.Rtc.Regs.{Regs, read_reg, write_reg}
use coremodel.Rtc.Settable.{IsSettable, read_reg-write_reg}
use coremodel.Rtc.Ds3231.{Ds3231, read_from, i2c_ds3231_read, i2c_ds3231_write, next_index}

suc-add : (n m : ℕ) → suc n + m ≡ suc (n + m)
suc-add n m = omega arith

-- The index is reduced at each use, so that any start with the same remainder reads the same.
read_from-shift :
    (now : Tm) (r r' : Regs) (i j n : ℕ)
    → ((k : ℕ) → read_reg now r' k ≡ read_reg now r k)
    → (i + r'.index) % 0x13 ≡ (j + r.index) % 0x13
    → read_from now r' i n ≡ read_from now r j n
unfolding read_from
read_from-shift now r r' i j zero same e = refl
read_from-shift now r r' i j (suc n) same e =
    ap₂ ◌∷◌ (same ((i + r'.index) % 0x13) ∙ ap (read_reg now r) e)
      (read_from-shift now r r' (suc i) (suc j) n same (omega arith))

read_from-append :
    (now : Tm) (r : Regs) (i n m : ℕ)
    → read_from now r i (n + m) ≡ read_from now r i n ++ read_from now r (i + n) m
unfolding read_from
read_from-append now r i zero m =
    ap (read_from now r i) (omega arith)
    ∙ ap (λ k. read_from now r k m) (let e : i ≡ i + 0 = omega arith in e)
read_from-append now r i (suc n) m = rw suc-add (
    ap (◌∷◌ (read_reg now r ((i + r.index) % 0x13))) (
      read_from-append now r (suc i) n m
      ∙ ap (λ k. read_from now r (suc i) n ++ read_from now r k m) (omega arith)))

read_reg-index :
    (now : Tm) (r : Regs) (i k : ℕ) → read_reg now (record r { index = i }) k ≡ read_reg now r k
unfolding read_reg
read_reg-index now r i k = refl

-- Reading registers in two calls gives the same bytes, and leaves the clock in the same state, as
-- reading them in one: the address goes on where the first call ended, round the end of the table.
-- Each call reads one register at least.
pub read_in_parts :
    (localtime : ℕ → Tm) (n m : ℕ) (s : Ds3231)
    → 0 < n
    → 0 < m
    → let (f1, bs1, s1) = i2c_ds3231_read localtime n s in
      let (f2, bs2, s2) = i2c_ds3231_read localtime m s1 in
      let (f, bs, s') = i2c_ds3231_read localtime (n + m) s in
      (bs ≡ bs1 ++ bs2) × (s' ≡ s2) × (f ≡ false) × (f1 ≡ false) × (f2 ≡ false)
unfolding i2c_ds3231_read
read_in_parts localtime n m s hn hm =
    let now = localtime s.regs.system_time in
    let bytes = read_from-append now s.regs 0 n m in
    let on =
      read_from-shift now s.regs (next_index n s.regs) 0 n m
        (read_reg-index now s.regs (next_index n s.regs).index) (omega arith) in
    let here = ap (λ k. read_from now s.regs k m) (let e : 0 + n ≡ n = omega arith in e) in
    let n0 : (n == 0) ≡ false = ground arith in
    let m0 : (m == 0) ≡ false = ground arith in
    let nm0 : ((n + m) == 0) ≡ false = ground arith in
    rw (n0, m0, nm0)
      (
        bytes ∙ ap (◌++◌ (read_from now s.regs 0 n)) (here ∙ sym on),
        ap (λ i. record s { regs = record (s.regs) { index = i } }) (omega arith),
        refl,
        refl,
        refl,
      )

-- The byte that has the tens of a number in its high half and the ones in its low half.
abbrev pub bcd : ℕ → ℕ
bcd n = n / 10 * 16 + n % 10

-- A time as localtime(3) gives it, in the two centuries that the register tells apart.
pub record IsTime (t : Tm) : Type 0 where
  pub sec : t.tm_sec < 60
  pub min : t.tm_min < 60
  pub hour : t.tm_hour < 24
  pub mday : t.tm_mday < 32
  pub mon : t.tm_mon < 12
  pub year : t.tm_year < 200
  pub wday : t.tm_wday < 7

-- In 24-hour mode a read of the first seven registers gives these bytes, for the time that the last
-- start read: the second, the minute and the hour in BCD, the day of the week from 1, the day of the
-- month in BCD, the month from 1 in BCD with the century in the high bit, and the year of the century
-- in BCD.
pub clock_reads_back :
    (localtime : ℕ → Tm) (s : Ds3231)
    → s.regs.twelve_hour_flag ≡ 0
    → s.regs.index ≡ 0
    → IsTime (localtime s.regs.system_time)
    → let t = localtime s.regs.system_time in
      (i2c_ds3231_read localtime 7 s).1
      ≡ bcd t.tm_sec
        ∷ bcd t.tm_min
        ∷ bcd t.tm_hour
        ∷ (t.tm_wday + 1)
        ∷ bcd t.tm_mday
        ∷ (t.tm_year / 100 * 128 + bcd (t.tm_mon + 1))
        ∷ bcd (t.tm_year % 100)
        ∷ []
unfolding i2c_ds3231_read read_reg
clock_reads_back localtime s h24 first ok = rw first (rw h24 (ground arith))

-- The first byte after the address goes to the register behind the addressed one, and the addressed
-- one keeps its value: a host that sets a register of the first alarm, from the seconds on, or one of
-- the second but its day, has to send the address before it.
pub write_lands_late :
    (now : Tm) (a d : ℕ) (s : Ds3231)
    → s.start ≡ 1
    → 6 ≤ a
    → a < 0xC
    → let s' = (i2c_ds3231_write (a ∷ d ∷ []) s).1 in
      (read_reg now s'.regs (a + 1) ≡ d) × (read_reg now s'.regs a ≡ read_reg now s.regs a)
unfolding i2c_ds3231_write
write_lands_late now a d s st lo hi =
    let addressed = record (s.regs) { index = a } in
    let ok : IsSettable (a + 1) = omega arith in
    let here : (1 + a) % 0x13 ≡ a + 1 = omega arith in
    let other : ((1 + a) % 0x13 == 0xF) ≡ false = ground arith in
    let started : (s.start == 1) ≡ true = ground arith in
    let set = write_reg (a + 1) d addressed in
    let at = λ (k : ℕ). read_reg-index now set (next_index 2 set).index k in
    let old = read_reg-index now s.regs a a in
    rw (started, other, here)
      (
        at (a + 1)
            ∙ read_reg-write_reg now addressed (a + 1) d (a + 1) ok (omega arith)
            ∙ ground arith,
        at a ∙ read_reg-write_reg now addressed (a + 1) d a ok (omega arith) ∙ ground (arith, old),
      )
