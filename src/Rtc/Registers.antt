-- ===== src/Rtc/Registers.antt =====
-- examples/spi-ds3234-rtc/spi-ds3234.c: bursts to the registers of the alarms.
use coremodel.Base.{
  ℕ, suc, ◌+◌, ◌-◌, ◌%◌, ◌<◌, ◌≤◌, ◌≡◌, refl, ap, ap₂, ◌∙◌, true, false, List, [], ◌∷◌, arith, ltb,
  ◌==◌, length, length-replicate, replicate,
}
use coremodel.Rtc.{Tm}
use coremodel.Rtc.Regs.{read_reg, write_reg, bit7}
use coremodel.Rtc.Settable.{IsSettable, read_reg-write_reg}
use coremodel.Rtc.Ds3234.{Ds3234, access_reg, rtc_burst, transfer}

access_reg-write :
    (now : Tm) (k d : ℕ) (s : Ds3234)
    → IsSettable k
    → (access_reg now k true d s).1 ≡ record s { regs = write_reg k d s.regs }
unfolding access_reg
access_reg-write now k d s ok = ground arith

access_reg-read :
    (now : Tm) (k d : ℕ) (s : Ds3234)
    → IsSettable k
    → access_reg now k false d s ≡ (read_reg now s.regs k, s)
unfolding access_reg
access_reg-read now k d s ok = ground arith

module _ (now : Tm) (addr : ℕ) where
  -- A burst of writes from register `k` on leaves the registers before it.
  rtc_burst-below :
      (idx k j : ℕ) (ds : List ℕ) (s : Ds3234)
      → addr + idx ≡ k + 1
      → 6 < k
      → k + length ds ≤ 0xD
      → j < k
      → read_reg now (rtc_burst now addr true idx ds s).1.regs j ≡ read_reg now s.regs j
  unfolding rtc_burst
  rtc_burst-below idx k j [] s at lo hi h = refl
  rtc_burst-below idx k j (d ∷ ds) s at lo hi h =
      let ok : IsSettable k = omega arith in
      let here : (addr + idx - 1) % 0x13 ≡ k = omega arith in
      rw here (
        rw (access_reg-write now k d s ok) (
          rtc_burst-below (suc idx) (suc k) j ds (record s { regs = write_reg k d s.regs })
            (omega arith) (omega arith) (omega arith) (omega arith)
          ∙ read_reg-write_reg now s.regs k d j ok (omega arith)
          ∙ ground arith))

  rtc_burst-reads :
      (idx k : ℕ) (ds es : List ℕ) (s : Ds3234)
      → addr + idx ≡ k + 1
      → 6 < k
      → k + length ds ≤ 0xD
      → length es ≡ length ds
      → (rtc_burst now addr false idx es (rtc_burst now addr true idx ds s).1).0 ≡ ds
  unfolding rtc_burst
  rtc_burst-reads idx k [] [] s at lo hi e = refl
  rtc_burst-reads idx k [] (x ∷ es) s at lo hi e = absurd (omega arith)
  rtc_burst-reads idx k (d ∷ ds) [] s at lo hi e = absurd (omega arith)
  rtc_burst-reads idx k (d ∷ ds) (x ∷ es) s at lo hi e =
      let ok : IsSettable k = omega arith in
      let here : (addr + idx - 1) % 0x13 ≡ k = omega arith in
      let s1 : Ds3234 = record s { regs = write_reg k d s.regs } in
      let s2 = (rtc_burst now addr true (suc idx) ds s1).1 in
      rw here (
        rw (access_reg-write now k d s ok) (
          rw (access_reg-read now k x s2 ok) (
            ap₂ ◌∷◌
              (rtc_burst-below (suc idx) (suc k) k ds s1 (omega arith) (omega arith) (omega arith)
                  (omega arith)
                ∙ read_reg-write_reg now s.regs k d k ok (omega arith)
                ∙ ground arith)
              (rtc_burst-reads (suc idx) (suc k) ds es s1 (omega arith) (omega arith) (omega arith)
                (omega arith)))))

module _ (now : Tm) (a b : ℕ) (bs : List ℕ) (s : Ds3234) (low : a < 0x13) where
  transfer-burst_write :
      (transfer now (0x80 + a) (b ∷ bs) s).1 ≡ (rtc_burst now a true 1 (b ∷ bs) s).1
  unfolding transfer
  transfer-burst_write =
      let write : bit7 (0x80 + a) ≡ true = ground arith in
      let addr : (0x80 + a) % 128 ≡ a = omega arith in
      let clock : ltb a 0x13 ≡ true = ground arith in
      let some : (suc (length bs) == 0) ≡ false = ground arith in rw (write, addr, clock, some)

  transfer-burst_read : (transfer now a (b ∷ bs) s).0 ≡ 0 ∷ (rtc_burst now a false 1 (b ∷ bs) s).0
  unfolding transfer
  transfer-burst_read =
      let read : bit7 a ≡ false = ground arith in
      let addr : a % 128 ≡ a = omega arith in
      let clock : ltb a 0x13 ≡ true = ground arith in
      let some : (suc (length bs) == 0) ≡ false = ground arith in rw (read, addr, clock, some)

-- A burst of writes to registers of the first alarm and on into those of the second, up to its hours,
-- reads back: a burst of as many reads from the same register gives the bytes that were written.
pub alarms_read_back :
    (now : Tm) (a b : ℕ) (bs : List ℕ) (s : Ds3234)
    → 6 < a
    → a + length (b ∷ bs) ≤ 0xD
    → let written = (transfer now (0x80 + a) (b ∷ bs) s).1 in
      (transfer now a (replicate (length (b ∷ bs)) 0) written).0 ≡ 0 ∷ (b ∷ bs)
alarms_read_back now a b bs s lo hi =
    let ask : List ℕ = 0 ∷ replicate (length bs) 0 in
    let long : length ask ≡ length (b ∷ bs) = ap suc (length-replicate _ 0) in
    let written = (rtc_burst now a true 1 (b ∷ bs) s).1 in
    ap (λ x. (transfer now a ask x).0) (transfer-burst_write now a b bs s (omega arith))
    ∙ transfer-burst_read now a 0 (replicate (length bs) 0) written (omega arith)
    ∙ ap (◌∷◌ 0)
        (rtc_burst-reads now a 1 a (b ∷ bs) ask s (omega arith) lo hi (omega (arith, long)))
