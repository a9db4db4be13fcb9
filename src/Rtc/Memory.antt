-- ===== src/Rtc/Memory.antt =====
-- examples/spi-ds3234-rtc/spi-ds3234.c: transfers to the clock's registers and its static memory.
use coremodel.Base.{
  ℕ, zero, suc, ◌+◌, ◌-◌, ◌%◌, ◌<◌, ◌≤◌, ◌≡◌, refl, ap, ap₂, ◌∙◌, Bool, true, false, List, [], ◌∷◌,
  arith, ◌==◌, length, length-replicate, length-set, get_or-set_self, get_or-set_other, replicate,
  get_or, set,
}
use coremodel.Rtc.{Tm}
use coremodel.Rtc.Regs.{bit7}
use coremodel.Rtc.Ds3234.{
  Ds3234, access_reg, rtc_burst, sram_burst, byte_count, transfer, step_address,
}

length-rtc_burst :
    (now : Tm) (addr : ℕ) (write : Bool) (idx : ℕ) (ds : List ℕ) (s : Ds3234)
    → length (rtc_burst now addr write idx ds s).0 ≡ length ds
unfolding rtc_burst
length-rtc_burst now addr write idx [] s = refl
length-rtc_burst now addr write idx (d ∷ ds) s = ap suc (
    length-rtc_burst now addr write (suc idx) ds
      (access_reg now ((addr + idx - 1) % 0x13) write d s).1)

length-sram_burst :
    (now : Tm) (write : Bool) (ds : List ℕ) (s : Ds3234)
    → length (sram_burst now write ds s).0 ≡ length ds
unfolding sram_burst
length-sram_burst now write [] s = refl
length-sram_burst now write (d ∷ ds) s =
    ap suc (length-sram_burst now write ds (access_reg now 0x19 write d s).1)

length-byte_count : (idx n : ℕ) → length (byte_count idx n) ≡ n
unfolding byte_count
length-byte_count idx zero = refl
length-byte_count idx (suc n) = ap suc (length-byte_count (suc idx) n)

-- A transfer reads as many bytes as it sends, whatever the command and the address: no byte of the
-- reply is left over from an earlier one.
pub length-transfer :
    (now : Tm) (cmd : ℕ) (ds : List ℕ) (s : Ds3234)
    → length (transfer now cmd ds s).0 ≡ suc (length ds)
unfolding transfer
length-transfer now cmd ds s =
    let write = bit7 cmd in
    ground (
      arith,
      length-rtc_burst now (cmd % 128) write 1 ds s,
      length-sram_burst now write ds s,
      length-byte_count 0 (suc (length ds)),
      length-replicate {A = ℕ} (length ds - 1) 0,
    )

-- What a burst does to the memory, while its address stays below the last byte.
stored : ℕ → List ℕ → List ℕ → List ℕ
stored a [] m = m
stored a (b ∷ bs) m = stored (suc a) bs (set m a b)

loaded : ℕ → ℕ → List ℕ → List ℕ
loaded a zero m = []
loaded a (suc n) m = get_or m a 0 ∷ loaded (suc a) n m

sram_burst-stored :
    (now : Tm) (a : ℕ) (bs : List ℕ) (s : Ds3234)
    → s.sram_address ≡ a % 0xFF
    → a + length bs ≤ 0xFF
    → (sram_burst now true bs s).1.sram_data ≡ stored a bs s.sram_data
unfolding sram_burst stored access_reg
sram_burst-stored now a [] s here fits = refl
sram_burst-stored now a (b ∷ bs) s here fits =
    let at : s.sram_address ≡ a = omega arith in
    sram_burst-stored now (suc a) bs
      (step_address (record s { sram_data = set s.sram_data s.sram_address b })) (omega arith)
      (omega arith)
    ∙ ap (λ i. stored (suc a) bs (set s.sram_data i b)) at

sram_burst-loaded :
    (now : Tm) (a : ℕ) (ds : List ℕ) (s : Ds3234)
    → s.sram_address ≡ a % 0xFF
    → a + length ds ≤ 0xFF
    → (sram_burst now false ds s).0 ≡ loaded a (length ds) s.sram_data
unfolding sram_burst loaded access_reg
sram_burst-loaded now a [] s here fits = refl
sram_burst-loaded now a (d ∷ ds) s here fits =
    let at : s.sram_address ≡ a = omega arith in
    ap₂ ◌∷◌ (ap (λ i. get_or s.sram_data i 0) at)
      (sram_burst-loaded now (suc a) ds (step_address s) (omega arith) (omega arith))

get_or-stored : (a i : ℕ) (bs m : List ℕ) → i < a → get_or (stored a bs m) i 0 ≡ get_or m i 0
unfolding stored
get_or-stored a i [] m h = refl
get_or-stored a i (b ∷ bs) m h =
    get_or-stored (suc a) i bs (set m a b) (omega arith) ∙ get_or-set_other m a i b 0 h

loaded-stored :
    (a : ℕ) (bs m : List ℕ) → a + length bs ≤ length m → loaded a (length bs) (stored a bs m) ≡ bs
unfolding stored loaded
loaded-stored a [] m h = refl
loaded-stored a (b ∷ bs) m h =
    ap₂ ◌∷◌
      (get_or-stored (suc a) a bs (set m a b) (omega arith) ∙ get_or-set_self m a b 0 (omega arith))
      (loaded-stored (suc a) bs (set m a b) (omega (arith, length-set m a b)))

-- The memory reads back what was written to it: a burst of writes from an address, and a burst of as
-- many reads from that address, if the burst ends below the last byte of the memory.
abbrev pub write_sram : Tm → ℕ → List ℕ → Ds3234 → Ds3234
write_sram now a bs s = (transfer now 0x99 bs (transfer now 0x98 (a ∷ []) s).1).1

abbrev pub read_sram : Tm → ℕ → ℕ → Ds3234 → List ℕ
read_sram now a n s = (transfer now 0x19 (replicate n 0) (transfer now 0x98 (a ∷ []) s).1).0

transfer-address :
    (now : Tm) (a : ℕ) (s : Ds3234)
    → (transfer now 0x98 (a ∷ []) s).1 ≡ record s { sram_address = a }
unfolding transfer access_reg
transfer-address now a s = refl

transfer-write :
    (now : Tm) (b : ℕ) (bs : List ℕ) (s : Ds3234)
    → (transfer now 0x99 (b ∷ bs) s).1 ≡ (sram_burst now true (b ∷ bs) s).1
unfolding transfer
transfer-write now b bs s = let some : (suc (length bs) == 0) ≡ false = ground arith in rw some

transfer-read :
    (now : Tm) (d : ℕ) (ds : List ℕ) (s : Ds3234)
    → (transfer now 0x19 (d ∷ ds) s).0 ≡ 0 ∷ (sram_burst now false (d ∷ ds) s).0
unfolding transfer
transfer-read now d ds s = let some : (suc (length ds) == 0) ≡ false = ground arith in rw some

pub sram_reads_back :
    (now : Tm) (a b : ℕ) (bs : List ℕ) (s : Ds3234)
    → length s.sram_data ≡ 256
    → a + length (b ∷ bs) ≤ 0xFF
    → read_sram now a (length (b ∷ bs)) (write_sram now a (b ∷ bs) s) ≡ 0 ∷ (b ∷ bs)
sram_reads_back now a b bs s full fits =
    let at = λ (x : Ds3234). record x { sram_address = a } in
    let written = sram_burst-stored now a (b ∷ bs) (at s) (omega arith) fits in
    let zeros : length (replicate {A = ℕ} (length bs) 0) ≡ length bs = length-replicate _ 0 in
    let store : write_sram now a (b ∷ bs) s ≡ (sram_burst now true (b ∷ bs) (at s)).1 =
      ap (λ x. (transfer now 0x99 (b ∷ bs) x).1) (transfer-address now a s)
      ∙ transfer-write now b bs (at s) in
    let s2 = (sram_burst now true (b ∷ bs) (at s)).1 in
    let ask : List ℕ = 0 ∷ replicate (length bs) 0 in
    let load : read_sram now a (length (b ∷ bs)) s2 ≡ 0 ∷ (sram_burst now false ask (at s2)).0 =
      ap (λ x. (transfer now 0x19 ask x).0) (transfer-address now a s2)
      ∙ transfer-read now 0 (replicate (length bs) 0) (at s2) in
    let long : length ask ≡ length (b ∷ bs) = ap suc zeros in
    ap (read_sram now a (length (b ∷ bs))) store
    ∙ load
    ∙ ap (◌∷◌ 0) (
        sram_burst-loaded now a ask (at s2) (omega arith) (omega (arith, long))
        ∙ ap (λ n. loaded a n s2.sram_data) long
        ∙ ap (loaded a (length (b ∷ bs))) written
        ∙ loaded-stored a (b ∷ bs) s.sram_data (omega arith))
