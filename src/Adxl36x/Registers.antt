-- ===== src/Adxl36x/Registers.antt =====
-- examples/i2c-adxl36x/coremodel-adxl36x.c: the configuration registers read back what was written.
use Prim.Native.Nat.{bit_and}
use coremodel.Base.{
  ℕ, suc, ◌+◌, ◌%◌, ◌<◌, ◌≤◌, ◌≡◌, ◌≢◌, refl, ap, ap₂, ◌∙◌, true, false, Bool-cases, inl, inr, List,
  [], ◌∷◌, Option-cases, arith, ◌==◌, length,
}
use coremodel.Adxl36x.{store, measuring}
use coremodel.Adxl36x.Layout.{config_mask, write_case-config, source_of-config}
use coremodel.Adxl36x.State.{Adxl36x, Host}
use coremodel.Adxl36x.Write.{
  write_case, write_register, step_write, write_bytes, adi_adxl36x_write, before_write, after_write,
}
use coremodel.Adxl36x.Sampling.{adi_adxl36x_start, adi_adxl36x_stop}
use coremodel.Adxl36x.Read.{read_register, read_other, read_kept, step_read, adi_adxl36x_read}

-- A write of the host to the registers from `a` on, and a read of as many as the buffer has bytes.
abbrev pub host_write : Host → ℕ → List ℕ → Adxl36x → Adxl36x
host_write host a bs s = adi_adxl36x_stop (adi_adxl36x_write host (a ∷ bs) (adi_adxl36x_start s))

abbrev pub host_read : Host → ℕ → List ℕ → Adxl36x → List ℕ
host_read host a olds s =
    (adi_adxl36x_read host olds
      (adi_adxl36x_start (adi_adxl36x_write host (a ∷ []) (adi_adxl36x_start s)))).0

-- The bytes as the registers from `a` on keep them.
abbrev pub kept : ℕ → List ℕ → List ℕ
kept a [] = []
kept a (d ∷ ds) = bit_and d (config_mask a) ∷ kept (suc a) ds

store_all : ℕ → List ℕ → (ℕ → ℕ) → ℕ → ℕ
store_all a [] r = r
store_all a (d ∷ ds) r = store_all (suc a) ds (store a (bit_and d (config_mask a)) r)

load_all : ℕ → List ℕ → (ℕ → ℕ) → List ℕ
load_all a [] r = []
load_all a (d ∷ ds) r = r a ∷ load_all (suc a) ds r

write_register-regs :
    (host : Host) (a d : ℕ) (s : Adxl36x)
    → 0x1F ≤ a
    → a < 0x44
    → (write_register host a d s).regs ≡ store a (bit_and d (config_mask a)) s.regs
unfolding write_register
write_register-regs host a d s lo hi = rw (write_case-config a lo hi, write_register) refl

write_register-place :
    (host : Host) (a d : ℕ) (s : Adxl36x)
    → ((write_register host a d s).addr ≡ s.addr) × ((write_register host a d s).count ≡ s.count)
unfolding write_register
write_register-place host a d s = elim (Option-cases (write_case a)) [
  | inl e ↦ rw (e, write_register) (refl, refl)
  | inr (m, e) ↦ rw (e, write_register) (refl, refl)
]

write_bytes-regs :
    (host : Host) (a : ℕ) (ds : List ℕ) (s : Adxl36x)
    → s.addr ≡ a
    → s.count ≢ 0
    → 0x1F ≤ a
    → a + length ds ≤ 0x44
    → s.count + length ds < 256
    → (write_bytes host ds s).regs ≡ store_all a ds s.regs
unfolding write_bytes store_all
write_bytes-regs host a [] s at busy lo hi short = refl
write_bytes-regs host a (d ∷ ds) s at busy lo hi short =
    let some_count : (s.count == 0) ≡ false = ground arith in
    let place = write_register-place host s.addr d s in
    let next = step_write (write_register host s.addr d s) in
    let onward =
      write_bytes-regs host (suc a) ds next (omega (arith, at, place.0)) (omega (arith, place.1))
        (omega arith) (omega arith) (omega (arith, place.1)) in
    rw (some_count, write_bytes)
      (onward
        ∙ ap (store_all (suc a) ds) (
            write_register-regs host s.addr d s (omega (arith, at)) (omega (arith, at))
            ∙ ap (λ k. store k (bit_and d (config_mask k)) s.regs) at))

read_register-config :
    (host : Host) (a old : ℕ) (s : Adxl36x)
    → 0x1F ≤ a
    → a < 0x44
    → read_register host a old s ≡ (s.regs a, s)
unfolding read_register read_other read_kept
read_register-config host a old s lo hi =
    let there = source_of-config a lo hi in ground (arith, there)

adi_adxl36x_read-regs :
    (host : Host) (a : ℕ) (olds : List ℕ) (s : Adxl36x)
    → s.addr ≡ a
    → s.count ≢ 0
    → 0x1F ≤ a
    → a + length olds ≤ 0x44
    → s.count + length olds < 256
    → (adi_adxl36x_read host olds s).0 ≡ load_all a olds s.regs
unfolding adi_adxl36x_read load_all
adi_adxl36x_read-regs host a [] s at busy lo hi short = refl
adi_adxl36x_read-regs host a (old ∷ olds) s at busy lo hi short =
    let read_here =
      read_register-config host s.addr old s (omega (arith, at)) (omega (arith, at)) in
    let moved : (step_read s).addr ≡ suc a = ground arith in
    let counted : (step_read s).count ≡ suc s.count = ground arith in
    let same : (step_read s).regs ≡ s.regs = ground arith in
    rw read_here (
      ap₂ ◌∷◌ (ap s.regs at) (
        adi_adxl36x_read-regs host (suc a) olds (step_read s) moved (omega (arith, counted))
          (omega arith) (omega arith) (omega (arith, counted))
        ∙ ap (load_all (suc a) olds) same))

start-above : (s : Adxl36x) (i : ℕ) → 0x1F ≤ i → (adi_adxl36x_start s).regs i ≡ s.regs i
unfolding adi_adxl36x_start
start-above s i lo = ground arith

start-place :
    (s : Adxl36x) → ((adi_adxl36x_start s).addr ≡ s.addr) × ((adi_adxl36x_start s).count ≡ s.count)
unfolding adi_adxl36x_start
start-place s = ground arith

start_again : (s : Adxl36x) → s.count ≢ 0 → adi_adxl36x_start s ≡ s
unfolding adi_adxl36x_start
start_again s busy = ground arith

load_all-cong :
    (a : ℕ) (olds : List ℕ) (r r' : ℕ → ℕ)
    → 0x1F ≤ a
    → ((i : ℕ) → 0x1F ≤ i → r i ≡ r' i)
    → load_all a olds r ≡ load_all a olds r'
unfolding load_all
load_all-cong a [] r r' lo h = refl
load_all-cong a (d ∷ ds) r r' lo h =
    ap₂ ◌∷◌ (h a lo) (load_all-cong (suc a) ds r r' (omega arith) h)

store_all-below : (a i : ℕ) (ds : List ℕ) (r : ℕ → ℕ) → i < a → store_all a ds r i ≡ r i
unfolding store_all
store_all-below a i [] r h = refl
store_all-below a i (d ∷ ds) r h =
    store_all-below (suc a) i ds (store a (bit_and d (config_mask a)) r) (omega arith)
    ∙ (let other : (i == a) ≡ false = ground arith in rw other refl)

load_all-store_all :
    (a : ℕ) (ds olds : List ℕ) (r : ℕ → ℕ)
    → length olds ≡ length ds
    → load_all a olds (store_all a ds r) ≡ kept a ds
unfolding load_all store_all
load_all-store_all a [] [] r h = refl
load_all-store_all a [] (o ∷ os) r h = absurd (omega arith)
load_all-store_all a (d ∷ ds) [] r h = absurd (omega arith)
load_all-store_all a (d ∷ ds) (o ∷ os) r h =
    let r1 = store a (bit_and d (config_mask a)) r in
    ap₂ ◌∷◌
      (store_all-below (suc a) a ds r1 (omega arith)
        ∙ (let same : (a == a) ≡ true = ground arith in rw same refl))
      (load_all-store_all (suc a) ds os r1 (omega arith))

after_write-same :
    (host : Host) (s : Adxl36x)
    → ((after_write host s).regs ≡ s.regs)
      × ((after_write host s).addr ≡ s.addr)
      × ((after_write host s).count ≡ s.count)
unfolding after_write
after_write-same host s = elim (Bool-cases (measuring s.regs)) [
  | inl e ↦ rw (e, after_write) (refl, refl, refl)
  | inr e ↦ rw (e, after_write) (refl, refl, refl)
]

addressed : Host → ℕ → Adxl36x → Adxl36x
addressed host a s = record (before_write host s) { addr = a % 128; count = 1 }

write_bytes-address :
    (host : Host) (a : ℕ) (bs : List ℕ) (s : Adxl36x)
    → s.count ≡ 0
    → write_bytes host (a ∷ bs) (before_write host s) ≡ write_bytes host bs (addressed host a s)
unfolding write_bytes addressed
write_bytes-address host a bs s idle =
    let first : (s.count == 0) ≡ true = ground arith in rw (first, write_bytes) refl

write-regs :
    (host : Host) (a : ℕ) (bs : List ℕ) (s : Adxl36x)
    → s.count ≡ 0
    → 0x1F ≤ a
    → a + length bs ≤ 0x44
    → (adi_adxl36x_write host (a ∷ bs) s).regs ≡ store_all a bs s.regs
unfolding adi_adxl36x_write addressed
write-regs host a bs s idle lo hi =
    (after_write-same host (write_bytes host (a ∷ bs) (before_write host s))).0
    ∙ ap (λ x. x.regs) (write_bytes-address host a bs s idle)
    ∙ write_bytes-regs host a bs (addressed host a s) (omega arith) (omega arith) lo hi
        (omega arith)

-- What a write of an address alone leaves.
record At (a : ℕ) (s s' : Adxl36x) : Type 0 where
  at : s'.addr ≡ a
  busy : s'.count ≡ 1
  same_regs : s'.regs ≡ s.regs

write-At :
    (host : Host) (a : ℕ) (s : Adxl36x)
    → s.count ≡ 0
    → a < 128
    → At a s (adi_adxl36x_write host (a ∷ []) s)
unfolding adi_adxl36x_write addressed write_bytes
write-At host a s idle lo =
    let go = write_bytes-address host a [] s idle in
    let end = after_write-same host (write_bytes host (a ∷ []) (before_write host s)) in
    record {
      at = end.1 ∙ ap (λ x. x.addr) go ∙ omega arith;
      busy = end.2 ∙ ap (λ x. x.count) go;
      same_regs = end.0 ∙ ap (λ x. x.regs) go;
    }

-- In a transaction of its own, the host reads back from the configuration registers what it wrote to
-- them, each byte cut to the fields of its register: a write from the address `a` on, between 0x1F and
-- 0x43, and a read from there of as many bytes.
pub registers_read_back :
    (host : Host) (a : ℕ) (bs olds : List ℕ) (s : Adxl36x)
    → s.count ≡ 0
    → 0x1F ≤ a
    → a + length bs ≤ 0x44
    → length olds ≡ length bs
    → host_read host a olds (host_write host a bs s) ≡ kept a bs
unfolding adi_adxl36x_stop
registers_read_back host a bs olds s idle lo hi same =
    let s0 = adi_adxl36x_start s in
    let s1 = host_write host a bs s in
    let idle0 : s0.count ≡ 0 = (start-place s).1 ∙ idle in
    let written : s1.regs ≡ store_all a bs s0.regs = write-regs host a bs s0 idle0 lo hi in
    let s2 = adi_adxl36x_start s1 in
    let asked = write-At host a s2 ((start-place s1).1) (omega arith) in
    let s3 = adi_adxl36x_write host (a ∷ []) s2 in
    let kept_on = start_again s3 (omega (arith, asked.busy)) in
    ap (λ x. (adi_adxl36x_read host olds x).0) kept_on
    ∙ adi_adxl36x_read-regs host a olds s3 asked.at (omega (arith, asked.busy)) lo
        (omega (arith, same)) (omega (arith, asked.busy, same))
    ∙ ap (load_all a olds) asked.same_regs
    ∙ load_all-cong a olds s2.regs s1.regs lo (λ i l. start-above s1 i l)
    ∙ ap (load_all a olds) written
    ∙ load_all-store_all a bs olds s0.regs same
