-- ===== src/Adxl36x/Layout.antt =====
-- examples/i2c-adxl36x/coremodel-adxl36x.c: the fields of the configuration registers, and
-- the switches of a write and of a read, which keep each register in one member.
use coremodel.Base.{
  ◌^◌, ◌*◌, ℕ, zero, suc, ◌+◌, ◌-◌, ◌<◌, ◌≤◌, ◌≡◌, refl, ap, ◌∙◌, true, false, List, [], ◌∷◌, some,
  arith, ◌==◌, ltb, length, get_or, get_elem?,
}
use coremodel.Adxl36x.Write.{config_cases, write_case}
use coremodel.Adxl36x.Read.{config_sources, source_of}

-- The fields of the registers from REG_SOFT_RESET to REG_AXIS_MASK in coremodel-adxl36x.h: the lowest
-- bit of each, and how many it has.
abbrev pub layout : List (List (ℕ × ℕ))
layout =
    ((1, 1) ∷ [])
    ∷ ((0, 7) ∷ [])
    ∷ ((2, 6) ∷ [])
    ∷ ((0, 8) ∷ [])
    ∷ ((0, 7) ∷ [])
    ∷ ((2, 6) ∷ [])
    ∷ ((0, 8) ∷ [])
    ∷ ((0, 8) ∷ [])
    ∷ ((0, 2) ∷ (2, 2) ∷ (4, 2) ∷ (6, 2) ∷ [])
    ∷ ((0, 2) ∷ (2, 1) ∷ (3, 4) ∷ [])
    ∷ ((0, 8) ∷ [])
    ∷ ((0, 1) ∷ (1, 1) ∷ (2, 1) ∷ (3, 1) ∷ (4, 1) ∷ (5, 1) ∷ (6, 1) ∷ (7, 1) ∷ [])
    ∷ ((0, 1) ∷ (1, 1) ∷ (2, 1) ∷ (3, 1) ∷ (4, 1) ∷ (5, 1) ∷ (6, 1) ∷ (7, 1) ∷ [])
    ∷ ((0, 3) ∷ (3, 1) ∷ (5, 1) ∷ (6, 2) ∷ [])
    ∷ ((0, 2) ∷ (2, 1) ∷ (3, 1) ∷ (4, 2) ∷ (6, 1) ∷ [])
    ∷ ((0, 1) ∷ (1, 1) ∷ [])
    ∷ ((0, 8) ∷ [])
    ∷ ((0, 8) ∷ [])
    ∷ ((0, 8) ∷ [])
    ∷ ((0, 8) ∷ [])
    ∷ ((0, 5) ∷ [])
    ∷ ((0, 5) ∷ [])
    ∷ ((0, 5) ∷ [])
    ∷ ((0, 6) ∷ [])
    ∷ ((0, 6) ∷ [])
    ∷ ((0, 6) ∷ [])
    ∷ ((0, 5) ∷ (6, 2) ∷ [])
    ∷ ((0, 1) ∷ (1, 1) ∷ (2, 1) ∷ (3, 1) ∷ (4, 1) ∷ (6, 1) ∷ (7, 1) ∷ [])
    ∷ ((0, 1) ∷ (1, 1) ∷ (2, 1) ∷ (3, 1) ∷ (4, 1) ∷ (6, 1) ∷ (7, 1) ∷ [])
    ∷ ((0, 1) ∷ (1, 1) ∷ (3, 1) ∷ (6, 2) ∷ [])
    ∷ ((0, 1) ∷ (1, 1) ∷ (3, 1) ∷ (7, 1) ∷ [])
    ∷ ((0, 7) ∷ [])
    ∷ ((2, 6) ∷ [])
    ∷ ((0, 7) ∷ [])
    ∷ ((2, 6) ∷ [])
    ∷ ((0, 4) ∷ (4, 4) ∷ [])
    ∷ ((0, 1) ∷ (1, 1) ∷ (2, 1) ∷ (4, 2) ∷ [])
    ∷ []

abbrev pub field_bits : List (ℕ × ℕ) → ℕ
field_bits [] = 0
field_bits ((low, width) ∷ fs) = (2 ^ width - 1) * 2 ^ low + field_bits fs

-- The bits of a configuration register: those of its fields.
abbrev pub config_mask : ℕ → ℕ
config_mask a = field_bits (get_or layout (a - 0x1F) [])

cases_from : ℕ → List (List (ℕ × ℕ)) → List (ℕ × ℕ)
cases_from a [] = []
cases_from a (fs ∷ ls) = (a, field_bits fs) ∷ cases_from (suc a) ls

cases_from-get :
    (ls : List (List (ℕ × ℕ))) (a i : ℕ)
    → i < length ls
    → get_elem? (cases_from a ls) i ≡ some (a + i, field_bits (get_or ls i []))
unfolding cases_from
cases_from-get [] a i h = absurd (omega arith)
cases_from-get (fs ∷ ls) a zero h =
    ap (λ k. some (k, field_bits fs)) (let e : a ≡ a + 0 = omega arith in e)
cases_from-get (fs ∷ ls) a (suc i) h =
    cases_from-get ls (suc a) i (omega arith)
    ∙ ap (λ k. some (k, field_bits (get_or ls i [])))
        (let e : suc a + i ≡ a + suc i = omega arith in e)

-- The switch of a write keeps the fields of each register, in its own member.
config_cases-layout : config_cases ≡ cases_from 0x1F layout
unfolding cases_from
config_cases-layout = refl

pub write_case-config : (a : ℕ) → 0x1F ≤ a → a < 0x44 → write_case a ≡ some (a, config_mask a)
unfolding write_case
write_case-config a lo hi =
    let lower : ltb a 0x1F ≡ false = ground arith in
    let upper : ltb a 0x49 ≡ true = ground arith in
    rw (lower, upper)
      (ap (λ l. get_elem? l (a - 0x1F)) config_cases-layout
        ∙ cases_from-get layout 0x1F (a - 0x1F) (omega arith)
        ∙ ap (λ k. some (k, config_mask a)) (let e : 0x1F + (a - 0x1F) ≡ a = omega arith in e))

sources_from : ℕ → ℕ → List ℕ
sources_from a zero = []
sources_from a (suc n) = a ∷ sources_from (suc a) n

sources_from-get : (n a i d : ℕ) → i < n → get_or (sources_from a n) i d ≡ a + i
unfolding sources_from
sources_from-get zero a i d h = absurd (omega arith)
sources_from-get (suc n) a zero d h = omega arith
sources_from-get (suc n) a (suc i) d h = sources_from-get n (suc a) i d (omega arith) ∙ omega arith

config_sources-order : config_sources ≡ sources_from 0x1F 37
unfolding sources_from
config_sources-order = refl

-- The switch of a read gives the same member.
pub source_of-config : (a : ℕ) → 0x1F ≤ a → a < 0x44 → source_of a ≡ a
source_of-config a lo hi =
    let x : (a == 0x08) ≡ false = ground arith in
    let y : (a == 0x09) ≡ false = ground arith in
    let z : (a == 0x0A) ≡ false = ground arith in
    let lower : ltb a 0x1F ≡ false = ground arith in
    rw (x, y, z, lower)
      (ap (λ l. get_or l (a - 0x1F) a) config_sources-order
        ∙ sources_from-get 37 0x1F (a - 0x1F) a (omega arith)
        ∙ omega arith)
