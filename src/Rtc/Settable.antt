-- ===== src/Rtc/Settable.antt =====
-- examples/i2c-ds3231-rtc/i2c-ds3231.c: the registers that read back what was written to them.
use coremodel.Base.{ℕ, ◌<◌, ◌≡◌, subst, arith, ◌==◌, if◌then◌else◌}
use native.Mathlib.Decide.{dec_lt}
use coremodel.Rtc.{Tm}
use coremodel.Rtc.Regs.{Regs, read_reg, write_reg}

-- Those of the first alarm, and those of the second but its day.
pub record IsSettable (k : ℕ) : Type 0 where
  pub above : 6 < k
  pub below : k < 0xD

-- The registers one by one.
each : (P : ℕ → Type 0) → P 7 → P 8 → P 9 → P 0xA → P 0xB → P 0xC → (k : ℕ) → IsSettable k → P k
each P p7 p8 p9 pa pb pc k ok = elim (dec_lt k 8) [
  | yes h ↦ subst P (omega arith) p7
  | no h ↦ elim (dec_lt k 9) [
    | yes h' ↦ subst P (omega arith) p8
    | no h' ↦ elim (dec_lt k 0xA) [
      | yes i ↦ subst P (omega arith) p9
      | no i ↦ elim (dec_lt k 0xB) [
        | yes i' ↦ subst P (omega arith) pa
        | no i' ↦ elim (dec_lt k 0xC) [
          | yes j ↦ subst P (omega arith) pb
          | no j ↦ subst P (omega arith) pc
        ]
      ]
    ]
  ]
]

-- Another one of them, or a register before them, is left alone.
pub read_reg-write_reg :
    (now : Tm) (r : Regs) (k d j : ℕ)
    → IsSettable k
    → j < 0xD
    → read_reg now (write_reg k d r) j ≡ (if j == k then d else read_reg now r j)
unfolding read_reg write_reg
read_reg-write_reg now r k d j ok h =
    each (λ k. read_reg now (write_reg k d r) j ≡ (if j == k then d else read_reg now r j))
      (ground arith) (ground arith) (ground arith) (ground arith) (ground arith) (ground arith) k ok
