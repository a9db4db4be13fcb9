-- ===== src/Base/Words.antt =====
-- Machine words as native numbers, and little-endian fields in a byte list.
use Prim.Native.Nat.{ℕ, ◌+◌, ◌-◌, ◌*◌, ◌/◌, ◌%◌, ◌^◌}
use mathlib.Core.List.{List, [], ◌∷◌, ◌++◌}
use coremodel.Base.Lists.{get_or}

abbrev pub u8 : ℕ → ℕ
u8 n = n % 2 ^ 8

abbrev pub u16 : ℕ → ℕ
u16 n = n % 2 ^ 16

abbrev pub u32 : ℕ → ℕ
u32 n = n % 2 ^ 32

-- `a - b` on `unsigned`, for operands below 2^32.
abbrev pub sub_u32 : ℕ → ℕ → ℕ
sub_u32 a b = (a + 2 ^ 32 - b) % 2 ^ 32

-- `(n + 3) & ~3`
abbrev pub align4 : ℕ → ℕ
align4 n = (n + 3) / 4 * 4

abbrev pub le16 : ℕ → List ℕ
le16 n = n % 256 ∷ n / 256 % 256 ∷ []

abbrev pub le32 : ℕ → List ℕ
le32 n = le16 (n % 65536) ++ le16 (n / 65536)

-- `*(uint16_t *)(p + i)`; a byte past the end reads as 0.
abbrev pub rd16 : List ℕ → ℕ → ℕ
rd16 p i = get_or p i 0 + 256 * get_or p (i + 1) 0

abbrev pub rd32 : List ℕ → ℕ → ℕ
rd32 p i = rd16 p i + 65536 * rd16 p (i + 2)

abbrev pub rd64 : List ℕ → ℕ → ℕ
rd64 p i = rd32 p i + 2 ^ 32 * rd32 p (i + 4)
