-- ===== src/Examples/Cansend.antt =====
-- examples/can-cr3020-rtc/can-cansend.c: a frame given as text, three digits of an identifier, `#` and
-- the digits of the data.
pub mod Reading
use coremodel.Base.{
  ℕ, zero, suc, ◌+◌, ◌-◌, ◌*◌, ◌/◌, ◌%◌, ◌^◌, ◌++◌, ◌&&◌, ◌||◌, not, Bool, List, [], ◌∷◌, Option,
  none, some, ltb, leb, ◌==◌, if◌then◌else◌, get_or, length, drop, u8, rd64, pos, leb,
}
use coremodel.If.{St, set_fault}
use coremodel.Bus.Can.{CanFunc, can_rx, can_nak}
use coremodel.Bus.Event.{le64}

abbrev pub is_digit : ℕ → Bool
is_digit c = leb b'0' c && leb c b'9'

-- The value of a hexadecimal digit.
abbrev pub nibble : ℕ → Option ℕ
nibble c =
    if is_digit c
    then some (c - b'0')
    else if leb b'A' c && leb c b'F'
    then some (c - b'A' + 0xA)
    else if leb b'a' c && leb c b'f'
    then some (c - b'a' + 0xA)
    else none

-- The loop over the first three characters: what is no decimal digit is passed over.
unfoldable pub read_address : ℕ → ℕ → List ℕ → ℕ
read_address zero addr cs = addr
read_address (suc n) addr cs =
    let c = get_or cs 0 0 in
    read_address n (if is_digit c then addr * 16 + (c - b'0') else addr) (drop 1 cs)

-- A byte after its two assignments; `old` is what the memory held.
unfoldable pub read_byte : ℕ → ℕ → ℕ → ℕ
read_byte c1 c2 old =
    let high = elim (nibble c1) as (λ _. ℕ) [ none ↦ old | some v ↦ v * 16 ] in
    elim (nibble c2) [ none ↦ high | some v ↦ u8 (high + v) ]

-- The loop over the data, of which `mem` is what malloc(3) gave.
unfoldable pub read_data : ℕ → List ℕ → List ℕ → List ℕ
unfolding read_byte
read_data zero cs mem = []
read_data (suc n) cs mem =
    read_byte (get_or cs 0 0) (get_or cs 1 0) (get_or mem 0 0)
    ∷ read_data n (drop 2 cs) (drop 1 mem)

-- `argv[3]` is accepted.
abbrev pub is_usable : List ℕ → Bool
is_usable arg = not (ltb (length arg) 4 || not (get_or arg 3 0 == b'#') || ltb 20 (length arg))

-- What `main` sends on the attached node: the result of `coremodel_can_rx`, and the state; none after
-- the usage.
unfoldable pub cansend_main : {D : Type 0} → List ℕ → List ℕ → St D → Option (ℕ × St D)
unfolding read_address read_data
cansend_main mem arg st =
    let dln = u8 (length arg + 2 ^ 8 - 4) / 2 in
    let ctrl = read_address 3 0 arg * 2 ^ 36 + dln in
    if is_usable arg
    then some (can_rx (le64 ctrl ++ le64 0) (some (read_data dln (drop 4 arg) mem)) st)
    else none

-- The remote frame with which the node answers each frame.
abbrev pub cansend_reply : ℕ
cansend_reply = 2 ^ 15 + 0x3FFFF * 2 ^ 16 + 0x456 * 2 ^ 36

-- A length code above 15 is looked up outside the table.
unfoldable pub can_cansend_receive : {D : Type 0} → List ℕ → St D → St D
can_cansend_receive ctrl st =
    (can_rx (le64 cansend_reply ++ le64 0) none (set_fault (leb 16 (rd64 ctrl 0 % 2 ^ 11)) st)).1

unfoldable pub can_cansend_func : {D : Type 0} → CanFunc D
unfolding can_cansend_receive
can_cansend_func = record {
  tx = some (λ ctrl bs st. (can_nak, can_cansend_receive ctrl st));
  rxcomplete = some (λ nak st. st);
}
