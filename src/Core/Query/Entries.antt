-- ===== src/Core/Query/Entries.antt =====
-- coremodel.c: the list of devices that `coremodel_process_list_response` reads from a response.
use coremodel.Base.{
  ℕ, zero, suc, ◌+◌, ◌-◌, ◌^◌, ◌++◌, ◌||◌, ◌<◌, ◌≤◌, ◌≡◌, refl, sym, ap, ap₂, ◌∙◌, false, List, [],
  ◌∷◌, arith, align4, le16, le32, rd16, rd32, length, take, drop, replicate, ltb, length-append,
  length-replicate, append_assoc, take_exact, drop_exact,
}
use coremodel.Core.State.{Device, DeviceType, kind, invalid}
use coremodel.Core.Query.{entries, truncated}

-- The number of a type; a terminator is not sent.
abbrev pub type_num : DeviceType → ℕ
type_num invalid = 0
type_num (kind n) = n

-- One entry of a response as the peer builds it: padded to a multiple of four bytes.
pub entry_bytes : Device → List ℕ
entry_bytes d =
    le16 (type_num d.type)
    ++ (le16 (length d.name)
        ++ (le32 d.num
            ++ (d.name ++ replicate (align4 (8 + length d.name) - (8 + length d.name)) 0)))

pub list_bytes : List Device → List ℕ
unfolding entry_bytes
list_bytes [] = []
list_bytes (d ∷ ds) = entry_bytes d ++ list_bytes ds

pub record IsListable (d : Device) : Type 0 where
  pub typed : d.type ≡ kind (type_num d.type)
  pub type_fits : type_num d.type < 2 ^ 16
  pub name_fits : length d.name < 2 ^ 16
  pub num_fits : d.num < 2 ^ 32

abbrev pub AllListable : List Device → Type 0
AllListable [] = Unit {0}
AllListable (d ∷ ds) = IsListable d × AllListable ds

length-entry_bytes : (d : Device) → length (entry_bytes d) ≡ align4 (8 + length d.name)
unfolding entry_bytes
length-entry_bytes d =
    let pad = align4 (8 + length d.name) - (8 + length d.name) in
    omega (arith, length-append d.name (replicate pad 0), length-replicate {A = ℕ} pad 0)

module _ (d : Device) (more : List ℕ) (l : IsListable d) where
  -- What the loop reads of the entry at the front.
  entry_type : rd16 (entry_bytes d ++ more) 0 ≡ type_num d.type
  unfolding entry_bytes
  entry_type = omega (arith, l.type_fits)

  entry_strlen : rd16 (entry_bytes d ++ more) 2 ≡ length d.name
  unfolding entry_bytes
  entry_strlen = omega (arith, l.name_fits)

  entry_num : rd32 (entry_bytes d ++ more) 4 ≡ d.num
  unfolding entry_bytes
  entry_num = omega (arith, l.num_fits)

  entry_name : take (length d.name) (drop 8 (entry_bytes d ++ more)) ≡ d.name
  unfolding entry_bytes
  entry_name =
      let pad = replicate (align4 (8 + length d.name) - (8 + length d.name)) 0 in
      ap (take (length d.name)) (append_assoc d.name pad more)
      ∙ take_exact (length d.name) d.name (pad ++ more) refl

  entry_next : drop (align4 (8 + length d.name)) (entry_bytes d ++ more) ≡ more
  entry_next =
      drop_exact (align4 (8 + length d.name)) (entry_bytes d) more (sym (length-entry_bytes d))

list_bytes-cons :
    (d : Device) (ds : List Device) → list_bytes (d ∷ ds) ≡ entry_bytes d ++ list_bytes ds
unfolding list_bytes
list_bytes-cons d ds = refl

list_bytes-nil : list_bytes [] ≡ []
unfolding list_bytes
list_bytes-nil = refl

-- One round of each of the two loops over the bytes.
entries-step :
    (fuel : ℕ) (bs : List ℕ)
    → 0 < length bs
    → entries (suc fuel) bs
      ≡ record { type = kind (rd16 bs 0); name = take (rd16 bs 2) (drop 8 bs); num = rd32 bs 4 }
        ∷ entries fuel (drop (align4 (8 + rd16 bs 2)) bs)
unfolding entries
entries-step fuel [] h = absurd (omega arith)
entries-step fuel (b ∷ bs) h = refl

truncated-step :
    (fuel : ℕ) (bs : List ℕ)
    → 8 + rd16 bs 2 ≤ length bs
    → truncated (suc fuel) bs ≡ truncated fuel (drop (align4 (8 + rd16 bs 2)) bs)
unfolding truncated
truncated-step fuel [] h = absurd (omega arith)
truncated-step fuel (b ∷ bs) h =
    let e : ltb (length (b ∷ bs)) (8 + rd16 (b ∷ bs) 2) ≡ false = ground arith in
    ap (λ c. c || truncated fuel (drop (align4 (8 + rd16 (b ∷ bs) 2)) (b ∷ bs))) e

no_entries : (fuel : ℕ) → (entries fuel [] ≡ []) × (truncated fuel [] ≡ false)
unfolding entries truncated
no_entries zero = (refl, refl)
no_entries (suc fuel) = (refl, refl)

kind_of : (d : Device) (n : ℕ) → IsListable d → n ≡ type_num d.type → kind n ≡ d.type
kind_of d n l e = ap kind e ∙ sym l.typed

device_eq :
    {t t' : DeviceType} {m m' : List ℕ} {n n' : ℕ}
    → t ≡ t'
    → m ≡ m'
    → n ≡ n'
    → Path Device
        (record { type = t; name = m; num = n })
        (record { type = t'; name = m'; num = n' })
device_eq e f g = cc

-- The entries of a response are read back as the peer lists them, names, numbers and order
-- included, and none of the reads leaves the packet.
pub entries-list_bytes :
    (fuel : ℕ) (ds : List Device)
    → AllListable ds
    → length ds ≤ fuel
    → (entries fuel (list_bytes ds) ≡ ds) × (truncated fuel (list_bytes ds) ≡ false)
entries-list_bytes fuel [] l h = rw list_bytes-nil (no_entries fuel)
entries-list_bytes zero (d ∷ ds) l h = absurd (omega arith)
entries-list_bytes (suc fuel) (d ∷ ds) l h =
    let more = list_bytes ds in
    let bs = entry_bytes d ++ more in
    let strlen = entry_strlen d more l.0 in
    let size : 8 + length d.name ≤ length bs =
      omega (arith, length-append (entry_bytes d) more, length-entry_bytes d) in
    let fits : 8 + rd16 bs 2 ≤ length bs = omega (arith, strlen) in
    let next : drop (align4 (8 + rd16 bs 2)) bs ≡ more =
      ap (λ n. drop (align4 (8 + n)) bs) strlen ∙ entry_next d more l.0 in
    let (e, t) = entries-list_bytes fuel ds l.1 (omega arith) in
    let here =
      device_eq (kind_of d (rd16 bs 0) l.0 (entry_type d more l.0))
        (ap (λ n. take n (drop 8 bs)) strlen ∙ entry_name d more l.0) (entry_num d more l.0) in
    rw (list_bytes-cons d ds) (
      entries-step fuel bs (omega arith) ∙ ap₂ ◌∷◌ here (ap (entries fuel) next ∙ e),
      truncated-step fuel bs fits ∙ ap (truncated fuel) next ∙ t,
    )

-- An entry takes eight bytes at least, so that there are no more of them than bytes.
pub length-list_bytes : (ds : List Device) → length ds ≤ length (list_bytes ds)
length-list_bytes [] = omega arith
length-list_bytes (d ∷ ds) = rw (list_bytes-cons d ds) (
    omega (
      arith,
      length-append (entry_bytes d) (list_bytes ds),
      length-entry_bytes d,
      length-list_bytes ds,
    ))
