-- ===== src/Switch/Arguments.antt =====
-- examples/eth-switch/eth-switch.c: the text that names a client's machine and interface.
pub mod Reading
use coremodel.Base.{
  ℕ, suc, ◌+◌, ◌++◌, ◌&&◌, not, Bool, true, false, List, [], ◌∷◌, Option, none, some, ltb, ◌==◌,
  if◌then◌else◌, get_or, length, take,
}

abbrev pub quote : ℕ
quote = b'"'

-- `q ^= (*s == '"')`
abbrev pub toggled : Bool → ℕ → Bool
toggled q c = if c == quote then not q else q

-- A character in front of the first field.
abbrev pub push_char : ℕ → List (List ℕ) → List (List ℕ)
push_char c [] = (c ∷ []) ∷ []
push_char c (f ∷ fs) = (c ∷ f) ∷ fs

-- The loop over the characters, which ends a field at each separator outside quotes.
unfoldable pub split_fields : ℕ → Bool → List ℕ → List (List ℕ)
split_fields sep q [] = [] ∷ []
split_fields sep q (c ∷ s) =
    let q' = toggled q c in
    let rest = split_fields sep q' s in if not q' && c == sep then [] ∷ rest else push_char c rest

-- The text before the next quote.
unfoldable pub until_quote : List ℕ → Option (List ℕ)
until_quote [] = none
until_quote (c ∷ s) =
    let rest = until_quote s in
    if c == quote then some [] else elim rest [ none ↦ none | some u ↦ some (c ∷ u) ]

unfoldable pub unquoted : List ℕ → Option (List ℕ)
unfolding until_quote
unquoted [] = some []
unquoted (c ∷ s) = if c == quote then until_quote s else some (c ∷ s)

unfoldable pub all_unquoted : List (List ℕ) → Option (List (List ℕ))
unfolding unquoted
all_unquoted [] = some []
all_unquoted (f ∷ fs) = elim (unquoted f) [
  | none ↦ none
  | some u ↦ elim (all_unquoted fs) [ none ↦ none | some us ↦ some (u ∷ us) ]
]

-- The fields; or an error; or a separator that is stored outside `seps`, which has `len` places.
pub data Parsed : Type 0 where
  fields : List (List ℕ) → Parsed
  malformed : Parsed
  overrun : Parsed

-- Every allocation succeeds.
unfoldable pub switch_parse_tuple : List ℕ → ℕ → ℕ → Parsed
unfolding split_fields all_unquoted
switch_parse_tuple tuple len sep =
    let fs = split_fields sep false tuple in
    if ltb (len + 1) (length fs)
    then overrun
    else if not (length fs == len)
    then malformed
    else elim (all_unquoted fs) as (λ _. Parsed) [ none ↦ malformed | some us ↦ fields us ]

-- `name`, of 256 bytes with the end of the text. The fields are not NULL.
unfoldable pub coremodel_mktarget : List (List ℕ) → List ℕ
coremodel_mktarget tuple = take 255 (get_or tuple 0 [] ++ b':' ∷ get_or tuple 1 [])
