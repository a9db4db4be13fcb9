-- ===== src/Switch/Arguments/Reading.antt =====
-- examples/eth-switch/eth-switch.c: fields that are read back, and the machine that they name.
use coremodel.Base.{
  ℕ, ◌+◌, ◌<◌, ◌≡◌, ◌≢◌, refl, sym, ap, ◌∙◌, ◌++◌, append_assoc, append-nil, Bool, true, false,
  List, [], ◌∷◌, some, arith, ◌==◌, length, length-append, take_all, take,
}
use coremodel.Connect.{split_target}
use coremodel.Switch.Arguments.{
  quote, push_char, split_fields, until_quote, unquoted, fields, switch_parse_tuple,
  coremodel_mktarget,
}

-- The character does not occur.
abbrev pub Lacks : ℕ → List ℕ → Type 0
Lacks c [] = Unit {0}
Lacks c (x ∷ xs) = (x ≢ c) × Lacks c xs

abbrev pub slash : ℕ
slash = b'/'

-- A field as it is written: in quotes, or as it is.
abbrev pub written : Bool → List ℕ → List ℕ
written true f = quote ∷ (f ++ quote ∷ [])
written false f = f

-- It has no quotes, and outside quotes no separator.
abbrev pub Writable : Bool → List ℕ → Type 0
Writable true f = Lacks quote f
Writable false f = Lacks quote f × Lacks slash f

abbrev push_all : List ℕ → List (List ℕ) → List (List ℕ)
push_all [] fs = fs
push_all (c ∷ s) fs = push_char c (push_all s fs)

push_all-cons : (s f : List ℕ) (fs : List (List ℕ)) → push_all s (f ∷ fs) ≡ (s ++ f) ∷ fs
push_all-cons [] f fs = refl
push_all-cons (c ∷ s) f fs = ap (push_char c) (push_all-cons s f fs)

push_all-append :
    (s t : List ℕ) (fs : List (List ℕ)) → push_all (s ++ t) fs ≡ push_all s (push_all t fs)
push_all-append [] t fs = refl
push_all-append (c ∷ s) t fs = ap (push_char c) (push_all-append s t fs)

split-inside :
    (f rest : List ℕ)
    → Lacks quote f
    → split_fields slash true (f ++ rest) ≡ push_all f (split_fields slash true rest)
unfolding split_fields
split-inside [] rest h = refl
split-inside (c ∷ f) rest h =
    let other : (c == quote) ≡ false = ground (arith, h.0) in
    rw other (ap (push_char c) (split-inside f rest h.1))

split-outside :
    (f rest : List ℕ)
    → Lacks quote f
    → Lacks slash f
    → split_fields slash false (f ++ rest) ≡ push_all f (split_fields slash false rest)
unfolding split_fields
split-outside [] rest h k = refl
split-outside (c ∷ f) rest h k =
    let other : (c == quote) ≡ false = ground (arith, h.0) in
    let inner : (c == slash) ≡ false = ground (arith, k.0) in
    rw (other, inner) (ap (push_char c) (split-outside f rest h.1 k.1))

-- A written field goes to the first one of the rest, whole.
split-written :
    (q : Bool) (f rest : List ℕ)
    → Writable q f
    → split_fields slash false (written q f ++ rest)
      ≡ push_all (written q f) (split_fields slash false rest)
unfolding split_fields
split-written false f rest h = split-outside f rest h.0 h.1
split-written true f rest h = ap (push_char quote) (
    ap (split_fields slash true) (append_assoc f (quote ∷ []) rest)
    ∙ split-inside f (quote ∷ rest) h
    ∙ sym (push_all-append f (quote ∷ []) (split_fields slash false rest)))

-- A written field before a separator, and at the end.
split-before :
    (q : Bool) (f rest : List ℕ)
    → Writable q f
    → split_fields slash false (written q f ++ slash ∷ rest)
      ≡ written q f ∷ split_fields slash false rest
unfolding split_fields
split-before q f rest h =
    split-written q f (slash ∷ rest) h
    ∙ push_all-cons (written q f) [] (split_fields slash false rest)
    ∙ ap (λ x. x ∷ split_fields slash false rest) (append-nil (written q f))

split-last :
    (q : Bool) (f : List ℕ)
    → Writable q f
    → split_fields slash false (written q f) ≡ written q f ∷ []
unfolding split_fields
split-last q f h =
    ap (split_fields slash false) (sym (append-nil (written q f)))
    ∙ split-written q f [] h
    ∙ push_all-cons (written q f) [] []
    ∙ ap (λ x. x ∷ []) (append-nil (written q f))

until_quote-append : (f rest : List ℕ) → Lacks quote f → until_quote (f ++ quote ∷ rest) ≡ some f
unfolding until_quote
until_quote-append [] rest h = refl
until_quote-append (c ∷ f) rest h =
    let other : (c == quote) ≡ false = ground (arith, h.0) in
    rw (other, until_quote-append f rest h.1)

unquoted-written : (q : Bool) (f : List ℕ) → Writable q f → unquoted (written q f) ≡ some f
unfolding unquoted
unquoted-written true f h = until_quote-append f [] h
unquoted-written false [] h = refl
unquoted-written false (c ∷ f) h =
    let other : (c == quote) ≡ false = ground (arith, h.0.0) in rw other

abbrev pub written_tuple : Bool → List ℕ → Bool → List ℕ → Bool → List ℕ → List ℕ
written_tuple p a q b r c = written p a ++ slash ∷ (written q b ++ slash ∷ written r c)

switch_parse_tuple-written :
    (p q r : Bool) (a b c : List ℕ)
    → Writable p a
    → Writable q b
    → Writable r c
    → switch_parse_tuple (written_tuple p a q b r c) 3 slash ≡ fields (a ∷ b ∷ c ∷ [])
unfolding switch_parse_tuple
switch_parse_tuple-written p q r a b c ha hb hc =
    let split : split_fields slash false (written_tuple p a q b r c)
        ≡ written p a ∷ written q b ∷ written r c ∷ [] =
      split-before p a (written q b ++ slash ∷ written r c) ha
      ∙ ap (◌∷◌ (written p a))
          (split-before q b (written r c) hb ∙ ap (◌∷◌ (written q b)) (split-last r c hc)) in
    let first = unquoted-written p a ha in
    let second = unquoted-written q b hb in
    let third = unquoted-written r c hc in rw split (rw first (rw second (rw third refl)))

split_target-append : (a b : List ℕ) → Lacks b':' a → split_target (a ++ b':' ∷ b) ≡ (a, some b)
split_target-append [] b h = refl
split_target-append (x ∷ a) b h =
    let other : (x == b':') ≡ false = ground (arith, h.0) in rw (split_target-append a b h.1, other)

-- The fields of a client are read back from any way of writing them, each in quotes, or as it is if it
-- has no separator, and coremodel_connect takes the host and the port of the machine to be the first
-- two. The conditions: no field has quotes, the host has no colon, and both have up to 254 characters
-- together.
pub client_names_machine :
    (p q r : Bool) (host port name : List ℕ)
    → Writable p host
    → Writable q port
    → Writable r name
    → Lacks b':' host
    → length host + length port < 255
    → let tuple = host ∷ port ∷ name ∷ [] in
      (switch_parse_tuple (written_tuple p host q port r name) 3 slash ≡ fields tuple)
      × (split_target (coremodel_mktarget tuple) ≡ (host, some port))
unfolding coremodel_mktarget
client_names_machine p q r host port name hp hq hr no_colon short =
    let text = host ++ b':' ∷ port in
    let whole : take 255 text ≡ text =
      take_all 255 text (omega (arith, length-append host (b':' ∷ port))) in
    (
      switch_parse_tuple-written p q r host port name hp hq hr,
      ap split_target whole ∙ split_target-append host port no_colon,
    )
