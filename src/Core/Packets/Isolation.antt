-- ===== src/Core/Packets/Isolation.antt =====
-- coremodel.c: a packet reaches the interface of its connection, and no other.
use coremodel.Base.{
  ℕ, ◌≡◌, ◌≢◌, refl, sym, ap, subst, ◌∙◌, Bool, List, [], ◌∷◌, Option, none, some, arith, ◌==◌,
  if◌then◌else◌, Bool-cases, inl, inr, ◌⊎◌,
}
use coremodel.Tx.{Io}
use coremodel.If.{St, Steady}
use coremodel.Bus.Handler.{dispatch}
use coremodel.Bus.Queue.{advance_if}
use coremodel.Bus.Keeping.{SteadyHandlers, SteadyOut, advance_if-Steady}
use coremodel.Core.State.{Attached, advance_attached, finished}
use coremodel.Core.Packets.{find_if, replace_if}

abbrev pub AllSteady : {D : Type 0} → List (Attached D) → Type 0
AllSteady [] = Unit {0}
AllSteady (a ∷ rest) = SteadyHandlers a.func × AllSteady rest

module _ {D : Type 0} where
  finished-Steady :
      (c : ℕ) (st : St D) (o : Option (St D))
      → Steady c st
      → SteadyOut c o
      → Steady c (finished st o)
  finished-Steady c st none s q = s
  finished-Steady c st (some st') s q = q

  -- An interface that is advanced stays on its connection.
  pub advance_attached-Steady :
      (a : Attached D) (io : Io D)
      → SteadyHandlers a.func
      → io.allocs ≡ []
      → let (a', io') = advance_attached a io in
        (a'.cif.conn ≡ a.cif.conn) × (io'.allocs ≡ []) × (a'.func ≡ a.func) × (a'.handle ≡ a.handle)
  unfolding advance_attached
  advance_attached-Steady a io q e =
      let st : St D = record { cif = a.cif; io = io } in
      let out =
        finished-Steady a.cif.conn st (advance_if (dispatch a.func) st) (refl, e)
          (advance_if-Steady a.func q a.cif.conn st (refl, e)) in
      (out.0, out.1, refl, refl)

  some-inj : {a b : Attached D} → some a ≡ some b → a ≡ b
  some-inj e = cc

  -- The interface that is found is one of the list, with that index.
  find_if-cases :
      (c : ℕ) (b : Attached D) (rest : List (Attached D)) {a : Attached D}
      → find_if c (b ∷ rest) ≡ some a
      → ((b.cif.conn ≡ c) × (b ≡ a)) ⊎ (find_if c rest ≡ some a)
  unfolding find_if
  find_if-cases c b rest {a} e =
      let chosen = λ (x : Bool). if x then some b else find_if c rest in
      elim (Bool-cases (b.cif.conn == c)) [
        | inl t ↦ inl (ground arith, some-inj (sym (ap chosen t) ∙ e))
        | inr t ↦ inr (sym (ap chosen t) ∙ e)
      ]

  no_interface : (c : ℕ) {a : Attached D} → find_if c [] ≡ some a → ⊥
  unfolding find_if
  no_interface c e = cc

  pub find_if-conn :
      (c : ℕ) (ifs : List (Attached D)) {a : Attached D} → find_if c ifs ≡ some a → a.cif.conn ≡ c
  find_if-conn c [] e = absurd (no_interface c e)
  find_if-conn c (b ∷ rest) e = elim (find_if-cases c b rest e) [
    | inl (t, same) ↦ ap (λ (x : Attached D). x.cif.conn) (sym same) ∙ t
    | inr later ↦ find_if-conn c rest later
  ]

  pub find_if-Steady :
      (c : ℕ) (ifs : List (Attached D)) {a : Attached D}
      → find_if c ifs ≡ some a
      → AllSteady ifs
      → SteadyHandlers a.func
  find_if-Steady c [] e q = absurd (no_interface c e)
  find_if-Steady c (b ∷ rest) e q = elim (find_if-cases c b rest e) [
    | inl (t, same) ↦ subst (λ (x : Attached D). SteadyHandlers x.func) same q.0
    | inr later ↦ find_if-Steady c rest later q.1
  ]

  -- Giving the interface of one connection anew leaves those of the others as they are.
  pub find_if-replace_if :
      (c k : ℕ) (b : Attached D) (ifs : List (Attached D))
      → k ≢ c
      → b.cif.conn ≡ c
      → find_if k (replace_if c b ifs) ≡ find_if k ifs
  unfolding find_if replace_if
  find_if-replace_if c k b [] n e = refl
  find_if-replace_if c k b (a ∷ rest) n e = elim (Bool-cases (a.cif.conn == c)) [
    | inl t ↦ ground (arith, t)
    | inr t ↦ ground (arith, t, find_if-replace_if c k b rest n e)
  ]

  pub replace_if-AllSteady :
      (c : ℕ) (b : Attached D) (ifs : List (Attached D))
      → SteadyHandlers b.func
      → AllSteady ifs
      → AllSteady (replace_if c b ifs)
  unfolding replace_if
  replace_if-AllSteady c b [] q all = tt
  replace_if-AllSteady c b (a ∷ rest) q all = elim (Bool-cases (a.cif.conn == c)) [
    | inl t ↦ rw t (q, all.1)
    | inr t ↦ rw t (all.0, replace_if-AllSteady c b rest q all.1)
  ]
