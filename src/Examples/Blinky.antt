-- ===== src/Examples/Blinky.antt =====
-- examples/gpio/coremodel-blinky.c: pins of which one follows another upside down, and one ends the
-- program. What coremodel_attach_gpio returns, and what the main loop brings, are arguments.
use coremodel.Base.{
  ℕ, suc, ◌≡◌, refl, ap, ap₂, ◌∙◌, ◌++◌, ◌||◌, ◌&&◌, not, Bool, true, false, List, [], ◌∷◌, arith,
  ltb, ◌==◌, if◌then◌else◌, ℤ, pos, negsuc, is_zero,
}

abbrev pin_num : ℕ
pin_num = 54

-- `coremodel_gpio_state_t`; a handle of 0 is NULL.
pub record Blinky : Type 0 where
  pub pin_handle : ℕ → ℕ
  pub mvolt : ℕ → ℤ
  pub live : ℕ

-- The calls of the library.
pub data PinCall : Type 0 where
  attaching : ℕ → PinCall
  setting : ℕ → ℕ → ℤ → PinCall
  waiting : ℕ → PinCall
  detaching : ℕ → PinCall
  disconnecting : PinCall

abbrev pub put_pin {ℓ} : {A : Type ℓ} → ℕ → A → (ℕ → A) → ℕ → A
put_pin i v f j = if j == i then v else f j

abbrev pub mirrored : ℤ → ℤ
mirrored mv = if is_zero mv then pos 3300 else pos 0

-- The switch over the number of the pin.
unfoldable pub pin_action : ℕ → ℤ → Blinky → List PinCall × Blinky
pin_action idx mv s =
    if idx == 15
    then ([], if is_zero mv then s else record s { live = 0 })
    else if idx == 16
    then (if s.pin_handle 17 == 0 then [] else setting (s.pin_handle 17) 1 (mirrored mv) ∷ [], s)
    else ([], s)

unfoldable pub test_gpio_notify : ℕ → ℤ → Blinky → List PinCall × Blinky
unfolding pin_action
test_gpio_notify idx mv s =
    let (calls, s') = pin_action idx mv s in (calls, record s' { mvolt = put_pin idx mv s'.mvolt })

-- The notifications of a run of the main loop, each of a pin and its level.
unfoldable pub notified : List (ℕ × ℤ) → Blinky → List PinCall × Blinky
unfolding test_gpio_notify
notified [] s = ([], s)
notified ((idx, mv) ∷ ns) s =
    let (calls, s') = test_gpio_notify idx mv s in
    let (more, s'') = notified ns s' in (calls ++ more, s'')

-- A number from the arguments that names a pin.
abbrev pub is_pin : ℤ → Bool
is_pin (pos n) = ltb n pin_num
is_pin (negsuc n) = false

abbrev pub pin_of : ℤ → ℕ
pin_of (pos n) = n
pin_of (negsuc n) = 0

-- The loop that attaches the pins; the result is true when an attach failed.
unfoldable pub attach_pins : (ℕ → ℕ) → List ℤ → Blinky → Bool × List PinCall × Blinky
attach_pins answer [] s = (false, [], s)
attach_pins answer (g ∷ gs) s =
    let n = pin_of g in
    let rest =
      attach_pins answer gs (record s { pin_handle = put_pin n (answer n) s.pin_handle }) in
    let skipped = attach_pins answer gs s in
    if not (is_pin g)
    then skipped
    else if answer n == 0
    then (true, attaching n ∷ disconnecting ∷ [], s)
    else (rest.0, attaching n ∷ rest.1, rest.2)

-- What is done for one pin at the end.
abbrev pub release_pin : ℕ → List PinCall
release_pin h =
    setting h 1 (pos 0) ∷ waiting 100000 ∷ setting h 0 (pos 0) ∷ waiting 100000 ∷ detaching h ∷ []

unfoldable pub release_pins : List ℤ → Blinky → List PinCall
release_pins [] s = []
release_pins (g ∷ gs) s =
    let h = s.pin_handle (pin_of g) in
    (if is_pin g && not (h == 0) then release_pin h else []) ++ release_pins gs s

-- The level of pin 15 that ends the program, and what pin 17 is set to.
abbrev pub ends : List (ℕ × ℤ) → Bool
ends [] = false
ends ((idx, mv) ∷ ns) = (idx == 15 && not (is_zero mv)) || ends ns

abbrev pub driven : ℕ → List (ℕ × ℤ) → List PinCall
driven h [] = []
driven h ((idx, mv) ∷ ns) =
    (if idx == 16 then setting h 1 (mirrored mv) ∷ [] else []) ++ driven h ns

module _ (idx : ℕ) (mv : ℤ) (s : Blinky) (h : ℕ) (e : s.pin_handle 17 ≡ suc h) where
  abbrev after : List PinCall × Blinky
  after = test_gpio_notify idx mv s

  step_calls : after.0 ≡ (if idx == 16 then setting (suc h) 1 (mirrored mv) ∷ [] else [])
  unfolding test_gpio_notify
  step_calls = ground (arith, e)

  step_live : after.1.live ≡ (if idx == 15 && not (is_zero mv) then 0 else s.live)
  unfolding test_gpio_notify
  step_live = ground arith

  step_handles : after.1.pin_handle ≡ s.pin_handle
  unfolding test_gpio_notify
  step_handles = ground arith

either_ends :
    (a b : Bool) (n : ℕ) → (if b then 0 else (if a then 0 else n)) ≡ (if a || b then 0 else n)
either_ends a b n = ground arith

-- With pin 17 attached, any notifications drive it exactly at those of pin 16, to the opposite level
-- and in their order, and end the program exactly if one of pin 15 has a level other than 0.
pub notified_drives :
    (ns : List (ℕ × ℤ)) (s : Blinky) (h : ℕ)
    → s.pin_handle 17 ≡ suc h
    → ((notified ns s).0 ≡ driven (suc h) ns)
      × ((notified ns s).1.live ≡ (if ends ns then 0 else s.live))
      × ((notified ns s).1.pin_handle ≡ s.pin_handle)
unfolding notified
notified_drives [] s h e = (refl, refl, refl)
notified_drives ((idx, mv) ∷ ns) s h e =
    let s' = (test_gpio_notify idx mv s).1 in
    let handles = step_handles idx mv s h e in
    let on = notified_drives ns s' h (ap (λ f. f 17) handles ∙ e) in
    (
      ap₂ ◌++◌ (step_calls idx mv s h e) on.0,
      on.1
          ∙ ap (λ n. if ends ns then 0 else n) (step_live idx mv s h e)
          ∙ either_ends (idx == 15 && not (is_zero mv)) (ends ns) s.live,
      on.2 ∙ handles,
    )
