-- ===== src/SpiMux/Selection.antt =====
-- examples/spi-mux/coremodel-spi-mux.c: which channel is attached.
use coremodel.Base.{
  ℕ, ◌≡◌, ◌≢◌, refl, ap, ◌∙◌, true, false, not, ◌&&◌, List, [], ◌∷◌, arith, ltb, ◌==◌,
  if◌then◌else◌, ℤ, Bool-cases, inl, inr,
}
use coremodel.SpiMux.{
  SpiCall, SpiMux, AttachSpi, spi_mux_gpio_notify, notify_all, detach_previous, attach_selected,
  spi_mux_round,
}

-- The selected channel is attached if the multiplexer is enabled, and no other.
abbrev pub Selects : SpiMux → Type 0
Selects m = (i : ℕ) → (m.handle i == 0) ≡ not (m.en && (i == m.chan))

abbrev pub AlwaysAttaches : AttachSpi → Type 0
AlwaysAttaches answer = (calls : List SpiCall) (channel : ℕ) → answer calls channel ≢ 0

-- What a notification does to the channels.
record Notified (m m' : SpiMux) : Type 0 where
  same_handles : m'.handle ≡ m.handle
  previous : m'.chanp ≡ m.chan
  pending : m'.update_pin ≡ true

notify-Notified : (idx : ℕ) (mvolt : ℤ) (m : SpiMux) → Notified m (spi_mux_gpio_notify idx mvolt m)
unfolding spi_mux_gpio_notify
notify-Notified idx mvolt m = elim (Bool-cases (ltb idx 3)) [
  | inl e ↦
      rw (e, spi_mux_gpio_notify) (record { same_handles = refl; previous = refl; pending = refl })
  | inr e ↦
      rw (e, spi_mux_gpio_notify)
        (elim (Bool-cases (idx == 3)) [
          | inl f ↦ rw f (record { same_handles = refl; previous = refl; pending = refl })
          | inr f ↦ rw f (record { same_handles = refl; previous = refl; pending = refl })
        ])
]

-- The handles after the previous channel was detached.
detach_previous-handle :
    (m : SpiMux) (i : ℕ) → (detach_previous m).handle i ≡ (if i == m.chanp then 0 else m.handle i)
unfolding detach_previous
detach_previous-handle m i = elim (Bool-cases (m.handle m.chanp == 0)) [
  | inl none ↦
      rw (none, detach_previous)
        (elim (Bool-cases (i == m.chanp)) [
          | inl e ↦
              (let here : i ≡ m.chanp = ground (arith, e) in
                let off : m.handle m.chanp ≡ 0 = ground (arith, none) in
                rw e (ap m.handle here ∙ off))
          | inr e ↦ rw e refl
        ])
  | inr some ↦ rw (some, detach_previous) refl
]

detach_previous-same :
    (m : SpiMux) → ((detach_previous m).chan ≡ m.chan) × ((detach_previous m).en ≡ m.en)
unfolding detach_previous
detach_previous-same m = elim (Bool-cases (m.handle m.chanp == 0)) [
  | inl e ↦ rw (e, detach_previous) (refl, refl)
  | inr e ↦ rw (e, detach_previous) (refl, refl)
]

attach_selected-Selects :
    (answer : AttachSpi) (m : SpiMux)
    → AlwaysAttaches answer
    → ((i : ℕ) → m.handle i ≡ 0)
    → Selects (attach_selected answer m)
unfolding attach_selected
attach_selected-Selects answer m ok off i =
    let some = ok m.calls m.chan in
    let none = off i in
    elim (Bool-cases m.en) [
      | inl e ↦
          rw (e, attach_selected)
            (elim (Bool-cases (i == m.chan)) [
              | inl here ↦ rw here (ground (arith, some, e))
              | inr other ↦ rw other (ground (arith, none, e))
            ])
      | inr e ↦ rw (e, attach_selected) (ground (arith, none, e))
    ]

-- The state that a turn attaches from, when one pin was notified.
released : ℕ → ℤ → SpiMux → SpiMux
released idx mvolt m =
    detach_previous (record (spi_mux_gpio_notify idx mvolt m) { update_pin = false })

released-off :
    (idx : ℕ) (mvolt : ℤ) (m : SpiMux) → Selects m → (i : ℕ) → (released idx mvolt m).handle i ≡ 0
unfolding released
released-off idx mvolt m sel i =
    let n = notify-Notified idx mvolt m in
    let m1 = spi_mux_gpio_notify idx mvolt m in
    let here = detach_previous-handle (record m1 { update_pin = false }) i in
    let was = sel i in
    let same = ap (λ h. h i) n.same_handles in
    let chan = n.previous in
    here ∙ (elim (Bool-cases (i == m1.chanp)) [
      | inl e ↦ rw e refl
      | inr e ↦
          (let other : (i == m.chan) ≡ false = ground (arith, e, chan) in
            let off : m.handle i ≡ 0 = ground (arith, was, other) in rw e (same ∙ off))
    ])

round-one :
    (answer : AttachSpi) (idx : ℕ) (mvolt : ℤ) (m : SpiMux)
    → spi_mux_round answer ((idx, mvolt) ∷ []) [] [] m
      ≡ attach_selected answer (released idx mvolt m)
unfolding spi_mux_round notify_all released
round-one answer idx mvolt m =
    let n = notify-Notified idx mvolt m in rw (n.pending, spi_mux_round) refl

-- If every attaching succeeds and one pin is notified in a turn, then after it the selected channel is
-- attached if the multiplexer is enabled, and no other, if this was so before.
pub one_pin_attaches :
    (answer : AttachSpi) (idx : ℕ) (mvolt : ℤ) (m : SpiMux)
    → AlwaysAttaches answer
    → Selects m
    → Selects (spi_mux_round answer ((idx, mvolt) ∷ []) [] [] m)
one_pin_attaches answer idx mvolt m ok sel =
    rw (round-one answer idx mvolt m)
      (attach_selected-Selects answer (released idx mvolt m) ok (released-off idx mvolt m sel))

attach_selected-other :
    (answer : AttachSpi) (m : SpiMux) (i : ℕ)
    → i ≢ m.chan
    → (attach_selected answer m).handle i ≡ m.handle i
unfolding attach_selected
attach_selected-other answer m i ne =
    let other : (i == m.chan) ≡ false = ground (arith, ne) in
    elim (Bool-cases m.en) [
      | inl e ↦ rw (e, attach_selected) (rw other refl)
      | inr e ↦ rw (e, attach_selected) refl
    ]

-- The channel of a state after a notification.
abbrev pub moved_to : ℕ → ℤ → SpiMux → ℕ
moved_to idx mvolt m = (spi_mux_gpio_notify idx mvolt m).chan

-- If two pins are notified in one turn, and another channel than before is selected both after the
-- first and after the second, then what was attached to the channel before stays attached: the turn
-- only detaches the channel between the two.
pub two_pins_keep_old :
    (answer : AttachSpi) (idx idx' : ℕ) (mvolt mvolt' : ℤ) (m : SpiMux)
    → m.chan ≢ moved_to idx mvolt m
    → m.chan ≢ moved_to idx' mvolt' (spi_mux_gpio_notify idx mvolt m)
    → (spi_mux_round answer ((idx, mvolt) ∷ (idx', mvolt') ∷ []) [] [] m).handle m.chan
      ≡ m.handle m.chan
unfolding spi_mux_round notify_all
two_pins_keep_old answer idx idx' mvolt mvolt' m ne1 ne2 =
    let m1 = spi_mux_gpio_notify idx mvolt m in
    let n1 = notify-Notified idx mvolt m in
    let m2 = spi_mux_gpio_notify idx' mvolt' m1 in
    let n2 = notify-Notified idx' mvolt' m1 in
    let previous = n2.previous in
    let cleared = record m2 { update_pin = false } in
    let between : (m.chan == m2.chanp) ≡ false = ground (arith, ne1, previous) in
    let here = detach_previous-handle cleared m.chan in
    let chan = (detach_previous-same cleared).0 in
    rw (n2.pending, spi_mux_round)
      (attach_selected-other answer (detach_previous cleared) m.chan (λ e. ne2 (e ∙ chan))
        ∙ here
        ∙ rw between (ap (λ h. h m.chan) (n2.same_handles ∙ n1.same_handles)))
