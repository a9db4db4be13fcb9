-- ===== src/I2cMux/Selection.antt =====
-- examples/i2c-mux/coremodel-i2c-mux.c: which devices are attached.
use coremodel.Base.{
  ℕ, suc, ◌≡◌, ◌≢◌, refl, subst, Bool, true, false, not, ◌&&◌, List, [], ◌∷◌, arith, ◌==◌,
  if◌then◌else◌, branch,
}
use coremodel.I2cMux.{
  MuxDevice, Call, I2cMux, Attach, attach_devices, detach_devices, detach_one, selected, same,
  update_from, i2c_mux_update_channels, i2c_mux_round,
}

-- Attaching never fails.
abbrev pub Answers : Attach → Type 0
Answers answer = (calls : List Call) (addr : ℕ) → answer calls addr ≢ 0

-- Every device is attached, or none is.
abbrev pub AllAre : Bool → List MuxDevice → Type 0
AllAre b [] = Unit {0}
AllAre b (d ∷ ds) = ((d.handle == 0) ≡ not b) × AllAre b ds

-- The devices of the channels from the `i`th on are attached as `sel` says.
abbrev pub Marked : (ℕ → Bool) → ℕ → List (List MuxDevice) → Type 0
Marked sel i [] = Unit {0}
Marked sel i (ds ∷ rest) = AllAre (sel i) ds × Marked sel (suc i) rest

attach_devices-AllAre :
    (answer : Attach) (calls : List Call) (ds : List MuxDevice)
    → Answers answer
    → AllAre true (attach_devices answer calls ds).0
unfolding attach_devices
attach_devices-AllAre answer calls [] ok = tt
attach_devices-AllAre answer calls (d ∷ ds) ok =
    let some = ok calls d.addr in
    ((ground (arith, some)), attach_devices-AllAre answer (Call.attach d.addr ∷ calls) ds ok)

detach_devices-AllAre :
    (calls : List Call) (ds : List MuxDevice) → AllAre false (detach_devices calls ds).0
unfolding detach_devices
detach_devices-AllAre calls [] = tt
detach_devices-AllAre calls (d ∷ ds) = (refl, detach_devices-AllAre (detach_one d calls) ds)

-- What an update makes of a selection: only the channels whose bits differ are touched.
abbrev pub updated : ℕ → ℕ → (ℕ → Bool) → ℕ → Bool
updated chanp chan sel i =
    if same (selected chanp i) (selected chan i) then sel i else selected chan i

moved-AllAre :
    (answer : Attach) (calls : List Call) (b : Bool) (ds : List MuxDevice)
    → Answers answer
    → AllAre b (if b then attach_devices answer calls ds else detach_devices calls ds).0
moved-AllAre answer calls true ds ok = attach_devices-AllAre answer calls ds ok
moved-AllAre answer calls false ds ok = detach_devices-AllAre calls ds

now-AllAre :
    (answer : Attach) (calls : List Call) (stay b old : Bool) (ds : List MuxDevice)
    → Answers answer
    → AllAre old ds
    → AllAre
        (if stay then old else b)
        (if stay
          then (ds, calls)
          else (if b then attach_devices answer calls ds else detach_devices calls ds)).0
now-AllAre answer calls true b old ds ok h = h
now-AllAre answer calls false b old ds ok h = moved-AllAre answer calls b ds ok

update_from-Marked :
    (answer : Attach) (chanp chan i : ℕ) (calls : List Call) (chs : List (List MuxDevice))
    (sel : ℕ → Bool)
    → Answers answer
    → Marked sel i chs
    → Marked (updated chanp chan sel) i (update_from answer chanp chan i calls chs).0
unfolding update_from
update_from-Marked answer chanp chan i calls [] sel ok h = tt
update_from-Marked answer chanp chan i calls (ds ∷ rest) sel ok h = (
  now-AllAre answer calls (same (selected chanp i) (selected chan i)) (selected chan i) (sel i) ds
      ok h.0,
  update_from-Marked answer chanp chan (suc i) _ rest sel ok h.1,
)

pub Marked-cong :
    (sel sel' : ℕ → Bool) (i : ℕ) (chs : List (List MuxDevice))
    → ((k : ℕ) → sel k ≡ sel' k)
    → Marked sel i chs
    → Marked sel' i chs
Marked-cong sel sel' i [] e h = tt
Marked-cong sel sel' i (ds ∷ rest) e h =
    (subst (λ b. AllAre b ds) (e i) h.0, Marked-cong sel sel' (suc i) rest e h.1)

round-updates :
    (answer : Attach) (m : I2cMux)
    → m.write ≡ true
    → m.stop ≡ true
    → i2c_mux_round answer m
      ≡ i2c_mux_update_channels answer (record m { write = false; stop = false })
unfolding i2c_mux_round
round-updates answer m w s = rw (w, i2c_mux_round) (rw s refl)

pub round-Marked :
    (answer : Attach) (sel : ℕ → Bool) (m : I2cMux)
    → Answers answer
    → m.write ≡ true
    → m.stop ≡ true
    → Marked sel 0 m.channel
    → Marked (updated m.chanp m.chan sel) 0 (i2c_mux_round answer m).channel
unfolding i2c_mux_update_channels
round-Marked answer sel m ok w s h =
    rw (round-updates answer m w s)
      (update_from-Marked answer m.chanp m.chan 0 m.calls m.channel sel ok h)

pub round-chan : (answer : Attach) (m : I2cMux) → (i2c_mux_round answer m).chan ≡ m.chan
unfolding i2c_mux_round i2c_mux_update_channels
round-chan answer m =
    branch (λ (x : I2cMux). x.chan ≡ m.chan) (m.write && m.stop) (λ e. refl) (λ e. refl)

same-then : (a b : Bool) → (if same a b then a else b) ≡ b
same-then true true = refl
same-then true false = refl
same-then false true = refl
same-then false false = refl

pub updated-selected : (chanp chan i : ℕ) → updated chanp chan (selected chanp) i ≡ selected chan i
updated-selected chanp chan i = same-then (selected chanp i) (selected chan i)
