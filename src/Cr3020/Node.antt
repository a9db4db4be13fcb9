-- ===== src/Cr3020/Node.antt =====
-- examples/can-cr3020-rtc/can-cr3020.c: the state and the replies of the clock over any frames.
use coremodel.Base.{
  ℕ, ◌+◌, ◌^◌, ◌≤◌, ◌<◌, ◌≡◌, ◌≢◌, refl, ◌⊎◌, inl, inr, Bool, true, false, List, [], ◌∷◌, Option,
  none, some, arith, ◌==◌, Bool-cases, Option-cases, ◌&&◌, if◌then◌else◌, get_or, length, rd64,
}
use coremodel.Bus.Can.{can_datalen, QuietCan, can_rx}
use coremodel.Bus.Handler.{can, dispatch, advance_if-dispatch_ends}
use coremodel.Bus.Queue.{advance_if}
use coremodel.If.{St, Same}
use coremodel.Cr3020.{
  Cr3020, Frame, Handled, initialize, rtc_set, rtc_request, alarm_set, alarm_request, handle,
  can_cr3020_receive, is_extended, frame_id, frame_dlen, cr3020_func, silent, send_reply,
}
use coremodel.Rtc.{Tm}

-- What `main` sets up and every frame keeps.
pub record IsNode (s : Cr3020) : Type 0 where
  pub id_fits : s.node_id < 0x40
  pub day_fits : s.alarm_day ≤ 7
  pub hour_fits : s.alarm_hour < 24
  pub minute_fits : s.alarm_minute < 60
  pub switch : (s.alarm_enabled ≡ 0) ⊎ (s.alarm_enabled ≡ 0xFF)

-- The reply's data is as long as its control word announces, and its identifier fits eleven bits.
abbrev pub IsSound : Option Frame → Type 0
IsSound none = Unit {0}
IsSound (some f) = (f.id < 2 ^ 11) × (f.dlc < 16) × (length f.bytes ≡ get_or can_datalen f.dlc 0)

alarm_set-IsNode :
    (now : Tm) (data' : List ℕ) (s : Cr3020) → IsNode s → IsNode (alarm_set now data' s).state
unfolding alarm_set
alarm_set-IsNode now data' s v = record {
  id_fits = ground (arith, v.id_fits);
  day_fits = ground (arith, v.day_fits);
  hour_fits = ground (arith, v.hour_fits);
  minute_fits = ground (arith, v.minute_fits);
  switch = ground (arith, v.switch);
}

abbrev Good : Handled → Type 0
Good h = IsNode h.state × IsSound h.reply

if-Good : (b : Bool) (x y : Handled) → Good x → Good y → Good (if b then x else y)
if-Good true x y g h = g
if-Good false x y g h = h

module _ (now : Tm) (spare : ℕ) (data' : List ℕ) (s : Cr3020) (v : IsNode s) where
  silent-Good : Good (silent s)
  silent-Good = (v, tt)

  initialize-Good : Good (initialize s)
  unfolding initialize
  initialize-Good = (
    record {
      id_fits = v.id_fits;
      day_fits = v.day_fits;
      hour_fits = v.hour_fits;
      minute_fits = v.minute_fits;
      switch = v.switch;
    },
    (omega arith, omega arith, refl),
  )

  rtc_set-Good : Good (rtc_set now s)
  unfolding rtc_set
  rtc_set-Good = (v, (omega (arith, v.id_fits), omega arith, refl))

  rtc_request-Good : Good (rtc_request now s)
  unfolding rtc_request
  rtc_request-Good = (v, (omega (arith, v.id_fits), omega arith, refl))

  alarm_set-Good : Good (alarm_set now data' s)
  alarm_set-Good =
      let w = alarm_set-IsNode now data' s v in
      (w, unfold alarm_set in (omega (arith, w.id_fits), omega arith, refl))

  alarm_request-Good : Good (alarm_request now spare data' s)
  unfolding alarm_request
  alarm_request-Good = (v, (omega (arith, v.id_fits), omega arith, refl))

handle-IsNode :
    (now : Tm) (spare : ℕ) (extended : Bool) (id dlen : ℕ) (data' : List ℕ) (s : Cr3020)
    → IsNode s
    → IsNode (handle now spare extended id dlen data' s).state
      × IsSound (handle now spare extended id dlen data' s).reply
unfolding handle
handle-IsNode now spare extended id dlen data' s v =
    let quiet = silent-Good now spare data' s v in
    let h0 =
      if (id == 0x400 + s.node_id) && (dlen == 0)
      then alarm_request now spare data' s
      else (silent s) in
    let g0 =
      if-Good ((id == 0x400 + s.node_id) && (dlen == 0)) (alarm_request now spare data' s)
        (silent s) (alarm_request-Good now spare data' s v) quiet in
    let h1 = if (id == 0x500 + s.node_id) && (dlen == 7) then alarm_set now data' s else h0 in
    let g1 =
      if-Good ((id == 0x500 + s.node_id) && (dlen == 7)) (alarm_set now data' s) h0
        (alarm_set-Good now spare data' s v) g0 in
    let h2 = if (id == 0x200 + s.node_id) && (dlen == 0) then rtc_request now s else h1 in
    let g2 =
      if-Good ((id == 0x200 + s.node_id) && (dlen == 0)) (rtc_request now s) h1
        (rtc_request-Good now spare data' s v) g1 in
    let h3 = if (id == 0x300 + s.node_id) && (dlen == 6) then rtc_set now s else h2 in
    let g3 =
      if-Good ((id == 0x300 + s.node_id) && (dlen == 6)) (rtc_set now s) h2
        (rtc_set-Good now spare data' s v) g2 in
    let h4 = if s.initialized == 0 then silent s else h3 in
    let g4 = if-Good (s.initialized == 0) (silent s) h3 (silent-Good now spare data' s v) g3 in
    let h5 = if (id == 0x7FF) && (dlen == 0) then initialize s else h4 in
    let g5 =
      if-Good ((id == 0x7FF) && (dlen == 0)) (initialize s) h4 (initialize-Good now spare data' s v)
        g4 in
    if-Good (extended) (silent s) h5 quiet g5

-- Every frame keeps the clock's state in range: the node's identifier fits six bits, the alarm is a
-- day of the week and a time of day, and its switch is 0 or 255. Every reply is sound: its identifier
-- fits eleven bits, and `coremodel_can_rx` finds as many bytes as its control word announces.
pub can_cr3020_receive-IsNode :
    (now : Tm) (spare ctrl : ℕ) (data' : List ℕ) (s : Cr3020)
    → IsNode s
    → IsNode (can_cr3020_receive now spare ctrl data' s).state
      × IsSound (can_cr3020_receive now spare ctrl data' s).reply
unfolding can_cr3020_receive
can_cr3020_receive-IsNode now spare ctrl data' s v =
    handle-IsNode now spare (is_extended ctrl) (frame_id ctrl) (frame_dlen ctrl) data' s v

-- Frames received one after the other, each with the time and the data of its own.
pub listen : List (Tm × ℕ × List ℕ) → Cr3020 → List (Option Frame) × Cr3020
unfolding can_cr3020_receive
listen [] s = ([], s)
listen ((now, ctrl, data') ∷ frames) s =
    let h = can_cr3020_receive now 0 ctrl data' s in
    let (replies, s') = listen frames h.state in (h.reply ∷ replies, s')

abbrev pub NoBroadcast : List (Tm × ℕ × List ℕ) → Type 0
NoBroadcast [] = Unit {0}
NoBroadcast ((now, ctrl, data') ∷ frames) = (frame_id ctrl ≢ 0x7FF) × NoBroadcast frames

abbrev pub nones : {A : Type 0} → List A → List (Option Frame)
nones [] = []
nones (x ∷ xs) = none ∷ nones xs

deaf :
    (now : Tm) (spare ctrl : ℕ) (data' : List ℕ) (s : Cr3020)
    → s.initialized ≡ 0
    → frame_id ctrl ≢ 0x7FF
    → let h = can_cr3020_receive now spare ctrl data' s in (h.reply ≡ none) × (h.state ≡ s)
unfolding can_cr3020_receive handle
deaf now spare ctrl data' s e n =
    let other : (frame_id ctrl == 0x7FF) ≡ false = ground arith in
    elim (Bool-cases (is_extended ctrl)) [
      | inl x ↦ rw x (refl, refl)
      | inr x ↦ rw (x, other, e) (refl, refl)
    ]

-- Until the broadcast that initializes it, the clock answers no frame and changes nothing, whatever
-- frames come.
pub deaf_until_initialized :
    (frames : List (Tm × ℕ × List ℕ)) (s : Cr3020)
    → s.initialized ≡ 0
    → NoBroadcast frames
    → listen frames s ≡ (nones frames, s)
unfolding listen
deaf_until_initialized [] s e n = refl
deaf_until_initialized ((now, ctrl, data') ∷ frames) s e n =
    let (quiet, same) = deaf now 0 ctrl data' s e n.0 in
    rw (quiet, same) (rw (deaf_until_initialized frames s e n.1))

sent : (h : Handled) (st : St Cr3020) → Same st (send_reply h st)
unfolding can_rx
sent h st = elim (Option-cases h.reply) [
  | inl e ↦ rw e (refl, refl)
  | inr (f, e) ↦ rw e (ground arith, ground arith)
]

receive-Quiet : (now : Tm) (spare : ℕ) → QuietCan (cr3020_func now spare)
unfolding cr3020_func
receive-Quiet now spare = (
  (λ ctrl data' st. sent (can_cr3020_receive now spare (rd64 ctrl 0) data' st.io.dev) st),
  (λ n st. (refl, refl)),
)

-- The callbacks leave the interface's queue and `busy` alone, so that the loop over its packets ends.
pub cr3020_ends :
    (now : Tm) (spare : ℕ) (st : St Cr3020)
    → (st' : St Cr3020) × (advance_if (dispatch (can (cr3020_func now spare))) st ≡ some st')
cr3020_ends now spare st =
    advance_if-dispatch_ends (can (cr3020_func now spare)) (receive-Quiet now spare) st
