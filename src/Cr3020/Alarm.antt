-- ===== src/Cr3020/Alarm.antt =====
-- examples/can-cr3020-rtc/can-cr3020.c: an alarm that is set, and read back at the same time.
use coremodel.Base.{
  ℕ, ◌+◌, ◌-◌, ◌%◌, ◌<◌, ◌≡◌, ap, true, List, [], ◌∷◌, none, some, arith, ltb, if◌then◌else◌,
  get_or, pos, u8,
}
use coremodel.Cr3020.{Cr3020, Handled, alarm_set, alarm_request, alarm_day_in}
use coremodel.Rtc.{Tm, sub_int, format_6bit_bcd, format_7bit_bcd}

-- A time of day and a day of the week and of the month.
pub record IsTime (now : Tm) : Type 0 where
  pub hour : now.tm_hour < 24
  pub minute : now.tm_min < 60
  pub weekday : now.tm_wday < 7

-- The first three bytes of an answer: the days, hours and minutes.
abbrev pub countdown : Handled → List ℕ
countdown h = elim h.reply [
  | none ↦ []
  | some f ↦ get_or f.bytes 0 0 ∷ get_or f.bytes 1 0 ∷ get_or f.bytes 2 0 ∷ []
]

abbrev pub asked : ℕ → ℕ → ℕ → List ℕ → List ℕ
asked days hours minutes more = days ∷ hours ∷ minutes ∷ more

day_back :
    (wday days : ℕ)
    → wday < 7
    → days < 7
    → u8 (
        (if ltb (alarm_day_in wday days) wday
          then alarm_day_in wday days + 7
          else alarm_day_in wday days)
        - wday)
      ≡ days
day_back wday days h k = ground arith

hour_back :
    (now later : ℕ)
    → now < 24
    → later < 24
    → sub_int
        (if ltb ((now + later) % 24) now then (now + later) % 24 + 24 else (now + later) % 24)
        now
      ≡ pos later
hour_back now later h k = ground arith

minute_back :
    (now later mday : ℕ)
    → now < 60
    → later < 60
    → ltb ((now + later) % 60) mday ≡ ltb ((now + later) % 60) now
    → sub_int
        (if ltb ((now + later) % 60) mday then (now + later) % 60 + 60 else (now + later) % 60)
        now
      ≡ pos later
minute_back now later mday h k e = rw e (ground arith)

minute_late :
    (now later mday : ℕ)
    → now < 60
    → now + later < 60
    → now + later < mday
    → sub_int
        (if ltb ((now + later) % 60) mday then (now + later) % 60 + 60 else (now + later) % 60)
        now
      ≡ pos (later + 60)
minute_late now later mday h k e = ground arith

three :
    {a a' b b' c c' : ℕ}
    → a ≡ a'
    → b ≡ b'
    → c ≡ c'
    → Path (List ℕ) (a ∷ b ∷ c ∷ []) (a' ∷ b' ∷ c' ∷ [])
three e f g = cc

module _ (now : Tm) (days hours minutes spare : ℕ) (more data' : List ℕ) (s : Cr3020)
    (t : IsTime now) (d : days < 7) (h : hours < 24) (m : minutes < 60) where
  -- An alarm that is set some days, hours and minutes ahead is read back, at the same time, as that
  -- many days, hours and minutes ahead, if the minute of the alarm is before the current minute
  -- exactly when it is before the day of the month, with which the code compares it.
  pub alarm_reads_back :
      ltb ((now.tm_min + minutes) % 60) now.tm_mday ≡ ltb ((now.tm_min + minutes) % 60) now.tm_min
      → countdown
          (alarm_request now spare data' (alarm_set now (asked days hours minutes more) s).state)
        ≡ days ∷ format_6bit_bcd (pos hours) ∷ format_7bit_bcd (pos minutes) ∷ []
  unfolding alarm_set alarm_request
  alarm_reads_back e =
      let d7 : ltb days 7 ≡ true = ground arith in
      let h24 : ltb hours 24 ≡ true = ground arith in
      let m60 : ltb minutes 60 ≡ true = ground arith in
      rw (d7, h24, m60)
        (three (day_back now.tm_wday days t.weekday d)
          (ap format_6bit_bcd (hour_back now.tm_hour hours t.hour h))
          (ap format_7bit_bcd (minute_back now.tm_min minutes now.tm_mday t.minute m e)))

  -- An alarm for a minute within this hour that is below the day of the month is read back as sixty
  -- minutes later than it was set.
  pub alarm_reads_late :
      now.tm_min + minutes < 60
      → now.tm_min + minutes < now.tm_mday
      → countdown
          (alarm_request now spare data' (alarm_set now (asked days hours minutes more) s).state)
        ≡ days ∷ format_6bit_bcd (pos hours) ∷ format_7bit_bcd (pos (minutes + 60)) ∷ []
  unfolding alarm_set alarm_request
  alarm_reads_late within below =
      let d7 : ltb days 7 ≡ true = ground arith in
      let h24 : ltb hours 24 ≡ true = ground arith in
      let m60 : ltb minutes 60 ≡ true = ground arith in
      rw (d7, h24, m60)
        (three (day_back now.tm_wday days t.weekday d)
          (ap format_6bit_bcd (hour_back now.tm_hour hours t.hour h))
          (ap format_7bit_bcd (minute_late now.tm_min minutes now.tm_mday t.minute within below)))
