-- ===== src/Cr3020/Tests.antt =====
-- examples/can-cr3020-rtc/can-cr3020.c: the clock at a concrete time.
use coremodel.Base.{ℕ, ◌+◌, ◌*◌, ◌^◌, refl, List, [], ◌∷◌, arith, inl}
use coremodel.Cr3020.{Cr3020, can_cr3020_receive}
use coremodel.Rtc.{Tm}
use coremodel.Cr3020.Alarm.{IsTime, asked}
use coremodel.Cr3020.Node.{IsNode, IsSound, can_cr3020_receive-IsNode}

-- 22:50:07 on Saturday, the fifteenth.
abbrev evening : Tm
evening = record {
  tm_sec = 7;
  tm_min = 50;
  tm_hour = 22;
  tm_mday = 15;
  tm_mon = 10;
  tm_year = 126;
  tm_wday = 6;
}

abbrev clock : Cr3020
clock = record {
  initialized = 1;
  node_id = 0x13;
  alarm_day = 0;
  alarm_hour = 0;
  alarm_minute = 0;
  alarm_enabled = 0;
}

evening-IsTime : IsTime evening
evening-IsTime = record { hour = omega arith; minute = omega arith; weekday = omega arith }

clock-IsNode : IsNode clock
clock-IsNode = record {
  id_fits = omega arith;
  day_fits = omega arith;
  hour_fits = omega arith;
  minute_fits = omega arith;
  switch = inl refl;
}

abbrev more : List ℕ
more = 0 ∷ 1 ∷ 2 ∷ 255 ∷ []

-- The frame that sets the alarm.
abbrev set_ctrl : ℕ
set_ctrl = 0x513 * 2 ^ 36 + 7

can_cr3020_receive-IsNode_example :
    IsNode (can_cr3020_receive evening 99 set_ctrl (asked 2 3 20 more) clock).state
    × IsSound (can_cr3020_receive evening 99 set_ctrl (asked 2 3 20 more) clock).reply
can_cr3020_receive-IsNode_example =
    can_cr3020_receive-IsNode evening 99 set_ctrl (asked 2 3 20 more) clock clock-IsNode
