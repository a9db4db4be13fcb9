-- ===== src/Cr3020.antt =====
-- examples/can-cr3020-rtc/can-cr3020.c: a real-time clock on a CAN bus. What localtime(3) gives is an
-- argument.
pub mod Alarm
pub mod Node
mod Tests
use coremodel.Base.{
  ℕ, ◌+◌, ◌-◌, ◌*◌, ◌/◌, ◌%◌, ◌^◌, ◌++◌, ◌&&◌, ◌||◌, Bool, true, false, List, [], ◌∷◌, Option, none,
  some, ltb, ◌==◌, if◌then◌else◌, get_or, length, u8, rd64, take, drop, ℤ, pos, negsuc,
}
use coremodel.Rtc.{Tm, format_7bit_bcd, format_6bit_bcd, format_5bit_bcd, sub_int}
use coremodel.If.{St}
use coremodel.Bus.Can.{CanFunc, can_rx, can_datalen}
use coremodel.Bus.Event.{le64}

-- `cr3020_state_t`; its handle is the interface that the callbacks get.
pub record Cr3020 : Type 0 where
  pub initialized : ℕ
  pub node_id : ℕ
  pub alarm_day : ℕ
  pub alarm_hour : ℕ
  pub alarm_minute : ℕ
  pub alarm_enabled : ℕ

-- A frame to send: the control word's identifier and length code, and the data.
pub record Frame : Type 0 where
  pub id : ℕ
  pub dlc : ℕ
  pub bytes : List ℕ

-- What a frame leads to. `fault` is a write outside the data that the frame announces.
pub record Handled : Type 0 where
  pub reply : Option Frame
  pub fault : Bool
  pub state : Cr3020

abbrev pub silent : Cr3020 → Handled
silent s = record { reply = none; fault = false; state = s }

abbrev pub answers : Frame → Cr3020 → Handled
answers f s = record { reply = some f; fault = false; state = s }

-- Day, month and century, year, hour and minute of the clock, as a reply has them.
abbrev pub clock_bytes : Tm → List ℕ
clock_bytes now =
    format_6bit_bcd (pos now.tm_mday)
    ∷ u8
        (format_5bit_bcd (pos (now.tm_mon + 1)) + format_5bit_bcd (pos (now.tm_year / 100)) * 2 ^ 7)
    ∷ u8 (now.tm_year % 100 / 10 * 16 + now.tm_year % 10)
    ∷ format_6bit_bcd (pos now.tm_hour)
    ∷ format_7bit_bcd (pos now.tm_min)
    ∷ []

-- `(((tm_wday - 1) + days) % 7) + 1`, where the remainder of -1 is -1.
abbrev pub alarm_day_in : ℕ → ℕ → ℕ
alarm_day_in wday days = if wday + days == 0 then 0 else (wday + days - 1) % 7 + 1

unfoldable pub initialize : Cr3020 → Handled
initialize s =
    answers (record { id = 0x7FE; dlc = 2; bytes = s.node_id ∷ 2 ∷ [] })
      (record s { initialized = 1 })

unfoldable pub rtc_set : Tm → Cr3020 → Handled
rtc_set now s =
    answers
      (record {
        id = 0x280 + s.node_id;
        dlc = 6;
        bytes = clock_bytes now ++ (u8 (now.tm_wday + 1) ∷ []);
      })
      s

unfoldable pub rtc_request : Tm → Cr3020 → Handled
rtc_request now s =
    answers
      (record {
        id = 0x180 + s.node_id;
        dlc = 8;
        bytes =
            clock_bytes now ++ (format_7bit_bcd (pos now.tm_sec) ∷ u8 (now.tm_wday + 1) ∷ 0 ∷ []);
      })
      s

unfoldable pub alarm_set : Tm → List ℕ → Cr3020 → Handled
alarm_set now data' s =
    let at = λ (i : ℕ). get_or data' i 0 in
    let s' : Cr3020 = record s {
      alarm_day = if ltb (at 0) 7 then alarm_day_in now.tm_wday (at 0) else s.alarm_day;
      alarm_hour = if ltb (at 1) 24 then (now.tm_hour + at 1) % 24 else s.alarm_hour;
      alarm_minute = if ltb (at 2) 60 then (now.tm_min + at 2) % 60 else s.alarm_minute;
      node_id = if (at 3 == at 4) && ltb (at 3) 0x40 then at 3 else s.node_id;
      alarm_enabled = if (at 6 == 0) || (at 6 == 0xFF) then at 6 else s.alarm_enabled;
    } in
    answers
      (record {
        id = 0x480 + s'.node_id;
        dlc = 7;
        bytes = at 0 ∷ at 1 ∷ at 2 ∷ s'.node_id ∷ s'.node_id ∷ 2 ∷ s'.alarm_enabled ∷ [];
      })
      s'

-- The minute is compared with the day of the month. The last byte of the reply is the one that
-- malloc left there, `spare`; the flag goes to the seventh byte of the frame's data, which has none.
unfoldable pub alarm_request : Tm → ℕ → List ℕ → Cr3020 → Handled
alarm_request now spare data' s =
    let day = if ltb s.alarm_day now.tm_wday then s.alarm_day + 7 else s.alarm_day in
    let hour = if ltb s.alarm_hour now.tm_hour then s.alarm_hour + 24 else s.alarm_hour in
    let minute = if ltb s.alarm_minute now.tm_mday then s.alarm_minute + 60 else s.alarm_minute in
    record {
      reply = some (record {
        id = 0x380 + s.node_id;
        dlc = 7;
        bytes =
            u8 (day - now.tm_wday)
            ∷ format_6bit_bcd (sub_int hour now.tm_hour)
            ∷ format_7bit_bcd (sub_int minute now.tm_min)
            ∷ s.node_id
            ∷ s.node_id
            ∷ 2
            ∷ spare
            ∷ [];
      });
      fault = ltb (length data') 7;
      state = s;
    }

abbrev pub frame_id : ℕ → ℕ
frame_id ctrl = ctrl / 2 ^ 36 % 2 ^ 11

abbrev pub is_extended : ℕ → Bool
is_extended ctrl = (ctrl / 2 ^ 34 % 2) == 1

-- A length code above 15 reads past the table. That is recorded as a fault, with a length that no case
-- below asks for.
abbrev pub frame_dlen : ℕ → ℕ
frame_dlen ctrl = get_or can_datalen (ctrl % 2 ^ 11) 0xFFFF

abbrev pub flagged : Bool → Handled → Handled
flagged b h = record h { fault = h.fault || b }

-- What a frame with this identifier and length leads to, in the order of the code's tests.
unfoldable pub handle : Tm → ℕ → Bool → ℕ → ℕ → List ℕ → Cr3020 → Handled
unfolding initialize rtc_set rtc_request alarm_set alarm_request
handle now spare extended id dlen data' s =
    if extended
    then silent s
    else (if (id == 0x7FF) && (dlen == 0)
        then initialize s
        else (if s.initialized == 0
            then silent s
            else (if (id == 0x300 + s.node_id) && (dlen == 6)
                then rtc_set now s
                else (if (id == 0x200 + s.node_id) && (dlen == 0)
                    then rtc_request now s
                    else (if (id == 0x500 + s.node_id) && (dlen == 7)
                        then alarm_set now data' s
                        else (if (id == 0x400 + s.node_id) && (dlen == 0)
                            then alarm_request now spare data' s
                            else silent s))))))

unfoldable pub can_cr3020_receive : Tm → ℕ → ℕ → List ℕ → Cr3020 → Handled
unfolding handle
can_cr3020_receive now spare ctrl data' s =
    flagged (ltb 15 (ctrl % 2 ^ 11))
      (handle now spare (is_extended ctrl) (frame_id ctrl) (frame_dlen ctrl) data' s)

-- As `main` sets it up.
pub cr3020_init : Cr3020
cr3020_init = record {
  initialized = 0;
  node_id = 0x13;
  alarm_day = 0;
  alarm_hour = 0;
  alarm_minute = 0;
  alarm_enabled = 0;
}

-- The callbacks: the reply goes out through `coremodel_can_rx` on the node's own interface, and its
-- failure is only printed.
abbrev pub send_reply : Handled → St Cr3020 → St Cr3020
send_reply h st = elim h.reply [
  | none ↦ record st { io = record (st.io) { dev = h.state; fault = st.io.fault || h.fault } }
  | some f ↦
      (can_rx (le64 (f.id * 2 ^ 36 + f.dlc) ++ le64 0) (some f.bytes)
        (record st { io = record (st.io) { dev = h.state; fault = st.io.fault || h.fault } })).1
]

unfoldable pub cr3020_func : Tm → ℕ → CanFunc Cr3020
unfolding can_cr3020_receive
cr3020_func now spare = record {
  tx = some (λ ctrl data' st.
      (pos 0, send_reply (can_cr3020_receive now spare (rd64 ctrl 0) data' st.io.dev) st));
  rxcomplete = some (λ nak st. st);
}
