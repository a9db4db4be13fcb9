-- ===== src/Core/Loop.antt =====
-- coremodel.c: `coremodel_preparefds`, `coremodel_processfds` and `coremodel_mainloop_int`. The
-- clock and what select(2), read(2) and write(2) answer are arguments.
pub mod Steps
pub mod Serving
pub mod Rounds
use coremodel.Base.{
  ℕ, ◌++◌, ◌||◌, ◌&&◌, not, Bool, true, false, List, [], ◌∷◌, Option, none, some, ltb,
  if◌then◌else◌,
}
use coremodel.Socket.{Answer, End, drained, closed}
use coremodel.Ring.{Ring, rx_buf, used, read_loop, process_rxq}
use coremodel.Tx.{TxBuf, write_loop}
use coremodel.Core.State.{Core}
use coremodel.Core.Packets.{process_packet, defer_pkt_flush}

abbrev pub enotconn : ℕ
enotconn = 107

-- What `coremodel_preparefds` asks select(2) to watch: the wake-up pipe, and the socket for reading
-- and for writing.
pub record Watch : Type 0 where
  pub wake : Bool
  pub read : Bool
  pub write : Bool

abbrev pub is_empty : List TxBuf → Bool
is_empty [] = true
is_empty (t ∷ ts) = false

module _ {D : Type 0} where
  unfoldable pub preparefds : Core D → Watch × Core D
  preparefds cm =
      let watch : Watch = record {
        wake = true;
        read = ltb (used cm.ring) rx_buf;
        write = not (is_empty cm.io.txbufs);
      } in
      let ready = record cm { io = record (cm.io) { need_wake = true; txflag = false } } in
      if cm.fd_open
      then (
        watch,
        if cm.defer_pkt then record (defer_pkt_flush ready) { defer_pkt = false } else ready,
      )
      else (record { wake = false; read = false; write = false }, cm)

-- What a round of the main loop gets from outside: which conditions hold for the socket, the
-- answers to the calls of read(2) and write(2), and the time behind it.
pub record Poll : Type 0 where
  pub readable : Bool
  pub writable : Bool
  pub reads : List Answer
  pub writes : List Answer
  pub now : ℕ

-- A result of `coremodel_processfds`: 0 or an error number, the bytes that are still on their way
-- in, and those that went out.
pub record Served (D : Type 0) : Type 0 where
  pub errno : Option ℕ
  pub incoming : List ℕ
  pub sent : List ℕ
  pub core : Core D

module _ {D : Type 0} where
  abbrev pub on_end : End → Core D → Option ℕ × Core D
  on_end drained cm = (none, cm)
  on_end (closed e) cm = (some e, record cm { fd_open = false })

  -- The writing half.
  unfoldable pub write_fds : Poll → List ℕ → Core D → Served D
  write_fds poll incoming cm =
      let (end, sent, queue) = write_loop poll.writes cm.io.txbufs in
      let flag = not (is_empty cm.io.txbufs) && not cm.io.txflag in
      let (errno, cm') = on_end end (record cm { io = record (cm.io) { txbufs = queue } }) in
      if poll.writable || flag
      then record { errno = errno; incoming = incoming; sent = sent; core = cm' }
      else record { errno = none; incoming = incoming; sent = []; core = cm }

  abbrev pub write_after : Poll → List ℕ → Option (Ring × Core D) → Option (Served D)
  write_after poll incoming none = none
  write_after poll incoming (some (ring, cm)) =
      some (write_fds poll incoming (record cm { ring = ring }))

  abbrev pub parse_fds : Poll → Core D → End × List ℕ × Ring → Option (Served D)
  parse_fds poll cm (closed e, incoming, ring) = some (record {
    errno = some e;
    incoming = incoming;
    sent = [];
    core = record cm { fd_open = false; ring = ring };
  })
  parse_fds poll cm (drained, incoming, ring) =
      write_after poll incoming (process_rxq process_packet 1025 ring (record cm { ring = ring }))

  -- `none` is the loop of `coremodel_process_rxq` that does not end (Ring/Endless).
  unfoldable pub processfds : Poll → List ℕ → Core D → Option (Served D)
  unfolding write_fds
  processfds poll incoming cm =
      let awake = record cm { io = record (cm.io) { need_wake = false } } in
      let got =
        if poll.readable
        then read_loop poll.reads incoming cm.ring
        else (drained, incoming, cm.ring) in
      if cm.fd_open
      then parse_fds poll awake got
      else some (record { errno = some enotconn; incoming = incoming; sent = []; core = awake })

abbrev pub in_time : Option ℕ → ℕ → Bool
in_time none now = true
in_time (some end_us) now = not (ltb end_us now)

-- How the main loop ends: it returns 0, or an error number, or goes on when the rounds that are
-- given are used up.
pub data Exit : Type 0 where
  returned : Exit
  error : ℕ → Exit
  running : Exit

pub record Outcome (D : Type 0) : Type 0 where
  pub exit : Exit
  pub incoming : List ℕ
  pub sent : List ℕ
  pub core : Core D

module _ {D : Type 0} where
  abbrev pub before_sent : List ℕ → Option (Outcome D) → Option (Outcome D)
  before_sent sent none = none
  before_sent sent (some o) = some (record o { sent = sent ++ o.sent })

  -- `end_us` is missing where `usec` is negative; `query` says that the loop ends with the query.
  unfoldable pub mainloop_int :
      Option ℕ → Bool → List Poll → ℕ → List ℕ → Core D → Option (Outcome D)
  unfolding processfds preparefds
  mainloop_int end_us query [] now incoming cm = some (record {
    exit = if in_time end_us now && (not query || cm.query) then running else returned;
    incoming = incoming;
    sent = [];
    core = cm;
  })
  mainloop_int end_us query (poll ∷ polls) now incoming cm =
      let next : Option (Outcome D) = elim (processfds poll incoming (preparefds cm).1) [
        | none ↦ none
        | some served ↦ elim served.errno [
          | some e ↦ some (record {
            exit = error e;
            incoming = served.incoming;
            sent = served.sent;
            core = served.core;
          })
          | none ↦
              before_sent served.sent
                (mainloop_int end_us query polls poll.now served.incoming served.core)
        ]
      ] in
      if in_time end_us now && (not query || cm.query)
      then next
      else some (record { exit = returned; incoming = incoming; sent = []; core = cm })
