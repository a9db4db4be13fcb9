-- ===== src/Core/Packets/Tests.antt =====
-- coremodel.c: packets for two UARTs on one connection.
use coremodel.Base.{
  length, ℕ, ◌<◌, ◌≡◌, refl, ap, ◌++◌, true, false, List, [], ◌∷◌, none, some, arith, pos,
}
use coremodel.Packet.{Packet, wires}
use coremodel.Socket.{moved, eintr, eagain}
use coremodel.Ring.{Ring}
use coremodel.Ring.Window.{IsValid, contents, contents-nothing}
use coremodel.Ring.Frames.{IsSendable, AllSendable}
use coremodel.Bus.Handler.{Handlers, uart}
use coremodel.Core.State.{Core, Attached, null}
use coremodel.Core.Loop.{Poll, Outcome, mainloop_int}
use coremodel.Core.Loop.Steps.{Driven}
use coremodel.Core.Loop.Rounds.{exit_errno, mainloop_in_order}
use coremodel.Core.Packets.Sound.{IsSoundCore}

-- It keeps the bytes that it gets, with its mark in front.
abbrev keeping : ℕ → Handlers (List ℕ)
keeping mark = uart (record {
  tx =
      some
        (λ n bs st. (pos n, record st { io = record (st.io) { dev = st.io.dev ++ (mark ∷ bs) } }));
  brk = none;
  rxrdy = none;
})

abbrev attached_to : ℕ → ℕ → Attached (List ℕ)
attached_to handle conn = record {
  handle = handle;
  func = keeping handle;
  cif = record {
    conn = conn;
    trnidx = 0;
    cred = 0;
    busy = false;
    offs = 0;
    defer_pkt = false;
    ebusy = λ k. false;
    rxbufs = [];
    rdbuf = [];
  };
}

abbrev ring_at : ℕ → Ring
ring_at i = record { rxq = λ k. 0; rxqwp = i; rxqrp = i }

abbrev two_uarts : Core (List ℕ)
two_uarts = record {
  fd_open = true;
  io = record {
    txbufs = [];
    txflag = false;
    need_wake = false;
    wakes = 0;
    allocs = [];
    fault = false;
    dev = [];
  };
  ring = ring_at 4092;
  device_list = none;
  device_list_pkt = none;
  query = false;
  defer_pkt = false;
  ifs = attached_to 70 4 ∷ attached_to 60 3 ∷ [];
  conn_if = null;
}

two_uarts-IsSoundCore : IsSoundCore two_uarts
two_uarts-IsSoundCore = record {
  steady = (((λ c n bs st s. s), tt, tt), (((λ c n bs st s. s), tt, tt), tt));
  next = tt;
  allocs = refl;
}

abbrev data_for : ℕ → Packet
data_for conn = record {
  len = 10;
  conn = conn;
  pkt = 0;
  bflag = 0;
  hflag = 0;
  payload = 5 ∷ 6 ∷ [];
}

data_for-IsSendable : (conn : ℕ) → conn < 65536 → IsSendable (data_for conn)
data_for-IsSendable conn h = record {
  formed = record {
    len_fits = omega arith;
    conn_fits = omega arith;
    hflag_fits = omega arith;
    sized = refl;
  };
  short = omega arith;
}

abbrev to_both : List Packet
to_both = data_for 3 ∷ data_for 4 ∷ data_for 3 ∷ []

to_both-AllSendable : AllSendable to_both
to_both-AllSendable = (
  data_for-IsSendable 3 (omega arith),
  (data_for-IsSendable 4 (omega arith), (data_for-IsSendable 3 (omega arith), tt)),
)

ring_at-IsValid : IsValid (ring_at 4092)
ring_at-IsValid = record {
  wp_fits = omega arith;
  rp_fits = omega arith;
  bounded = omega arith;
  aligned = refl;
}

nothing_yet : contents (ring_at 4092) ++ wires to_both ≡ wires to_both
nothing_yet = ap (λ b. b ++ wires to_both) (contents-nothing (ring_at 4092) refl (omega arith))

-- Three rounds: the reads cut the packets anywhere, one round has nothing to read, and one write
-- is interrupted.
abbrev polls : List Poll
polls =
    record {
      readable = true;
      writable = true;
      reads = moved 2 ∷ eintr ∷ moved 8 ∷ [];
      writes = eintr ∷ [];
      now = 1;
    }
    ∷ record { readable = false; writable = false; reads = []; writes = []; now = 2 }
    ∷ record {
      readable = true;
      writable = false;
      reads = moved 5 ∷ moved 99 ∷ eagain ∷ [];
      writes = [];
      now = 3;
    }
    ∷ []

nothing_there : contents (ring_at 4092) ≡ []
nothing_there = contents-nothing (ring_at 4092) refl (omega arith)

mainloop_in_order_example :
    (o : Outcome (List ℕ)) × (mainloop_int none false polls 0 (wires to_both) two_uarts ≡ some o)
    × Driven to_both two_uarts (exit_errno o.exit) o.incoming o.core
mainloop_in_order_example =
    mainloop_in_order none false polls 0 to_both (wires to_both) two_uarts to_both-AllSendable
      two_uarts-IsSoundCore ring_at-IsValid nothing_yet (omega (arith, ap length nothing_there))
