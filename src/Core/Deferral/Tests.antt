-- ===== src/Core/Deferral/Tests.antt =====
-- coremodel.c: a UART whose first data comes before its attach has returned.
use coremodel.Base.{ℕ, ◌≡◌, ◌≢◌, refl, ◌++◌, true, false, List, [], ◌∷◌, none, some, arith, pos}
use coremodel.Packet.{Packet, conn_query}
use coremodel.Bus.Handler.{uart}
use coremodel.Core.State.{Core, Attached, linked, null, advance_attached}
use coremodel.Core.Packets.{process_packet}
use coremodel.Core.Attach.{attach_end, new_if}
use coremodel.Core.Loop.{preparefds}
use coremodel.Core.Deferral.{released, ready_io, early_packet_is_handled}

-- It keeps the bytes that it gets.
abbrev new_uart : Attached (List ℕ)
new_uart = record {
  handle = 60;
  func = uart (record {
    tx = some (λ n bs st. (pos n, record st { io = record (st.io) { dev = st.io.dev ++ bs } }));
    brk = none;
    rxrdy = none;
  });
  cif = record new_if { conn = 3 };
}

abbrev attaching : Core (List ℕ)
attaching = record {
  fd_open = true;
  io = record {
    txbufs = [];
    txflag = true;
    need_wake = false;
    wakes = 0;
    allocs = true ∷ [];
    fault = false;
    dev = [];
  };
  ring = record { rxq = λ i. 0; rxqwp = 0; rxqrp = 0 };
  device_list = none;
  device_list_pkt = none;
  query = false;
  defer_pkt = false;
  ifs = new_uart ∷ [];
  conn_if = linked 60;
}

abbrev early : Packet
early = record { len = 9; conn = 3; pkt = 0; bflag = 0; hflag = 0; payload = 1 ∷ [] }

not_query : early.conn ≢ conn_query
not_query e = absurd (omega (arith, e))

early_packet_is_handled_example :
    let (handle, cm1) = attach_end false (process_packet early attaching).1 in
    (handle ≡ some 60)
    × ((preparefds cm1).1 ≡ (
        let (a', io') = advance_attached (released early new_uart) (ready_io attaching) in
        record attaching { ifs = a' ∷ []; io = io'; defer_pkt = false; conn_if = null }))
early_packet_is_handled_example =
    early_packet_is_handled early new_uart [] attaching refl refl not_query refl refl (omega arith)
      refl tt
