-- ===== src/Bus/Tests.antt =====
-- coremodel.c: the interfaces on concrete devices.
use coremodel.Base.{ℕ, ◌≡◌, refl, ◌++◌, Bool, false, List, [], ◌∷◌, none, some, take, min, pos}
use coremodel.Packet.{Packet}
use coremodel.If.{St}
use coremodel.Bus.Handler.{Handlers, dispatch, uart, advance_if-dispatch_ends, advance_if-Advanced}
use coremodel.Bus.Queue.{advance_if}
use coremodel.Bus.Queue.Order.{Advanced}
use coremodel.Bus.Stream.{TxFunc}

-- A device that keeps the bytes it was given.
abbrev pub DevSt : Type 0
DevSt = St (List ℕ)

abbrev pub st_with : ℕ → Bool → (ℕ → Bool) → List Packet → DevSt
st_with cred busy ebusy queue = record {
  cif = record {
    conn = 3;
    trnidx = 255;
    cred = cred;
    busy = busy;
    offs = 0;
    defer_pkt = false;
    ebusy = ebusy;
    rxbufs = queue;
    rdbuf = [];
  };
  io = record {
    txbufs = [];
    txflag = false;
    need_wake = false;
    wakes = 0;
    allocs = [];
    fault = false;
    dev = [];
  };
}

abbrev pub no_bits : ℕ → Bool
no_bits k = false

abbrev data_packet : Packet
data_packet = record {
  len = 12;
  conn = 3;
  pkt = 0;
  bflag = 0;
  hflag = 0;
  payload = 1 ∷ 2 ∷ 3 ∷ 4 ∷ [];
}

-- It takes three bytes at a time.
abbrev take_three : TxFunc (List ℕ)
take_three n bs st =
    (pos (min 3 n), record st { io = record (st.io) { dev = st.io.dev ++ take (min 3 n) bs } })

abbrev waiting : DevSt
waiting = st_with 5 false no_bits (data_packet ∷ data_packet ∷ [])

abbrev three_uart : Handlers (List ℕ)
three_uart = uart (record { tx = some take_three; brk = none; rxrdy = none })

advance_if-dispatch_ends_example :
    (st' : DevSt) × (advance_if (dispatch three_uart) waiting ≡ some st')
advance_if-dispatch_ends_example =
    advance_if-dispatch_ends three_uart (λ n bs st. (refl, refl), tt, tt) waiting

advance_if-Advanced_example :
    (st' : DevSt) × (advance_if (dispatch three_uart) waiting ≡ some st')
    × Advanced (dispatch three_uart) waiting st'
advance_if-Advanced_example =
    advance_if-Advanced three_uart (λ n bs st. (refl, refl), tt, tt) tt waiting refl

abbrev pub no_credit : DevSt
no_credit = st_with 0 false no_bits []
