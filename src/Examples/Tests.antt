-- ===== src/Examples/Tests.antt =====
-- The small programs under examples, at concrete inputs.
use coremodel.Base.{ℕ, ◌+◌, ◌*◌, ◌^◌, ◌++◌, ◌≡◌, refl, false, List, [], ◌∷◌, some, arith, pos}
use coremodel.Packet.{Packet, wire}
use coremodel.Tx.Flow.{pending}
use coremodel.If.{St, done}
use coremodel.Bus.Eth.{advance_if_eth, pkt_eth_rx}
use coremodel.Bus.Can.{can_rx_busy}
use coremodel.Bus.Can.Sending.{can_packet}
use coremodel.Bus.Event.{le64}
use coremodel.Examples.Cansend.{cansend_main, read_address}
use coremodel.Examples.Cansend.Reading.{frame_text, cansend_sends}
use coremodel.Examples.Loopback.{test_eth_func, frame_comes_back}
use coremodel.Examples.Blinky.{Blinky, PinCall, notified}

-- An idle interface of the third connection with some credit.
abbrev st_with : ℕ → St (List ℕ)
st_with cred = record {
  cif = record {
    conn = 3;
    trnidx = 255;
    cred = cred;
    busy = false;
    offs = 0;
    defer_pkt = false;
    ebusy = λ i. false;
    rxbufs = [];
    rdbuf = [];
  };
  io = record {
    txbufs = [];
    txflag = false;
    need_wake = false;
    wakes = 0;
    allocs = [];
    fault = false;
    dev = [];
  };
}

-- `123#abcd`
abbrev arg : List ℕ
arg = frame_text 1 2 3 (0xAB ∷ 0xCD ∷ [])

cansend_sends_example :
    let st = st_with 0 in
    (st' : St (List ℕ)) × (cansend_main [] arg st ≡ some (0, st'))
    × (pending st'.io.txbufs
        ≡ wire (can_packet (le64 (0x123 * 2 ^ 36 + 2) ++ le64 0) (0xAB ∷ 0xCD ∷ []) st))
    × (st'.io.fault ≡ false)
unfolding can_rx_busy
cansend_sends_example =
    cansend_sends [] 1 2 3 (0xAB ∷ 0xCD ∷ []) (st_with 0) (omega arith) (omega arith) (omega arith)
      (omega arith) (omega arith) (omega arith) refl refl

-- `7AB#`: the letters are passed over.
letters_dropped : read_address 3 0 (b'7' ∷ b'A' ∷ b'B' ∷ b'#' ∷ []) ≡ 7
unfolding read_address
letters_dropped = refl

abbrev hello : Packet
hello = record { len = 10; conn = 3; pkt = 0; bflag = 0; hflag = 0; payload = 8 ∷ 9 ∷ [] }

frame_comes_back_example :
    let (verdict, st') = advance_if_eth test_eth_func hello (st_with 2) in
    (verdict ≡ done)
    × (st'.cif.cred + 1 ≡ 2)
    × (pending st'.io.txbufs ≡ wire (record hello { pkt = pkt_eth_rx }))
    × (st'.io.fault ≡ false)
frame_comes_back_example =
    frame_comes_back hello (st_with 2) refl refl (omega arith) (omega arith) refl refl (omega arith)
      (omega arith) refl

abbrev board : Blinky
board = record { pin_handle = λ i. i; mvolt = λ i. pos 0; live = 1 }

lamp :
    (notified ((16, pos 3300) ∷ (15, pos 0) ∷ (16, pos 0) ∷ []) board).0
    ≡ PinCall.setting 17 1 (pos 0) ∷ PinCall.setting 17 1 (pos 3300) ∷ []
unfolding notified
lamp = refl
