-- ===== src/If.antt =====
-- coremodel.c: `struct coremodel_if`, one attached interface, and what the packet handlers of the
-- interface types share. coremodel.h: the callbacks are parameters of the handlers; each takes and
-- returns the state that it can reach, its interface, the transmit queue and the device's own.
use coremodel.Base.{
  ap, Bool-cases, inl, inr, ◌≡◌, refl, ℕ, ◌+◌, ◌++◌, ◌||◌, ◌%◌, ◌^◌, Bool, List, [], Option, none,
  some, ltb, length, take, drop, ℤ, to_unsigned, sub_u32,
}
use coremodel.Packet.{Packet}
use coremodel.Tx.{alloc_ok, allocs_left, Io, push_packet}

-- `ebusy` holds the bits of the 64-bit mask. `rxbufs` is the list of packets that wait, oldest
-- first.
pub record If : Type 0 where
  pub conn : ℕ
  pub trnidx : ℕ
  pub cred : ℕ
  pub busy : Bool
  pub offs : ℕ
  pub defer_pkt : Bool
  pub ebusy : ℕ → Bool
  pub rxbufs : List Packet
  pub rdbuf : List ℕ

abbrev pub rdbuf_size : ℕ
rdbuf_size = 512

pub record St (D : Type 0) : Type 0 where
  pub cif : If
  pub io : Io D

-- The results of `coremodel_advance_if_*`: 0 frees the packet, 1 ends the round, -1 leaves the
-- packet and goes on behind it, -2 goes back to the first one.
pub data Verdict : Type 0 where
  done hold skip restart : Verdict

module _ {D : Type 0} where
  abbrev pub set_busy : Bool → St D → St D
  set_busy b st = record st { cif = record (st.cif) { busy = b } }

  abbrev pub set_offs : ℕ → St D → St D
  set_offs n st = record st { cif = record (st.cif) { offs = n } }

  abbrev pub set_trnidx : ℕ → St D → St D
  set_trnidx n st = record st { cif = record (st.cif) { trnidx = n } }

  abbrev pub set_cred : ℕ → St D → St D
  set_cred n st = record st { cif = record (st.cif) { cred = n } }

  abbrev pub set_ebusy : (ℕ → Bool) → St D → St D
  set_ebusy e st = record st { cif = record (st.cif) { ebusy = e } }

  abbrev pub set_fault : Bool → St D → St D
  set_fault b st = record st { io = record (st.io) { fault = st.io.fault || b } }

  -- `cif->offs += res`
  abbrev pub add_offs : ℤ → St D → ℕ
  add_offs res st = (st.cif.offs + to_unsigned res) % 2 ^ 32

  -- `coremodel_push_packet(cif->cm, &npkt, data)`, with its result.
  abbrev pub push : Packet → Option (List ℕ) → St D → Bool × St D
  push pkt data' st =
      let (failed, io') = push_packet pkt data' st.io in (failed, record st { io = io' })

  -- A callback writes `bs` to `cif->rdbuf + offs`.
  abbrev pub write_rdbuf : ℕ → List ℕ → St D → St D
  write_rdbuf offs bs st = record st {
    cif = record (st.cif) {
      rdbuf = take offs st.cif.rdbuf ++ (bs ++ drop (offs + length bs) st.cif.rdbuf);
    };
    io = record (st.io) { fault = st.io.fault || ltb rdbuf_size (offs + length bs) };
  }

  -- A callback without a result, which may be missing.
  abbrev pub notify : Option (St D → St D) → St D → St D
  notify none st = st
  notify (some f) st = f st

-- `pkt->len - 8`, and `(pkt->len - 8) - cif->offs`, as unsigned numbers.
abbrev pub data_len : Packet → ℕ
data_len pkt = sub_u32 pkt.len 8

abbrev pub data_left : {D : Type 0} → Packet → St D → ℕ
data_left pkt st = sub_u32 (data_len pkt) st.cif.offs

-- A packet to send, its data given apart.
abbrev pub reply : ℕ → ℕ → ℕ → ℕ → ℕ → Packet
reply len conn pkt bflag hflag = record {
  len = len;
  conn = conn;
  pkt = pkt;
  bflag = bflag;
  hflag = hflag;
  payload = [];
}

-- A callback that leaves its interface's queue and `busy` flag alone: it calls no
-- `coremodel_*_ready`, and does not detach the interface.
abbrev pub Same : {D : Type 0} → St D → St D → Type 0
Same st st' = (st'.cif.rxbufs ≡ st.cif.rxbufs) × (st'.cif.busy ≡ st.cif.busy)

-- What a callback that may be missing satisfies.
abbrev pub Holds : {A : Type 0} → Option A → (A → Type 0) → Type 0
Holds none P = Unit {0}
Holds (some a) P = P a

abbrev pub QuietNotify : {D : Type 0} → Option (St D → St D) → Type 0
QuietNotify {D} f = Holds f (λ g. (st : St D) → Same st (g st))

pub notify-Same :
    {D : Type 0} (f : Option (St D → St D)) → QuietNotify f → (st : St D) → Same st (notify f st)
notify-Same none q st = (refl, refl)
notify-Same (some f) q st = q st

-- The interface belongs to connection `c`, and no allocation will fail.
abbrev pub Steady : {D : Type 0} → ℕ → St D → Type 0
Steady c st = (st.cif.conn ≡ c) × (st.io.allocs ≡ [])

pub push-Steady :
    {D : Type 0} (c : ℕ) (pkt : Packet) (data' : Option (List ℕ)) (st : St D)
    → Steady c st
    → Steady c (push pkt data' st).1
unfolding push_packet
push-Steady c pkt data' st s =
    let left : allocs_left st.io.allocs ≡ [] = ap allocs_left s.1 in
    (s.0, elim (Bool-cases (alloc_ok st.io.allocs)) [ inl k ↦ rw k left | inr k ↦ rw k left ])

abbrev pub SteadyNotify : {D : Type 0} → Option (St D → St D) → Type 0
SteadyNotify {D} f = Holds f (λ g. (c : ℕ) (st : St D) → Steady c st → Steady c (g st))

pub notify-Steady :
    {D : Type 0} (f : Option (St D → St D))
    → SteadyNotify f
    → (c : ℕ) (st : St D) → Steady c st
    → Steady c (notify f st)
notify-Steady none q c st s = s
notify-Steady (some f) q c st s = q c st s
