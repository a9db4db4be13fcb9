-- ===== src/Core/State.antt =====
-- coremodel.c: `struct coremodel`. coremodel.h: `coremodel_device_list_t`.
use coremodel.Base.{ℕ, Bool, true, false, List, [], Option, none, some, ◌==◌}
use coremodel.Packet.{Packet}
use coremodel.Ring.{Ring, empty}
use coremodel.Tx.{Io}
use coremodel.If.{If, St}
use coremodel.Bus.Handler.{Handlers, dispatch}
use coremodel.Bus.Queue.{advance_if}

-- One element of the list that a client gets; `invalid` is the type COREMODEL_INVALID.
pub data DeviceType : Type 0 where
  invalid : DeviceType
  kind : ℕ → DeviceType

pub record Device : Type 0 where
  pub type : DeviceType
  pub name : List ℕ
  pub num : ℕ

-- An attached interface with its address, which is the client's handle, and its callbacks.
pub record Attached (D : Type 0) : Type 0 where
  pub handle : ℕ
  pub func : Handlers D
  pub cif : If

-- What `conn_if` points to: nothing, an interface that is not in `ifs` yet, or the one in `ifs`
-- with this handle.
pub data ConnIf (D : Type 0) : Type 0 where
  null : ConnIf D
  waiting : Attached D → ConnIf D
  linked : ℕ → ConnIf D

-- `fd_open` is `fd >= 0`. `device_list_pkt` is the request for a list of subdevices. `ifs` is the
-- list from its head on.
pub record Core (D : Type 0) : Type 0 where
  pub fd_open : Bool
  pub io : Io D
  pub ring : Ring
  pub device_list : Option (List Device)
  pub device_list_pkt : Option Packet
  pub query : Bool
  pub defer_pkt : Bool
  pub ifs : List (Attached D)
  pub conn_if : ConnIf D

module _ {D : Type 0} where
  -- `coremodel_init`, with the connection of `coremodel_connect` made.
  pub init : D → Core D
  init dev = record {
    fd_open = true;
    io = record {
      txbufs = [];
      txflag = false;
      need_wake = false;
      wakes = 0;
      allocs = [];
      fault = false;
      dev = dev;
    };
    ring = empty;
    device_list = none;
    device_list_pkt = none;
    query = false;
    defer_pkt = false;
    ifs = [];
    conn_if = null;
  }

  -- The loop over the waiting packets, run to its end. One that its rounds do not finish is
  -- recorded as a fault; `advance_if-dispatch_ends` rules it out.
  abbrev pub finished : St D → Option (St D) → St D
  finished st (some st') = st'
  finished st none = record st { io = record (st.io) { fault = true } }

  unfoldable pub advance_attached : Attached D → Io D → Attached D × Io D
  advance_attached a io =
      let st : St D = record { cif = a.cif; io = io } in
      let st' = finished st (advance_if (dispatch a.func) st) in
      (record a { cif = st'.cif }, st'.io)

  abbrev pub is_linked : ConnIf D → ℕ → Bool
  is_linked (linked h) k = h == k
  is_linked null k = false
  is_linked (waiting a) k = false
