-- ===== src/Core/Attach.antt =====
-- coremodel.c: `coremodel_attach_int` before and behind its main loop, the `coremodel_attach_*`
-- functions, `coremodel_detach` and `coremodel_disconnect`.
pub mod Handshake
pub mod Detach
use Prim.Native.Nat.{bit_or}
use coremodel.Base.{
  ℕ, zero, suc, ◌+◌, ◌++◌, Bool, true, false, List, [], ◌∷◌, Option, none, some, ◌==◌,
  if◌then◌else◌, u8, u16, le16, le32, length, replicate,
}
use coremodel.Packet.{Packet, conn_query}
use coremodel.Tx.{Io, push_packet, alloc_ok, allocs_left}
use coremodel.Ring.{empty}
use coremodel.If.{If}
use coremodel.Bus.Handler.{Handlers, uart, i2c, spi, gpio, usbh, can, eth, event}
use coremodel.Bus.Uart.{UartFunc}
use coremodel.Bus.I2c.{I2cFunc}
use coremodel.Bus.Spi.{SpiFunc}
use coremodel.Bus.Gpio.{GpioFunc}
use coremodel.Bus.Usbh.{UsbhFunc}
use coremodel.Bus.Can.{CanFunc}
use coremodel.Bus.Eth.{EthFunc}
use coremodel.Bus.Event.{EventFunc}
use coremodel.Core.State.{Core, Attached, ConnIf, null, waiting, linked}
use coremodel.Core.Query.{set_io}

abbrev pub pkt_query_req_conn : ℕ
pkt_query_req_conn = 0x02

abbrev pub pkt_query_req_disc : ℕ
pkt_query_req_disc = 0x04

-- The connection request; `name` and `subname` are the characters of the C strings. `uint32_t` and
-- `uint16_t` fields are cut to their size.
pub conn_request : ℕ → List ℕ → ℕ → Option (List ℕ) → ℕ → Packet
conn_request type name addr none flags = record {
  len = u16 (16 + length name);
  conn = conn_query;
  pkt = pkt_query_req_conn;
  bflag = 0;
  hflag = flags;
  payload = le16 type ++ (le16 (length name) ++ (le32 addr ++ name));
}
conn_request type name addr (some subname) flags = record {
  len = u16 (17 + length name + length subname);
  conn = conn_query;
  pkt = pkt_query_req_conn;
  bflag = 0;
  hflag = bit_or flags 0x8000;
  payload =
      le16 type
      ++ (le16 (1 + length name + length subname) ++ (le32 addr ++ (name ++ (0 ∷ subname))));
}

-- The interface as `calloc` and the assignments behind the request leave it.
abbrev pub new_if : If
new_if = record {
  conn = conn_query;
  trnidx = 0;
  cred = 0;
  busy = false;
  offs = 0;
  defer_pkt = true;
  ebusy = λ k. false;
  rxbufs = [];
  rdbuf = replicate 512 0;
}

-- "event"
abbrev event_bus : List ℕ
event_bus = b'e' ∷ b'v' ∷ b'e' ∷ b'n' ∷ b't' ∷ []

pub disc_request : ℕ → Packet
disc_request conn = record {
  len = 8;
  conn = conn_query;
  pkt = pkt_query_req_disc;
  bflag = 0;
  hflag = conn;
  payload = [];
}

module _ {D : Type 0} where
  -- `coremodel_attach_int` up to the main loop; the flag says whether the request is under way.
  -- `handle` is the address of the new interface.
  unfoldable pub attach_begin :
      ℕ → ℕ → Handlers D → List ℕ → ℕ → Option (List ℕ) → ℕ → Core D → Bool × Core D
  unfolding conn_request
  attach_begin handle type func name addr subname flags cm =
      let io = record (cm.io) { allocs = allocs_left cm.io.allocs } in
      let (failed, io') = push_packet (conn_request type name addr subname flags) none io in
      let a : Attached D = record { handle = handle; func = func; cif = new_if } in
      if cm.query
      then (false, cm)
      else (if alloc_ok cm.io.allocs
          then (if failed
              then (false, set_io io' cm)
              else (true, record cm { io = io'; conn_if = waiting a; query = true }))
          else (false, set_io io cm))

  -- The interface of this handle is given the failure's connection index.
  unfoldable pub forget_conn : ℕ → List (Attached D) → List (Attached D)
  forget_conn h [] = []
  forget_conn h (a ∷ rest) =
      let a' = record a { cif = record (a.cif) { conn = conn_query } } in
      (if a.handle == h then a' else a) ∷ forget_conn h rest

  abbrev forget_linked : ConnIf D → List (Attached D) → List (Attached D)
  forget_linked (linked h) ifs = forget_conn h ifs
  forget_linked null ifs = ifs
  forget_linked (waiting a) ifs = ifs

  -- The same behind the main loop, which says whether it failed: the handle that is returned.
  unfoldable pub attach_end : Bool → Core D → Option ℕ × Core D
  unfolding forget_conn
  attach_end true cm =
      (none, record cm { query = false; conn_if = null; ifs = forget_linked cm.conn_if cm.ifs })
  attach_end false cm = elim cm.conn_if [
    | null ↦ (none, cm)
    | waiting a ↦ (none, record cm { conn_if = null })
    | linked h ↦ (some h, record cm { conn_if = null })
  ]

  module _ (handle : ℕ) (name : List ℕ) where
    pub attach_uart : UartFunc D → Core D → Bool × Core D
    attach_uart f = attach_begin handle 0 (uart f) name 0 none 0

    pub attach_i2c : ℕ → I2cFunc D → ℕ → Core D → Bool × Core D
    attach_i2c addr f flags = attach_begin handle 1 (i2c f) name (u8 addr) none (u16 flags)

    pub attach_spi : ℕ → SpiFunc D → ℕ → Core D → Bool × Core D
    attach_spi csel f flags = attach_begin handle 2 (spi f) name csel none (u16 flags)

    pub attach_spi_name : List ℕ → SpiFunc D → ℕ → Core D → Bool × Core D
    attach_spi_name cselname f flags =
        attach_begin handle 2 (spi f) name 0 (some cselname) (u16 flags)

    pub attach_gpio : ℕ → GpioFunc D → Core D → Bool × Core D
    attach_gpio pin f = attach_begin handle 3 (gpio f) name pin none 0

    pub attach_gpio_name : List ℕ → GpioFunc D → Core D → Bool × Core D
    attach_gpio_name pinname f = attach_begin handle 3 (gpio f) name 0 (some pinname) 0

    pub attach_usbh : ℕ → UsbhFunc D → ℕ → Core D → Bool × Core D
    attach_usbh port f speed = attach_begin handle 4 (usbh f) name port none (u16 speed)

    pub attach_can : CanFunc D → Core D → Bool × Core D
    attach_can f = attach_begin handle 5 (can f) name 0 none 0

    pub attach_eth : EthFunc D → Core D → Bool × Core D
    attach_eth f = attach_begin handle 6 (eth f) name 0 none 0

  pub attach_event_name : ℕ → List ℕ → EventFunc D → Core D → Bool × Core D
  attach_event_name handle evtname f = attach_begin handle 7 (event f) event_bus 0 (some evtname) 0

  -- `ifs` without the interface of this handle.
  unfoldable pub unlink : ℕ → List (Attached D) → List (Attached D)
  unlink h [] = []
  unlink h (a ∷ rest) = let rest' = unlink h rest in if a.handle == h then rest' else a ∷ rest'

  -- `coremodel_detach` of an interface of the list. Its packets are freed with it, and the result of
  -- the push is not looked at.
  unfoldable pub detach : Attached D → Core D → Core D
  unfolding disc_request unlink
  detach a cm =
      let (failed, io') = push_packet (disc_request a.cif.conn) none cm.io in
      record cm { ifs = unlink a.handle cm.ifs; io = io' }

  -- The loop of `coremodel_disconnect` over the interfaces, which detaches the first one each time.
  -- The fuel is their number.
  unfoldable pub detach_all : ℕ → Core D → Core D
  detach_all zero cm = cm
  detach_all (suc fuel) cm = elim cm.ifs [ [] ↦ cm | a ∷ rest ↦ detach_all fuel (detach a cm) ]

  -- `coremodel_disconnect`, as it leaves the state that it frees.
  unfoldable pub disconnect : Core D → Core D
  unfolding detach_all
  disconnect cm =
      let detached = detach_all (length cm.ifs) cm in
      record detached {
        fd_open = false;
        io = record (detached.io) { txbufs = []; need_wake = false };
        ring = record (detached.ring) { rxqwp = 0; rxqrp = 0 };
        device_list = none;
        conn_if = null;
        query = false;
      }
