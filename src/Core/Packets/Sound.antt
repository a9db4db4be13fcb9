-- ===== src/Core/Packets/Sound.antt =====
-- coremodel.c: all packets of a connection go to `coremodel_process_packet` in order, and each to the
-- interface of its connection alone.
use coremodel.Base.{
  ℕ, ◌++◌, ◌||◌, ◌<◌, ◌≡◌, ◌≢◌, refl, sym, ap, subst, ◌∙◌, true, false, List, [], ◌∷◌, some, arith,
  ltb, ◌==◌, Bool-cases, Option-cases, inl, inr, ◌⊎◌, length,
}
use coremodel.Packet.{Packet, conn_query, wires}
use coremodel.Socket.{Answer}
use coremodel.Tx.{Io, alloc_ok, allocs_left, push_packet}
use coremodel.Ring.{Ring, serve}
use coremodel.Ring.Window.{IsValid, contents}
use coremodel.Ring.Frames.{AllSendable}
use coremodel.Ring.Rounds.{Progress, serve_in_order}
use coremodel.Bus.Keeping.{SteadyHandlers}
use coremodel.Core.State.{
  Core, Attached, ConnIf, null, waiting, linked, is_linked, advance_attached,
}
use coremodel.Core.Query.{process_list_response, entries, pkt_query_rsp_list}
use coremodel.Core.Query.Response.{alloc_all_ok, with_allocs}
use coremodel.Core.Packets.{
  process_packet, process_conn_response, receive_packet, find_if, pkt_query_rsp_conn,
}
use coremodel.Core.Packets.Isolation.{
  AllSteady, advance_attached-Steady, find_if-conn, find_if-Steady, find_if-replace_if,
  replace_if-AllSteady,
}

abbrev pub SteadyConn : {D : Type 0} → ConnIf D → Type 0
SteadyConn null = Unit {0}
SteadyConn (waiting a) = SteadyHandlers a.func
SteadyConn (linked h) = Unit {0}

-- All devices are steady, and no allocation will fail.
pub record IsSoundCore {D : Type 0} (cm : Core D) : Type 0 where
  pub steady : AllSteady cm.ifs
  pub next : SteadyConn cm.conn_if
  pub allocs : cm.io.allocs ≡ []

module _ {D : Type 0} where
  list_response-kept :
      (p : Packet) (cm : Core D)
      → cm.io.allocs ≡ []
      → let (bad, cm') = process_list_response p cm in
        (bad ≡ false) × (cm'.io.allocs ≡ []) × (cm'.ifs ≡ cm.ifs) × (cm'.conn_if ≡ cm.conn_if)
  unfolding process_list_response push_packet
  list_response-kept p cm e =
      let all = alloc_all_ok (length (entries (length p.payload) p.payload)) in
      subst
        (λ c.
          let (bad, cm') = process_list_response p c in
          (bad ≡ false) × (cm'.io.allocs ≡ []) × (cm'.ifs ≡ c.ifs) × (cm'.conn_if ≡ c.conn_if))
        (ap (λ b. with_allocs b cm) (sym e))
        (elim (Bool-cases (p.len == 8)) [
          | inl t ↦ rw t (refl, refl, refl, refl)
          | inr t ↦ rw (t, all) (refl, refl, refl, refl)
        ])

  ConnIf-cases :
      (x : ConnIf D)
      → (x ≡ null) ⊎ ((a : Attached D) × (x ≡ waiting a)) ⊎ ((h : ℕ) × (x ≡ linked h))
  ConnIf-cases null = inl refl
  ConnIf-cases (waiting a) = inr (inl (a, refl))
  ConnIf-cases (linked h) = inr (inr (h, refl))

  conn_response-Sound :
      (p : Packet) (cm : Core D)
      → IsSoundCore cm
      → ((process_conn_response p cm).0 ≡ false) × IsSoundCore (process_conn_response p cm).1
  unfolding process_conn_response
  conn_response-Sound p cm v = elim (ConnIf-cases cm.conn_if) [
    | inl e ↦ simp e (refl, v)
    | inr (inl (a, e)) ↦
        let q : SteadyHandlers a.func = subst SteadyConn e v.next in
        elim (Bool-cases (p.hflag == conn_query)) [
          | inl t ↦
              simp e (simp t (refl, record { steady = v.steady; next = q; allocs = v.allocs }))
          | inr t ↦
              simp e
                (simp t (refl, record { steady = (q, v.steady); next = tt; allocs = v.allocs }))
        ]
    | inr (inr (h, e)) ↦ simp e (refl, record { steady = v.steady; next = tt; allocs = v.allocs })
  ]

  receive_packet-Sound :
      (p : Packet) (a : Attached D) (cm : Core D)
      → IsSoundCore cm
      → find_if p.conn cm.ifs ≡ some a
      → IsSoundCore (receive_packet p a cm)
        × ((k : ℕ) → k ≢ p.conn → find_if k (receive_packet p a cm).ifs ≡ find_if k cm.ifs)
  unfolding receive_packet
  receive_packet-Sound p a cm v e =
      let deferred = is_linked cm.conn_if a.handle in
      let queued : Attached D = record a {
        cif = record (a.cif) { rxbufs = a.cif.rxbufs ++ (p ∷ []); defer_pkt = deferred };
      } in
      let io : Io D = record (cm.io) {
        allocs = allocs_left cm.io.allocs;
        fault = cm.io.fault || ltb p.len 8;
      } in
      let q = find_if-Steady p.conn cm.ifs e v.steady in
      let (conn, allocs, func, h) = advance_attached-Steady queued io q (ap allocs_left v.allocs) in
      let a' = (advance_attached queued io).0 in
      let here : a'.cif.conn ≡ p.conn = conn ∙ find_if-conn p.conn cm.ifs e in
      (
        record {
          steady =
              replace_if-AllSteady p.conn a' cm.ifs (subst SteadyHandlers (sym func) q) v.steady;
          next = v.next;
          allocs = allocs;
        },
        λ k n. find_if-replace_if p.conn k a' cm.ifs n here,
      )

  -- `coremodel_process_packet` never reports an error while no allocation fails, whatever the packet
  -- is, and leaves the devices steady.
  pub process_packet-Sound :
      (p : Packet) (cm : Core D)
      → IsSoundCore cm
      → ((process_packet p cm).0 ≡ false) × IsSoundCore (process_packet p cm).1
  unfolding process_packet
  process_packet-Sound p cm v = elim (Bool-cases (p.conn == conn_query)) [
    | inl c ↦ elim (Bool-cases cm.query) [
      | inl w ↦ elim (Bool-cases (p.pkt == pkt_query_rsp_list)) [
        | inl l ↦
            let (fine, allocs, same, next) = list_response-kept p cm v.allocs in
            simp (c, w, l)
              (
                fine,
                record {
                  steady = subst AllSteady (sym same) v.steady;
                  next = subst SteadyConn (sym next) v.next;
                  allocs = allocs;
                },
              )
        | inr l ↦ elim (Bool-cases (p.pkt == pkt_query_rsp_conn)) [
          | inl r ↦ simp (c, w, l, r) (conn_response-Sound p cm v)
          | inr r ↦ simp (c, w, l, r) (refl, v)
        ]
      ]
      | inr w ↦ simp (c, w) (refl, v)
    ]
    | inr c ↦ elim (Option-cases (find_if p.conn cm.ifs)) [
      | inl e ↦ simp (c, e) (refl, v)
      | inr (a, e) ↦
          let ok : alloc_ok cm.io.allocs ≡ true = ap alloc_ok v.allocs in
          simp (c, e) (simp ok (refl, (receive_packet-Sound p a cm v e).0))
    ]
  ]

  -- A packet for one connection leaves the interfaces of all other connections as they are, if the
  -- devices' callbacks keep their own interface's connection, reach no other interface, which their
  -- type says, and let no allocation fail.
  pub process_packet_isolates :
      (p : Packet) (cm : Core D)
      → IsSoundCore cm
      → p.conn ≢ conn_query
      → (k : ℕ) → k ≢ p.conn
      → find_if k (process_packet p cm).1.ifs ≡ find_if k cm.ifs
  unfolding process_packet
  process_packet_isolates p cm v n k other =
      let c : (p.conn == conn_query) ≡ false = ground arith in
      elim (Option-cases (find_if p.conn cm.ifs)) [
        | inl e ↦ simp (c, e)
        | inr (a, e) ↦
            let ok : alloc_ok cm.io.allocs ≡ true = ap alloc_ok v.allocs in
            simp (c, e) (simp ok ((receive_packet-Sound p a cm v e).1 k other))
      ]

  -- The library as a whole: however the reads cut the stream, the packets that the peer sent go to
  -- `coremodel_process_packet` in order, none twice and none left out, whatever the devices do with
  -- them; what has been processed is a prefix, and the bytes in the ring and on the way are exactly
  -- those of the others. It holds for packets of at most 2048 bytes, for devices whose callbacks keep
  -- their interface's connection, and while no allocation fails.
  pub core_in_order :
      (fuel : ℕ) (calls : List (List Answer)) (ps : List Packet) (stream : List ℕ) {r : Ring}
      (cm : Core D)
      → IsValid r
      → AllSendable ps
      → IsSoundCore cm
      → length ps < fuel
      → contents r ++ stream ≡ wires ps
      → (stream' : List ℕ) × (r' : Ring) × (cm' : Core D) × (serve process_packet fuel calls stream
            r cm
          ≡ some (stream', r', cm'))
        × Progress process_packet IsSoundCore ps cm stream' r' cm'
  core_in_order fuel calls ps stream {r} cm v sendable g few e =
      serve_in_order process_packet IsSoundCore process_packet-Sound fuel calls ps stream {r = r} cm
        v sendable g few e
