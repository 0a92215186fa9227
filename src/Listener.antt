-- ===== src/Listener.antt =====
-- quic/listener.go: the dispatch of packets to connections. A connection is a place in the list of
-- endpoints, which the two maps point to; an address is the number of its string, and the random
-- identifier is an argument. Sockets, goroutines and Accept are left out.
pub mod Addresses
pub mod Happy
pub mod Dialing
mod Tests
use quic_test.Prelude.{
  ℕ, zero, suc, Bool, true, false, ◌&&◌, Option, none, some, List, [], ◌∷◌, ◌++◌, ltb, ◌==◌,
  if◌then◌else◌, length, Bytes, Result, ok, err, panics, map_ok,
}
use quic_test.Varint.{at}
use quic_test.Wire.Header.{is_long_header_packet, parse_short_header_conn_id}
use quic_test.Wire.LongHeader.{PacketType, initial, Header, parse_packet}
use quic_test.Wire.Frame.{Frame}
use quic_test.Connection.State.{World, Connection}
use quic_test.Connection.Sending.{Sent, send_frame}
use quic_test.Connection.Setup.{new_connection, send_connection_setup}

-- `packets` is what waits in packetCh.
pub record Endpoint (S : Type 0) : Type 0 where
  pub conn : Connection S
  pub remote_addr : ℕ
  pub packets : List Bytes

pub record Listener (S : Type 0) : Type 0 where
  pub endpoints : List (Endpoint S)
  pub conn_map : List (ℕ × ℕ)
  pub conn_id_map : List (Bytes × ℕ)
  pub accepted : List ℕ

abbrev pub at_addr : ℕ → List (ℕ × ℕ) → Option ℕ
at_addr addr [] = none
at_addr addr (e ∷ es) = if e.0 == addr then some e.1 else at_addr addr es

abbrev pub without_addr : ℕ → List (ℕ × ℕ) → List (ℕ × ℕ)
without_addr addr [] = []
without_addr addr (e ∷ es) = if e.0 == addr then without_addr addr es else e ∷ without_addr addr es

abbrev pub put_addr : ℕ → ℕ → List (ℕ × ℕ) → List (ℕ × ℕ)
put_addr addr h es = (addr, h) ∷ without_addr addr es

abbrev pub same_bytes : Bytes → Bytes → Bool
same_bytes [] [] = true
same_bytes [] (y ∷ ys) = false
same_bytes (x ∷ xs) [] = false
same_bytes (x ∷ xs) (y ∷ ys) = (x == y) && same_bytes xs ys

abbrev pub at_conn_id : Bytes → List (Bytes × ℕ) → Option ℕ
at_conn_id id [] = none
at_conn_id id (e ∷ es) = if same_bytes e.0 id then some e.1 else at_conn_id id es

abbrev pub is_initial : PacketType → Bool
is_initial initial = true
is_initial _ = false

module _ {S : Type 0} where
  abbrev pub endpoint : ℕ → List (Endpoint S) → Option (Endpoint S)
  endpoint h [] = none
  endpoint zero (e ∷ es) = some e
  endpoint (suc h) (e ∷ es) = endpoint h es

  abbrev pub replace : ℕ → Endpoint S → List (Endpoint S) → List (Endpoint S)
  replace h x [] = []
  replace zero x (e ∷ es) = x ∷ es
  replace (suc h) x (e ∷ es) = e ∷ replace h x es

  abbrev pub set_endpoint : Listener S → ℕ → Endpoint S → Listener S
  set_endpoint l h e = record l { endpoints = replace h e l.endpoints }

  -- handlePacket: a packet that finds the channel full is dropped.
  unfoldable pub handle_packet : Endpoint S → Bytes → Endpoint S
  handle_packet e packet =
      if ltb (length e.packets) 1000 then record e { packets = e.packets ++ (packet ∷ []) } else e

  -- A connection that is there and is not closed.
  abbrev pub live : Listener S → Option ℕ → Option (ℕ × Endpoint S)
  live l none = none
  live l (some h) = elim (endpoint h l.endpoints) [
    | none ↦ none
    | some e ↦ if e.conn.closed then none else some (h, e)
  ]

  abbrev pub deliver_packet : Listener S → Bytes → ℕ × Endpoint S → Listener S
  deliver_packet l packet (h, e) = set_endpoint l h (handle_packet e packet)

-- "MIGRATE1"
abbrev pub challenge_data : Bytes
challenge_data = 77 ∷ 73 ∷ 71 ∷ 82 ∷ 65 ∷ 84 ∷ 69 ∷ 49 ∷ []

module _ {S : Type 0} (w : World S) (now : ℕ) where
  -- The peer has a new address.
  unfoldable pub migrate : Listener S → Bytes → ℕ → ℕ × Endpoint S → Result (Listener S)
  unfolding handle_packet
  migrate l packet addr (h, e) =
      let map : List (ℕ × ℕ) =
        if e.remote_addr == addr
        then l.conn_map
        else put_addr addr h (without_addr e.remote_addr l.conn_map) in
      let moved : Endpoint S = handle_packet (record e { remote_addr = addr }) packet in
      map_ok
        (λ (sent : Sent S).
          set_endpoint (record l { conn_map = map }) h (record moved { conn = sent.conn }))
        (send_frame w now moved.conn (Frame.path_challenge (record { challenge = challenge_data })))

  -- By the connection identifier of a short header.
  unfoldable pub route_by_conn_id : Listener S → Bytes → ℕ → Result (Listener S)
  unfolding parse_short_header_conn_id migrate
  route_by_conn_id l packet addr = elim (parse_short_header_conn_id packet) [
    | err e ↦ ok l
    | panics ↦ panics
    | ok id ↦ elim (live l (at_conn_id id l.conn_id_map)) [
      | none ↦ ok l
      | some found ↦ migrate l packet addr found
    ]
  ]

  -- The second look at the map, and the registration of the new connection.
  unfoldable pub register : Listener S → Bytes → ℕ → Header → Bytes → S → Result (Listener S)
  unfolding handle_packet new_connection send_connection_setup
  register l packet addr h server_id controller = elim (live l (at_addr addr l.conn_map)) [
    | some found ↦ ok (deliver_packet l packet found)
    | none ↦
        let place = length l.endpoints in
        map_ok
          (λ (c : Connection S). record {
            endpoints =
                l.endpoints
                ++ (handle_packet (record { conn = c; remote_addr = addr; packets = [] }) packet
                    ∷ []);
            conn_map = put_addr addr place l.conn_map;
            conn_id_map = (server_id, place) ∷ l.conn_id_map;
            accepted =
                if ltb (length l.accepted) 100 then l.accepted ++ (place ∷ []) else l.accepted;
          })
          (send_connection_setup w now (new_connection w controller h.src_connection_id) h.version
            server_id)
  ]

  -- The first packet of a connection; `none` is an error of the random generator.
  unfoldable pub accept_new : Listener S → Bytes → ℕ → Option Bytes → S → Result (Listener S)
  unfolding parse_packet register
  accept_new l packet addr server_id controller = elim (parse_packet packet) [
    | err e ↦ ok l
    | panics ↦ panics
    | ok (none, rest) ↦ panics
    | ok (some h, rest) ↦
        if is_initial h.packet_type
        then elim server_id [ none ↦ ok l | some id ↦ register l packet addr h id controller ]
        else ok l
  ]

  unfoldable pub dispatch_packet : Listener S → Bytes → ℕ → Option Bytes → S → Result (Listener S)
  unfolding route_by_conn_id accept_new handle_packet
  dispatch_packet l packet addr server_id controller =
      if ltb (length packet) 5 then ok l else elim (live l (at_addr addr l.conn_map)) [
        | some found ↦ ok (deliver_packet l packet found)
        | none ↦
            if is_long_header_packet (at packet 0)
            then accept_new l packet addr server_id controller
            else route_by_conn_id l packet addr
      ]
