-- ===== src/Listener/Addresses.antt =====
-- quic/listener.go: the map from addresses to connections.
pub mod Places
pub use Places.{remote_at, AddressesMatch, Returns}
use Places.{
  All-imp, All-without_addr, remote_at-endpoint, remote_at-append, remote_at-last,
  remote_at-replace, remote_at-replace_other, remote_at-replace_same,
}
use quic_test.Prelude.{
  ℕ, ◌≡◌, refl, ap, ◌∙◌, subst, inl, inr, Option, none, some, List, [], ◌∷◌, ◌++◌, arith, ltb, ◌==◌,
  if◌then◌else◌, Bool-cases, if-cases, Option-cases, length, Bytes, Result, ok, err, panics, map_ok,
  Result-cases,
}
use quic_test.Varint.{at}
use quic_test.Wire.Header.{parse_short_header_conn_id, is_long_header_packet}
use quic_test.Wire.LongHeader.{Header, parse_packet}
use quic_test.Wire.Frame.{Frame}
use quic_test.Connection.State.{World, Connection}
use quic_test.Connection.Sending.{Sent, send_frame}
use quic_test.Connection.Setup.{new_connection, send_connection_setup}
use quic_test.Listener.{
  Endpoint, Listener, at_addr, without_addr, put_addr, at_conn_id, endpoint, replace, set_endpoint,
  handle_packet, live, challenge_data, migrate, route_by_conn_id, register, is_initial,
  deliver_packet, accept_new, dispatch_packet,
}

module _ {S : Type 0} where
  remote_addr-handle_packet :
      (e : Endpoint S) (packet : Bytes) → (handle_packet e packet).remote_addr ≡ e.remote_addr
  unfolding handle_packet
  remote_addr-handle_packet e packet =
      if-cases (λ (x : Endpoint S). x.remote_addr ≡ e.remote_addr) (ltb (length e.packets) 1000)
        (λ t. refl) (λ t. refl)

  -- A connection that is found stands in its place.
  endpoint-live :
      (l : Listener S) (o : Option ℕ) (h : ℕ) (e : Endpoint S)
      → live l o ≡ some (h, e)
      → endpoint h l.endpoints ≡ some e
  endpoint-live l none h e f = absurd (ground arith)
  endpoint-live l (some x) h e f = elim (Option-cases (endpoint x l.endpoints)) [
    | inl n ↦ absurd (ground (arith, f, n))
    | inr (y, n) ↦ ground (arith, f, n)
  ]

  -- A change of the connections that keeps their addresses keeps the map right.
  moved-AddressesMatch :
      (l : Listener S) (h : ℕ) (x : Endpoint S)
      → remote_at h l.endpoints ≡ some x.remote_addr
      → AddressesMatch l
      → AddressesMatch (set_endpoint l h x)
  moved-AddressesMatch l h x f =
      All-imp (λ (e : ℕ × ℕ) p. remote_at-replace_same e.1 h l.endpoints x f ∙ p) l.conn_map

  Returns-map_ok :
      {A : Type 0} (P : Listener S → Type 0) (f : A → Listener S) (r : Result A)
      → ((a : A) → P (f a))
      → Returns P (map_ok f r)
  Returns-map_ok P f (ok a) h = h a
  Returns-map_ok P f (err e) h = tt
  Returns-map_ok P f panics h = tt

  deliver_packet-AddressesMatch :
      (l : Listener S) (packet : Bytes) (o : Option ℕ) (h : ℕ) (e : Endpoint S)
      → live l o ≡ some (h, e)
      → AddressesMatch l
      → AddressesMatch (deliver_packet l packet (h, e))
  deliver_packet-AddressesMatch l packet o h e f =
      moved-AddressesMatch l h (handle_packet e packet) (
        rw (remote_addr-handle_packet e packet)
          (remote_at-endpoint h l.endpoints e (endpoint-live l o h e f)))

  -- The map when the peer of the connection `e` in the place `h` has the address `addr`.
  abbrev moved_map : Listener S → ℕ → ℕ → Endpoint S → List (ℕ × ℕ)
  moved_map l addr h e =
      if e.remote_addr == addr
      then l.conn_map
      else put_addr addr h (without_addr e.remote_addr l.conn_map)

  migrated-AddressesMatch :
      (l : Listener S) (h : ℕ) (e x : Endpoint S)
      → remote_at h l.endpoints ≡ some e.remote_addr
      → AddressesMatch l
      → AddressesMatch (set_endpoint (record l { conn_map = moved_map l x.remote_addr h e }) h x)
  migrated-AddressesMatch l h e x f p =
      let addr = x.remote_addr in
      let old = without_addr e.remote_addr l.conn_map in
      let Right : ℕ × ℕ → Type 0 =
        λ entry. remote_at entry.1 (replace h x l.endpoints) ≡ some entry.0 in
      elim (Bool-cases (e.remote_addr == addr)) [
        | inl t ↦ rw t (moved-AddressesMatch l h x (f ∙ ap some (ground (arith, t))) p)
        | inr t ↦ rw t (
          remote_at-replace h l.endpoints x e.remote_addr f,
          All-imp (λ (entry : ℕ × ℕ) q. q.0) (without_addr addr old)
              (All-without_addr Right addr old (
                All-imp
                  (λ (entry : ℕ × ℕ) q.
                    remote_at-replace_other entry.1 h l.endpoints x
                      (λ here. q.1 (grind (arith, q.0, here, f)))
                    ∙ q.0)
                  old
                  (All-without_addr (λ entry. remote_at entry.1 l.endpoints ≡ some entry.0)
                    e.remote_addr l.conn_map p))),
        )
      ]

  -- The listener with one connection more.
  abbrev with_connection : Listener S → Bytes → ℕ → Bytes → Connection S → Listener S
  with_connection l packet addr server_id c =
      let place = length l.endpoints in
      record {
        endpoints =
            l.endpoints
            ++ (handle_packet (record { conn = c; remote_addr = addr; packets = [] }) packet ∷ []);
        conn_map = put_addr addr place l.conn_map;
        conn_id_map = (server_id, place) ∷ l.conn_id_map;
        accepted = if ltb (length l.accepted) 100 then l.accepted ++ (place ∷ []) else l.accepted;
      }

  with_connection-AddressesMatch :
      (l : Listener S) (packet : Bytes) (addr : ℕ) (server_id : Bytes) (c : Connection S)
      → AddressesMatch l
      → AddressesMatch (with_connection l packet addr server_id c)
  with_connection-AddressesMatch l packet addr server_id c p =
      let e : Endpoint S = record { conn = c; remote_addr = addr; packets = [] } in
      let new = handle_packet e packet in
      (
        remote_at-last l.endpoints new ∙ ap some (remote_addr-handle_packet e packet),
        All-imp (λ (entry : ℕ × ℕ) q. remote_at-append entry.1 l.endpoints (new ∷ []) entry.0 q.0)
            (without_addr addr l.conn_map)
            (All-without_addr (λ entry. remote_at entry.1 l.endpoints ≡ some entry.0) addr
              l.conn_map p),
      )

module _ {S : Type 0} (w : World S) (now : ℕ) where
  migrate-AddressesMatch :
      (l : Listener S) (packet : Bytes) (addr h : ℕ) (e : Endpoint S)
      → remote_at h l.endpoints ≡ some e.remote_addr
      → AddressesMatch l
      → Returns AddressesMatch (migrate w now l packet addr (h, e))
  unfolding migrate
  migrate-AddressesMatch l packet addr h e f p =
      let at_new : Endpoint S = record e { remote_addr = addr } in
      let moved : Endpoint S = handle_packet at_new packet in
      Returns-map_ok AddressesMatch
        (λ (sent : Sent S).
          set_endpoint (record l { conn_map = moved_map l addr h e }) h
            (record moved { conn = sent.conn }))
        (send_frame w now moved.conn (Frame.path_challenge (record { challenge = challenge_data })))
        (λ sent.
          subst
            (λ (a : ℕ). AddressesMatch (
              set_endpoint (record l { conn_map = moved_map l a h e }) h
                (record moved { conn = sent.conn })))
            (remote_addr-handle_packet at_new packet)
            (migrated-AddressesMatch l h e (record moved { conn = sent.conn }) f p))

  route_by_conn_id-AddressesMatch :
      (l : Listener S) (packet : Bytes) (addr : ℕ)
      → AddressesMatch l
      → Returns AddressesMatch (route_by_conn_id w now l packet addr)
  unfolding route_by_conn_id
  route_by_conn_id-AddressesMatch l packet addr p =
      elim (Result-cases (parse_short_header_conn_id packet)) [
        | inl (id, e) ↦
            let found = at_conn_id id l.conn_id_map in
            rw (route_by_conn_id, e)
              (elim (Option-cases (live l found)) [
                | inl n ↦ rw n p
                | inr ((h, x), f) ↦ rw f (
                    migrate-AddressesMatch l packet addr h x
                      (remote_at-endpoint h l.endpoints x (endpoint-live l found h x f)) p)
              ])
        | inr (inl (x, e)) ↦ rw (route_by_conn_id, e) p
        | inr (inr e) ↦ rw (route_by_conn_id, e) tt
      ]

  register-AddressesMatch :
      (l : Listener S) (packet : Bytes) (addr : ℕ) (h : Header) (server_id : Bytes) (controller : S)
      → AddressesMatch l
      → Returns AddressesMatch (register w now l packet addr h server_id controller)
  unfolding register
  register-AddressesMatch l packet addr h server_id controller p =
      let found = at_addr addr l.conn_map in
      elim (Option-cases (live l found)) [
        | inr ((x, e), f) ↦ rw (register, f) (deliver_packet-AddressesMatch l packet found x e f p)
        | inl f ↦
            rw (register, f)
              (Returns-map_ok AddressesMatch
                (λ (c : Connection S). with_connection l packet addr server_id c)
                (send_connection_setup w now (new_connection w controller h.src_connection_id)
                  h.version server_id)
                (λ (c : Connection S). with_connection-AddressesMatch l packet addr server_id c p))
      ]

  accept_new-AddressesMatch :
      (l : Listener S) (packet : Bytes) (addr : ℕ) (server_id : Option Bytes) (controller : S)
      → AddressesMatch l
      → Returns AddressesMatch (accept_new w now l packet addr server_id controller)
  unfolding accept_new
  accept_new-AddressesMatch l packet addr server_id controller p =
      elim (Result-cases (parse_packet packet)) [
        | inl ((none, rest), e) ↦ rw (accept_new, e) tt
        | inl ((some h, rest), e) ↦
            rw (accept_new, e)
              (if-cases (Returns AddressesMatch) (is_initial h.packet_type)
                (λ t. elim (Option-cases server_id) [
                  | inl n ↦ rw n p
                  | inr (id, f) ↦ rw f (register-AddressesMatch l packet addr h id controller p)
                ])
                (λ t. p))
        | inr (inl (x, e)) ↦ rw (accept_new, e) p
        | inr (inr e) ↦ rw (accept_new, e) tt
      ]

  -- Let every address in the map of a listener lead to a connection whose remote address it is.
  -- When a packet has been dispatched, whatever its bytes and its address are, this holds of the
  -- listener that is returned, if one is: when the packet was dropped, was handed to a connection,
  -- opened a new one, or moved one to a new address, so that its old address leads nowhere then.
  pub dispatch_packet-AddressesMatch :
      (l : Listener S) (packet : Bytes) (addr : ℕ) (server_id : Option Bytes) (controller : S)
      → AddressesMatch l
      → Returns AddressesMatch (dispatch_packet w now l packet addr server_id controller)
  unfolding dispatch_packet
  dispatch_packet-AddressesMatch l packet addr server_id controller p =
      let found = at_addr addr l.conn_map in
      if-cases (Returns AddressesMatch) (ltb (length packet) 5) (λ t. p)
        (λ t. elim (Option-cases (live l found)) [
          | inr ((x, e), f) ↦ rw f (deliver_packet-AddressesMatch l packet found x e f p)
          | inl f ↦ rw f (
              if-cases (Returns AddressesMatch) (is_long_header_packet (at packet 0))
                (λ t. accept_new-AddressesMatch l packet addr server_id controller p)
                (λ t. route_by_conn_id-AddressesMatch l packet addr p))
        ])
