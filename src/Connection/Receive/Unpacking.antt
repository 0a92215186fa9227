-- ===== src/Connection/Receive/Unpacking.antt =====
-- conn.go: what handleReceivedPacket takes a datagram apart into.
use quic_test.Prelude.{
  ℕ, ◌+◌, ◌-◌, min, bit_and, true, not, Option, none, some, List, [], ltb, ◌==◌, if◌then◌else◌,
  if-cases, length, drop, All, All-drop, All-take, IsByte, Bytes, Result, ok, err, panics, map_ok,
}
use quic_test.Wire.Frame.{Frame}
use quic_test.Wire.Header.{is_long_header_packet, packet_number_at, parse_short_header}
use quic_test.Wire.LongHeader.{Header, payload_at, parse_long_header, parse_packet, parse_extended}
use quic_test.Wire.LongHeader.Bounds.{parse_long_header-Advances}
use quic_test.Wire.Progress.Rules.{Advances}
use quic_test.Varint.{at}
use quic_test.Connection.State.{Connection}
use quic_test.Connection.Frames.{parse_and_handle_frames}
use quic_test.Connection.Receive.{receive_number}

-- What holds of a value if there is one.
abbrev pub OnOk : {A : Type 0} → (A → Type 0) → Result A → Type 0
OnOk P (ok a) = P a
OnOk P (err e) = Unit
OnOk P panics = Unit

-- It is a value, and this holds of it, or an error.
abbrev pub NoPanic : {A : Type 0} → (A → Type 0) → Result A → Type 0
NoPanic P (ok a) = P a
NoPanic P (err e) = Unit
NoPanic P panics = ⊥

pub parse_packet-NoPanic :
    (input : Bytes)
    → All IsByte input
    → NoPanic (λ (r : Option Header × Bytes). All IsByte r.1) (parse_packet input)
unfolding parse_packet Advances
parse_packet-NoPanic input bytes =
    let P : Option Header × Bytes → Type 0 = λ r. All IsByte r.1 in
    let Q : Result (Option Header × Bytes) → Type 0 = λ r. NoPanic P r in
    if-cases Q (length input == 0) (λ _. tt)
      (λ _.
        if-cases Q (not (is_long_header_packet (at input 0))) (λ _. bytes)
          (λ _. long (parse_long_header input) (parse_long_header-Advances input bytes)))
  where
    long :
        (r : Result (Header × ℕ))
        → Advances input 5 r
        → NoPanic
            (λ (r : Option Header × Bytes). All IsByte r.1)
            (map_ok (λ (r : Header × ℕ). (some r.0, payload_at input r.0 r.1)) r)
    long (ok (h, offset)) a =
        All-take IsByte (min (offset + h.payload_length) (length input) - offset)
          (drop offset input) (All-drop IsByte offset input bytes)
    long (err e) a = tt
    long panics a = a

-- A header and its packet number are read, or the packet is too short.
pub parse_extended-NoPanic :
    (h : Header) (payload : Bytes)
    → NoPanic (λ (r : ℕ × ℕ × ℕ). Unit {0}) (parse_extended h payload)
unfolding parse_extended packet_number_at
parse_extended-NoPanic h payload =
    let len = bit_and h.type_byte 0x03 + 1 in
    if-cases
      (λ (r : Result ℕ).
        NoPanic (λ (r : ℕ × ℕ × ℕ). Unit {0}) (map_ok (λ pn. (pn, len, h.parsed_len + len)) r))
      (ltb (length payload) (0 + len)) (λ _. tt) (λ _. tt)

pub parse_short_header-NoPanic :
    (input : Bytes) (n : ℕ) → NoPanic (λ (r : ℕ × ℕ × ℕ). Unit {0}) (parse_short_header input n)
unfolding parse_short_header packet_number_at
parse_short_header-NoPanic input n =
    let len = bit_and (at input 0) 0x03 + 1 in
    let offset = 1 + n in
    let Q : Result (ℕ × ℕ × ℕ) → Type 0 = λ r. NoPanic (λ (r : ℕ × ℕ × ℕ). Unit {0}) r in
    if-cases Q (ltb (length input) 1) (λ _. tt)
      (λ _.
        if-cases Q (ltb 0 (bit_and (at input 0) 0x80)) (λ _. tt)
          (λ _.
            if-cases (λ (r : Result ℕ). Q (map_ok (λ pn. (offset + len, pn, len)) r))
              (ltb (length input) (offset + len)) (λ _. tt) (λ _. tt)))

module _ {S : Type 0} where
  -- The frames of a payload, with the connection that is to handle them.
  abbrev pub frames_of : Connection S → Bytes → Result (Connection S × List Frame)
  frames_of c payload = map_ok (λ fs. (c, fs)) (parse_and_handle_frames payload)

  abbrev pub unpack_long : Connection S → Header → Bytes → Result (Connection S × List Frame)
  unpack_long c h payload = elim (parse_extended h payload) [
    | err e ↦ ok (c, [])
    | panics ↦ panics
    | ok r ↦
        let received = receive_number c r.1 r.0 in
        let start = r.2 - h.parsed_len in
        if ltb start (length payload)
        then frames_of received (drop start payload)
        else ok (received, [])
  ]

  abbrev pub unpack_short : Connection S → Bytes → Result (Connection S × List Frame)
  unpack_short c input = elim (parse_short_header input (length c.dest_conn_id)) [
    | err e ↦ ok (c, [])
    | panics ↦ panics
    | ok r ↦ frames_of (receive_number c r.2 r.1) (drop r.0 input)
  ]

  -- The connection that has noted the number of a packet, and the frames of the packet: none, where it
  -- is dropped.
  abbrev pub unpack : Connection S → Bytes → Result (Connection S × List Frame)
  unpack c0 input =
      let c : Connection S = record c0 { ready = true } in
      elim (parse_packet input) [
        | err e ↦ ok (c, [])
        | panics ↦ panics
        | ok r ↦ elim r.0 [ some h ↦ unpack_long c h r.1 | none ↦ unpack_short c r.1 ]
      ]
