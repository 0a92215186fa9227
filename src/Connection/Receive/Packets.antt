-- ===== src/Connection/Receive/Packets.antt =====
-- conn.go: handleReceivedPacket on a whole datagram.
use quic_test.Prelude.{
  ℕ, ◌+◌, ◌-◌, ◌^◌, ◌<◌, ◌≡◌, refl, subst, inl, inr, true, Option, none, some, List, [], ◌∷◌, arith,
  ltb, Bool-cases, length, drop, All, All-drop, IsByte, Bytes, Result, map_ok, Result-cases,
}
use quic_test.Wire.Frame.{Frame}
use quic_test.Wire.Header.{parse_short_header}
use quic_test.Wire.LongHeader.{Header, parse_packet, parse_extended}
use quic_test.Connection.State.{World, Connection}
use quic_test.Connection.Frames.Loop.{parse_and_handle_frames_terminates}
use quic_test.Connection.Loss.Settled.{Settled}
use quic_test.Connection.Receive.{
  receive_number, handle_frame, handle_frames, handle_payload, handle_long_header_packet,
  handle_short_header_packet, handle_received_packet,
}
use quic_test.Connection.Receive.Parsed.{IsParsed, parse_and_handle_frames-IsParsed}
use quic_test.Connection.Receive.Handling.{Settles, handle_frame-Settles}
use quic_test.Connection.Receive.Core.{receive_number-Settled, ready-Settled}
use quic_test.Connection.Receive.Unpacking.{
  OnOk, NoPanic, parse_packet-NoPanic, parse_extended-NoPanic, parse_short_header-NoPanic,
  frames_of, unpack_long, unpack_short, unpack,
}

module _ {S : Type 0} (w : World S) (now : ℕ) where
  -- While the frames are handled one after the other, there are packet numbers left for what each may
  -- send.
  abbrev pub NumbersLast : Connection S → List Frame → Type 0
  NumbersLast c [] = Unit
  NumbersLast c (f ∷ fs) =
      (c.send_pn + length c.history + 2 < 2 ^ 64)
      × OnOk (λ d. NumbersLast d fs) (handle_frame w now c f)

  abbrev pub Lasts : Result (Connection S × List Frame) → Type 0
  Lasts r = OnOk (λ (p : Connection S × List Frame). NumbersLast p.0 p.1) r

  module _ (always : (ds : List Bytes) (d : Bytes) → w.write_ok ds d ≡ true) where
    handle_frames-Settles :
        (c : Connection S) (fs : List Frame)
        → All IsParsed fs
        → Settled w c
        → NumbersLast c fs
        → Settles w now (handle_frames w now c fs)
    unfolding handle_frames
    handle_frames-Settles c [] parsed h last = (c, refl, h)
    handle_frames-Settles c (f ∷ fs) (p, ps) h (small, last) =
        let (d, e, settled) = handle_frame-Settles w now always c f p h small in
        let rest : NumbersLast d fs =
          subst (λ (r : Result (Connection S)). OnOk (λ d. NumbersLast d fs) r) e last in
        rw e (handle_frames-Settles d fs ps settled rest)

    handle_payload-Settles :
        (c : Connection S) (payload : Bytes)
        → All IsByte payload
        → Settled w c
        → Lasts (frames_of c payload)
        → Settles w now (handle_payload w now c payload)
    unfolding handle_payload
    handle_payload-Settles c payload bytes h last =
        let (fs, e, same) =
          parse_and_handle_frames_terminates payload (length payload) bytes (omega arith) in
        let parsed = parse_and_handle_frames-IsParsed payload fs e in
        let rest : NumbersLast c fs =
          subst (λ (r : Result (List Frame)). Lasts (map_ok (λ fs. (c, fs)) r)) e last in
        rw e (handle_frames-Settles c fs parsed h rest)

    handle_short-Settles :
        (c : Connection S) (input : Bytes)
        → All IsByte input
        → Settled w c
        → Lasts (unpack_short c input)
        → Settles w now (handle_short_header_packet w now c input)
    unfolding handle_short_header_packet
    handle_short-Settles c input bytes h =
        let Q : Result (ℕ × ℕ × ℕ) → Type 0 = λ r. NoPanic (λ (r : ℕ × ℕ × ℕ). Unit {0}) r in
        elim (Result-cases (parse_short_header input (length c.dest_conn_id))) [
          | inl (r, e) ↦
              rw (unpack_short, handle_short_header_packet, e)
                (handle_payload-Settles (receive_number c r.2 r.1) (drop r.0 input)
                  (All-drop IsByte r.0 input bytes) (receive_number-Settled w c r.2 r.1 h))
          | inr (inl (x, e)) ↦
              rw (unpack_short, handle_short_header_packet, e) (λ last. (c, refl, h))
          | inr (inr e) ↦
              absurd (subst Q e (parse_short_header-NoPanic input (length c.dest_conn_id)))
        ]

    handle_long-Settles :
        (c : Connection S) (h : Header) (payload : Bytes)
        → All IsByte payload
        → Settled w c
        → Lasts (unpack_long c h payload)
        → Settles w now (handle_long_header_packet w now c h payload)
    unfolding handle_long_header_packet
    handle_long-Settles c h payload bytes settled =
        let Q : Result (ℕ × ℕ × ℕ) → Type 0 = λ r. NoPanic (λ (r : ℕ × ℕ × ℕ). Unit {0}) r in
        elim (Result-cases (parse_extended h payload)) [
          | inl (r, e) ↦
              let received = receive_number c r.1 r.0 in
              let noted = receive_number-Settled w c r.1 r.0 settled in
              let start = r.2 - h.parsed_len in
              rw (unpack_long, handle_long_header_packet, e)
                (elim (Bool-cases (ltb start (length payload))) [
                  | inl t ↦ rw t (
                      handle_payload-Settles received (drop start payload)
                        (All-drop IsByte start payload bytes) noted)
                  | inr t ↦ rw t (λ last. (received, refl, noted))
                ])
          | inr (inl (x, e)) ↦
              rw (unpack_long, handle_long_header_packet, e) (λ last. (c, refl, settled))
          | inr (inr e) ↦ absurd (subst Q e (parse_extended-NoPanic h payload))
        ]

    pub handle_received_packet-Settles :
        (c : Connection S) (input : Bytes)
        → All IsByte input
        → Settled w c
        → Lasts (unpack c input)
        → Settles w now (handle_received_packet w now c input)
    unfolding handle_received_packet
    handle_received_packet-Settles c0 input bytes h =
        let c : Connection S = record c0 { ready = true } in
        let settled = ready-Settled w c0 h in
        let Q : Result (Option Header × Bytes) → Type 0 =
          λ r. NoPanic (λ (r : Option Header × Bytes). All IsByte r.1) r in
        elim (Result-cases (parse_packet input)) [
          | inl ((some head, payload), e) ↦
              rw (unpack, handle_received_packet, e)
                (handle_long-Settles c head payload (subst Q e (parse_packet-NoPanic input bytes))
                  settled)
          | inl ((none, payload), e) ↦
              rw (unpack, handle_received_packet, e)
                (handle_short-Settles c payload (subst Q e (parse_packet-NoPanic input bytes))
                  settled)
          | inr (inl (x, e)) ↦ rw (unpack, handle_received_packet, e) (λ last. (c, refl, settled))
          | inr (inr e) ↦ absurd (subst Q e (parse_packet-NoPanic input bytes))
        ]
