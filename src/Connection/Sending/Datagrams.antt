-- ===== src/Connection/Sending/Datagrams.antt =====
-- The size of the packets that sendFrame builds.
use quic_test.Prelude.{
  ℕ, ◌+◌, ◌≤◌, ◌≡◌, refl, ◌⊎◌, inl, inr, true, List, [], ◌∷◌, ◌++◌, arith, ltb, if◌then◌else◌,
  Bool-cases, length, take, All, length-append, length-take, Bytes, lt_int64, ok,
}
use quic_test.Varint
use quic_test.Varint.RoundTrip.{append_shape}
use quic_test.Wire.Stream.{StreamFrame, has_offset, stream_first_byte, append_stream_frame}
use quic_test.Wire.Frame.{Frame}
use quic_test.Wire.Writable.{Appends, append_frame-ok}
use quic_test.Connection.Sending.{pack, max_stream_payload, cut_stream_frame}

-- The frames that wait are added while the packet fits.
pub pack-ok :
    (mtu : ℕ) (b : Bytes) (fs : List Frame)
    → All Appends fs
    → (t : Bytes) × (pack mtu b fs ≡ ok t) × ((t ≡ b) ⊎ (length t ≤ mtu))
unfolding pack
pack-ok mtu b [] h = (b, refl, inl refl)
pack-ok mtu b (f ∷ fs) (h, hs) =
    let (b1, e) = append_frame-ok b f h in
    let (t, packed, size) = pack-ok mtu b1 fs hs in
    elim (Bool-cases (ltb mtu (length b1))) [
      | inl over ↦ (b, rw (e, pack) (rw over refl), inl refl)
      | inr under ↦ (
        t,
        rw (e, pack) (rw under packed),
        inr (elim size [ inl s ↦ rw s (ground arith) | inr s ↦ s ]),
      )
    ]

stream_frame_size :
    (b : Bytes) (f : StreamFrame)
    → length (append_stream_frame b f)
      ≤ length b
        + 1
        + Varint.len f.stream_id
        + (if lt_int64 0 f.offset then Varint.len f.offset else 0)
        + Varint.len (length f.payload)
        + length f.payload
unfolding append_stream_frame has_offset
stream_frame_size b f =
    let b0 = b ++ (stream_first_byte f ∷ []) in
    let b1 = Varint.append b0 f.stream_id in
    let b2 : Bytes = if has_offset f then Varint.append b1 f.offset else b1 in
    ground (
      arith,
      length-append b (stream_first_byte f ∷ []),
      append_shape b0 f.stream_id,
      append_shape b1 f.offset,
      append_shape b2 (length f.payload),
      length-append b2 f.payload,
      length-append (Varint.append b2 (length f.payload)) f.payload,
    )

pub varint_len_bound : (v : ℕ) → Varint.len v ≤ 8
unfolding Varint.len
varint_len_bound v = ground arith

varint_len_mono : (u v : ℕ) → u ≤ v → Varint.len u ≤ Varint.len v
unfolding Varint.len
varint_len_mono u v h = ground arith

-- A frame that was cut fits the packet behind a header with a number of at most 4 bytes.
pub cut_stream_frame_size :
    (max_packet_size : ℕ) (conn_id head : Bytes) (f : StreamFrame)
    → 1200 ≤ max_packet_size
    → length conn_id ≤ 20
    → length head ≤ 1 + length conn_id + 4
    → let g = cut_stream_frame max_packet_size conn_id f in
      (length (append_stream_frame head g) ≤ max_packet_size)
      × (length g.payload ≤ length f.payload)
unfolding cut_stream_frame max_stream_payload
cut_stream_frame_size mps conn_id head f big short h =
    let most = max_stream_payload mps conn_id f in
    let cut = take most f.payload in
    let cut_size = length-take most f.payload in
    ground (
      arith,
      stream_frame_size head f,
      stream_frame_size head (record f { payload = cut; data_len_present = true }),
      cut_size,
      varint_len_bound f.stream_id,
      varint_len_bound f.offset,
      varint_len_bound (length f.payload),
      varint_len_mono (length cut) (length f.payload),
    )
