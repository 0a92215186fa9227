-- ===== src/Connection/Transfer/Packets.antt =====
-- The frames of a packet, from the sender's loop over the waiting frames to the receiver's loop.
use quic_test.Prelude.{
  ℕ, zero, suc, ◌+◌, ◌≤◌, ◌≡◌, refl, sym, ap, ◌∙◌, inl, inr, true, List, [], ◌∷◌, ◌++◌, append-nil,
  append_assoc, arith, ltb, Bool-cases, length, take, drop, All, length-append, length-drop,
  drop-drop, drop-length, Bytes, ok, map_ok,
}
use quic_test.Wire.Frame.{Frame, parse_next, append_frame}
use quic_test.Wire.Ack.{AckRange}
use quic_test.Wire.Encodable.{IsEncodable, IsAck, Follows}
use quic_test.Wire.Image.{image, append_frame-image}
use quic_test.Wire.RoundTrip.{parse_image, IsEncodable-IsWritable}
use quic_test.Connection.Frames.{frames_from, parse_and_handle_frames}
use quic_test.Connection.Frames.Loop.{at_end, on_frame}
use quic_test.Connection.Sending.{pack}

-- A frame that may stand anywhere in a packet: its fields fit the wire, it is not PADDING, and a
-- STREAM frame has its length.
abbrev pub IsPackable : Frame → Type 0
IsPackable (Frame.padding f) = ⊥
IsPackable (Frame.stream f) = IsEncodable (Frame.stream f) × (f.data_len_present ≡ true)
IsPackable f = IsEncodable f

IsPackable-IsEncodable : (f : Frame) → IsPackable f → IsEncodable f
IsPackable-IsEncodable (Frame.padding f) h = absurd h
IsPackable-IsEncodable (Frame.stream f) h = h.0
IsPackable-IsEncodable Frame.ping h = h
IsPackable-IsEncodable (Frame.ack f) h = h
IsPackable-IsEncodable (Frame.reset_stream f) h = h
IsPackable-IsEncodable (Frame.stop_sending f) h = h
IsPackable-IsEncodable (Frame.crypto f) h = h
IsPackable-IsEncodable (Frame.max_data f) h = h
IsPackable-IsEncodable (Frame.max_stream_data f) h = h
IsPackable-IsEncodable (Frame.max_streams f) h = h
IsPackable-IsEncodable (Frame.data_blocked f) h = h
IsPackable-IsEncodable (Frame.stream_data_blocked f) h = h
IsPackable-IsEncodable (Frame.streams_blocked f) h = h
IsPackable-IsEncodable (Frame.path_challenge f) h = h
IsPackable-IsEncodable (Frame.path_response f) h = h
IsPackable-IsEncodable (Frame.connection_close f) h = h

IsPackable-Follows : (f : Frame) (rest : Bytes) → IsPackable f → Follows f rest
IsPackable-Follows (Frame.padding f) rest h = absurd h
IsPackable-Follows (Frame.stream f) rest h = λ e. absurd (ground (arith, e, h.1))
IsPackable-Follows Frame.ping rest h = tt
IsPackable-Follows (Frame.ack f) rest h = tt
IsPackable-Follows (Frame.reset_stream f) rest h = tt
IsPackable-Follows (Frame.stop_sending f) rest h = tt
IsPackable-Follows (Frame.crypto f) rest h = tt
IsPackable-Follows (Frame.max_data f) rest h = tt
IsPackable-Follows (Frame.max_stream_data f) rest h = tt
IsPackable-Follows (Frame.max_streams f) rest h = tt
IsPackable-Follows (Frame.data_blocked f) rest h = tt
IsPackable-Follows (Frame.stream_data_blocked f) rest h = tt
IsPackable-Follows (Frame.streams_blocked f) rest h = tt
IsPackable-Follows (Frame.path_challenge f) rest h = tt
IsPackable-Follows (Frame.path_response f) rest h = tt
IsPackable-Follows (Frame.connection_close f) rest h = tt

image_pos : (f : Frame) → IsPackable f → 1 ≤ length (image f)
image_pos (Frame.padding f) h = absurd h
image_pos (Frame.stream f) h = omega arith
image_pos Frame.ping h = omega arith
image_pos (Frame.ack f) h = ack_pos f.ack_ranges h
  where
    ack_pos :
        (rs : List AckRange)
        → IsAck rs f.delay_time
        → 1 ≤ length (image (Frame.ack (record { ack_ranges = rs; delay_time = f.delay_time })))
    ack_pos [] h = absurd h
    ack_pos (r ∷ rs) h = omega arith
image_pos (Frame.reset_stream f) h = omega arith
image_pos (Frame.stop_sending f) h = omega arith
image_pos (Frame.crypto f) h = omega arith
image_pos (Frame.max_data f) h = omega arith
image_pos (Frame.max_stream_data f) h = omega arith
image_pos (Frame.max_streams f) h = omega arith
image_pos (Frame.data_blocked f) h = omega arith
image_pos (Frame.stream_data_blocked f) h = omega arith
image_pos (Frame.streams_blocked f) h = omega arith
image_pos (Frame.path_challenge f) h = omega arith
image_pos (Frame.path_response f) h = omega arith
image_pos (Frame.connection_close f) h = omega arith

abbrev pub images : List Frame → Bytes
images [] = []
images (f ∷ fs) = image f ++ images fs

-- The packet has a beginning of the frames that wait, all of them when they fit.
pub pack-images :
    (mtu : ℕ) (b : Bytes) (fs : List Frame)
    → All IsPackable fs
    → (k : ℕ) × (pack mtu b fs ≡ ok (b ++ images (take k fs)))
      × (length (b ++ images fs) ≤ mtu → take k fs ≡ fs)
unfolding pack
pack-images mtu b [] h = (0, ap ok (sym (append-nil b)), λ e. refl)
pack-images mtu b (f ∷ fs) (h, hs) =
    let b1 = b ++ image f in
    let written : append_frame b f ≡ ok b1 =
      append_frame-image b f (IsEncodable-IsWritable f (IsPackable-IsEncodable f h)) in
    let (k, rest, all) = pack-images mtu b1 fs hs in
    let regroup : (gs : List Frame) → b1 ++ images gs ≡ b ++ images (f ∷ gs) =
      λ gs. append_assoc b (image f) (images gs) in
    elim (Bool-cases (ltb mtu (length b1))) [
      | inl over ↦ (
        0,
        rw (written, pack) (rw over (ap ok (sym (append-nil b)))),
        λ e. absurd (ground (arith, length-append b1 (images fs), ap length (regroup fs), over)),
      )
      | inr under ↦ (
        suc k,
        rw (written, pack) (rw under (rest ∙ ap ok (regroup (take k fs)))),
        λ e. ap (λ gs. f ∷ gs) (all (rw (regroup fs) e)),
      )
    ]

-- The loop over the frames gives back what was packed.
frames_from-images :
    (fs : List Frame) (input : Bytes) (n offset : ℕ)
    → drop offset input ≡ images fs
    → All IsPackable fs
    → length input ≤ offset + n
    → frames_from n input offset ≡ ok fs
frames_from-images [] input n offset e h enough =
    at_end input offset n (omega (arith, ap length e, length-drop offset input))
frames_from-images (f ∷ fs) input zero offset e (h, hs) enough = absurd (
    omega (
      arith,
      ap length e,
      length-drop offset input,
      image_pos f h,
      length-append (image f) (images fs),
    ))
frames_from-images (f ∷ fs) input (suc n) offset e (h, hs) enough =
    let size = length (image f) in
    let pos = image_pos f h in
    let inside : offset + size ≤ length input =
      omega (arith, ap length e, length-drop offset input, length-append (image f) (images fs)) in
    let read : parse_next (drop offset input) ≡ ok (f, size) =
      ap parse_next e
      ∙ parse_image f (images fs) (IsPackable-IsEncodable f h)
          (IsPackable-Follows f (images fs) h) in
    let later : drop (offset + size) input ≡ images fs =
      sym (drop-drop offset size input) ∙ ap (drop size) e ∙ drop-length (image f) (images fs) in
    on_frame input offset n size f (omega arith) read
    ∙ ap (map_ok (λ gs. f ∷ gs))
        (frames_from-images fs input n (offset + size) later hs (omega arith))

-- parseAndHandleFrames hands on the frames that were packed, in their order.
pub parse_and_handle_frames-images :
    (fs : List Frame) → All IsPackable fs → parse_and_handle_frames (images fs) ≡ ok fs
unfolding parse_and_handle_frames
parse_and_handle_frames-images fs h =
    frames_from-images fs (images fs) (length (images fs)) 0 refl h (omega arith)
