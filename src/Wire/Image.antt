-- ===== src/Wire/Image.antt =====
-- The wire form of each frame (RFC 9000, section 19), and Append.
use quic_test.Prelude.{
  ℕ, ◌≡◌, refl, sym, ap, ◌∙◌, ◌≢◌, inl, inr, Bool, true, false, not, List, [], ◌∷◌, ◌++◌,
  append-nil, append_assoc, arith, if◌then◌else◌, Bool-cases, length, replicate, length-append,
  length-replicate, Bytes, sub64, ok,
}
use quic_test.Varint
use quic_test.Wire.Field.{length-varint, varint, append-varint}
use quic_test.Wire.Limits.{
  by_type, append_max_data_frame, append_max_stream_data_frame, append_max_streams_frame,
  append_data_blocked_frame, append_stream_data_blocked_frame, append_streams_blocked_frame,
  length_max_data_frame, length_max_stream_data_frame, length_max_streams_frame,
  length_data_blocked_frame, length_stream_data_blocked_frame, length_streams_blocked_frame,
}
use quic_test.Wire.Control.{
  ConnectionCloseFrame, append_padding_frame, append_ping_frame, append_path_challenge_frame,
  append_path_response_frame, append_reset_stream_frame, append_stop_sending_frame,
  append_connection_close_frame, length_padding_frame, length_reset_stream_frame,
  length_stop_sending_frame, length_connection_close_frame,
}
use quic_test.Wire.Stream.{
  StreamFrame, has_offset, stream_first_byte, append_stream_frame, append_crypto_frame,
  length_stream_frame, length_crypto_frame,
}
use quic_test.Wire.Ack.{
  AckRange, AckFrame, gap_between, milliseconds, append_ranges, append_ack_frame, length_ranges,
  length_ack_frame,
}
use quic_test.Wire.Frame.{
  Frame, padding, ping, ack, reset_stream, stop_sending, crypto, stream, max_data, max_stream_data,
  max_streams, data_blocked, stream_data_blocked, streams_blocked, path_challenge, path_response,
  connection_close, append_frame, length_frame,
}

-- A field that is there under a condition.
unfoldable pub optional : Bool → Bytes → Bytes
optional true bytes = bytes
optional false bytes = []

append-optional :
    (present : Bool) (b : Bytes) (v : ℕ)
    → (if present then Varint.append b v else b) ≡ b ++ optional present (varint v)
unfolding optional
append-optional true b v = append-varint b v
append-optional false b v = sym (append-nil b)

abbrev pub image_close : ConnectionCloseFrame → Bytes
image_close f =
    (if f.is_application then 0x1d else 0x1c)
    ∷ (varint f.error_code
        ++ (optional (not f.is_application) (varint 0)
            ++ (varint (length f.reason_phrase) ++ f.reason_phrase)))

abbrev pub image_stream : StreamFrame → Bytes
image_stream f =
    stream_first_byte f
    ∷ (varint f.stream_id
        ++ (optional (has_offset f) (varint f.offset)
            ++ (optional f.data_len_present (varint (length f.payload)) ++ f.payload)))

abbrev pub image_ranges : AckRange → List AckRange → Bytes
image_ranges prev [] = []
image_ranges prev (r ∷ rs) =
    varint (gap_between prev r) ++ (varint (sub64 r.largest r.smallest) ++ image_ranges r rs)

abbrev pub image_ack : AckRange → List AckRange → ℕ → Bytes
image_ack r rs delay =
    0x02
    ∷ (varint r.largest
        ++ (varint (milliseconds delay)
            ++ (varint (length rs) ++ (varint (sub64 r.largest r.smallest) ++ image_ranges r rs))))

-- An ACK frame without a range has no image; Append refuses it.
abbrev pub image : Frame → Bytes
image (padding f) = replicate f.pad_length 0
image ping = 0x01 ∷ []
image (ack f) = elim f.ack_ranges [ [] ↦ [] | r ∷ rs ↦ image_ack r rs f.delay_time ]
image (reset_stream f) = 0x04 ∷ (varint f.stream_id ++ (varint f.error_code ++ varint f.final_size))
image (stop_sending f) = 0x05 ∷ (varint f.stream_id ++ varint f.error_code)
image (crypto f) = 0x06 ∷ (varint f.offset ++ (varint (length f.payload) ++ f.payload))
image (stream f) = image_stream f
image (max_data f) = 0x10 ∷ varint f.maximum_data
image (max_stream_data f) = 0x11 ∷ (varint f.stream_id ++ varint f.maximum_stream_data)
image (max_streams f) = by_type f.stream_type 0x12 0x13 ∷ varint f.max_streams
image (data_blocked f) = 0x14 ∷ varint f.max_data
image (stream_data_blocked f) = 0x15 ∷ (varint f.stream_id ++ varint f.maximum_stream_data)
image (streams_blocked f) = by_type f.stream_type 0x16 0x17 ∷ varint f.streams
image (path_challenge f) = 0x1a ∷ f.challenge
image (path_response f) = 0x1b ∷ f.response
image (connection_close f) = image_close f

ruleset appends = (append-varint, append_assoc)

append_close :
    (b : Bytes) (f : ConnectionCloseFrame) → append_connection_close_frame b f ≡ b ++ image_close f
unfolding append_connection_close_frame optional
append_close b f = elim (Bool-cases f.is_application) [
  | inl e ↦ simp (e, append-varint, append_assoc)
  | inr e ↦ simp (e, append-varint, append_assoc)
]

append-image_ranges :
    (b : Bytes) (prev : AckRange) (rs : List AckRange)
    → append_ranges b prev rs ≡ b ++ image_ranges prev rs
unfolding append_ranges
append-image_ranges b prev [] = sym (append-nil b)
append-image_ranges b prev (r ∷ rs) =
    append-image_ranges
      (Varint.append (Varint.append b (gap_between prev r)) (sub64 r.largest r.smallest)) r rs
    ∙ simp (append-varint, append_assoc)

append-image_stream : (b : Bytes) (f : StreamFrame) → append_stream_frame b f ≡ b ++ image_stream f
unfolding append_stream_frame
append-image_stream b f = simp append-optional (simp (append-varint, append_assoc))

append-image_ack :
    (b : Bytes) (rs : List AckRange) (delay : ℕ)
    → rs ≢ []
    → let f : AckFrame = record { ack_ranges = rs; delay_time = delay } in
      append_ack_frame b f ≡ ok (b ++ image (ack f))
unfolding append_ack_frame
append-image_ack b [] delay h = absurd (h refl)
append-image_ack b (r ∷ rs) delay h = simp (append-image_ranges, append-varint, append_assoc)

-- A frame that can be written: an ACK frame has a range, and the two PATH frames hold 8 bytes.
abbrev pub IsWritable : Frame → Type 0
IsWritable (ack f) = f.ack_ranges ≢ []
IsWritable (path_challenge f) = length f.challenge ≡ 8
IsWritable (path_response f) = length f.response ≡ 8
IsWritable _ = Unit {0}

-- Append puts the image of the frame behind the buffer.
pub append_frame-image :
    (b : Bytes) (f : Frame) → IsWritable f → append_frame b f ≡ ok (b ++ image f)
unfolding append_frame append_padding_frame append_ping_frame append_reset_stream_frame
    append_stop_sending_frame append_crypto_frame append_max_data_frame append_max_stream_data_frame
    append_max_streams_frame append_data_blocked_frame append_stream_data_blocked_frame
    append_streams_blocked_frame append_path_challenge_frame append_path_response_frame
append_frame-image b (padding f) h = refl
append_frame-image b ping h = refl
append_frame-image b (ack f) h = append-image_ack b f.ack_ranges f.delay_time h
append_frame-image b (reset_stream f) h = simp appends
append_frame-image b (stop_sending f) h = simp appends
append_frame-image b (crypto f) h = simp appends
append_frame-image b (stream f) h = ap ok (append-image_stream b f)
append_frame-image b (max_data f) h = simp appends
append_frame-image b (max_stream_data f) h = simp appends
append_frame-image b (max_streams f) h = simp appends
append_frame-image b (data_blocked f) h = simp appends
append_frame-image b (stream_data_blocked f) h = simp appends
append_frame-image b (streams_blocked f) h = simp appends
append_frame-image b (path_challenge f) h = simp appends
append_frame-image b (path_response f) h = simp appends
append_frame-image b (connection_close f) h = ap ok (append_close b f)

length-optional :
    (present : Bool) (v : ℕ)
    → length (optional present (varint v)) ≡ (if present then Varint.len v else 0)
unfolding optional
length-optional true v = length-varint v
length-optional false v = refl

length-image_ranges :
    (prev : AckRange) (rs : List AckRange) → length (image_ranges prev rs) ≡ length_ranges prev rs
unfolding length_ranges
length-image_ranges prev [] = refl
length-image_ranges prev (r ∷ rs) =
    simp (length-append, length-varint, length-image_ranges r rs) (omega arith)

ruleset lengths = (length-append, length-varint, length-optional, length-image_ranges)

length-image_ack :
    (rs : List AckRange) (delay : ℕ)
    → rs ≢ []
    → let f : AckFrame = record { ack_ranges = rs; delay_time = delay } in
      length_ack_frame f ≡ ok (length (image (ack f)))
unfolding length_ack_frame
length-image_ack [] delay h = absurd (h refl)
length-image_ack (r ∷ rs) delay h = ap ok (simp lengths (omega arith))

length-image_close :
    (f : ConnectionCloseFrame) → length_connection_close_frame f ≡ length (image_close f)
unfolding length_connection_close_frame
length-image_close f = elim (Bool-cases f.is_application) [
  | inl e ↦ simp (e, lengths) (omega arith)
  | inr e ↦ simp (e, lengths) (omega arith)
]

-- Length is the length of the image.
pub length_frame-image : (f : Frame) → IsWritable f → length_frame f ≡ ok (length (image f))
unfolding length_frame length_padding_frame length_reset_stream_frame length_stop_sending_frame
    length_crypto_frame length_max_data_frame length_max_stream_data_frame length_max_streams_frame
    length_data_blocked_frame length_stream_data_blocked_frame length_streams_blocked_frame
    length_stream_frame
length_frame-image (padding f) h = ap ok (sym (length-replicate f.pad_length 0))
length_frame-image ping h = refl
length_frame-image (ack f) h = length-image_ack f.ack_ranges f.delay_time h
length_frame-image (reset_stream f) h = ap ok (simp lengths (omega arith))
length_frame-image (stop_sending f) h = ap ok (simp lengths (omega arith))
length_frame-image (crypto f) h = ap ok (simp lengths (omega arith))
length_frame-image (stream f) h = ap ok (simp lengths (omega arith))
length_frame-image (max_data f) h = ap ok (simp lengths (omega arith))
length_frame-image (max_stream_data f) h = ap ok (simp lengths (omega arith))
length_frame-image (max_streams f) h = ap ok (simp lengths (omega arith))
length_frame-image (data_blocked f) h = ap ok (simp lengths (omega arith))
length_frame-image (stream_data_blocked f) h = ap ok (simp lengths (omega arith))
length_frame-image (streams_blocked f) h = ap ok (simp lengths (omega arith))
length_frame-image (path_challenge f) h = ap ok (omega arith)
length_frame-image (path_response f) h = ap ok (omega arith)
length_frame-image (connection_close f) h = ap ok (length-image_close f)
