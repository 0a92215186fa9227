-- ===== src/Wire/Writable.antt =====
-- The frames that Append writes without an error.
use quic_test.Prelude.{◌≡◌, refl, List, [], ◌∷◌, ◌++◌, length, Bytes, sub64, ok}
use quic_test.Varint
use quic_test.Wire.Ack.{AckRange, AckFrame, append_ack_frame, append_ranges, milliseconds}
use quic_test.Wire.Frame.{Frame, append_frame}

-- Append returns an error for an ACK frame without ranges only.
unfoldable pub Appends : Frame → Type 0
Appends (Frame.ack f) = (r : AckRange) × (rs : List AckRange) × (f.ack_ranges ≡ r ∷ rs)
Appends _ = Unit

append_ack_frame-ok :
    (b : Bytes) (f : AckFrame)
    → (r : AckRange) × (rs : List AckRange) × (f.ack_ranges ≡ r ∷ rs)
    → (t : Bytes) × (append_ack_frame b f ≡ ok t)
unfolding append_ack_frame
append_ack_frame-ok b f (r, rs, e) = (
  append_ranges
      (Varint.append
        (Varint.append
          (Varint.append (Varint.append (b ++ (0x02 ∷ [])) r.largest) (milliseconds f.delay_time))
          (length rs))
        (sub64 r.largest r.smallest))
      r rs,
  rw (e, append_ack_frame) refl,
)

pub append_frame-ok : (b : Bytes) (f : Frame) → Appends f → (t : Bytes) × (append_frame b f ≡ ok t)
unfolding append_frame Appends append_ack_frame
append_frame-ok b (Frame.ack f) h = append_ack_frame-ok b f h
append_frame-ok b (Frame.padding f) h = (_, refl)
append_frame-ok b Frame.ping h = (_, refl)
append_frame-ok b (Frame.reset_stream f) h = (_, refl)
append_frame-ok b (Frame.stop_sending f) h = (_, refl)
append_frame-ok b (Frame.crypto f) h = (_, refl)
append_frame-ok b (Frame.stream f) h = (_, refl)
append_frame-ok b (Frame.max_data f) h = (_, refl)
append_frame-ok b (Frame.max_stream_data f) h = (_, refl)
append_frame-ok b (Frame.max_streams f) h = (_, refl)
append_frame-ok b (Frame.data_blocked f) h = (_, refl)
append_frame-ok b (Frame.stream_data_blocked f) h = (_, refl)
append_frame-ok b (Frame.streams_blocked f) h = (_, refl)
append_frame-ok b (Frame.path_challenge f) h = (_, refl)
append_frame-ok b (Frame.path_response f) h = (_, refl)
append_frame-ok b (Frame.connection_close f) h = (_, refl)
