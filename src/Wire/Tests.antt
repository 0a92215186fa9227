-- ===== src/Wire/Tests.antt =====
-- Runs of quic/wire, and its theorems at concrete inputs.
use quic_test.Prelude.{
  ℕ, ◌/◌, ◌^◌, bit_or, ◌≡◌, refl, true, Option, [], ◌∷◌, ◌++◌, arith, length, drop, Bytes, u8, ok,
}
use quic_test.Protocol.PacketNumber.{packet_number_length_for_header, decode_packet_number}
use quic_test.Varint.{len}
use quic_test.Wire.Stream.{StreamFrame, has_offset, max_data_len, maybe_split_off_frame}
use quic_test.Wire.Stream.Splitting.{IsSplit, maybe_split_off_frame-IsSplit}
use quic_test.Wire.Frame.{Frame, ack, parse_next, append_frame, length_frame}
use quic_test.Wire.RoundTrip.{parse_next-append_frame}
use quic_test.Wire.Progress.{parse_next-Advances}
use quic_test.Wire.Progress.Rules.{Advances}
use quic_test.Wire.Header.{parse_short_header, append_short_header}
use quic_test.Wire.Header.Short.{decode_packet_number-short_header}
use quic_test.Wire.LongHeader.{initial}
use quic_test.Wire.LongHeader.Writing.{ExtendedHeader, append_long_header, set_length}
use quic_test.Wire.LongHeader.Length.{fixed_part, set_length-append}

abbrev two_ranges : Frame
two_ranges = ack (record {
  ack_ranges = record { smallest = 8; largest = 9 } ∷ record { smallest = 2; largest = 5 } ∷ [];
  delay_time = 25000000;
})

abbrev ten_bytes : StreamFrame
ten_bytes = record {
  stream_id = 4;
  offset = 100;
  payload = 0 ∷ 1 ∷ 2 ∷ 3 ∷ 4 ∷ 5 ∷ 6 ∷ 7 ∷ 8 ∷ 9 ∷ [];
  fin = true;
  data_len_present = true;
}

parse_next-append_frame_example :
    (out : Bytes) × (append_frame (7 ∷ []) two_ranges ≡ ok ((7 ∷ []) ++ out))
    × (length_frame two_ranges ≡ ok (length out))
    × (parse_next (out ++ (1 ∷ [])) ≡ ok (two_ranges, length out))
parse_next-append_frame_example =
    parse_next-append_frame two_ranges (7 ∷ []) (1 ∷ [])
      ((omega arith, omega arith), (omega arith, omega arith, tt), omega arith, (omega arith, refl))
      tt

parse_next-Advances_example :
    Advances (0x10 ∷ 0x40 ∷ 0x19 ∷ []) 1 (parse_next (0x10 ∷ 0x40 ∷ 0x19 ∷ []))
parse_next-Advances_example =
    parse_next-Advances (0x10 ∷ 0x40 ∷ 0x19 ∷ []) (omega arith, (omega arith, (omega arith, tt)))

maybe_split_off_frame-IsSplit_example :
    (r : Option (StreamFrame × StreamFrame)) × (maybe_split_off_frame ten_bytes 12 ≡ ok r)
    × IsSplit ten_bytes 12 r
maybe_split_off_frame-IsSplit_example = maybe_split_off_frame-IsSplit ten_bytes 12

max_data_len-ten_bytes : max_data_len ten_bytes 12 ≡ 7
unfolding max_data_len len has_offset
max_data_len-ten_bytes = refl

decode_packet_number-short_header_example :
    let len = packet_number_length_for_header 70000 0 in
    (head : Bytes) × (truncated : ℕ) × (append_short_header [] (1 ∷ 2 ∷ 3 ∷ []) 70000 len ≡ ok head)
    × (parse_short_header (head ++ (9 ∷ [])) 3 ≡ ok (length head, truncated, len))
    × (decode_packet_number len 69000 truncated ≡ 70000)
    × (drop (length head) (head ++ (9 ∷ [])) ≡ 9 ∷ [])
decode_packet_number-short_header_example =
    decode_packet_number-short_header (1 ∷ 2 ∷ 3 ∷ []) (9 ∷ []) 69000 70000 (omega arith)
      (omega arith)

abbrev setup_header : ExtendedHeader
setup_header = record {
  packet_type = initial;
  version = 1;
  src_connection_id = 9 ∷ [];
  dest_connection_id = 7 ∷ [];
  token = [];
  packet_number_len = 4;
  packet_number = 0;
}

-- A PING in an Initial packet: 4 bytes of packet number and one of payload.
set_length-append_example :
    let pre = fixed_part 0xc3 1 (7 ∷ []) (9 ∷ []) in
    (bs : Bytes) × (length bs ≡ 4)
    × (append_long_header [] setup_header ≡ ok (pre ++ (0 ∷ 0x40 ∷ 0 ∷ bs)))
    × (set_length (pre ++ (0 ∷ 0x40 ∷ 0 ∷ (bs ++ (1 ∷ [])))) 5
        ≡ ok (pre ++ (bit_or (u8 (5 / 2 ^ 8)) 0x40 ∷ u8 5 ∷ 0 ∷ (bs ++ (1 ∷ [])))))
set_length-append_example =
    set_length-append 1 (7 ∷ []) (9 ∷ []) (1 ∷ []) 0 5 (omega arith) (omega arith)
