-- ===== src/Connection/Traces.antt =====
-- A connection with NewReno that sends two packets, gets one acknowledged and times out.
use quic_test.Prelude.{
  ℕ, ◌+◌, ◌*◌, ◌/◌, ◌^◌, ◌≤◌, ◌<◌, ◌≡◌, refl, ◌⊎◌, true, false, List, [], ◌∷◌, ◌++◌, arith, length,
  Bytes, Result, ok, err, panics,
}
use quic_test.Varint
use quic_test.Protocol.PacketNumber.{append_packet_number, packet_number_length_for_header}
use quic_test.Wire.Header.{append_short_header}
use quic_test.Wire.Frame.{Frame, append_frame}
use quic_test.Wire.Stream.{append_stream_frame, has_offset}
use quic_test.Congestion.NewReno.{NewReno, new_new_reno}
use quic_test.Congestion.Instances.{new_reno_controller}
use quic_test.Wire.Ack.{AckFrame}
use quic_test.Connection.State.{World, Connection, new_sent_packet}
use quic_test.Connection.Setup.{new_connection}
use quic_test.Connection.Sending.{send_stream_data, queue_frame}
use quic_test.Connection.Sending.Accounting.{WritesOne}
use quic_test.Connection.Sending.Streams.{send_stream_data-Settled}
use quic_test.Connection.Loss.{handle_ack_frame}
use quic_test.Connection.Loss.Settled.{Settled}
use quic_test.Connection.Closing.{close_with_error, check_pto}
use quic_test.Connection.Closing.Timeouts.{Silent, close_with_error-Silent, check_pto-Settled}
use quic_test.Connection.Receive.{handle_frame}
use quic_test.Connection.Transfer.{stream_frame, Arrives, handle_received_packet-send_stream_data}
use quic_test.Connection.Runs.{Reached, new, streamed, handled, Reached-Settled}

abbrev quotient : ℕ → ℕ → ℕ → ℕ
quotient bytes size cwnd = bytes * size / cwnd

abbrev pub test_world : World NewReno
unfolding new_reno_controller
test_world = record {
  cc = new_reno_controller quotient;
  write_ok = λ ds d. true;
  nine_eighths = λ d. d * 9 / 8;
}

abbrev pub test_id : Bytes
test_id = 1 ∷ 2 ∷ 3 ∷ 4 ∷ 5 ∷ 6 ∷ 7 ∷ 8 ∷ []

abbrev pub fresh : Connection NewReno
unfolding new_connection new_new_reno
fresh = new_connection test_world new_new_reno test_id

abbrev pub first_bytes : Bytes
first_bytes = 7 ∷ 8 ∷ 9 ∷ []

abbrev state_of : {A : Type 0} → A → Result A → A
state_of a (ok x) = x
state_of a (err e) = a
state_of a panics = a

abbrev pub after_one : Connection NewReno
unfolding send_stream_data
after_one = (state_of (fresh, 0) (send_stream_data test_world 1000 fresh 0 0 first_bytes false)).0

abbrev after_two : Connection NewReno
unfolding send_stream_data
after_two =
    (state_of (fresh, 0) (send_stream_data test_world 2000 after_one 0 3 first_bytes false)).0

abbrev ack_zero : AckFrame
ack_zero = record { ack_ranges = record { smallest = 0; largest = 0 } ∷ []; delay_time = 0 }

abbrev after_ack : Connection NewReno
unfolding handle_ack_frame
after_ack = state_of fresh (handle_ack_frame test_world 3000 after_two ack_zero)

pub sent_one : send_stream_data test_world 1000 fresh 0 0 first_bytes false ≡ ok (after_one, 3)
unfolding send_stream_data fresh test_world Varint.len append_short_header append_packet_number
    packet_number_length_for_header append_frame
sent_one = refl

sent_two : send_stream_data test_world 2000 after_one 0 3 first_bytes false ≡ ok (after_two, 3)
unfolding send_stream_data fresh test_world Varint.len Varint.append append_short_header
    append_packet_number packet_number_length_for_header append_frame append_stream_frame has_offset
sent_two = refl

acked_one : handle_ack_frame test_world 3000 after_two ack_zero ≡ ok after_ack
unfolding handle_ack_frame send_stream_data fresh test_world Varint.len Varint.append
    append_short_header append_packet_number packet_number_length_for_header append_frame
    append_stream_frame has_offset new_sent_packet
acked_one = refl

pub always : (ds : List Bytes) (d : Bytes) → test_world.write_ok ds d ≡ true
unfolding test_world
always ds d = refl

fresh-Reached : Reached test_world fresh
unfolding fresh test_world
fresh-Reached = new new_new_reno test_id refl (omega arith)

no_number : fresh.send_pn + 1 < 2 ^ 64
unfolding fresh
no_number = omega arith

one_number : after_one.send_pn + 1 < 2 ^ 64
unfolding send_stream_data fresh test_world Varint.len Varint.append append_short_header
    append_packet_number packet_number_length_for_header append_frame append_stream_frame has_offset
one_number = omega arith

two_numbers : after_two.send_pn + length after_two.history + 2 < 2 ^ 64
unfolding send_stream_data fresh test_world Varint.len Varint.append append_short_header
    append_packet_number packet_number_length_for_header append_frame append_stream_frame has_offset
    new_sent_packet
two_numbers = omega arith

after_two-Reached : Reached test_world after_two
after_two-Reached =
    streamed 2000 0 3 first_bytes false 3 one_number sent_two
      (streamed 1000 0 0 first_bytes false 3 no_number sent_one fresh-Reached)

after_ack-Reached : Reached test_world after_ack
unfolding handle_frame handle_ack_frame after_ack
after_ack-Reached =
    handled 3000 (Frame.ack ack_zero) (record { smallest = 0; largest = 0 }, [], refl) two_numbers
      acked_one after_two-Reached

after_two-Settled : Settled test_world after_two
after_two-Settled = Reached-Settled test_world always after_two after_two-Reached

two_more : after_two.send_pn + 1 < 2 ^ 64
unfolding send_stream_data fresh test_world Varint.len Varint.append append_short_header
    append_packet_number packet_number_length_for_header append_frame append_stream_frame has_offset
    new_sent_packet
two_more = omega arith

send_stream_data-Settled_example :
    (d : Connection NewReno) × (n : ℕ) × (send_stream_data test_world 3000 after_two 4 9 first_bytes
        true
      ≡ ok (d, n))
    × Settled test_world d
    × WritesOne after_two d
    × (n ≤ length first_bytes)
send_stream_data-Settled_example =
    send_stream_data-Settled test_world 3000 after_two 4 9 first_bytes true after_two-Settled
      two_more

-- A frame waits.
abbrev with_limit : Connection NewReno
with_limit = queue_frame after_two (Frame.max_data (record { maximum_data = 1048576 }))

one_left : after_ack.send_pn + length after_ack.history < 2 ^ 64
unfolding handle_ack_frame send_stream_data fresh test_world Varint.len Varint.append
    append_short_header append_packet_number packet_number_length_for_header append_frame
    append_stream_frame has_offset new_sent_packet
one_left = omega arith

after_ack-Settled : Settled test_world after_ack
after_ack-Settled = Reached-Settled test_world always after_ack after_ack-Reached

check_pto-Settled_example :
    (d : Connection NewReno) × (check_pto test_world 5000000000 after_ack ≡ ok d)
    × Settled test_world d
check_pto-Settled_example =
    check_pto-Settled test_world 5000000000 always after_ack after_ack-Settled one_left

close_with_error-Silent_example :
    Silent test_world 4000 after_two 7 first_bytes
      (close_with_error test_world 4000 after_two 7 first_bytes)
close_with_error-Silent_example = close_with_error-Silent test_world 4000 after_two 7 first_bytes

handle_received_packet-send_stream_data_example :
    (d : Connection NewReno) × (n : ℕ) × (send_stream_data test_world 1000 fresh 0 0 first_bytes
        false
      ≡ ok (d, n))
    × (((n ≡ 0) × (d.written ≡ fresh.written))
        ⊎ ((b : Bytes) × (d.written ≡ fresh.written ++ (b ∷ []))
            × Arrives test_world 2000 fresh fresh.send_pn b
                (stream_frame 0 0 first_bytes false)
                n
                fresh.pending_frames))
unfolding fresh
handle_received_packet-send_stream_data_example =
    handle_received_packet-send_stream_data test_world 1000 test_world 2000 fresh fresh 0 0
      first_bytes false tt (omega arith) (omega arith) (omega arith) refl (omega arith)
      (omega arith)
