-- ===== src/Listener/Tests.antt =====
-- A client opens a connection, and then moves to another address.
use quic_test.Prelude.{
  ℕ, ◌*◌, ◌/◌, ◌≡◌, refl, true, none, List, [], ◌∷◌, Bytes, Result, ok, err, panics,
}
use quic_test.Protocol.PacketNumber.{append_packet_number, packet_number_length_for_header}
use quic_test.Wire.Header.{is_long_header_packet, parse_connection_id, append_short_header}
use quic_test.Connection.Sending.{send_frame}
use quic_test.Connection.State.{World}
use quic_test.Congestion.NewReno.{NewReno, new_new_reno}
use quic_test.Congestion.Instances.{new_reno_controller}
use quic_test.Connection.Setup.{new_connection}
use quic_test.Listener.{Listener, dispatch_packet}
use quic_test.Listener.Addresses.{AddressesMatch, Returns, dispatch_packet-AddressesMatch}

abbrev test_world : World NewReno
unfolding new_reno_controller
test_world = record {
  cc = new_reno_controller (λ bytes size cwnd. bytes * size / cwnd);
  write_ok = λ ds d. true;
  nine_eighths = λ d. d * 9 / 8;
}

abbrev test_id : Bytes
test_id = 1 ∷ 2 ∷ 3 ∷ 4 ∷ 5 ∷ 6 ∷ 7 ∷ 8 ∷ []

-- One connection, with the address 70.
abbrev one_client : Listener NewReno
unfolding new_connection new_new_reno
one_client = record {
  endpoints =
      record {
        conn = new_connection test_world new_new_reno test_id;
        remote_addr = 70;
        packets = [];
      }
      ∷ [];
  conn_map = (70, 0) ∷ [];
  conn_id_map = (test_id, 0) ∷ [];
  accepted = 0 ∷ [];
}

-- A short header with the identifier, from the address 71.
abbrev short_packet : Bytes
short_packet = 64 ∷ 1 ∷ 2 ∷ 3 ∷ 4 ∷ 5 ∷ 6 ∷ 7 ∷ 8 ∷ 0 ∷ 0 ∷ 0 ∷ 0 ∷ []

abbrev map_of : Result (Listener NewReno) → List (ℕ × ℕ)
map_of (ok l) = l.conn_map
map_of (err e) = []
map_of panics = []

moves :
    map_of (dispatch_packet test_world 1000 one_client short_packet 71 none new_new_reno)
    ≡ (71, 0) ∷ []
unfolding dispatch_packet one_client test_world new_new_reno is_long_header_packet
    parse_connection_id send_frame append_short_header append_packet_number
    packet_number_length_for_header
moves = refl

dispatch_packet-AddressesMatch_example :
    Returns AddressesMatch
      (dispatch_packet test_world 1000 one_client short_packet 71 none new_new_reno)
unfolding one_client
dispatch_packet-AddressesMatch_example =
    dispatch_packet-AddressesMatch test_world 1000 one_client short_packet 71 none new_new_reno
      (refl, tt)
