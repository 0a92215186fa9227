-- ===== src/Connection/EventLoop/Tests.antt =====
-- A packet with a PING and a MAX_DATA frame that waits for a new connection.
use quic_test.Prelude.{[], ◌∷◌, Bytes}
use quic_test.Congestion.NewReno.{NewReno, new_new_reno}
use quic_test.Wire.Frame.{Frame}
use quic_test.Varint
use quic_test.Connection.State.{Connection}
use quic_test.Connection.Setup.{new_connection}
use quic_test.Connection.Loss.Settled.{Settled}
use quic_test.Connection.EventLoop.{Loop}
use quic_test.Connection.Traces.{test_world, test_id}

abbrev idle : Connection NewReno
unfolding new_connection new_new_reno
idle = new_connection test_world new_new_reno test_id

abbrev two_frames : Bytes
two_frames = 0x40 ∷ 1 ∷ 2 ∷ 3 ∷ 4 ∷ 5 ∷ 6 ∷ 7 ∷ 8 ∷ 5 ∷ 0x01 ∷ 0x10 ∷ 0x04 ∷ []

abbrev one_waits : Loop NewReno
one_waits = record { conn = idle; packets = two_frames ∷ [] }
