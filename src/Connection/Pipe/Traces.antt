-- ===== src/Connection/Pipe/Traces.antt =====
-- A Write of three bytes, the frame of which comes in twice, a Close and two rounds of Read.
use quic_test.Prelude.{
  ℕ, zero, suc, ◌+◌, ◌≤◌, ◌≡◌, refl, inl, inr, true, false, List, [], ◌∷◌, ◌++◌, arith, length,
  take, ok, map_ok,
}
use quic_test.Stream.{Stream, new_stream, update_max_data, close}
use quic_test.Congestion.NewReno.{NewReno}
use quic_test.Connection.Writing.{wrote, write_round, write}
use quic_test.Connection.Pipe.{Pipe, Reaches, begin, writes, widens, closes, arrives, reads}
use quic_test.Connection.Pipe.Delivery.{Reaches-delivers}
use quic_test.Connection.Traces.{test_world, fresh, first_bytes, after_one, sent_one, test_id}
use quic_test.Connection.State.{World, Connection}
use quic_test.Connection.Setup.{new_connection}
use quic_test.Congestion.NewReno.{new_new_reno}
use quic_test.Connection.Writing.AfterClose.{shut_end, write-close}

abbrev written_on : Stream
unfolding new_stream
written_on = record (new_stream 0) { write_offset = 3 }

wrote_three :
    write_round test_world 1000 fresh (new_stream 0) first_bytes ≡ ok (wrote after_one written_on 3)
unfolding write_round new_stream
wrote_three = rw sent_one refl

abbrev test_run : (p : Pipe NewReno) × Reaches test_world p
unfolding update_max_data written_on new_stream
test_run = (
  _,
  reads 8 (
      arrives 3 [] true (inl refl) (
        arrives 0 first_bytes false (inr (inl refl)) (
          closes (
            reads 2 (
              arrives 0 first_bytes false (inl refl) (
                widens 2000000 (omega arith) (
                  writes 1000 first_bytes after_one written_on 3 wrote_three (begin fresh 0)))))))),
)

Reaches-delivers_example :
    (test_run.0.out ≡ take (length test_run.0.out) test_run.0.accepted)
    × (test_run.0.out ++ test_run.0.reader.read_buf
        ≡ take test_run.0.reader.reassembly_offset test_run.0.accepted)
    × (test_run.0.writer.write_offset ≡ length test_run.0.accepted)
    × (length test_run.0.accepted ≤ test_run.0.writer.max_data)
Reaches-delivers_example = Reaches-delivers test_world test_run.0 test_run.1

-- A controller that admits every packet.
abbrev open_world : World NewReno
open_world = record test_world {
  cc = record test_world.cc { can_send = λ s n now. (s, true); flight-can_send = λ s n now. refl };
}

abbrev open_conn : Connection NewReno
unfolding new_connection new_new_reno
open_conn = new_connection open_world new_new_reno test_id

-- The chunks come in as they were sent.
abbrev in_turn : ℕ → List ℕ
in_turn zero = []
in_turn (suc k) = k ∷ in_turn k

write-close_example :
    write test_world (λ k. 1000 + k) 4 fresh (close (new_stream 0)).0 first_bytes
    ≡ map_ok shut_end (write test_world (λ k. 1000 + k) 4 fresh (new_stream 0) first_bytes)
write-close_example = write-close test_world (λ k. 1000 + k) 4 fresh (new_stream 0) first_bytes
