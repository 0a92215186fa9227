-- ===== src/Stream/Tests.antt =====
-- Runs of quic/stream.go, and its theorems at concrete inputs.
use quic_test.Prelude.{ℕ, ◌*◌, ◌≡◌, refl, true, false, none, [], ◌∷◌, ◌++◌, arith}
use quic_test.Stream.Segments.{IsCut}
use quic_test.Stream.Slice.{slice}
use quic_test.Stream.Pending.{store}
use quic_test.Stream.Invariant.{IsPiece}
use quic_test.Stream.Delivery.{Run, start, receive, read, Run-delivers}
use quic_test.Stream.Reassembly.{handle_stream_data-fin_lost}
use quic_test.Stream.{
  Stream, new_stream, try_flush_pending, update_window, handle_stream_data, copy_out, read_round,
}

-- A peer that writes the bytes 0, 1, 2, and so on.
abbrev counting : ℕ → ℕ
counting i = i

abbrev early : Stream
early = (handle_stream_data (new_stream 4) 2 (2 ∷ 3 ∷ []) false).0

abbrev joined : Stream
joined = (handle_stream_data early 0 (0 ∷ 1 ∷ []) false).0

joined-read_buf : joined.read_buf ≡ 0 ∷ 1 ∷ 2 ∷ 3 ∷ []
unfolding handle_stream_data new_stream update_window try_flush_pending store
joined-read_buf = refl

Run-joined : Run counting (read_round joined 3).0 ([] ++ (0 ∷ 1 ∷ 2 ∷ []))
unfolding handle_stream_data new_stream update_window try_flush_pending store read_round copy_out
    IsPiece slice
Run-joined = read {s = joined} {out = []} 3 (
    receive 0 (0 ∷ 1 ∷ []) false ((refl, omega arith))
      (receive {s = new_stream 4} 2 (2 ∷ 3 ∷ []) false ((refl, omega arith)) (start 4)))

Run-delivers_example :
    (0 ∷ 1 ∷ 2 ∷ [] ≡ slice counting 0 3)
    × ((0 ∷ 1 ∷ 2 ∷ []) ++ (read_round joined 3).0.read_buf
        ≡ slice counting 0 (read_round joined 3).0.reassembly_offset)
Run-delivers_example = Run-delivers counting (read_round joined 3).0 (0 ∷ 1 ∷ 2 ∷ []) Run-joined

handle_stream_data-fin_lost_example :
    handle_stream_data joined joined.reassembly_offset [] true ≡ (joined, none)
unfolding handle_stream_data new_stream update_window try_flush_pending store
handle_stream_data-fin_lost_example =
    handle_stream_data-fin_lost joined (omega arith) refl refl refl refl

-- Six bytes in two segments, the second of which comes in first and again at the end.
abbrev two_segments : IsCut (λ i. i * 3) (λ i. 7 ∷ 8 ∷ 9 ∷ []) 2
two_segments = record {
  first = omega arith;
  next = λ i l. omega arith;
  filled = λ i l. omega arith;
  short = omega arith;
}

abbrev swapped : Stream
swapped =
    (handle_stream_data
      (handle_stream_data (handle_stream_data (new_stream 4) 3 (7 ∷ 8 ∷ 9 ∷ []) false).0 0
        (7 ∷ 8 ∷ 9 ∷ []) false).0
      3 (7 ∷ 8 ∷ 9 ∷ []) false).0
