-- ===== src/Stream/Reassembly.antt =====
-- Which data a stream is still waiting for, and its flow control window.
use quic_test.Prelude.{
  ℕ, zero, suc, ◌^◌, ◌≤◌, ◌<◌, ◌≡◌, refl, inl, inr, true, false, none, [], ◌∷◌, arith, Option-cases,
  length,
}
use quic_test.Stream.Invariant.{next_chunk, flush_chunks-stop, flush_chunks-next}
use quic_test.Stream.{Stream, flush_chunks, try_flush_pending, handle_stream_data}
use quic_test.Stream.Pending.{Chunks, find, length-delete}

find-no_chunks : (key : ℕ) (cs : Chunks) → length cs ≤ 0 → find key cs ≡ none
unfolding find
find-no_chunks key [] h = refl
find-no_chunks key (c ∷ cs) h = absurd (omega arith)

flush_chunks-Flushed :
    (n : ℕ) (s : Stream)
    → length s.pending ≤ n
    → let t = flush_chunks n s in find t.reassembly_offset t.pending ≡ none
unfolding flush_chunks
flush_chunks-Flushed zero s h = find-no_chunks s.reassembly_offset s.pending h
flush_chunks-Flushed (suc n) s h = elim (Option-cases (find s.reassembly_offset s.pending)) [
  | inl e ↦ rw (flush_chunks-stop (suc n) s e) e
  | inr (chunk, e) ↦
      let shorter = length-delete s.reassembly_offset s.pending chunk e in
      rw (flush_chunks-next n s chunk e) (flush_chunks-Flushed n (next_chunk s chunk) (omega arith))
]

-- The loop of tryFlushPending has run to its end after as many rounds as chunks wait: none of those
-- left starts at the next offset expected.
pub try_flush_pending-Flushed :
    (s : Stream) → let t = try_flush_pending s in find t.reassembly_offset t.pending ≡ none
unfolding try_flush_pending
try_flush_pending-Flushed s =
    let done = flush_chunks-Flushed (length s.pending) s (omega arith) in ground (arith, done)

-- Close sends its FIN in a frame without data. When that frame comes in after all the data, and
-- nothing waits at its offset, the stream does not change: the FIN is lost. (No earlier FIN waits or
-- was delivered, the stream is not reset, and the offset is below 2 ^ 63.)
pub handle_stream_data-fin_lost :
    (s : Stream)
    → s.reassembly_offset < 2 ^ 63
    → find s.reassembly_offset s.pending ≡ none
    → s.pending_fn ≡ false
    → s.fin_read ≡ false
    → s.reset ≡ false
    → handle_stream_data s s.reassembly_offset [] true ≡ (s, none)
unfolding handle_stream_data try_flush_pending
handle_stream_data-fin_lost s short nothing fn unread live =
    ground (arith, flush_chunks-stop (length s.pending) s nothing)
