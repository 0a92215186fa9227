-- ===== src/Connection/Pipe/Delivery.antt =====
-- The whole pipe: Write, the network and Read.
use quic_test.Prelude.{
  ℕ, ◌≤◌, ◌≡◌, sym, ◌∙◌, [], ◌++◌, append-nil, append_assoc, length, take, Bytes,
}
use quic_test.Stream.Delivery.{Run, start, receive, read, Run-delivers}
use quic_test.Connection.State.{World}
use quic_test.Connection.Pipe.{
  Pipe, Reaches, begin, writes, works, widens, cancels, closes, arrives, reads,
}
use quic_test.Connection.Pipe.Slices.{byte_at, before_end}
use quic_test.Connection.Pipe.Window.{Reaches-InWindow}
use quic_test.Connection.Pipe.Pieces.{one_of_pieces, Reaches-AllPieces}

module _ {S : Type 0} (w : World S) where
  -- The reader runs on pieces of the data.
  Reaches-Run :
      (d : ℕ) (p : Pipe S) (more : Bytes)
      → Reaches w p
      → Run (byte_at d (p.accepted ++ more)) p.reader p.out
  Reaches-Run d _ more (begin c id) = start id
  Reaches-Run d _ more (writes {p} now left c s n e r) =
      rw (append_assoc p.accepted (take n left) more) (Reaches-Run d p (take n left ++ more) r)
  Reaches-Run d _ more (works {p} c r) = Reaches-Run d p more r
  Reaches-Run d _ more (widens {p} v small r) = Reaches-Run d p more r
  Reaches-Run d _ more (cancels {p} r) = Reaches-Run d p more r
  Reaches-Run d _ more (closes {p} r) = Reaches-Run d p more r
  Reaches-Run d _ more (arrives {p} o b fin m r) =
      receive o b fin
        (one_of_pieces (byte_at d (p.accepted ++ more)) (o, b, fin) p.frames m
          (Reaches-AllPieces w d p more r))
        (Reaches-Run d p more r)
  Reaches-Run d _ more (reads {p} size r) = read size (Reaches-Run d p more r)

  -- Both sides of a stream and the network between them are a pipe of bytes: whatever is written, sent
  -- again, lost, repeated or put in another order, what Read has returned is a beginning of what Write
  -- has taken, and so is that with what waits in the buffer. Write takes no more than the peer's limit
  -- allows, and its offset is the number of bytes taken. (The reader is not reset, and the limits of
  -- the peer are variable-length integers, below 2 ^ 62.)
  pub Reaches-delivers :
      (p : Pipe S)
      → Reaches w p
      → (p.out ≡ take (length p.out) p.accepted)
        × (p.out ++ p.reader.read_buf ≡ take p.reader.reassembly_offset p.accepted)
        × (p.writer.write_offset ≡ length p.accepted)
        × (length p.accepted ≤ p.writer.max_data)
  Reaches-delivers p r =
      let run : (d : ℕ) → Run (byte_at d p.accepted) p.reader p.out =
        λ d. rw (append-nil p.accepted) at (Reaches-Run d p [] r) in
      let (low, low_all) = Run-delivers (byte_at 0 p.accepted) p.reader p.out (run 0) in
      let (high, high_all) = Run-delivers (byte_at 1 p.accepted) p.reader p.out (run 1) in
      let h = Reaches-InWindow w p r in
      (
        low ∙ before_end p.accepted (length p.out) (sym low ∙ high),
        low_all ∙ before_end p.accepted p.reader.reassembly_offset (sym low_all ∙ high_all),
        h.offset,
        h.within,
      )
