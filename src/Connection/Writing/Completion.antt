-- ===== src/Connection/Writing/Completion.antt =====
-- stream.go: the whole loop of Write.
use quic_test.Prelude.{
  ℕ, zero, suc, ◌+◌, ◌-◌, ◌^◌, ◌≤◌, ◌<◌, ◌≡◌, refl, ap, ◌∙◌, true, false, [], ◌∷◌, arith, length,
  drop, length-drop, Bytes, Result, ok,
}
use quic_test.Stream.{Stream}
use quic_test.Connection.State.{World, Connection}
use quic_test.Connection.Loss.Settled.{Settled}
use quic_test.Connection.Writing.{
  WriteStart, writes, write_round, WriteEnd, returned, go_on, write_rounds, write_from, write_start,
  write,
}
use quic_test.Connection.Writing.Progress.{Goes, write_round-Goes}

-- The connection is settled and open, with numbers and room in its history for a packet per byte; the
-- stream is open, and the peer's window has room for the bytes.
pub record CanWrite {S : Type 0} (w : World S) (c : Connection S) (s : Stream) (left : Bytes)
    : Type 0 where
  pub settled : Settled w c
  pub numbers : c.send_pn + length left < 2 ^ 64 - 1
  pub unclosed : c.closed ≡ false
  pub room : length c.history + length left ≤ 4000
  pub open_stream : s.closed ≡ false
  pub window : s.write_offset + length left ≤ s.max_data
  pub limit : s.max_data < 2 ^ 62

starts : (s : Stream) → s.write_err ≡ false → s.closed ≡ false → write_start s ≡ writes
unfolding write_start
starts s no_error open_stream = rw (no_error, open_stream) refl

module _ {S : Type 0} (w : World S) (clock : ℕ → ℕ)
    (admits : (t : S) (n now : ℕ) → (w.cc.can_send t n now).1 ≡ true) where
  -- The loop returns with all the bytes.
  abbrev Returns : Connection S → Stream → Bytes → ℕ → Result (WriteEnd S) → Type 0
  Returns c s left n r =
      (d : Connection S) × (t : Stream) × (r ≡ ok (returned d t (n + length left)))
      × (t ≡ record s { write_offset = s.write_offset + length left })
      × CanWrite w d t []

  Goes-CanWrite :
      (now : ℕ) (c d : Connection S) (s t : Stream) (left : Bytes) (n : ℕ)
      → CanWrite w c s left
      → Goes w now c s left d t n
      → CanWrite w d t (drop n left)
  Goes-CanWrite now c d s t left n h g =
      let size = length-drop n left in
      let offset : t.write_offset ≡ s.write_offset + n =
        ap (λ (x : Stream). x.write_offset) g.stream in
      let limit : t.max_data ≡ s.max_data = ap (λ (x : Stream). x.max_data) g.stream in
      record {
        settled = g.settled;
        numbers = omega (arith, h.numbers, g.more.number, g.some_sent, g.few, size);
        unclosed = g.more.closed ∙ h.unclosed;
        room = omega (arith, h.room, g.more.history, g.some_sent, g.few, size);
        open_stream = ap (λ (x : Stream). x.closed) g.stream ∙ h.open_stream;
        window = omega (arith, h.window, g.few, size, offset, limit);
        limit = omega (arith, limit, h.limit);
      }

  write_rounds-Returns :
      (k : ℕ) (c : Connection S) (s : Stream) (left : Bytes) (n : ℕ)
      → CanWrite w c s left
      → length left < k
      → Returns c s left n (write_rounds w clock k c s left n)
  unfolding write_rounds go_on write_round
  write_rounds-Returns zero c s left n h enough = absurd (omega (arith, enough))
  write_rounds-Returns (suc k) c s [] n h enough =
      let none_more : n ≡ n + 0 = omega arith in
      let same : s.write_offset ≡ s.write_offset + 0 = omega arith in
      (
        c,
        s,
        ap (λ (x : ℕ). ok (returned c s x)) none_more,
        ap (λ (o : ℕ). record s { write_offset = o }) same,
        h,
      )
  write_rounds-Returns (suc k) c s (x ∷ xs) n h enough =
      let left = x ∷ xs in
      let (d, t, m, g) =
        write_round-Goes w (clock k) c s left h.settled (omega (arith, h.numbers)) h.unclosed
          (omega (arith, h.room)) (λ t n. admits t n (clock k)) h.open_stream (omega arith) h.window
          h.limit in
      let size = length-drop m left in
      let (d1, t1, e, stream, ready) =
        write_rounds-Returns k d t (drop m left) (n + m)
          (Goes-CanWrite (clock k) c d s t left m h g) (omega (arith, g.some_sent, size, enough)) in
      let count : n + m + length (drop m left) ≡ n + length left = omega (arith, g.few, size) in
      (
        d1,
        t1,
        rw g.ran (e ∙ ap (λ (x : ℕ). ok (returned d1 t1 x)) count),
        stream
            ∙ ap (λ (y : Stream). record y { write_offset = y.write_offset + length (drop m left) })
                g.stream
            ∙ ap (λ (o : ℕ). record s { write_offset = o }) (omega (arith, g.few, size)),
        ready,
      )

  -- Write on an open stream returns with all the bytes written, with more fuel than bytes, and the
  -- stream is as before but for its offset, which is further by the number of bytes; the connection is
  -- settled and open. (The controller admits every packet, the stream has not failed, the connection
  -- is settled and open with a number and room in its history for each byte, and the peer's window,
  -- below 2 ^ 62, has room for the bytes.)
  pub write_lem :
      (fuel : ℕ) (c : Connection S) (s : Stream) (b : Bytes)
      → CanWrite w c s b
      → s.write_err ≡ false
      → length b < fuel
      → (d : Connection S) × (t : Stream) × (write w clock fuel c s b
          ≡ ok (returned d t (length b)))
        × (t ≡ record s { write_offset = s.write_offset + length b })
        × CanWrite w d t []
  unfolding write write_start
  write_lem fuel c s b h no_error enough =
      let (d, t, e, same, ready) = write_rounds-Returns fuel c s b 0 h enough in
      let begins = starts s no_error h.open_stream in
      (
        d,
        t,
        ap (λ (x : WriteStart). write_from w clock x fuel c s b) begins
            ∙ e
            ∙ ap (λ (n : ℕ). ok (returned d t n)) (omega arith),
        same,
        ready,
      )
