-- ===== src/Connection/Pipe/Writes.antt =====
-- A whole Write in a run of the pipe.
use quic_test.Prelude.{
  ℕ, zero, suc, ◌+◌, ◌<◌, ◌≡◌, refl, sym, ap, ap₂, ◌∙◌, subst, inl, inr, Bool, true, false, List,
  [], ◌∷◌, ◌++◌, append-nil, append_assoc, arith, ltb, if◌then◌else◌, Bool-cases, length, take,
  drop, length-append, take-append-drop, length-take, Bytes, Result, ok, err, panics, Result-cases,
}
use quic_test.Stream.{Stream}
use quic_test.Connection.State.{World, Connection}
use quic_test.Connection.Writing.{
  WriteStart, WriteRound, all_written, wrote, waits_for_window, fails, closed_pipe, write_round,
  WriteEnd, returned, failed, pipe_closed, waiting, unfinished, go_on, write_rounds, write,
  writes as writes_on, has_failed, is_closed, write_from, write_start,
}
use quic_test.Connection.Writing.Rounds.{Wrote, write_round-Wrote, write_round-all_written}
use quic_test.Connection.Writing.Completion.{CanWrite, write_lem}
use quic_test.Connection.Pipe.{Segment, Pipe, Reaches, writes}
use quic_test.Connection.Pipe.Window.{Reaches-InWindow}
use quic_test.Connection.Pipe.Chunks.{concat, AllFilled}

if_true : {A : Type 0} (x y : A) {b : Bool} → b ≡ true → (if b then x else y) ≡ x
if_true x y e = rw e refl

if_false : {A : Type 0} (x y : A) {b : Bool} → b ≡ false → (if b then x else y) ≡ y
if_false x y e = rw e refl

-- The frames with these chunks, from this offset on, behind earlier ones. The last one stands first.
abbrev pub laid : ℕ → List Bytes → List Segment → List Segment
laid o [] frames = frames
laid o (c ∷ cs) frames = laid (o + length c) cs ((o, c, false) ∷ frames)

module _ {S : Type 0} (w : World S) (clock : ℕ → ℕ) where
  -- The run goes on to a pipe with this connection and this writer, which has taken the bytes and sent
  -- them in chunks, none of them empty. The reader is as before.
  abbrev Took : Pipe S → Bytes → Connection S → Stream → Type 0
  Took p b d t =
      (q : Pipe S) × Reaches w q
      × (q.conn ≡ d)
      × (q.writer ≡ t)
      × (q.accepted ≡ p.accepted ++ b)
      × (q.reader ≡ p.reader)
      × (q.out ≡ p.out)
      × (cs : List Bytes) × AllFilled cs
      × (concat cs ≡ b)
      × (q.frames ≡ laid (length p.accepted) cs p.frames)

  abbrev Takes : Pipe S → Bytes → Result (WriteEnd S) → Type 0
  Takes p b (ok (returned d t n)) = Took p b d t
  Takes p b (ok (failed d t n)) = Unit
  Takes p b (ok (pipe_closed d t n)) = Unit
  Takes p b (ok (waiting d t n)) = Unit
  Takes p b (ok (unfinished d t n)) = Unit
  Takes p b (err e) = Unit
  Takes p b panics = Unit

  -- The pipe after a round that has sent.
  abbrev after_round : Pipe S → Bytes → Connection S → Stream → ℕ → Pipe S
  after_round p left c s n = record p {
    conn = c;
    writer = s;
    accepted = p.accepted ++ take n left;
    frames = if ltb 0 n then (p.writer.write_offset, take n left, false) ∷ p.frames else p.frames;
  }

  after_round-Took :
      (p : Pipe S) (left : Bytes) (c : Connection S) (s : Stream) (n : ℕ) (d : Connection S)
      (t : Stream)
      → p.writer.write_offset ≡ length p.accepted
      → Wrote p.writer left s n
      → Took (after_round p left c s n) (drop n left) d t
      → Took p left d t
  after_round-Took p left c s n d t offset k
        (q, h, conn, writer, all, reader, out, cs, filled, whole, frames) =
      let b = take n left in
      let size = length-take n left in
      let more = length-append p.accepted b in
      let joined : q.accepted ≡ p.accepted ++ left =
        all
        ∙ append_assoc p.accepted b (drop n left)
        ∙ ap (λ (x : Bytes). p.accepted ++ x) (take-append-drop n left) in
      elim (Bool-cases (ltb 0 n)) [
        | inl u ↦ (
          q,
          h,
          conn,
          writer,
          joined,
          reader,
          out,
          b ∷ cs,
          (ground (arith, u, size, k.some_left), filled),
          ap (λ (x : Bytes). b ++ x) whole ∙ take-append-drop n left,
          frames
              ∙ ap₂ (λ (o : ℕ) (fs : List Segment). laid o cs fs) more
                  (if_true _ _ u ∙ ap (λ (o : ℕ). (o, b, false) ∷ p.frames) offset),
        )
        | inr u ↦
            let none_sent : n ≡ 0 = ground (arith, u) in
            (
              q,
              h,
              conn,
              writer,
              joined,
              reader,
              out,
              cs,
              filled,
              whole ∙ ap (λ (m : ℕ). drop m left) none_sent,
              frames
                  ∙ ap₂ (λ (o : ℕ) (fs : List Segment). laid o cs fs)
                      (omega (arith, more, size, none_sent)) (if_false _ _ u),
            )
      ]

  after_round-Takes :
      (p : Pipe S) (left : Bytes) (c : Connection S) (s : Stream) (n : ℕ) (r : Result (WriteEnd S))
      → p.writer.write_offset ≡ length p.accepted
      → Wrote p.writer left s n
      → Takes (after_round p left c s n) (drop n left) r
      → Takes p left r
  after_round-Takes p left c s n (ok (returned d t m)) offset k h =
      after_round-Took p left c s n d t offset k h
  after_round-Takes p left c s n (ok (failed d t m)) offset k h = tt
  after_round-Takes p left c s n (ok (pipe_closed d t m)) offset k h = tt
  after_round-Takes p left c s n (ok (waiting d t m)) offset k h = tt
  after_round-Takes p left c s n (ok (unfinished d t m)) offset k h = tt
  after_round-Takes p left c s n (err e) offset k h = tt
  after_round-Takes p left c s n panics offset k h = tt

  go_on-Takes :
      (k : ℕ)
      → ((p : Pipe S) (left : Bytes) (n : ℕ)
          → Reaches w p
          → Takes p left (write_rounds w clock k p.conn p.writer left n))
      → (p : Pipe S) (left : Bytes) (n : ℕ) (r : WriteRound S) → Reaches w p
      → write_round w (clock k) p.conn p.writer left ≡ ok r
      → Takes p left (go_on (write_rounds w clock k) p.conn p.writer left n r)
  unfolding go_on
  go_on-Takes k rest p left n all_written h e =
      let no_more = write_round-all_written w (clock k) p.conn p.writer left e in
      (
        p,
        h,
        refl,
        refl,
        sym (append-nil p.accepted) ∙ ap (λ (x : Bytes). p.accepted ++ x) (sym no_more),
        refl,
        refl,
        [],
        tt,
        sym no_more,
        refl,
      )
  go_on-Takes k rest p left n (wrote c s m) h e =
      after_round-Takes p left c s m _ (Reaches-InWindow w p h).offset
        (write_round-Wrote w (clock k) p.conn c p.writer s left m e)
        (rest (after_round p left c s m) (drop m left) (n + m) (writes (clock k) left c s m e h))
  go_on-Takes k rest p left n waits_for_window h e = tt
  go_on-Takes k rest p left n fails h e = tt
  go_on-Takes k rest p left n closed_pipe h e = tt

  write_rounds-Takes :
      (k : ℕ) (p : Pipe S) (left : Bytes) (n : ℕ)
      → Reaches w p
      → Takes p left (write_rounds w clock k p.conn p.writer left n)
  unfolding write_rounds
  write_rounds-Takes zero p left n h = tt
  write_rounds-Takes (suc k) p left n h =
      elim (Result-cases (write_round w (clock k) p.conn p.writer left)) [
        | inl (r, e) ↦ rw e (go_on-Takes k (write_rounds-Takes k) p left n r h e)
        | inr (inl (x, e)) ↦ rw e tt
        | inr (inr e) ↦ rw e tt
      ]

  write_from-Takes :
      (start : WriteStart) (fuel : ℕ) (p : Pipe S) (b : Bytes)
      → Reaches w p
      → Takes p b (write_from w clock start fuel p.conn p.writer b)
  write_from-Takes writes_on fuel p b h = write_rounds-Takes fuel p b 0 h
  write_from-Takes has_failed fuel p b h = tt
  write_from-Takes is_closed fuel p b h = tt

  -- In every run of the pipe, Write on an open stream returns with all the bytes written, with more
  -- fuel than bytes, and the run goes on to a pipe that has taken these bytes behind the earlier ones,
  -- with the reader as before. They have gone out in frames that follow one another from the old offset
  -- on, none of them empty. The connection is settled and open afterwards. (The controller admits every
  -- packet, the stream has not failed, the connection is settled and open with a number and room in its
  -- history for each byte, and the peer's window, below 2 ^ 62, has room for the bytes.)
  pub write-Reaches :
      ((t : S) (n now : ℕ) → (w.cc.can_send t n now).1 ≡ true)
      → (fuel : ℕ) (p : Pipe S) (b : Bytes) → Reaches w p
      → CanWrite w p.conn p.writer b
      → p.writer.write_err ≡ false
      → length b < fuel
      → (q : Pipe S) × Reaches w q
        × (write w clock fuel p.conn p.writer b ≡ ok (returned q.conn q.writer (length b)))
        × (q.accepted ≡ p.accepted ++ b)
        × (q.reader ≡ p.reader)
        × (q.out ≡ p.out)
        × CanWrite w q.conn q.writer []
        × (cs : List Bytes) × AllFilled cs
        × (concat cs ≡ b)
        × (q.frames ≡ laid (length p.accepted) cs p.frames)
  unfolding write
  write-Reaches admits fuel p b h can no_error enough =
      let (d, t, e, same, ready) =
        write_lem w clock admits fuel p.conn p.writer b can no_error enough in
      let (q, run, conn, writer, all, reader, out, cs, filled, whole, frames) =
        subst (λ (r : Result (WriteEnd S)). Takes p b r) e
          (write_from-Takes (write_start p.writer) fuel p b h) in
      (
        q,
        run,
        e
            ∙ ap₂ (λ (x : Connection S) (y : Stream). ok (returned x y (length b))) (sym conn)
                (sym writer),
        all,
        reader,
        out,
        subst (λ (x : Connection S). CanWrite w x q.writer []) (sym conn)
            (subst (λ (y : Stream). CanWrite w d y []) (sym writer) ready),
        cs,
        filled,
        whole,
        frames,
      )
