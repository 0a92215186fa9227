-- ===== src/Connection/Writing/AfterClose.antt =====
-- Write on a stream that Close has closed for writing.
use quic_test.Prelude.{
  ℕ, zero, suc, ◌+◌, min, ◌≡◌, refl, ap, ◌∙◌, inl, inr, Bool, true, false, ◌&&◌, not, Option, ltb,
  ◌==◌, Bool-cases, if-cases, length, take, drop, Bytes, add64, lt_int64, map_ok, Result-cases,
}
use quic_test.Stream.{Stream, close}
use quic_test.Connection.State.{World, Connection}
use quic_test.Connection.Sending.{send_stream_data}
use quic_test.Connection.Writing.{
  WriteStart, writes, has_failed, is_closed, WriteRound, all_written, wrote, waits_for_window,
  fails, closed_pipe, chunk_size, write_round, WriteEnd, returned, failed, pipe_closed, waiting,
  unfinished, go_on, write_rounds, write_from, write_start, write,
}

-- The FIN has been sent.
abbrev pub shut : Stream → Stream
shut s = record s { fin_sent = true }

abbrev pub shut_end : {S : Type 0} → WriteEnd S → WriteEnd S
shut_end (returned d t n) = returned d (shut t) n
shut_end (failed d t n) = failed d (shut t) n
shut_end (pipe_closed d t n) = pipe_closed d (shut t) n
shut_end (waiting d t n) = waiting d (shut t) n
shut_end (unfinished d t n) = unfinished d (shut t) n

abbrev shut_round : {S : Type 0} → WriteRound S → WriteRound S
shut_round all_written = all_written
shut_round (wrote d t n) = wrote d (shut t) n
shut_round waits_for_window = waits_for_window
shut_round fails = fails
shut_round closed_pipe = closed_pipe

close_shuts : (s : Stream) → (close s).0 ≡ shut s
unfolding close
close_shuts s =
    if-cases (λ (x : Stream × Option ℕ). x.0 ≡ shut s) s.fin_sent
      (λ t. ap (λ (b : Bool). record s { fin_sent = b }) t) (λ t. refl)

module _ {S : Type 0} (w : World S) where
  round-shut :
      (now : ℕ) (c : Connection S) (s : Stream) (left : Bytes)
      → write_round w now c (shut s) left ≡ map_ok shut_round (write_round w now c s left)
  unfolding write_round
  round-shut now c s left =
      let full = lt_int64 s.max_data (add64 s.write_offset (min (length left) chunk_size)) in
      elim (Bool-cases (length left == 0)) [
        | inl t ↦ rw t refl
        | inr t ↦ elim (Bool-cases (full && not s.closed)) [
          | inl u ↦ elim (Bool-cases s.write_err) [
            | inl v ↦ rw (t, u, v) refl
            | inr v ↦ rw (t, u, v) refl
          ]
          | inr u ↦ elim (Bool-cases s.closed) [
            | inl v ↦ rw (t, u, v) refl
            | inr v ↦
                elim (Result-cases (
                  send_stream_data w now c s.stream_id s.write_offset
                    (take (min (length left) chunk_size) left) false)) [
                      | inl ((d, n), e) ↦ elim (Bool-cases (ltb 0 n)) [
                        | inl p ↦ rw (t, u, v, e, p) refl
                        | inr p ↦ rw (t, u, v, e, p) refl
                      ]
                      | inr (inl (x, e)) ↦ rw (t, u, v, e) refl
                      | inr (inr e) ↦ rw (t, u, v, e) refl
                    ]
          ]
        ]
      ]

  module _ (clock : ℕ → ℕ) where
    rounds-shut :
        (k : ℕ) (c : Connection S) (s : Stream) (left : Bytes) (n : ℕ)
        → write_rounds w clock k c (shut s) left n
          ≡ map_ok shut_end (write_rounds w clock k c s left n)
    unfolding write_rounds go_on
    rounds-shut zero c s left n = refl
    rounds-shut (suc k) c s left n =
        let same = round-shut (clock k) c s left in
        elim (Result-cases (write_round w (clock k) c s left)) [
          | inl (r, e) ↦ rw (same, e) (goes_on (rounds-shut k) r)
          | inr (inl (x, e)) ↦ rw (same, e) refl
          | inr (inr e) ↦ rw (same, e) refl
        ]
      where
        goes_on :
            ((d : Connection S) (x : Stream) (l : Bytes) (m : ℕ)
              → write_rounds w clock k d (shut x) l m
                ≡ map_ok shut_end (write_rounds w clock k d x l m))
            → (r : WriteRound S)
            → go_on (write_rounds w clock k) c (shut s) left n (shut_round r)
              ≡ map_ok shut_end (go_on (write_rounds w clock k) c s left n r)
        goes_on rest all_written = refl
        goes_on rest (wrote d t m) = rest d t (drop m left) (n + m)
        goes_on rest waits_for_window = refl
        goes_on rest fails = refl
        goes_on rest closed_pipe = refl

    from-shut :
        (start : WriteStart) (k : ℕ) (c : Connection S) (s : Stream) (b : Bytes)
        → write_from w clock start k c (shut s) b
          ≡ map_ok shut_end (write_from w clock start k c s b)
    from-shut writes k c s b = rounds-shut k c s b 0
    from-shut has_failed k c s b = refl
    from-shut is_closed k c s b = refl

    -- Write on a stream that Close has closed does what it would have done before: on any connection
    -- and stream, it sends the same packets, ends in the same way, and with the same connection and
    -- number of bytes, while the stream differs in the mark that the FIN has been sent only.
    pub write-close :
        (fuel : ℕ) (c : Connection S) (s : Stream) (b : Bytes)
        → write w clock fuel c (close s).0 b ≡ map_ok shut_end (write w clock fuel c s b)
    unfolding write write_start
    write-close fuel c s b =
        ap (λ (x : Stream). write w clock fuel c x b) (close_shuts s)
        ∙ from-shut (write_start s) fuel c s b
