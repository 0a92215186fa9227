-- ===== src/Connection/Pipe/Window.antt =====
-- The writer's offset and the limit of the peer.
use quic_test.Prelude.{
  ℕ, ◌+◌, ◌^◌, ◌≤◌, ◌<◌, min, ◌≡◌, refl, sym, ◌∙◌, inl, inr, false, ◌++◌, arith, ltb, if◌then◌else◌,
  Bool-cases, if-cases, length, take, length-append, length-take, add64, lt_int64,
}
use quic_test.Stream.{Stream, new_stream, window, update_max_data, close, cancel_write}
use quic_test.Connection.State.{World}
use quic_test.Connection.Writing.{chunk_size}
use quic_test.Connection.Writing.Rounds.{write_round-Wrote}
use quic_test.Connection.Pipe.{
  Pipe, Reaches, begin, writes, works, widens, cancels, closes, arrives, reads,
}

-- The writer is at the end of what Write has taken, within the limit of the peer.
pub record InWindow {S : Type 0} (p : Pipe S) : Type 0 where
  pub offset : p.writer.write_offset ≡ length p.accepted
  pub within : length p.accepted ≤ p.writer.max_data
  pub limit : p.writer.max_data < 2 ^ 62

-- A round of Write stays within the limit.
wrote_within :
    (offset limit left_size n : ℕ)
    → offset ≤ limit
    → limit < 2 ^ 62
    → lt_int64 limit (add64 offset (min left_size chunk_size)) ≡ false
    → n ≤ left_size
    → n ≤ chunk_size
    → offset + n ≤ limit
wrote_within offset limit left_size n h small window few chunk = ground arith

next_offset :
    (offset n : ℕ) → offset + n < 2 ^ 64 → (if ltb 0 n then add64 offset n else offset) ≡ offset + n
next_offset offset n h = ground arith

module _ {S : Type 0} (w : World S) where
  pub Reaches-InWindow : (p : Pipe S) → Reaches w p → InWindow p
  unfolding new_stream update_max_data cancel_write close
  Reaches-InWindow _ (begin c id) = record {
    offset = refl;
    within = omega arith;
    limit = omega arith;
  }
  Reaches-InWindow _ (writes {p} now left c s n e r) =
      let h = Reaches-InWindow p r in
      let k = write_round-Wrote w now p.conn c p.writer s left n e in
      let size : length (p.accepted ++ take n left) ≡ length p.accepted + n =
        omega (arith, length-append p.accepted (take n left), length-take n left, k.few) in
      let most : length p.accepted + n ≤ p.writer.max_data =
        wrote_within (length p.accepted) p.writer.max_data (length left) n h.within h.limit
          (rw (sym h.offset) k.in_window) k.few k.few_of_chunk in
      record {
        offset =
            k.next
            ∙ next_offset p.writer.write_offset n (omega (arith, h.offset, most, h.limit))
            ∙ omega (arith, h.offset, size);
        within = omega (arith, size, most, k.same_limit);
        limit = omega (arith, k.same_limit, h.limit);
      }
  Reaches-InWindow _ (works {p} c r) =
      let h = Reaches-InWindow p r in
      record { offset = h.offset; within = h.within; limit = h.limit }
  Reaches-InWindow _ (widens {p} v small r) =
      let h = Reaches-InWindow p r in
      if-cases (λ (s : Stream). InWindow (record p { writer = s })) (lt_int64 p.writer.max_data v)
        (λ t. record {
          offset = h.offset;
          within = ground (arith, t, h.within, h.limit);
          limit = small;
        })
        (λ t. record { offset = h.offset; within = h.within; limit = h.limit })
  Reaches-InWindow _ (cancels {p} r) =
      let h = Reaches-InWindow p r in
      record { offset = h.offset; within = h.within; limit = h.limit }
  Reaches-InWindow _ (closes {p} r) =
      let h = Reaches-InWindow p r in
      elim (Bool-cases p.writer.fin_sent) [
        | inl t ↦ record {
          offset = rw (close, t) h.offset;
          within = rw (close, t) h.within;
          limit = rw (close, t) h.limit;
        }
        | inr t ↦ record {
          offset = rw (close, t) h.offset;
          within = rw (close, t) h.within;
          limit = rw (close, t) h.limit;
        }
      ]
  Reaches-InWindow _ (arrives {p} o b fin m r) =
      let h = Reaches-InWindow p r in
      record { offset = h.offset; within = h.within; limit = h.limit }
  Reaches-InWindow _ (reads {p} size r) =
      let h = Reaches-InWindow p r in
      record { offset = h.offset; within = h.within; limit = h.limit }
