-- ===== src/Connection/Writing/Rounds.antt =====
-- What a round of Write that sends comes from.
use quic_test.Prelude.{
  ℕ, ◌≤◌, min, ◌≡◌, refl, ap, subst, inl, inr, Bool, true, false, ◌&&◌, not, [], ◌∷◌, arith, ltb,
  leb, ◌==◌, if◌then◌else◌, Bool-cases, if-cases, length, take, length-take, Bytes, add64, lt_int64,
  Result, ok, err, panics, ok_injective, Result-cases,
}
use quic_test.Stream.{Stream}
use quic_test.Wire.Stream.{StreamFrame}
use quic_test.Wire.Frame.{Frame, append_frame}
use quic_test.Connection.State.{World, Connection}
use quic_test.Connection.Loss.{short_header}
use quic_test.Connection.Sending.{
  Sent, payload_len, max_stream_payload, cut_stream_frame, pack, refused, send_appended,
  send_packet, send_stream_frame, send_frame, send_stream_data,
}
use quic_test.Connection.Writing.{
  WriteRound, all_written, wrote, waits_for_window, fails, closed_pipe, chunk_size, write_round,
}

-- What a round that has written comes from.
pub record Wrote (s : Stream) (left : Bytes) (s1 : Stream) (n : ℕ) : Type 0 where
  pub some_left : 1 ≤ length left
  pub few : n ≤ length left
  pub few_of_chunk : n ≤ chunk_size
  pub next : s1.write_offset ≡ (if ltb 0 n then add64 s.write_offset n else s.write_offset)
  pub same_limit : s1.max_data ≡ s.max_data
  pub in_window : lt_int64 s.max_data (add64 s.write_offset (min (length left) chunk_size)) ≡ false
  pub still_open : s.closed ≡ false

module _ {S : Type 0} (w : World S) (now : ℕ) where
  -- sendFrame leaves no more of the data in a frame than it had.
  abbrev Shorter : StreamFrame → Result (Sent S) → Type 0
  Shorter f (ok s) = payload_len s.frame ≤ length f.payload
  Shorter f (err e) = Unit
  Shorter f panics = Unit

  cut_stream_frame-le :
      (size : ℕ) (conn_id : Bytes) (f : StreamFrame)
      → length (cut_stream_frame size conn_id f).payload ≤ length f.payload
  unfolding cut_stream_frame
  cut_stream_frame-le size conn_id f =
      let most = max_stream_payload size conn_id f in
      if-cases (λ (g : StreamFrame). length g.payload ≤ length f.payload)
        (ltb most (length f.payload)) (λ _. omega (arith, length-take most f.payload))
        (λ _. omega arith)

  send_packet-Shorter :
      (c : Connection S) (f g : StreamFrame)
      → length g.payload ≤ length f.payload
      → Shorter f (send_packet w now c (Frame.stream g))
  unfolding send_packet send_appended
  send_packet-Shorter c f g h = elim (Result-cases (short_header c.dest_conn_id c.send_pn)) [
    | inr (inl (x, e)) ↦ rw (send_packet, e) tt
    | inr (inr e) ↦ rw (send_packet, e) tt
    | inl (head, e) ↦ elim (Result-cases (append_frame head (Frame.stream g))) [
      | inr (inl (x, f)) ↦ rw (send_packet, e) (rw f h)
      | inr (inr f) ↦ rw (send_packet, e) (rw f tt)
      | inl (b, f) ↦ elim (Result-cases (pack c.max_packet_size b c.pending_frames)) [
        | inr (inl (x, k)) ↦ rw (send_packet, e) (rw f (rw (send_appended, k) tt))
        | inr (inr k) ↦ rw (send_packet, e) (rw f (rw (send_appended, k) tt))
        | inl (p, k) ↦ rw (send_packet, e) (rw f (rw (send_appended, k) h))
      ]
    ]
  ]

  send_frame-Shorter :
      (c : Connection S) (f : StreamFrame) → Shorter f (send_frame w now c (Frame.stream f))
  unfolding send_frame send_stream_frame
  send_frame-Shorter c f =
      let g = cut_stream_frame c.max_packet_size c.dest_conn_id f in
      let P : Result (Sent S) → Type 0 = λ r. Shorter f r in
      let no : Shorter f (refused w now c (Frame.stream f)) = omega arith in
      if-cases P c.closed (λ _. no)
        (λ _.
          if-cases P (leb 4000 (length c.history)) (λ _. no)
            (λ _.
              if-cases P (leb 5000 (length c.history)) (λ _. no)
                (λ _.
                  if-cases P (w.cc.can_send c.congestion (length g.payload) now).1
                    (λ _.
                      send_packet-Shorter _ f g
                        (cut_stream_frame-le c.max_packet_size c.dest_conn_id f))
                    (λ _. omega arith))))

  pub send_stream_data-le :
      (c d : Connection S) (id offset : ℕ) (payload : Bytes) (fin : Bool) (n : ℕ)
      → send_stream_data w now c id offset payload fin ≡ ok (d, n)
      → n ≤ length payload
  unfolding send_stream_data
  send_stream_data-le c d id offset payload fin n e =
      let f : StreamFrame = record {
        stream_id = id;
        offset = offset;
        payload = payload;
        fin = fin;
        data_len_present = true;
      } in
      let sent_bytes : Sent S → Connection S × ℕ =
        λ s. (s.conn, if s.was_sent then payload_len s.frame else 0) in
      let short = send_frame-Shorter c f in
      elim (Result-cases (send_frame w now c (Frame.stream f))) [
        | inr (inl (x, k)) ↦ absurd (cc (rw (send_stream_data, k) at e))
        | inr (inr k) ↦ absurd (cc (rw (send_stream_data, k) at e))
        | inl (s, k) ↦
            let less : payload_len s.frame ≤ length payload =
              subst (λ (r : Result (Sent S)). Shorter f r) k short in
            let same : sent_bytes s ≡ (d, n) =
              ok_injective (sent_bytes s) (d, n) (rw (send_stream_data, k) at e) in
            let count : (if s.was_sent then payload_len s.frame else 0) ≡ n =
              ap (λ (q : Connection S × ℕ). q.1) same in
            let most : (if s.was_sent then payload_len s.frame else 0) ≤ length payload =
              if-cases (λ (x : ℕ). x ≤ length payload) s.was_sent (λ _. less) (λ _. omega arith) in
            omega (arith, count, most)
      ]

  abbrev Describes : Stream → Bytes → Result (WriteRound S) → Type 0
  Describes s left (ok (wrote c1 s1 n)) = Wrote s left s1 n
  Describes s left (ok all_written) = (left ≡ [])
  Describes s left (ok waits_for_window) = Unit
  Describes s left (ok fails) = Unit
  Describes s left (ok closed_pipe) = Unit
  Describes s left (err e) = Unit
  Describes s left panics = Unit

  sent_some :
      (s : Stream) (left : Bytes) (n : ℕ)
      → 1 ≤ length left
      → lt_int64 s.max_data (add64 s.write_offset (min (length left) chunk_size)) ≡ false
      → s.closed ≡ false
      → n ≤ length (take (min (length left) chunk_size) left)
      → Wrote s left (if ltb 0 n then record s { write_offset = add64 s.write_offset n } else s) n
  sent_some s left n some_left window unclosed few =
      let size = length-take (min (length left) chunk_size) left in
      record {
        some_left = some_left;
        few = omega arith;
        few_of_chunk = omega arith;
        next = elim (Bool-cases (ltb 0 n)) [ inl t ↦ rw t refl | inr t ↦ rw t refl ];
        same_limit = elim (Bool-cases (ltb 0 n)) [ inl t ↦ rw t refl | inr t ↦ rw t refl ];
        in_window = window;
        still_open = unclosed;
      }

  write_round-Describes :
      (c : Connection S) (s : Stream) (left : Bytes) → Describes s left (write_round w now c s left)
  unfolding write_round
  write_round-Describes c s left =
      let size = min (length left) chunk_size in
      let P : Result (WriteRound S) → Type 0 = λ r. Describes s left r in
      let full = lt_int64 s.max_data (add64 s.write_offset size) in
      if-cases P (length left == 0) (λ t. none_left left t)
        λ t.
          if-cases P (full && not s.closed)
            (λ _. if-cases (λ (x : WriteRound S). P (ok x)) s.write_err (λ _. tt) (λ _. tt))
            λ u.
              if-cases P s.closed (λ _. tt)
                λ v.
                  elim (Result-cases
                    (send_stream_data w now c s.stream_id s.write_offset (take size left) false)) [
                      | inr (inl (x, k)) ↦ rw k tt
                      | inr (inr k) ↦ rw k tt
                      | inl ((d, m), k) ↦ rw k (
                          sent_some s left m (ground (arith, t)) (unfull full s.closed u v) v (
                            send_stream_data-le c d s.stream_id s.write_offset (take size left)
                              false m k))
                    ]
    where
      none_left : (xs : Bytes) → (length xs == 0) ≡ true → xs ≡ []
      none_left [] e = refl
      none_left (x ∷ xs) e = absurd (ground (arith, e))

      unfull : (a b : Bool) → (a && not b) ≡ false → b ≡ false → a ≡ false
      unfull true true u v = cc
      unfull true false u v = u
      unfull false b u v = refl

  pub write_round-Wrote :
      (c c1 : Connection S) (s s1 : Stream) (left : Bytes) (n : ℕ)
      → write_round w now c s left ≡ ok (wrote c1 s1 n)
      → Wrote s left s1 n
  write_round-Wrote c c1 s s1 left n e =
      subst (λ (r : Result (WriteRound S)). Describes s left r) e (write_round-Describes c s left)

  pub write_round-all_written :
      (c : Connection S) (s : Stream) (left : Bytes)
      → write_round w now c s left ≡ ok all_written
      → left ≡ []
  write_round-all_written c s left e =
      subst (λ (r : Result (WriteRound S)). Describes s left r) e (write_round-Describes c s left)
