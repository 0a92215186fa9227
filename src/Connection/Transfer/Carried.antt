-- ===== src/Connection/Transfer/Carried.antt =====
-- conn.go: what a connection writes for a stream frame.
use quic_test.Prelude.{
  ℕ, ◌≡◌, refl, sym, ap, ◌∙◌, ◌⊎◌, inl, inr, Bool, true, false, [], ◌∷◌, ◌++◌, append_assoc, arith,
  ltb, leb, ltb→lt, if-cases, length, take, All, length-take, take_all, Bytes, Result, ok, err,
  panics,
}
use quic_test.Wire.Frame.{Frame, append_frame}
use quic_test.Wire.Stream.{StreamFrame}
use quic_test.Wire.Image.{image, append_frame-image}
use quic_test.Connection.State.{World, Connection}
use quic_test.Connection.Loss.{short_header}
use quic_test.Connection.Loss.Retransmission.{short_header_lem}
use quic_test.Connection.Sending.{
  Sent, payload_len, max_stream_payload, cut_stream_frame, refused, record_and_write, send_appended,
  send_packet, send_stream_frame, send_frame,
}
use quic_test.Connection.Transfer.Packets.{IsPackable, images, pack-images}

-- The frame with the first bytes of its data.
abbrev pub cut_to : StreamFrame → ℕ → StreamFrame
cut_to f n = record f { payload = take n f.payload }

-- The cut of a frame keeps a beginning of the data.
cut_stream_frame_lem :
    (size : ℕ) (conn_id : Bytes) (f : StreamFrame)
    → f.data_len_present ≡ true
    → (n : ℕ) × (cut_stream_frame size conn_id f ≡ cut_to f n) × (n ≡ length (take n f.payload))
unfolding cut_stream_frame
cut_stream_frame_lem size conn_id f e =
    let most = max_stream_payload size conn_id f in
    if-cases (λ (g : StreamFrame). (n : ℕ) × (g ≡ cut_to f n) × (n ≡ length (take n f.payload)))
      (ltb most (length f.payload))
      (λ t. (
        most,
        ap (λ (b : Bool). record f { payload = take most f.payload; data_len_present = b }) (sym e),
        omega (arith, t, length-take most f.payload, ltb→lt most (length f.payload)),
      ))
      (λ t. (
        length f.payload,
        ap (λ (b : Bytes). record f { payload = b })
            (sym (take_all (length f.payload) f.payload (omega arith))),
        ap length (sym (take_all (length f.payload) f.payload (omega arith))),
      ))

module _ {S : Type 0} (w : World S) (now : ℕ) where
  -- What sending a stream frame comes to: nothing is written, or one packet with a part of the data and
  -- a beginning of the frames that wait.
  abbrev pub Carries : Connection S → StreamFrame → Result (Sent S) → Type 0
  Carries c f (ok s) =
      ((s.was_sent ≡ false) × (s.conn.written ≡ c.written))
      ⊎ ((n : ℕ) × (k : ℕ) × (head : Bytes) × (short_header c.dest_conn_id c.send_pn ≡ ok head)
          × (s.was_sent ≡ true)
          × (payload_len s.frame ≡ n)
          × (length (take n f.payload) ≡ n)
          × (s.conn.written
              ≡ c.written
                ++ ((head ++ images (Frame.stream (cut_to f n) ∷ take k c.pending_frames)) ∷ [])))
  Carries c f (err e) = ⊥
  Carries c f panics = ⊥

  send_packet-Carries :
      (c : Connection S) (f g : StreamFrame) (n : ℕ)
      → All IsPackable c.pending_frames
      → g ≡ cut_to f n
      → n ≡ length (take n f.payload)
      → Carries c f (send_packet w now c (Frame.stream g))
  unfolding send_packet send_appended record_and_write
  send_packet-Carries c f g n h e size =
      let (head, made, long) = short_header_lem c.dest_conn_id c.send_pn in
      let written : append_frame head (Frame.stream g) ≡ ok (head ++ image (Frame.stream g)) =
        append_frame-image head (Frame.stream g) tt in
      let (k, packed, all) =
        pack-images c.max_packet_size (head ++ image (Frame.stream g)) c.pending_frames h in
      let kept = take k c.pending_frames in
      rw made (
        rw written (
          rw (send_appended, packed)
            (inr (
              n,
              k,
              head,
              made,
              refl,
              ap (λ (x : StreamFrame). length x.payload) e ∙ sym size,
              sym size,
              ap (λ (b : Bytes). c.written ++ (b ∷ []))
                  (append_assoc head (image (Frame.stream g)) (images kept)
                    ∙ ap (λ (x : StreamFrame). head ++ images (Frame.stream x ∷ kept)) e),
            ))))

  pub send_frame-Carries :
      (c : Connection S) (f : StreamFrame)
      → f.data_len_present ≡ true
      → All IsPackable c.pending_frames
      → Carries c f (send_frame w now c (Frame.stream f))
  unfolding send_frame send_stream_frame
  send_frame-Carries c f whole h =
      let no : Carries c f (refused w now c (Frame.stream f)) = inl (refl, refl) in
      let g = cut_stream_frame c.max_packet_size c.dest_conn_id f in
      let (n, e, size) = cut_stream_frame_lem c.max_packet_size c.dest_conn_id f whole in
      let asked : Connection S = record c {
        congestion = (w.cc.can_send c.congestion (length g.payload) now).0;
      } in
      let P = λ (r : Result (Sent S)). Carries c f r in
      if-cases P c.closed (λ t. no)
        (λ t.
          if-cases P (leb 4000 (length c.history)) (λ t. no)
            (λ t.
              if-cases P (leb 5000 (length c.history)) (λ t. no)
                (λ t.
                  if-cases P (w.cc.can_send c.congestion (length g.payload) now).1
                    (λ t. send_packet-Carries asked f g n h e size) (λ t. inl (refl, refl)))))
