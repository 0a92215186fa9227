-- ===== src/Stream/Completion.antt =====
-- quic/stream.go: the segments of a peer's data as they come in, in any order.
use quic_test.Prelude.{
  ℕ, ◌+◌, ◌≤◌, ◌<◌, ◌≡◌, refl, sym, ap, ◌∙◌, ◌≢◌, inl, inr, true, false, ◌||◌, not, Option, none,
  some, List, [], ◌∷◌, arith, ltb, ◌==◌, Bool-cases, if-cases, length, Bytes, add64, sub64,
  lt_int64,
}
use quic_test.Stream.{Stream, new_stream, in_order, set_aside, update_window, handle_stream_data}
use quic_test.Stream.Pending.{find, store, find-store, find-store_other}
use quic_test.Stream.Segments.{
  is_in, IsCut, rises_below, start_injective, start_small, Progress, Settles,
  try_flush_pending-Settles,
}

module _ (start : ℕ → ℕ) (seg : ℕ → Bytes) (k : ℕ) (cut : IsCut start seg k) where
  update_window-Settles :
      (got : List ℕ) (s : Stream)
      → Settles start seg k cut got s
      → Settles start seg k cut got (update_window s).0
  unfolding update_window
  update_window-Settles got s h =
      if-cases (λ (r : Stream × Option ℕ). Settles start seg k cut got r.0)
        (lt_int64 (sub64 s.read_max_data s.reassembly_offset) 524288)
        (λ e. record {
          delivered = h.delivered;
          progress = record {
            at_next = h.progress.at_next;
            inside = h.progress.inside;
            waiting = h.progress.waiting;
            known = h.progress.known;
            unread = h.progress.unread;
            live = h.progress.live;
            no_fin = h.progress.no_fin;
          };
          stuck = h.stuck;
        })
        (λ e. h)

  low_more :
      (got : List ℕ) (i : ℕ)
      → ((j : ℕ) → is_in j got ≡ true → j < k)
      → i < k
      → (j : ℕ) → is_in j (i ∷ got) ≡ true
      → j < k
  low_more got i low small j e = elim (Bool-cases (i == j)) [
    | inl t ↦ ground arith
    | inr t ↦ low j (ground arith)
  ]

  -- A segment that was delivered before.
  old-Settles :
      (got : List ℕ) (s : Stream) (i : ℕ) (h : Settles start seg k cut got s)
      → i < h.delivered
      → Settles start seg k cut (i ∷ got) s
  old-Settles got s i h l =
      let p = h.progress in
      record {
        delivered = h.delivered;
        progress = record {
          at_next = p.at_next;
          inside = p.inside;
          waiting = λ x m e. p.waiting x m (ground arith);
          known = p.known;
          unread = p.unread;
          live = p.live;
          no_fin = p.no_fin;
        };
        stuck = h.stuck;
      }

  in_order-Progress :
      (got : List ℕ) (s : Stream) (i m : ℕ)
      → i < k
      → i ≡ m
      → Progress start seg k cut m got s
      → Progress start seg k cut
          (i + 1)
          (i ∷ got)
          (in_order s (add64 (start i) (length (seg i))) (seg i) false)
  in_order-Progress got s i m small same p =
      let edge = cut.next i small in
      let bound = start_small start seg k cut (i + 1) (omega arith) in
      record {
        at_next = omega (arith, edge, bound);
        inside = omega arith;
        waiting = λ x l e. p.waiting x (omega arith) (ground arith);
        known = p.known;
        unread = p.unread;
        live = p.live;
        no_fin = p.no_fin;
      }

  stored_waits :
      (m : ℕ) (got : List ℕ) (s : Stream) (i x : ℕ)
      → i < k
      → ((j : ℕ) → is_in j got ≡ true → j < k)
      → m ≤ x
      → is_in x (i ∷ got) ≡ true
      → Progress start seg k cut m got s
      → find (start x) (store (start i) (seg i) s.pending) ≡ some (seg x)
  stored_waits m got s i x small low l e p = elim (Bool-cases (i == x)) [
    | inl t ↦
        let same : i ≡ x = ground arith in rw (sym same) (find-store (start i) (seg i) s.pending)
    | inr t ↦
        let there : is_in x got ≡ true = ground arith in
        let inside = low x there in
        let other : start x ≢ start i = λ q.
          (let j = start_injective start seg k cut x i (omega arith) (omega arith) q in
            absurd (ground arith)) in
        find-store_other (start i) (start x) (seg i) s.pending other ∙ p.waiting x l there
  ]

  stored_known :
      (m : ℕ) (got : List ℕ) (s : Stream) (i o : ℕ) (c : Bytes)
      → i < k
      → find o (store (start i) (seg i) s.pending) ≡ some c
      → Progress start seg k cut m got s
      → (x : ℕ) × (x < k) × (o ≡ start x) × (c ≡ seg x)
  stored_known m got s i o c small e p = elim (Bool-cases (o == start i)) [
    | inl t ↦
        let same : o ≡ start i = ground arith in
        let mine : find o (store (start i) (seg i) s.pending) ≡ some (seg i) =
          rw same (find-store (start i) (seg i) s.pending) in
        (i, small, same, ground (arith, e, mine))
    | inr t ↦ p.known o c (sym (find-store_other (start i) o (seg i) s.pending (ground arith)) ∙ e)
  ]

  set_aside-Settles :
      (got : List ℕ) (s : Stream) (i : ℕ) (h : Settles start seg k cut got s)
      → ((j : ℕ) → is_in j got ≡ true → j < k)
      → i < k
      → h.delivered < i
      → Settles start seg k cut (i ∷ got) (set_aside s (start i) (seg i) false)
  set_aside-Settles got s i h low small l =
      let p = h.progress in
      let m = h.delivered in
      let apart = rises_below start seg k cut m i l (omega arith) in
      let place = p.at_next in
      let past : s.reassembly_offset ≢ start i = λ q. absurd (omega arith) in
      record {
        delivered = m;
        progress = record {
          at_next = place;
          inside = p.inside;
          waiting = λ x lx e. stored_waits m got s i x small low lx e p;
          known = λ o c e. stored_known m got s i o c small e p;
          unread = p.unread;
          live = p.live;
          no_fin = p.no_fin;
        };
        stuck = find-store_other (start i) s.reassembly_offset (seg i) s.pending past ∙ h.stuck;
      }

  handle_stream_data-Settles :
      (got : List ℕ) (s : Stream) (i : ℕ)
      → ((j : ℕ) → is_in j got ≡ true → j < k)
      → i < k
      → Settles start seg k cut got s
      → Settles start seg k cut (i ∷ got) (handle_stream_data s (start i) (seg i) false).0
  unfolding handle_stream_data
  handle_stream_data-Settles got s i low small h =
      let p = h.progress in
      let m = h.delivered in
      let inside = p.inside in
      let edge = cut.next i small in
      let bound = start_small start seg k cut (i + 1) (omega arith) in
      let place = p.at_next in
      let P = λ (r : Stream × Option ℕ). Settles start seg k cut (i ∷ got) r.0 in
      if-cases P (s.fin_read || s.reset) (λ e. absurd (ground (arith, p.unread, p.live)))
        (λ e.
          if-cases P (not (lt_int64 s.reassembly_offset (add64 (start i) (length (seg i)))))
            (λ t. old-Settles got s i h (
              ground (
                arith,
                rises_below start seg k cut m (i + 1),
                start_small start seg k cut m inside,
              )))
            (λ t.
              if-cases P (start i == s.reassembly_offset)
                (λ u.
                  (let same : i ≡ m =
                      start_injective start seg k cut i m (omega arith) inside (ground arith) in
                    update_window-Settles (i ∷ got) _ (
                      try_flush_pending-Settles start seg k cut (i + 1) (i ∷ got) _
                        (low_more got i low small) (in_order-Progress got s i m small same p))))
                (λ u. update_window-Settles (i ∷ got) _ (
                  set_aside-Settles got s i h low small (
                    ground (
                      arith,
                      rises_below start seg k cut (i + 1) m,
                      start_small start seg k cut m inside,
                      start_injective start seg k cut i m,
                    ))))))

  -- The frames that came in, with a segment each.
  pub data Received : List ℕ → Stream → Type 0 where
    begun : (stream_id : ℕ) → Received [] (new_stream stream_id)
    came :
        {got : List ℕ} {s : Stream} (i : ℕ)
        → i < k
        → Received got s
        → Received (i ∷ got) (handle_stream_data s (start i) (seg i) false).0

  Received-low : (got : List ℕ) (s : Stream) → Received got s → (j : ℕ) → is_in j got ≡ true → j < k
  Received-low _ _ (begun stream_id) j e = absurd (ground arith)
  Received-low _ _ (came {got} {s} i small r) j e = low_more got i (Received-low got s r) small j e

  Received-Settles : (got : List ℕ) (s : Stream) → Received got s → Settles start seg k cut got s
  unfolding new_stream find
  Received-Settles _ _ (begun stream_id) = record {
    delivered = 0;
    progress = record {
      at_next = sym cut.first;
      inside = omega arith;
      waiting = λ i l e. absurd (ground arith);
      known = λ o c e. absurd (ground arith);
      unread = refl;
      live = refl;
      no_fin = refl;
    };
    stuck = refl;
  }
  Received-Settles _ _ (came {got} {s} i small r) =
      handle_stream_data-Settles got s i (Received-low got s r) small (Received-Settles got s r)

  pub Received-complete :
      (got : List ℕ) (s : Stream)
      → Received got s
      → ((i : ℕ) → i < k → is_in i got ≡ true)
      → s.reassembly_offset ≡ start k
  Received-complete got s r every =
      let h = Received-Settles got s r in
      let p = h.progress in
      let m = h.delivered in
      elim (Bool-cases (ltb m k)) [
        | inl t ↦
            let found = p.waiting m (omega arith) (every m (ground arith)) in
            let stuck : find (start m) s.pending ≡ none = rw (sym p.at_next) h.stuck in
            absurd (ground (arith, found, stuck))
        | inr t ↦
            let inside = p.inside in let last : m ≡ k = ground arith in p.at_next ∙ ap start last
      ]
