-- ===== src/Stream/Segments.antt =====
-- quic/stream.go: a peer's data in segments, and how far a stream has got with them.
use quic_test.Prelude.{
  ℕ, zero, suc, ◌+◌, ◌-◌, ◌^◌, ◌≤◌, ◌<◌, ◌≡◌, sym, ap, ◌∙◌, ◌≢◌, inl, inr, Bool, true, false, ◌||◌,
  none, some, List, [], ◌∷◌, arith, ◌==◌, Bool-cases, Option-cases, length, Bytes,
}
use quic_test.Stream.{Stream, finish, flush_chunks, try_flush_pending}
use quic_test.Stream.Pending.{find, delete, find-delete, delete-find}
use quic_test.Stream.Invariant.{next_chunk, flush_chunks-stop, flush_chunks-next}
use quic_test.Stream.Reassembly.{try_flush_pending-Flushed}

abbrev pub is_in : ℕ → List ℕ → Bool
is_in i [] = false
is_in i (j ∷ js) = (j == i) || is_in i js

-- The data is cut into k segments, none of them empty: segment i starts at offset `start i`.
pub record IsCut (start : ℕ → ℕ) (seg : ℕ → Bytes) (k : ℕ) : Type 0 where
  pub first : start 0 ≡ 0
  pub next : (i : ℕ) → i < k → start (i + 1) ≡ start i + length (seg i)
  pub filled : (i : ℕ) → i < k → 0 < length (seg i)
  pub short : start k < 2 ^ 63

module _ (start : ℕ → ℕ) (seg : ℕ → Bytes) (k : ℕ) (cut : IsCut start seg k) where
  rises : (i d : ℕ) → i + d ≤ k → start i + d ≤ start (i + d)
  rises i zero l = let e : i + zero ≡ i = omega arith in rw e (omega arith)
  rises i (suc d) l =
      let e : i + suc d ≡ (i + d) + 1 = omega arith in
      rw e (
        omega (
          arith,
          rises i d (omega arith),
          cut.next (i + d) (omega arith),
          cut.filled (i + d) (omega arith),
        ))

  pub rises_below : (i j : ℕ) → i < j → j ≤ k → start i < start j
  rises_below i j l m =
      let e : i + (j - i) ≡ j = omega arith in
      let r = rises i (j - i) (omega arith) in
      let r1 : start i + (j - i) ≤ start j = rw e at r in omega arith

  pub start_injective : (i j : ℕ) → i ≤ k → j ≤ k → start i ≡ start j → i ≡ j
  start_injective i j l m e = ground (arith, rises_below i j, rises_below j i)

  pub start_small : (i : ℕ) → i ≤ k → start i < 2 ^ 63
  start_small i l = ground (arith, cut.short, rises_below i k)

  -- The first m segments are delivered, and those of `got` behind them wait.
  pub record Progress (m : ℕ) (got : List ℕ) (s : Stream) : Type 0 where
    pub at_next : s.reassembly_offset ≡ start m
    pub inside : m ≤ k
    pub waiting : (i : ℕ) → m ≤ i → is_in i got ≡ true → find (start i) s.pending ≡ some (seg i)
    pub known :
        (o : ℕ) (c : Bytes)
        → find o s.pending ≡ some c
        → (i : ℕ) × (i < k) × (o ≡ start i) × (c ≡ seg i)
    pub unread : s.fin_read ≡ false
    pub live : s.reset ≡ false
    pub no_fin : s.pending_fn ≡ false

  behind :
      (m : ℕ) (got : List ℕ) (s : Stream) (x : ℕ)
      → ((i : ℕ) → is_in i got ≡ true → i < k)
      → m + 1 ≤ x
      → is_in x got ≡ true
      → Progress m got s
      → find (start x) (delete s.reassembly_offset s.pending) ≡ some (seg x)
  behind m got s x low l g h =
      let small = low x g in
      let inside = h.inside in
      let other : start x ≢ s.reassembly_offset = λ q.
        (let j = start_injective x m (omega arith) inside (q ∙ h.at_next) in
          absurd (omega arith)) in
      find-delete s.reassembly_offset (start x) s.pending other ∙ h.waiting x (omega arith) g

  kept :
      (m : ℕ) (got : List ℕ) (s : Stream) (o : ℕ) (c : Bytes)
      → find o (delete s.reassembly_offset s.pending) ≡ some c
      → Progress m got s
      → (i : ℕ) × (i < k) × (o ≡ start i) × (c ≡ seg i)
  kept m got s o c e h = elim (Bool-cases (o == s.reassembly_offset)) [
    | inl t ↦
        let same : o ≡ s.reassembly_offset = ground arith in
        let gone = delete-find s.reassembly_offset s.pending in
        let gone1 : find o (delete s.reassembly_offset s.pending) ≡ none = rw same gone in
        absurd (ground (arith, e, gone1))
    | inr t ↦ h.known o c (sym (find-delete s.reassembly_offset o s.pending (ground arith)) ∙ e)
  ]

  next_chunk-Progress :
      (m : ℕ) (got : List ℕ) (s : Stream) (chunk : Bytes)
      → ((i : ℕ) → is_in i got ≡ true → i < k)
      → find s.reassembly_offset s.pending ≡ some chunk
      → Progress m got s
      → Progress (m + 1) got (next_chunk s chunk)
  next_chunk-Progress m got s chunk low e h =
      let (i, small, same, is) = h.known s.reassembly_offset chunk e in
      let place = h.at_next in
      let j : i ≡ m = start_injective i m (omega arith) h.inside (sym same ∙ place) in
      let size : chunk ≡ seg m = is ∙ ap seg j in
      let edge = cut.next m (omega arith) in
      let bound = start_small (m + 1) (omega arith) in
      record {
        at_next = rw (place, size) (omega (arith, edge, bound));
        inside = omega arith;
        waiting = λ x l in_got. behind m got s x low l in_got h;
        known = λ o c found. kept m got s o c found h;
        unread = h.unread;
        live = h.live;
        no_fin = h.no_fin;
      }

  flush_chunks-Progress :
      (n m : ℕ) (got : List ℕ) (s : Stream)
      → ((i : ℕ) → is_in i got ≡ true → i < k)
      → Progress m got s
      → (later : ℕ) × Progress later got (flush_chunks n s)
  unfolding flush_chunks
  flush_chunks-Progress zero m got s low h = (m, h)
  flush_chunks-Progress (suc n) m got s low h =
      elim (Option-cases (find s.reassembly_offset s.pending)) [
        | inl e ↦ rw (flush_chunks-stop (suc n) s e) (m, h)
        | inr (chunk, e) ↦ rw (flush_chunks-next n s chunk e) (
            flush_chunks-Progress n (m + 1) got (next_chunk s chunk) low
              (next_chunk-Progress m got s chunk low e h))
      ]

  -- Nothing that waits can be delivered.
  pub record Settles (got : List ℕ) (s : Stream) : Type 0 where
    pub delivered : ℕ
    pub progress : Progress delivered got s
    pub stuck : find s.reassembly_offset s.pending ≡ none

  pub try_flush_pending-Settles :
      (m : ℕ) (got : List ℕ) (s : Stream)
      → ((i : ℕ) → is_in i got ≡ true → i < k)
      → Progress m got s
      → Settles got (try_flush_pending s)
  unfolding try_flush_pending
  try_flush_pending-Settles m got s low h =
      let (later, p) = flush_chunks-Progress (length s.pending) m got s low h in
      let same : finish (flush_chunks (length s.pending) s) ≡ flush_chunks (length s.pending) s =
        ground (arith, p.no_fin) in
      record { delivered = later; progress = rw same p; stuck = try_flush_pending-Flushed s }
