-- ===== src/Stream/Invariant.antt =====
-- What the buffers of a stream hold, whatever the order in which the pieces of its data come in.
use quic_test.Prelude.{
  ℕ, zero, suc, ◌+◌, ◌^◌, ◌<◌, ◌≡◌, refl, sym, ap₂, ◌∙◌, inl, inr, Bool, ◌&&◌, ◌||◌, not, Option,
  none, some, ◌++◌, arith, ◌==◌, Bool-cases, if-cases, Option-cases, length, All, length-append,
  Bytes, add64, sub64, lt_int64,
}
use quic_test.Stream.Slice.{slice, slice-append}
use quic_test.Stream.{
  Stream, deliver, is_empty, in_order, finish, flush_chunks, try_flush_pending, update_window,
  handle_stream_data,
}
use quic_test.Stream.Pending.{find, delete, All-find, All-delete, All-store}

-- A piece of the data at its offset, below the greatest int64.
unfoldable pub IsPiece : (ℕ → ℕ) → ℕ → Bytes → Type 0
IsPiece sent o bs = (bs ≡ slice sent o (length bs)) × (o + length bs < 2 ^ 63)

abbrev pub IsChunk : (ℕ → ℕ) → ℕ × Bytes → Type 0
IsChunk sent c = IsPiece sent c.0 c.1

-- The bytes not read yet are the data up to the next offset expected, and what waits is data.
unfoldable pub Holds : (ℕ → ℕ) → Stream → Type 0
Holds sent s =
    IsPiece sent s.read_offset s.read_buf
    × (s.read_offset + length s.read_buf ≡ s.reassembly_offset)
    × All (IsChunk sent) s.pending

IsPiece-append :
    (sent : ℕ → ℕ) (o : ℕ) (xs bs : Bytes)
    → IsPiece sent o xs
    → IsPiece sent (o + length xs) bs
    → IsPiece sent o (xs ++ bs)
unfolding IsPiece
IsPiece-append sent o xs bs (e, h) (d, k) = (
  rw length-append
      (ap₂ (λ (x y : Bytes). x ++ y) e d ∙ sym (slice-append sent o (length xs) (length bs))),
  rw length-append (omega arith),
)

-- Data that starts where the delivered data ends is delivered.
deliver-Holds :
    (sent : ℕ → ℕ) (s : Stream) (bs : Bytes)
    → Holds sent s
    → IsPiece sent s.reassembly_offset bs
    → Holds sent (deliver s bs)
unfolding Holds IsPiece
deliver-Holds sent s bs (piece, edge, waiting) new = (
  IsPiece-append sent s.read_offset s.read_buf bs piece (rw edge new),
  rw length-append (omega (arith, new.1)),
  waiting,
)

abbrev pub next_chunk : Stream → Bytes → Stream
next_chunk s chunk = deliver (record s { pending = delete s.reassembly_offset s.pending }) chunk

next_chunk-Holds :
    (sent : ℕ → ℕ) (s : Stream) (chunk : Bytes)
    → Holds sent s
    → find s.reassembly_offset s.pending ≡ some chunk
    → Holds sent (next_chunk s chunk)
unfolding Holds
next_chunk-Holds sent s chunk (piece, edge, waiting) e =
    deliver-Holds sent (record s { pending = delete s.reassembly_offset s.pending }) chunk
      (piece, edge, All-delete (IsChunk sent) s.reassembly_offset s.pending waiting)
      (All-find (IsChunk sent) s.reassembly_offset s.pending chunk waiting e)

pub flush_chunks-stop :
    (n : ℕ) (s : Stream) → find s.reassembly_offset s.pending ≡ none → flush_chunks n s ≡ s
unfolding flush_chunks
flush_chunks-stop zero s e = refl
flush_chunks-stop (suc n) s e = rw (flush_chunks, e) refl

pub flush_chunks-next :
    (n : ℕ) (s : Stream) (chunk : Bytes)
    → find s.reassembly_offset s.pending ≡ some chunk
    → flush_chunks (suc n) s ≡ flush_chunks n (next_chunk s chunk)
unfolding flush_chunks
flush_chunks-next n s chunk e = rw (flush_chunks, e) refl

pub flush_chunks-Holds :
    (sent : ℕ → ℕ) (n : ℕ) (s : Stream) → Holds sent s → Holds sent (flush_chunks n s)
unfolding flush_chunks
flush_chunks-Holds sent zero s h = h
flush_chunks-Holds sent (suc n) s h = elim (Option-cases (find s.reassembly_offset s.pending)) [
  | inl e ↦ rw (flush_chunks-stop (suc n) s e) h
  | inr (chunk, e) ↦
      rw (flush_chunks-next n s chunk e)
        (flush_chunks-Holds sent n (next_chunk s chunk) (next_chunk-Holds sent s chunk h e))
]

pub try_flush_pending-Holds :
    (sent : ℕ → ℕ) (s : Stream) → Holds sent s → Holds sent (try_flush_pending s)
unfolding try_flush_pending Holds
try_flush_pending-Holds sent s h = elim (Bool-cases (is_empty t.pending && t.pending_fn)) [
  | inl e ↦ rw (finish, e) flushed
  | inr e ↦ rw (finish, e) flushed
]
  where
    t : Stream
    t = flush_chunks (length s.pending) s

    flushed : Holds sent t
    flushed = flush_chunks-Holds sent (length s.pending) s h

pub update_window-Holds :
    (sent : ℕ → ℕ) (s : Stream) → Holds sent s → Holds sent (update_window s).0
unfolding update_window Holds
update_window-Holds sent s h =
    elim (Bool-cases (lt_int64 (sub64 s.read_max_data s.reassembly_offset) 524288)) [
      | inl e ↦ rw e h
      | inr e ↦ rw e h
    ]

in_order-Holds :
    (sent : ℕ → ℕ) (s : Stream) (offset : ℕ) (input : Bytes) (fin : Bool)
    → Holds sent s
    → IsPiece sent offset input
    → offset ≡ s.reassembly_offset
    → Holds sent (in_order s (add64 offset (length input)) input fin)
unfolding Holds
in_order-Holds sent s offset input fin h new e =
    rw e (deliver-Holds sent s input h (rw (sym e) new))

-- A frame with a piece of the data keeps what is delivered a part of the data.
pub handle_stream_data-Holds :
    (sent : ℕ → ℕ) (s : Stream) (offset : ℕ) (input : Bytes) (fin : Bool)
    → Holds sent s
    → IsPiece sent offset input
    → Holds sent (handle_stream_data s offset input fin).0
unfolding handle_stream_data Holds IsPiece
handle_stream_data-Holds sent s offset input fin h new =
    let P : Stream × Option ℕ → Type 0 = λ r. Holds sent r.0 in
    if-cases P (s.fin_read || s.reset) (λ _. h)
      (λ _.
        if-cases P (not (lt_int64 s.reassembly_offset (add64 offset (length input))))
          (λ _. if-cases (Holds sent) fin (λ _. try_flush_pending-Holds sent s h) (λ _. h))
          (λ _.
            if-cases P (offset == s.reassembly_offset)
              (λ e. update_window-Holds sent _ (
                try_flush_pending-Holds sent _
                  (in_order-Holds sent s offset input fin h new (ground arith))))
              (λ _.
                update_window-Holds sent _
                  (h.0, h.1, All-store (IsChunk sent) offset input s.pending new h.2))))
