-- ===== src/Stream/Delivery.antt =====
-- What Read returns, in all runs of a stream.
use quic_test.Prelude.{
  ℕ, zero, suc, ◌+◌, ◌-◌, ◌≤◌, min, ◌≡◌, refl, sym, ap, ap₂, ◌∙◌, inl, inr, Bool, ◌&&◌, not, [],
  ◌++◌, append-nil, arith, ◌==◌, Bool-cases, if-cases, Option-cases, length, take, drop,
  length-drop, Bytes, add64, lt_int64,
}
use quic_test.Stream.Slice.{slice, slice-append, length-slice, take-slice, drop-slice}
use quic_test.Stream.Invariant.{
  IsPiece, Holds, handle_stream_data-Holds, next_chunk, flush_chunks-stop, flush_chunks-next,
}
use quic_test.Stream.{
  Stream, new_stream, in_order, flush_chunks, try_flush_pending, update_window, handle_stream_data,
  update_max_data, ReadRound, returns, eof, was_reset, window, copy_out, wait, read_round, close,
}
use quic_test.Stream.Pending.{find}

abbrev pub bytes_of : ReadRound → Bytes
bytes_of (returns bs) = bs
bytes_of _ = []

-- Bytes that are read move from the buffer to what has been read.
read-Holds :
    (sent : ℕ → ℕ) (s : Stream) (n : ℕ)
    → n ≤ length s.read_buf
    → Holds sent s
    → Holds sent (record s { read_buf = drop n s.read_buf; read_offset = add64 s.read_offset n })
unfolding Holds IsPiece
read-Holds sent s n few ((piece, short), edge, waiting) =
    let o : add64 s.read_offset n ≡ s.read_offset + n = omega arith in
    let l : length (drop n s.read_buf) ≡ length s.read_buf - n = length-drop n s.read_buf in
    (
      (
        rw (o, l) (ap (drop n) piece ∙ drop-slice sent s.read_offset n (length s.read_buf) few),
        rw (o, l) (omega arith),
      ),
      rw (o, l) (omega arith),
      waiting,
    )

read-slice :
    (sent : ℕ → ℕ) (s : Stream) (out : Bytes) (n : ℕ)
    → n ≤ length s.read_buf
    → Holds sent s
    → out ≡ slice sent 0 s.read_offset
    → out ++ take n s.read_buf ≡ slice sent 0 (add64 s.read_offset n)
unfolding Holds IsPiece
read-slice sent s out n few ((piece, short), edge, waiting) e =
    let o : add64 s.read_offset n ≡ s.read_offset + n = omega arith in
    let t : take n s.read_buf ≡ slice sent s.read_offset n =
      ap (take n) piece ∙ take-slice sent s.read_offset n (length s.read_buf) few in
    let z : 0 + s.read_offset ≡ s.read_offset = omega arith in
    rw (o, t, e) (sym (rw z at (slice-append sent 0 s.read_offset n)))

-- What Read has returned is the data up to the offset that is read next.
abbrev IsDelivered : (ℕ → ℕ) → Stream → Bytes → Type 0
IsDelivered sent s out = Holds sent s × (out ≡ slice sent 0 s.read_offset)

limit-IsDelivered :
    (sent : ℕ → ℕ) (s : Stream) (out : Bytes) (v : ℕ)
    → IsDelivered sent s out
    → IsDelivered sent (record s { read_max_data = v }) (out ++ [])
unfolding Holds
limit-IsDelivered sent s out v (h, e) = rw (append-nil out) (h, e)

-- The round of Read, after it or before.
IsRead : (ℕ → ℕ) → Bytes → Stream × ReadRound → Type 0
IsRead sent out r = IsDelivered sent r.0 (out ++ bytes_of r.1)

copy_out-IsRead :
    (sent : ℕ → ℕ) (s : Stream) (out : Bytes) (size : ℕ)
    → IsDelivered sent s out
    → IsRead sent out (copy_out s size)
unfolding copy_out IsRead
copy_out-IsRead sent s out size (h, e) =
    let few : min size (length s.read_buf) ≤ length s.read_buf = omega arith in
    (read-Holds sent s _ few h, read-slice sent s out _ few h e)

wait-IsRead :
    (sent : ℕ → ℕ) (s : Stream) (out : Bytes) → IsDelivered sent s out → IsRead sent out (wait s)
unfolding wait IsRead Holds
wait-IsRead sent s out h = elim (Bool-cases (lt_int64 0 s.reassembly_offset)) [
  | inl e ↦ rw e (limit-IsDelivered sent s out (add64 s.read_max_data window) h)
  | inr e ↦ rw e (limit-IsDelivered sent s out s.read_max_data h)
]

idle-IsRead :
    (sent : ℕ → ℕ) (s : Stream) (out : Bytes) (r : ReadRound)
    → bytes_of r ≡ []
    → IsDelivered sent s out
    → IsRead sent out (s, r)
unfolding IsRead
idle-IsRead sent s out r e h = rw (e, append-nil out) h

read_round-IsRead :
    (sent : ℕ → ℕ) (s : Stream) (out : Bytes) (size : ℕ)
    → IsDelivered sent s out
    → IsRead sent out (read_round s size)
unfolding read_round
read_round-IsRead sent s out size h =
    let P : Stream × ReadRound → Type 0 = IsRead sent out in
    let no_data = length s.read_buf == 0 in
    if-cases P (s.fin_read && no_data) (λ _. idle-IsRead sent s out eof refl h)
      (λ _.
        if-cases P s.reset (λ _. idle-IsRead sent s out was_reset refl h)
          (λ _.
            if-cases P (s.closed && no_data) (λ _. idle-IsRead sent s out eof refl h)
              (λ _.
                if-cases P (not no_data) (λ _. copy_out-IsRead sent s out size h)
                  (λ _. wait-IsRead sent s out h))))

flush_chunks-offset : (n : ℕ) (s : Stream) → (flush_chunks n s).read_offset ≡ s.read_offset
unfolding flush_chunks
flush_chunks-offset zero s = refl
flush_chunks-offset (suc n) s = elim (Option-cases (find s.reassembly_offset s.pending)) [
  | inl e ↦ rw (flush_chunks-stop (suc n) s e) refl
  | inr (chunk, e) ↦ rw (flush_chunks-next n s chunk e) (flush_chunks-offset n (next_chunk s chunk))
]

try_flush_pending-offset : (s : Stream) → (try_flush_pending s).read_offset ≡ s.read_offset
unfolding try_flush_pending
try_flush_pending-offset s = ground (arith, flush_chunks-offset (length s.pending) s)

handle_stream_data-offset :
    (s : Stream) (offset : ℕ) (input : Bytes) (fin : Bool)
    → (handle_stream_data s offset input fin).0.read_offset ≡ s.read_offset
unfolding handle_stream_data update_window
handle_stream_data-offset s offset input fin = ground (
  arith,
  try_flush_pending-offset s,
  try_flush_pending-offset (in_order s (add64 offset (length input)) input fin),
)

-- What can happen to a stream that is not reset, with what Read has returned so far: a frame with a
-- piece of the data comes in, in any order and any number of times, a new limit comes in, the reader
-- calls Read, the stream is closed for writing.
pub data Run (sent : ℕ → ℕ) : Stream → Bytes → Type 0 where
  start : (stream_id : ℕ) → Run sent (new_stream stream_id) []
  receive :
      {s : Stream} {out : Bytes} (offset : ℕ) (input : Bytes) (fin : Bool)
      → IsPiece sent offset input
      → Run sent s out
      → Run sent (handle_stream_data s offset input fin).0 out
  limit :
      {s : Stream} {out : Bytes} (max_data : ℕ)
      → Run sent s out
      → Run sent (update_max_data s max_data) out
  read :
      {s : Stream} {out : Bytes} (size : ℕ)
      → Run sent s out
      → Run sent (read_round s size).0 (out ++ bytes_of (read_round s size).1)
  shut : {s : Stream} {out : Bytes} → Run sent s out → Run sent (close s).0 out

start-IsDelivered : (sent : ℕ → ℕ) (stream_id : ℕ) → IsDelivered sent (new_stream stream_id) []
unfolding Holds IsPiece slice new_stream
start-IsDelivered sent stream_id = ((((refl, omega arith), refl, tt)), refl)

Run-IsDelivered :
    (sent : ℕ → ℕ) (s : Stream) (out : Bytes) → Run sent s out → IsDelivered sent s out
unfolding Holds update_max_data close IsRead
Run-IsDelivered sent _ _ (start stream_id) = start-IsDelivered sent stream_id
Run-IsDelivered sent _ _ (receive {s} {out} offset input fin piece r) =
    let (h, e) = Run-IsDelivered sent s out r in
    (
      handle_stream_data-Holds sent s offset input fin h piece,
      rw (handle_stream_data-offset s offset input fin) e,
    )
Run-IsDelivered sent _ _ (limit {s} {out} max_data r) =
    let d = Run-IsDelivered sent s out r in
    if-cases (λ t. IsDelivered sent t out) (lt_int64 s.max_data max_data) (λ _. d) (λ _. d)
Run-IsDelivered sent _ _ (read {s} {out} size r) =
    read_round-IsRead sent s out size (Run-IsDelivered sent s out r)
Run-IsDelivered sent _ _ (shut {s} {out} r) = elim (Bool-cases s.fin_sent) [
  | inl e ↦ rw e (Run-IsDelivered sent s out r)
  | inr e ↦ rw e (Run-IsDelivered sent s out r)
]

-- However the pieces of a peer's data come in, repeated, overlapping or out of order, what Read has
-- returned since the stream began is a beginning of that data, and so is what Read has returned
-- with what is left in the buffer. This is for pieces that end below 2 ^ 63, and up to a reset.
pub Run-delivers :
    (sent : ℕ → ℕ) (s : Stream) (out : Bytes)
    → Run sent s out
    → (out ≡ slice sent 0 (length out)) × (out ++ s.read_buf ≡ slice sent 0 s.reassembly_offset)
unfolding Holds IsPiece
Run-delivers sent s out r =
    let (((piece, short), edge, waiting), e) = Run-IsDelivered sent s out r in
    let n : length out ≡ s.read_offset = ap length e ∙ length-slice sent 0 s.read_offset in
    let z : 0 + s.read_offset ≡ s.read_offset = omega arith in
    let joined = rw z at (slice-append sent 0 s.read_offset (length s.read_buf)) in
    (
      e ∙ ap (slice sent 0) (sym n),
      ap₂ (λ (x y : Bytes). x ++ y) e piece ∙ sym joined ∙ ap (slice sent 0) edge,
    )
