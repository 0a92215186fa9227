-- ===== src/Connection/Pipe/Chunks.antt =====
-- The chunks that Write has sent, as they come in.
use quic_test.Prelude.{
  ℕ, zero, suc, ◌+◌, ◌^◌, ◌≤◌, ◌<◌, ◌≡◌, refl, sym, ap, ◌∙◌, true, false, List, [], ◌∷◌, ◌++◌,
  arith, length, All, length-append, take_all, Bytes,
}
use quic_test.Stream.{Stream, new_stream, handle_stream_data}
use quic_test.Stream.Slice.{slice}
use quic_test.Stream.Invariant.{IsPiece}
use quic_test.Stream.Delivery.{Run, start, receive, Run-delivers}
use quic_test.Stream.Segments.{is_in, IsCut}
use quic_test.Stream.Completion.{Received, begun, came, Received-complete}
use quic_test.Connection.Pipe.Slices.{slice-here, byte_at, slice-later, before_end}

-- The chunks, one behind the other.
abbrev pub concat : List Bytes → Bytes
concat [] = []
concat (c ∷ cs) = c ++ concat cs

-- Where a chunk starts, and what it is.
abbrev pub start_of : List Bytes → ℕ → ℕ
start_of [] i = 0
start_of (c ∷ cs) zero = 0
start_of (c ∷ cs) (suc i) = length c + start_of cs i

abbrev pub chunk_of : List Bytes → ℕ → Bytes
chunk_of [] i = []
chunk_of (c ∷ cs) zero = c
chunk_of (c ∷ cs) (suc i) = chunk_of cs i

abbrev pub count : List Bytes → ℕ
count [] = 0
count (c ∷ cs) = suc (count cs)

abbrev pub AllFilled : List Bytes → Type 0
AllFilled cs = All (λ (c : Bytes). 1 ≤ length c) cs

start_of-zero : (cs : List Bytes) → start_of cs 0 ≡ 0
start_of-zero [] = refl
start_of-zero (c ∷ cs) = refl

start_of-next :
    (cs : List Bytes) (i : ℕ)
    → i < count cs
    → start_of cs (suc i) ≡ start_of cs i + length (chunk_of cs i)
start_of-next [] i l = absurd (omega (arith, l))
start_of-next (c ∷ cs) zero l = omega (arith, start_of-zero cs)
start_of-next (c ∷ cs) (suc i) l = omega (arith, start_of-next cs i (omega (arith, l)))

start_of-count : (cs : List Bytes) → start_of cs (count cs) ≡ length (concat cs)
start_of-count [] = refl
start_of-count (c ∷ cs) = omega (arith, start_of-count cs, length-append c (concat cs))

chunk_filled : (cs : List Bytes) (i : ℕ) → AllFilled cs → i < count cs → 0 < length (chunk_of cs i)
chunk_filled [] i h l = absurd (omega (arith, l))
chunk_filled (c ∷ cs) zero h l = omega (arith, h.0)
chunk_filled (c ∷ cs) (suc i) h l = chunk_filled cs i h.1 (omega (arith, l))

chunks-IsCut :
    (cs : List Bytes)
    → AllFilled cs
    → length (concat cs) < 2 ^ 63
    → IsCut (start_of cs) (chunk_of cs) (count cs)
chunks-IsCut cs filled short = record {
  first = start_of-zero cs;
  next = λ i l. ap (start_of cs) (omega arith) ∙ start_of-next cs i l;
  filled = λ i l. chunk_filled cs i filled l;
  short = omega (arith, start_of-count cs, short);
}

slice-behind :
    (d : ℕ) (c xs : Bytes) (o n : ℕ)
    → slice (byte_at d (c ++ xs)) (length c + o) n ≡ slice (byte_at d xs) o n
slice-behind d [] xs o n = ap (λ (k : ℕ). slice (byte_at d xs) k n) (omega arith)
slice-behind d (x ∷ c) xs o n =
    ap (λ (k : ℕ). slice (byte_at d (x ∷ (c ++ xs))) k n) (omega arith)
    ∙ slice-later d x (c ++ xs) (length c + o) n
    ∙ slice-behind d c xs o n

chunk-slice :
    (d : ℕ) (cs : List Bytes) (i : ℕ)
    → i < count cs
    → slice (byte_at d (concat cs)) (start_of cs i) (length (chunk_of cs i)) ≡ chunk_of cs i
chunk-slice d [] i l = absurd (omega (arith, l))
chunk-slice d (c ∷ cs) zero l = slice-here d c (concat cs)
chunk-slice d (c ∷ cs) (suc i) l =
    slice-behind d c (concat cs) (start_of cs i) (length (chunk_of cs i))
    ∙ chunk-slice d cs i (omega (arith, l))

chunk_end :
    (cs : List Bytes) (i : ℕ)
    → i < count cs
    → start_of cs i + length (chunk_of cs i) ≤ length (concat cs)
chunk_end [] i l = absurd (omega (arith, l))
chunk_end (c ∷ cs) zero l = omega (arith, length-append c (concat cs))
chunk_end (c ∷ cs) (suc i) l =
    omega (arith, chunk_end cs i (omega (arith, l)), length-append c (concat cs))

-- A new stream where chunks have come in, by their places; the last one stands first.
abbrev pub arrive : ℕ → List Bytes → List ℕ → Stream
arrive id cs [] = new_stream id
arrive id cs (i ∷ got) =
    (handle_stream_data (arrive id cs got) (start_of cs i) (chunk_of cs i) false).0

module _ (cs : List Bytes) (filled : AllFilled cs) (short : length (concat cs) < 2 ^ 63) where
  Received-Run :
      (d : ℕ) (got : List ℕ) (s : Stream)
      → Received (start_of cs) (chunk_of cs) (count cs) (chunks-IsCut cs filled short) got s
      → Run (byte_at d (concat cs)) s []
  unfolding IsPiece
  Received-Run d _ _ (begun id) = start id
  Received-Run d _ _ (came {got} {s} i l r) =
      receive (start_of cs i) (chunk_of cs i) false
        (sym (chunk-slice d cs i l), omega (arith, chunk_end cs i l, short))
        (Received-Run d got s r)

  Received-whole :
      (got : List ℕ) (s : Stream)
      → Received (start_of cs) (chunk_of cs) (count cs) (chunks-IsCut cs filled short) got s
      → ((i : ℕ) → i < count cs → is_in i got ≡ true)
      → s.read_buf ≡ concat cs
  Received-whole got s r every =
      let all =
        Received-complete (start_of cs) (chunk_of cs) (count cs) (chunks-IsCut cs filled short) got
          s r every in
      let (low, low_all) = Run-delivers (byte_at 0 (concat cs)) s [] (Received-Run 0 got s r) in
      let (high, high_all) = Run-delivers (byte_at 1 (concat cs)) s [] (Received-Run 1 got s r) in
      low_all
      ∙ before_end (concat cs) s.reassembly_offset (sym low_all ∙ high_all)
      ∙ take_all s.reassembly_offset (concat cs) (omega (arith, all, start_of-count cs))

  arrive-Received :
      (id : ℕ) (got : List ℕ)
      → All (λ (i : ℕ). i < count cs) got
      → Received
          (start_of cs)
          (chunk_of cs)
          (count cs)
          (chunks-IsCut cs filled short)
          got
          (arrive id cs got)
  arrive-Received id [] h = begun id
  arrive-Received id (i ∷ got) h = came i h.0 (arrive-Received id got h.1)

  -- When every chunk has come in, the reader has all the bytes.
  pub arrive-whole :
      (id : ℕ) (got : List ℕ)
      → All (λ (i : ℕ). i < count cs) got
      → ((i : ℕ) → i < count cs → is_in i got ≡ true)
      → (arrive id cs got).read_buf ≡ concat cs
  arrive-whole id got small every =
      Received-whole got (arrive id cs got) (arrive-Received id got small) every
