-- ===== src/Connection/Pipe/Pieces.antt =====
-- The frames that were sent, as pieces of what Write has taken.
use quic_test.Prelude.{
  ℕ, ◌+◌, ◌^◌, ◌<◌, sym, subst, inl, inr, false, List, [], ◌∷◌, ◌++◌, append_assoc, arith, ltb,
  if-cases, length, take, All, length-append, Bytes,
}
use quic_test.Stream.Invariant.{IsPiece}
use quic_test.Connection.State.{World}
use quic_test.Connection.Pipe.{
  Segment, Pipe, IsOneOf, Reaches, begin, writes, works, widens, cancels, closes, arrives, reads,
}
use quic_test.Connection.Pipe.Slices.{byte_at, no_bytes-IsPiece, taken-IsPiece}
use quic_test.Connection.Pipe.Window.{Reaches-InWindow}

-- Every frame that was sent has a piece of the data, whatever more is written later.
abbrev pub AllPieces : (ℕ → ℕ) → List Segment → Type 0
AllPieces sent frames = All (λ (f : Segment). IsPiece sent f.0 f.1) frames

pub one_of_pieces :
    (sent : ℕ → ℕ) (f : Segment) (frames : List Segment)
    → IsOneOf f frames
    → AllPieces sent frames
    → IsPiece sent f.0 f.1
one_of_pieces sent f [] m h = absurd m
one_of_pieces sent f (g ∷ gs) (inl e) (h, hs) =
    subst (λ (x : Segment). IsPiece sent x.0 x.1) (sym e) h
one_of_pieces sent f (g ∷ gs) (inr m) (h, hs) = one_of_pieces sent f gs m hs

module _ {S : Type 0} (w : World S) where
  pub Reaches-AllPieces :
      (d : ℕ) (p : Pipe S) (more : Bytes)
      → Reaches w p
      → AllPieces (byte_at d (p.accepted ++ more)) p.frames
  Reaches-AllPieces d _ more (begin c id) = tt
  Reaches-AllPieces d _ more (writes {p} now left c s n e r) =
      let h = Reaches-InWindow w p r in
      let k = Reaches-InWindow w _ (writes now left c s n e r) in
      let b = take n left in
      let known = Reaches-AllPieces d p (b ++ more) r in
      let small : length p.accepted + length b < 2 ^ 63 =
        omega (arith, k.within, k.limit, length-append p.accepted b) in
      let sent = byte_at d ((p.accepted ++ b) ++ more) in
      let same = sym (append_assoc p.accepted b more) in
      if-cases (λ (fs : List Segment). AllPieces sent fs) (ltb 0 n)
        (λ _.
          subst
            (λ (x : Bytes). AllPieces (byte_at d x) ((p.writer.write_offset, b, false) ∷ p.frames))
            same (rw h.offset (taken-IsPiece d p.accepted b more small), known))
        (λ _. subst (λ (x : Bytes). AllPieces (byte_at d x) p.frames) same known)
  Reaches-AllPieces d _ more (works {p} c r) = Reaches-AllPieces d p more r
  Reaches-AllPieces d _ more (widens {p} v small r) = Reaches-AllPieces d p more r
  Reaches-AllPieces d _ more (cancels {p} r) = Reaches-AllPieces d p more r
  Reaches-AllPieces d _ more (closes {p} r) =
      let h = Reaches-InWindow w p r in
      (
        no_bytes-IsPiece (byte_at d (p.accepted ++ more)) p.writer.write_offset
            (omega (arith, h.offset, h.within, h.limit)),
        Reaches-AllPieces d p more r,
      )
  Reaches-AllPieces d _ more (arrives {p} o b fin m r) = Reaches-AllPieces d p more r
  Reaches-AllPieces d _ more (reads {p} size r) = Reaches-AllPieces d p more r
