-- ===== src/Connection/AckRanges/Covering.antt =====
-- Which packets the ranges of buildAckRanges acknowledge.
use quic_test.Prelude.{
  ℕ, suc, ◌≤◌, ◌≡◌, refl, subst, ◌⊎◌, inl, inr, List, [], ◌∷◌, arith, leb, ◌==◌, Bool-cases,
  if-cases, length, take, All, take_all, All-take, sub64, lt_int64,
}
use quic_test.Wire.Ack.{AckRange}
use quic_test.Wire.Encodable.{IsRange}
use quic_test.Connection.AckRanges.{sort_packet_numbers, grow_ranges, all_ranges, build_ack_ranges}
use quic_test.Connection.AckRanges.Shape.{is_before, lies_within}
use quic_test.Connection.AckRanges.Sorting.{
  IsNumber, AtMost, IsIn, Falls, sort-All, sort-Falls, sort-IsIn,
}

abbrev pub IsWithin : ℕ → AckRange → Type 0
IsWithin q r = (r.smallest ≤ q) × (q ≤ r.largest)

-- A number is acknowledged when one of the ranges has it.
unfoldable pub IsCovered : ℕ → List AckRange → Type 0
IsCovered q [] = ⊥
IsCovered q (r ∷ rs) = IsWithin q r ⊎ IsCovered q rs

IsFull : (ℕ → Type 0) → AckRange → Type 0
IsFull P r = (q : ℕ) → IsWithin q r → P q

module _ (P : ℕ → Type 0) where
  grow_ranges-IsFull :
      (current : AckRange) (ps : List ℕ)
      → IsRange current
      → All IsNumber ps
      → IsFull P current
      → All P ps
      → All (IsFull P) (grow_ranges current ps)
  unfolding grow_ranges IsFull
  grow_ranges-IsFull current [] r n full h = (full, tt)
  grow_ranges-IsFull current (p ∷ ps) r (n, ns) full (k, h) =
      let alone : IsFull P (record { smallest = p; largest = p }) =
        λ q w. let e : p ≡ q = omega arith in subst P e k in
      if-cases (All (IsFull P)) (p == sub64 current.smallest 1)
        (λ e.
          let next : current.smallest ≡ suc p = is_before p current.smallest n (omega arith) e in
          grow_ranges-IsFull (record current { smallest = p }) ps (omega arith, r.1) ns
            (λ q w. elim (Bool-cases (leb current.smallest q)) [
              | inl old ↦ full q (ground arith, w.1)
              | inr new ↦ alone q (w.0, ground arith)
            ])
            h)
        (λ _.
          if-cases (All (IsFull P)) (lt_int64 p (sub64 current.smallest 1))
            (λ _. (
              full,
              grow_ranges-IsFull (record { smallest = p; largest = p }) ps (omega arith, n) ns alone
                  h,
            ))
            (λ _. grow_ranges-IsFull current ps r ns full h))

grow_ranges-covers :
    (q : ℕ) (current : AckRange) (ps : List ℕ)
    → IsRange current
    → All IsNumber ps
    → All (AtMost current.largest) ps
    → Falls ps
    → IsWithin q current ⊎ IsIn q ps
    → IsCovered q (grow_ranges current ps)
unfolding grow_ranges IsCovered IsIn Falls
grow_ranges-covers q current [] r n low f (inl w) = inl w
grow_ranges-covers q current [] r n low f (inr m) = absurd m
grow_ranges-covers q current (p ∷ ps) r (n, ns) (l, low) (g, f) m =
    if-cases (IsCovered q) (p == sub64 current.smallest 1)
      (λ e.
        let next : current.smallest ≡ suc p = is_before p current.smallest n (omega arith) e in
        grow_ranges-covers q (record current { smallest = p }) ps (omega arith, r.1) ns low f
          (elim m [
            | inl w ↦ inl (omega arith, w.1)
            | inr (inl q≡p) ↦ inl (omega arith, omega arith)
            | inr (inr k) ↦ inr k
          ]))
      (λ d.
        if-cases (IsCovered q) (lt_int64 p (sub64 current.smallest 1))
          (λ _.
            let fresh =
              grow_ranges-covers q (record { smallest = p; largest = p }) ps (omega arith, n) ns g
                f in
            elim m [
              | inl w ↦ inl w
              | inr (inl q≡p) ↦ inr (fresh (inl (omega arith, omega arith)))
              | inr (inr k) ↦ inr (fresh (inr k))
            ])
          (λ e.
            let within = lies_within p current.smallest n (omega arith) d e in
            grow_ranges-covers q current ps r ns low f (elim m [
              | inl w ↦ inl w
              | inr (inl q≡p) ↦ inl (omega arith, omega arith)
              | inr (inr k) ↦ inr k
            ])))

IsCovered-IsFull :
    (P : ℕ → Type 0) (q : ℕ) (rs : List AckRange) → All (IsFull P) rs → IsCovered q rs → P q
unfolding IsCovered IsFull
IsCovered-IsFull P q [] h c = absurd c
IsCovered-IsFull P q (r ∷ rs) (full, h) (inl w) = full q w
IsCovered-IsFull P q (r ∷ rs) (full, h) (inr c) = IsCovered-IsFull P q rs h c

IsFull-all_ranges :
    (P : ℕ → Type 0) (ps : List ℕ) → All IsNumber ps → All P ps → All (IsFull P) (all_ranges ps)
unfolding all_ranges IsFull
IsFull-all_ranges P [] n h = tt
IsFull-all_ranges P (p ∷ ps) (n, ns) (k, h) =
    grow_ranges-IsFull P (record { smallest = p; largest = p }) ps (omega arith, n) ns
      (λ q w. let e : p ≡ q = omega arith in subst P e k) h

IsIn-self : (ps : List ℕ) → All (λ q. IsIn q ps) ps
unfolding IsIn
IsIn-self ps = weaken ps (λ _ m. m)
  where
    weaken : {R : ℕ → Type 0} (qs : List ℕ) → ((q : ℕ) → IsIn q qs → R q) → All R qs
    weaken [] f = tt
    weaken (q ∷ qs) f = (f q (inl refl), weaken qs (λ p m. f p (inr m)))

all_ranges-covers :
    (q : ℕ) (ps : List ℕ) → All IsNumber ps → Falls ps → IsIn q ps → IsCovered q (all_ranges ps)
unfolding all_ranges IsIn Falls
all_ranges-covers q [] n f m = absurd m
all_ranges-covers q (p ∷ ps) (n, ns) (g, f) m =
    grow_ranges-covers q (record { smallest = p; largest = p }) ps (omega arith, n) ns g f
      (elim m [ inl e ↦ inl (omega arith, omega arith) | inr k ↦ inr k ])

-- buildAckRanges acknowledges only packets that came in. (Packet numbers below 2 ^ 62, in any order,
-- with repetitions.)
pub build_ack_ranges_sound :
    (packets : List ℕ) (q : ℕ)
    → All IsNumber packets
    → IsCovered q (build_ack_ranges packets)
    → IsIn q packets
unfolding build_ack_ranges
build_ack_ranges_sound packets q n c =
    let sorted = sort_packet_numbers packets in
    let P : ℕ → Type 0 = λ p. IsIn p packets in
    let full =
      IsFull-all_ranges P sorted (sort-All IsNumber packets n)
        (sort-All P packets (IsIn-self packets)) in
    IsCovered-IsFull P q (take 5 (all_ranges sorted))
      (All-take (IsFull P) 5 (all_ranges sorted) full) c

pub build_ack_ranges_complete :
    (packets : List ℕ) (q : ℕ)
    → All IsNumber packets
    → length (all_ranges (sort_packet_numbers packets)) ≤ 5
    → IsIn q packets
    → IsCovered q (build_ack_ranges packets)
unfolding build_ack_ranges
build_ack_ranges_complete packets q n few m =
    let sorted = sort_packet_numbers packets in
    rw (take_all 5 (all_ranges sorted) few) (
      all_ranges-covers q sorted (sort-All IsNumber packets n) (sort-Falls packets n)
        (sort-IsIn q packets m))
