-- ===== src/Connection/AckRanges/Sorting.antt =====
-- The exchange sort of sortPacketNumbers.
use quic_test.Prelude.{
  ℕ, zero, suc, ◌^◌, ◌≤◌, ◌<◌, ◌≡◌, refl, ◌⊎◌, inl, inr, List, [], ◌∷◌, arith, if-cases, length,
  All, lt_int64,
}
use quic_test.Connection.AckRanges.{inner_loop, outer_loop, sort_packet_numbers}

abbrev pub IsNumber : ℕ → Type 0
IsNumber p = p < 2 ^ 62

unfoldable pub IsIn : ℕ → List ℕ → Type 0
IsIn p [] = ⊥
IsIn p (q ∷ qs) = (p ≡ q) ⊎ IsIn p qs

abbrev pub AtMost : ℕ → ℕ → Type 0
AtMost top p = p ≤ top

-- Every number is at most the one before it.
unfoldable pub Falls : List ℕ → Type 0
Falls [] = Unit {0}
Falls (p ∷ ps) = All (AtMost p) ps × Falls ps

module _ (P : ℕ → Type 0) where
  inner_loop-All :
      (top : ℕ) (ps : List ℕ)
      → P top
      → All P ps
      → P (inner_loop top ps).0 × All P (inner_loop top ps).1
  unfolding inner_loop
  inner_loop-All top [] h hs = (h, hs)
  inner_loop-All top (p ∷ ps) h (k, hs) =
      if-cases (λ (r : ℕ × List ℕ). P r.0 × All P r.1) (lt_int64 top p)
        (λ _. let (a, b) = inner_loop-All p ps k hs in (a, (h, b)))
        (λ _. let (a, b) = inner_loop-All top ps h hs in (a, (k, b)))

  outer_loop-All : (n : ℕ) (ps : List ℕ) → All P ps → All P (outer_loop n ps)
  unfolding outer_loop
  outer_loop-All zero ps h = tt
  outer_loop-All (suc n) [] h = tt
  outer_loop-All (suc n) (p ∷ ps) (h, hs) =
      let (a, b) = inner_loop-All p ps h hs in (a, outer_loop-All n (inner_loop p ps).1 b)

  -- What all the numbers have, all the sorted ones have.
  pub sort-All : (ps : List ℕ) → All P ps → All P (sort_packet_numbers ps)
  unfolding sort_packet_numbers
  sort-All ps h = outer_loop-All (length ps) ps h

All-AtMost : (a b : ℕ) (ps : List ℕ) → a ≤ b → All (AtMost a) ps → All (AtMost b) ps
All-AtMost a b [] h hs = tt
All-AtMost a b (p ∷ ps) h (k, hs) = (omega arith, All-AtMost a b ps h hs)

abbrev IsTop : ℕ → ℕ × List ℕ → Type 0
IsTop top r = (top ≤ r.0) × All (AtMost r.0) r.1

inner_loop-IsTop :
    (top : ℕ) (ps : List ℕ) → IsNumber top → All IsNumber ps → IsTop top (inner_loop top ps)
unfolding inner_loop
inner_loop-IsTop top [] h hs = (omega arith, tt)
inner_loop-IsTop top (p ∷ ps) h (k, hs) =
    let (a, b) = inner_loop-IsTop p ps k hs in
    let (c, d) = inner_loop-IsTop top ps h hs in
    if-cases (λ (r : ℕ × List ℕ). IsTop top r) (lt_int64 top p)
      (λ e. (ground arith, (ground arith, b))) (λ e. (c, (ground arith, d)))

length-inner_loop : (top : ℕ) (ps : List ℕ) → length (inner_loop top ps).1 ≡ length ps
unfolding inner_loop
length-inner_loop top [] = refl
length-inner_loop top (p ∷ ps) = ground (arith, length-inner_loop p ps, length-inner_loop top ps)

outer_loop-Falls : (n : ℕ) (ps : List ℕ) → All IsNumber ps → Falls (outer_loop n ps)
unfolding outer_loop Falls
outer_loop-Falls zero ps h = tt
outer_loop-Falls (suc n) [] h = tt
outer_loop-Falls (suc n) (p ∷ ps) (h, hs) =
    let r = inner_loop p ps in
    let (a, b) = inner_loop-IsTop p ps h hs in
    let (c, d) = inner_loop-All IsNumber p ps h hs in
    (outer_loop-All (AtMost r.0) n r.1 b, outer_loop-Falls n r.1 d)

pub sort-Falls : (ps : List ℕ) → All IsNumber ps → Falls (sort_packet_numbers ps)
unfolding sort_packet_numbers
sort-Falls ps h = outer_loop-Falls (length ps) ps h

inner_loop-IsIn :
    (q top : ℕ) (ps : List ℕ)
    → IsIn q (top ∷ ps)
    → IsIn q ((inner_loop top ps).0 ∷ (inner_loop top ps).1)
unfolding inner_loop IsIn
inner_loop-IsIn q top [] h = h
inner_loop-IsIn q top (p ∷ ps) h =
    if-cases (λ (r : ℕ × List ℕ). IsIn q (r.0 ∷ r.1)) (lt_int64 top p)
      (λ _. swap q top _ _ (
        first q top (p ∷ ps) ((inner_loop p ps).0 ∷ (inner_loop p ps).1) h
          (inner_loop-IsIn q p ps)))
      (λ _. swap q p _ _ (
        first q p (top ∷ ps) ((inner_loop top ps).0 ∷ (inner_loop top ps).1) (swap q top p ps h)
          (inner_loop-IsIn q top ps)))
  where
    swap : (q a b : ℕ) (rs : List ℕ) → IsIn q (a ∷ b ∷ rs) → IsIn q (b ∷ a ∷ rs)
    swap q a b rs (inl e) = inr (inl e)
    swap q a b rs (inr (inl e)) = inl e
    swap q a b rs (inr (inr m)) = inr (inr m)

    first : (q a : ℕ) (rs ss : List ℕ) → IsIn q (a ∷ rs) → (IsIn q rs → IsIn q ss) → IsIn q (a ∷ ss)
    first q a rs ss (inl e) f = inl e
    first q a rs ss (inr m) f = inr (f m)

outer_loop-IsIn : (q n : ℕ) (ps : List ℕ) → length ps ≤ n → IsIn q ps → IsIn q (outer_loop n ps)
unfolding outer_loop IsIn
outer_loop-IsIn q zero [] few m = m
outer_loop-IsIn q zero (p ∷ ps) few m = absurd (omega arith)
outer_loop-IsIn q (suc n) [] few m = m
outer_loop-IsIn q (suc n) (p ∷ ps) few m = elim (inner_loop-IsIn q p ps m) [
  | inl e ↦ inl e
  | inr k ↦ inr (outer_loop-IsIn q n (inner_loop p ps).1 (omega (arith, length-inner_loop p ps)) k)
]

-- The sort keeps every number.
pub sort-IsIn : (q : ℕ) (ps : List ℕ) → IsIn q ps → IsIn q (sort_packet_numbers ps)
unfolding sort_packet_numbers
sort-IsIn q ps m = outer_loop-IsIn q (length ps) ps (omega arith) m
