-- ===== src/Connection/AckRanges/Shape.antt =====
-- The shape of the ranges of buildAckRanges.
use quic_test.Prelude.{
  ℕ, zero, suc, ◌+◌, ◌^◌, ◌≤◌, ◌≡◌, refl, true, false, List, [], ◌∷◌, arith, ◌==◌, if-cases, length,
  take, All, length-take, sub64, lt_int64,
}
use quic_test.Wire.Ack.{AckRange}
use quic_test.Wire.Encodable.{IsRange, Descends}
use quic_test.Connection.AckRanges.{
  inner_loop, outer_loop, sort_packet_numbers, grow_ranges, all_ranges, build_ack_ranges,
}
use quic_test.Connection.AckRanges.Sorting.{IsNumber, sort-All}

-- What the tests of the loop mean, which compute `Smallest - 1` as an int64.
pub is_before : (p s : ℕ) → IsNumber p → IsNumber s → p == sub64 s 1 ≡ true → s ≡ suc p
is_before p s h k e = ground arith

pub lies_before : (p s : ℕ) → IsNumber p → IsNumber s → lt_int64 p (sub64 s 1) ≡ true → p + 2 ≤ s
lies_before p s h k e = ground arith

pub lies_within :
    (p s : ℕ)
    → IsNumber p
    → IsNumber s
    → p == sub64 s 1 ≡ false
    → lt_int64 p (sub64 s 1) ≡ false
    → s ≤ p
lies_within p s h k e d = ground arith

grow_ranges-Descends :
    (prev current : AckRange) (ps : List ℕ)
    → current.smallest ≤ current.largest
    → current.largest + 2 ≤ prev.smallest
    → prev.smallest ≤ 2 ^ 62 + 1
    → All IsNumber ps
    → Descends prev (grow_ranges current ps)
unfolding grow_ranges
grow_ranges-Descends prev current [] h below top hs = (h, below, tt)
grow_ranges-Descends prev current (p ∷ ps) h below top (n, hs) =
    if-cases (Descends prev) (p == sub64 current.smallest 1)
      (λ e.
        let next : current.smallest ≡ suc p = is_before p current.smallest n (omega arith) e in
        grow_ranges-Descends prev (record current { smallest = p }) ps (omega arith) below top hs)
      (λ _.
        if-cases (Descends prev) (lt_int64 p (sub64 current.smallest 1))
          (λ e. (
            h,
            below,
            grow_ranges-Descends current (record { smallest = p; largest = p }) ps (omega arith)
                (lies_before p current.smallest n (omega arith) e) (omega arith) hs,
          ))
          (λ _. grow_ranges-Descends prev current ps h below top hs))

Descends-take :
    (prev : AckRange) (n : ℕ) (rs : List AckRange) → Descends prev rs → Descends prev (take n rs)
Descends-take prev zero rs h = tt
Descends-take prev (suc n) [] h = tt
Descends-take prev (suc n) (r ∷ rs) (a, b, h) = (a, b, Descends-take r n rs h)

grow_ranges_some : (current : AckRange) (ps : List ℕ) → 1 ≤ length (grow_ranges current ps)
unfolding grow_ranges
grow_ranges_some current [] = omega arith
grow_ranges_some current (p ∷ ps) =
    ground
      (arith, grow_ranges_some (record current { smallest = p }) ps, grow_ranges_some current ps)

-- A bound above every packet number, as if it were the range before the first.
abbrev above : AckRange
above = record { smallest = 2 ^ 62 + 1; largest = 2 ^ 62 + 1 }

first_five :
    (rs : List AckRange)
    → 1 ≤ length rs
    → Descends above rs
    → (r : AckRange) × (more : List AckRange) × (take 5 rs ≡ r ∷ more)
      × IsRange r
      × Descends r more
      × (length more ≤ 4)
first_five [] e h = absurd (omega arith)
first_five (r ∷ rs) e (a, b, h) =
    (r, take 4 rs, refl, (a, omega arith), Descends-take r 4 rs h, omega (arith, length-take 4 rs))

-- The ranges of buildAckRanges are those of an ACK frame that the wire format can carry: at most
-- five, falling, with a gap between any two, and there is one when a packet came in.
-- (Packet numbers below 2 ^ 62.)
pub build_ack_ranges-Descends :
    (p : ℕ) (packets : List ℕ)
    → All IsNumber (p ∷ packets)
    → (r : AckRange) × (rs : List AckRange) × (build_ack_ranges (p ∷ packets) ≡ r ∷ rs)
      × IsRange r
      × Descends r rs
      × (length rs ≤ 4)
unfolding build_ack_ranges sort_packet_numbers outer_loop all_ranges
build_ack_ranges-Descends p packets n =
    let top = (inner_loop p packets).0 in
    let sorted = outer_loop (length packets) (inner_loop p packets).1 in
    let start : AckRange = record { smallest = top; largest = top } in
    let (m, ms) = sort-All IsNumber (p ∷ packets) n in
    first_five (grow_ranges start sorted) (grow_ranges_some start sorted)
      (grow_ranges-Descends above start sorted (omega arith) (omega arith) (omega arith) ms)
