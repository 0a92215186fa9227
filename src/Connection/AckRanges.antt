-- ===== src/Connection/AckRanges.antt =====
-- buildAckRanges and sortPacketNumbers: the ACK ranges for the packet numbers that came in.
pub mod Sorting
pub mod Shape
pub mod Covering
use quic_test.Prelude.{
  ℕ, zero, suc, List, [], ◌∷◌, ◌==◌, if◌then◌else◌, length, take, sub64, lt_int64,
}
use quic_test.Wire.Ack.{AckRange}

-- One round of the outer loop: `top` stands at i, the list behind it; the number that ends at i, and
-- what is behind it then.
unfoldable pub inner_loop : ℕ → List ℕ → ℕ × List ℕ
inner_loop top [] = (top, [])
inner_loop top (p ∷ ps) =
    let swapped = inner_loop p ps in
    let kept = inner_loop top ps in
    if lt_int64 top p then (swapped.0, top ∷ swapped.1) else (kept.0, p ∷ kept.1)

unfoldable pub outer_loop : ℕ → List ℕ → List ℕ
unfolding inner_loop
outer_loop zero ps = []
outer_loop (suc n) [] = []
outer_loop (suc n) (p ∷ ps) = let round = inner_loop p ps in round.0 ∷ outer_loop n round.1

unfoldable pub sort_packet_numbers : List ℕ → List ℕ
unfolding outer_loop
sort_packet_numbers ps = outer_loop (length ps) ps

-- The loop over the sorted numbers, with currentRange: the ranges that it appends from there on.
unfoldable pub grow_ranges : AckRange → List ℕ → List AckRange
grow_ranges current [] = current ∷ []
grow_ranges current (p ∷ ps) =
    let before = sub64 current.smallest 1 in
    let longer = grow_ranges (record current { smallest = p }) ps in
    let fresh = grow_ranges (record { smallest = p; largest = p }) ps in
    let same = grow_ranges current ps in
    if p == before then longer else if lt_int64 p before then current ∷ fresh else same

unfoldable pub all_ranges : List ℕ → List AckRange
unfolding grow_ranges
all_ranges [] = []
all_ranges (p ∷ ps) = grow_ranges (record { smallest = p; largest = p }) ps

unfoldable pub build_ack_ranges : List ℕ → List AckRange
unfolding sort_packet_numbers all_ranges
build_ack_ranges packets = take 5 (all_ranges (sort_packet_numbers packets))
