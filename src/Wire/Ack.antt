-- ===== src/Wire/Ack.antt =====
-- ack_frame.go. Packet numbers and durations are int64 patterns.
use quic_test.Prelude.{
  ℕ, zero, suc, ◌+◌, ◌-◌, ◌*◌, ◌/◌, ◌%◌, ◌^◌, ◌&&◌, not, List, [], ◌∷◌, ◌++◌, ltb, ◌==◌,
  if◌then◌else◌, length, Bytes, u64, add64, sub64, unexpected_eof, wrong_type, no_ranges, Result,
  ok, err, panics, ◌>>=◌,
}
use quic_test.Varint
use quic_test.Varint.{at}
use quic_test.Wire.Field.{next_varint}

pub record AckRange : Type 0 where
  pub smallest : ℕ
  pub largest : ℕ

pub record AckFrame : Type 0 where
  pub ack_ranges : List AckRange
  -- in nanoseconds
  pub delay_time : ℕ

-- AckRange.Len
unfoldable pub range_len : AckRange → ℕ
range_len r = add64 (sub64 r.largest r.smallest) 1

abbrev pub millisecond : ℕ
millisecond = 1000000

-- Duration.Milliseconds: int64(d) / 1e6, which truncates towards zero.
abbrev pub milliseconds : ℕ → ℕ
milliseconds d =
    if ltb d (2 ^ 63) then d / millisecond else (2 ^ 64 - (2 ^ 64 - d) / millisecond) % 2 ^ 64

abbrev pub first_ack_range : ℕ → ℕ → AckRange
first_ack_range acked block_len = record { smallest = sub64 acked block_len; largest = acked }

abbrev pub next_range : AckRange → ℕ → ℕ → AckRange
next_range prev gap block_len =
    let top = sub64 (sub64 prev.smallest gap) 2 in
    record { smallest = sub64 top block_len; largest = top }

-- The loop over the additional ranges: `count` rounds are left, and `prev` is the last of `ranges`.
unfoldable pub parse_ranges : Bytes → ℕ → ℕ → List AckRange → AckRange → Result (List AckRange × ℕ)
unfolding next_varint
parse_ranges input zero offset ranges prev = ok (ranges, offset)
parse_ranges input (suc count) offset ranges prev = do
  (gap, p) ← next_varint input offset
  (block_len, p') ← next_varint input p
  let r = next_range prev gap block_len
  parse_ranges input count p' (ranges ++ (r ∷ [])) r

unfoldable pub parse_ack_frame : Bytes → Result (AckFrame × ℕ)
unfolding next_varint parse_ranges
parse_ack_frame input =
    if ltb (length input) 1
    then err unexpected_eof
    else if not (at input 0 == 0x02) && not (at input 0 == 0x03)
    then err wrong_type
    else do
      (largest_acked, p1) ← next_varint input 1
      (delay, p2) ← next_varint input p1
      (num_ranges, p3) ← next_varint input p2
      (first_range, p4) ← next_varint input p3
      let r = first_ack_range largest_acked first_range
      (ranges, end) ← parse_ranges input num_ranges p4 (r ∷ []) r
      ok (record { ack_ranges = ranges; delay_time = u64 (delay * millisecond) }, end)

abbrev pub gap_between : AckRange → AckRange → ℕ
gap_between prev r = sub64 (sub64 prev.smallest r.largest) 2

-- The loop over the additional ranges, behind `prev`.
unfoldable pub append_ranges : Bytes → AckRange → List AckRange → Bytes
append_ranges b prev [] = b
append_ranges b prev (r ∷ rs) =
    append_ranges
      (Varint.append (Varint.append b (gap_between prev r)) (sub64 r.largest r.smallest)) r rs

unfoldable pub append_ack_frame : Bytes → AckFrame → Result Bytes
unfolding append_ranges
append_ack_frame b f = elim f.ack_ranges [
  | [] ↦ err no_ranges
  | r ∷ rs ↦
      let b1 = Varint.append (b ++ (0x02 ∷ [])) r.largest in
      let b2 = Varint.append b1 (milliseconds f.delay_time) in
      let b3 = Varint.append b2 (length rs) in
      let b4 = Varint.append b3 (sub64 r.largest r.smallest) in ok (append_ranges b4 r rs)
]

unfoldable pub length_ranges : AckRange → List AckRange → ℕ
length_ranges prev [] = 0
length_ranges prev (r ∷ rs) =
    Varint.len (gap_between prev r) + Varint.len (sub64 r.largest r.smallest) + length_ranges r rs

-- The index 0 of an empty list panics.
unfoldable pub length_ack_frame : AckFrame → Result ℕ
unfolding length_ranges
length_ack_frame f = elim f.ack_ranges [
  | [] ↦ panics
  | r ∷ rs ↦ ok (
      1
      + Varint.len r.largest
      + Varint.len (milliseconds f.delay_time)
      + Varint.len (length rs)
      + Varint.len (sub64 r.largest r.smallest)
      + length_ranges r rs)
]
