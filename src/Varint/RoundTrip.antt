-- ===== src/Varint/RoundTrip.antt =====
-- Parse after Append, for every uint64.
use quic_test.Prelude.{
  ℕ, ◌+◌, ◌*◌, ◌/◌, ◌%◌, ◌^◌, ◌<◌, bit_and, bit_or, ◌≡◌, ap, ◌∙◌, [], ◌∷◌, ◌++◌, arith, length, All,
  length-append, IsByte, IsU64, Bytes, u8, u32, ok,
}
use quic_test.Varint.{parse, append, len, two_bytes, four_bytes, eight_bytes, big_endian}
use quic_test.Varint.Arithmetic.{
  low_six, low_sixty_two, tag_two, tag_four, tag_eight, join_two, join_four,
}

-- Parse on each of the four forms, written as sums.
pub parse_one : (a : ℕ) (rest : Bytes) → a < 64 → parse (a ∷ rest) ≡ ok (a, 1)
unfolding parse
parse_one a rest h = ground arith

parse_two :
    (a b : ℕ) (rest : Bytes) → a < 64 → b < 256 → parse ((a + 64) ∷ b ∷ rest) ≡ ok (a * 256 + b, 2)
unfolding parse
parse_two a b rest ha hb = ground (arith, low_six (a + 64), join_two (bit_and (a + 64) 0x3f) b hb)

parse_four :
    (a b c d : ℕ) (rest : Bytes)
    → a < 64
    → b < 256
    → c < 256
    → d < 256
    → parse ((a + 128) ∷ b ∷ c ∷ d ∷ rest) ≡ ok (a * 2 ^ 24 + b * 2 ^ 16 + c * 2 ^ 8 + d, 4)
unfolding parse
parse_four a b c d rest ha hb hc hd =
    let mask : bit_and (a + 128) 0x3f ≡ a = low_six (a + 128) ∙ omega arith in
    ground (
      arith,
      mask,
      ap
          (λ (x : ℕ).
            bit_or (bit_or (bit_or (u32 (x * 2 ^ 24)) (u32 (b * 2 ^ 16))) (u32 (c * 2 ^ 8))) d)
          mask,
      join_four a b c d,
    )

parse_eight :
    (a b c d e f g h : ℕ) (rest : Bytes)
    → a < 64
    → b < 256
    → c < 256
    → d < 256
    → e < 256
    → f < 256
    → g < 256
    → h < 256
    → parse ((a + 192) ∷ b ∷ c ∷ d ∷ e ∷ f ∷ g ∷ h ∷ rest)
      ≡ ok (
        a * 2 ^ 56 + b * 2 ^ 48 + c * 2 ^ 40 + d * 2 ^ 32 + e * 2 ^ 24 + f * 2 ^ 16 + g * 2 ^ 8 + h,
        8,
      )
unfolding parse
parse_eight a b c d e f g h rest ha hb hc hd he hf hg hh =
    ground (arith, low_sixty_two (big_endian ((a + 192) ∷ b ∷ c ∷ d ∷ e ∷ f ∷ g ∷ h ∷ [])))

-- Parse on the forms that Append writes.
pub parse-two_bytes : (i : ℕ) (rest : Bytes) → i < 2 ^ 14 → parse (two_bytes i ++ rest) ≡ ok (i, 2)
parse-two_bytes i rest h =
    let tag : bit_or (u8 (i / 2 ^ 8)) 0x40 ≡ i / 256 + 64 =
      tag_two (u8 (i / 2 ^ 8)) (omega arith) ∙ omega arith in
    rw tag (parse_two (i / 256) (u8 i) rest (omega arith) (omega arith) ∙ ground arith)

pub parse-four_bytes :
    (i : ℕ) (rest : Bytes) → i < 2 ^ 30 → parse (four_bytes i ++ rest) ≡ ok (i, 4)
parse-four_bytes i rest h =
    let tag : bit_or (u8 (i / 2 ^ 24)) 0x80 ≡ i / 2 ^ 24 + 128 =
      tag_four (u8 (i / 2 ^ 24)) (omega arith) ∙ omega arith in
    rw tag (
      parse_four (i / 2 ^ 24) (u8 (i / 2 ^ 16)) (u8 (i / 2 ^ 8)) (u8 i) rest (omega arith)
        (omega arith) (omega arith) (omega arith)
      ∙ ground arith)

pub parse-eight_bytes :
    (i : ℕ) (rest : Bytes) → i < 2 ^ 64 → parse (eight_bytes i ++ rest) ≡ ok (i % 2 ^ 62, 8)
parse-eight_bytes i rest h = rw (tag_eight (u8 (i / 2 ^ 56)) (omega arith)) (
    parse_eight (u8 (i / 2 ^ 56) % 64) (u8 (i / 2 ^ 48)) (u8 (i / 2 ^ 40)) (u8 (i / 2 ^ 32))
      (u8 (i / 2 ^ 24)) (u8 (i / 2 ^ 16)) (u8 (i / 2 ^ 8)) (u8 i) rest (omega arith) (omega arith)
      (omega arith) (omega arith) (omega arith) (omega arith) (omega arith) (omega arith)
    ∙ ground arith)

-- Parse reads back what Append wrote and stops there, for every uint64 and whatever follows. The
-- value is the number that was written, cut to its low 62 bits, and the count is Len of it.
pub parse-append :
    (i : ℕ) (rest : Bytes) → IsU64 i → parse (append [] i ++ rest) ≡ ok (i % 2 ^ 62, len i)
unfolding append len
parse-append i rest h = ground (
  arith,
  parse_one i rest,
  parse-two_bytes i rest,
  parse-four_bytes i rest,
  parse-eight_bytes i rest h,
)

-- Append adds its bytes behind what the buffer holds.
pub append-prefix : (b : Bytes) (i : ℕ) → append b i ≡ b ++ append [] i
unfolding append
append-prefix b i = ground arith

-- Append adds Len many elements, each a byte.
pub append_shape :
    (b : Bytes) (i : ℕ) → (length (append b i) ≡ length b + len i) × All IsByte (append [] i)
unfolding append len
append_shape b i = ground (
  arith,
  length-append b (u8 i ∷ []),
  length-append b (two_bytes i),
  length-append b (four_bytes i),
  length-append b (eight_bytes i),
  tag_two (u8 (i / 2 ^ 8)),
  tag_four (u8 (i / 2 ^ 24)),
  tag_eight (u8 (i / 2 ^ 56)),
)
