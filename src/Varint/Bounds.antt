-- ===== src/Varint/Bounds.antt =====
-- Parse on any input, and AppendWithLen at every length.
use quic_test.Prelude.{
  ℕ, zero, suc, ◌-◌, ◌*◌, ◌/◌, ◌^◌, ◌≤◌, ◌<◌, bit_and, ◌≡◌, refl, ◌∙◌, ◌≢◌, ◌⊎◌, inl, inr, [], ◌∷◌,
  ◌++◌, arith, length, take, All, IsByte, Bytes, u8, Error, unexpected_eof, ok, err, panics,
  Result-cases,
}
use quic_test.Varint.{parse, append_with_len, len, at, big_endian}
use quic_test.Varint.Arithmetic.{low_six, low_sixty_two, join_two, join_four}
use quic_test.Varint.RoundTrip.{parse_one, parse-two_bytes, parse-four_bytes, parse-eight_bytes}

pub at-IsByte : (input : Bytes) (i : ℕ) → All IsByte input → at input i < 256
at-IsByte [] i h = omega arith
at-IsByte (b ∷ bs) zero h = h.0
at-IsByte (b ∷ bs) (suc i) h = at-IsByte bs i h.1

-- The number of bytes that the first byte announces; an empty input lacks its first byte.
abbrev pub announced : Bytes → ℕ
announced [] = 1
announced (b ∷ bs) = 2 ^ (b / 64)

-- The four lengths by the tag.
tag_cases :
    (t : ℕ)
    → t < 4
    → ((t ≡ 0) × (2 ^ t ≡ 1))
      ⊎ (((t ≡ 1) × (2 ^ t ≡ 2)) ⊎ (((t ≡ 2) × (2 ^ t ≡ 4)) ⊎ ((t ≡ 3) × (2 ^ t ≡ 8))))
tag_cases zero h = inl (refl, refl)
tag_cases (suc zero) h = inr (inl (refl, refl))
tag_cases (suc (suc zero)) h = inr (inr (inl (refl, refl)))
tag_cases (suc (suc (suc zero))) h = inr (inr (inr (refl, refl)))
tag_cases (suc (suc (suc (suc t)))) h = absurd (omega arith)

parse_ok :
    (b : ℕ) (bs : Bytes) (v n : ℕ)
    → b < 256
    → parse (b ∷ bs) ≡ ok (v, n)
    → (announced (b ∷ bs) ≤ length (b ∷ bs)) × (n ≡ announced (b ∷ bs))
unfolding parse
parse_ok b bs v n h e = ground (arith, tag_cases (b / 64))

parse_err :
    (b : ℕ) (bs : Bytes) (x : Error)
    → b < 256
    → parse (b ∷ bs) ≡ err x
    → (length (b ∷ bs) < announced (b ∷ bs)) × (x ≡ unexpected_eof)
unfolding parse
parse_err b bs x h e = ground (arith, tag_cases (b / 64))

-- Parse never panics: each index is below a length that it tested.
pub parse-ne-panics : (input : Bytes) → parse input ≢ panics
unfolding parse
parse-ne-panics input e = ground arith

-- What RFC 9000 asks of Parse: it fails with an unexpected EOF exactly when the input is shorter
-- than the length that its first byte announces, and otherwise it consumes that length.
pub parse_total :
    (input : Bytes)
    → All IsByte input
    → ((length input < announced input) × (parse input ≡ err unexpected_eof))
      ⊎ ((v : ℕ) × (announced input ≤ length input) × (parse input ≡ ok (v, announced input)))
parse_total [] h = inl (omega arith, unfold parse in refl)
parse_total (b ∷ bs) h = elim (Result-cases (parse (b ∷ bs))) [
  | inl ((v, n), e) ↦ let (fits, count) = parse_ok b bs v n h.0 e in inr (v, fits, rw (← count) e)
  | inr (inl (x, e)) ↦ let (short, eof) = parse_err b bs x h.0 e in inl (short, rw (← eof) e)
  | inr (inr e) ↦ absurd (parse-ne-panics (b ∷ bs) e)
]

-- A value that Parse returns fits 62 bits, it took between 1 and 8 bytes of the input, and Append
-- would not write it in more.
pub parse_bounds :
    (input : Bytes) (v n : ℕ)
    → All IsByte input
    → parse input ≡ ok (v, n)
    → (v < 2 ^ 62) × (1 ≤ n) × (n ≤ length input) × (n ≤ 8) × (len v ≤ n)
unfolding parse len
parse_bounds input v n h e =
    let h0 = at-IsByte input 0 h in
    let h1 = at-IsByte input 1 h in
    let h2 = at-IsByte input 2 h in
    let h3 = at-IsByte input 3 h in
    ground (
      arith,
      low_six (at input 0),
      join_two (bit_and (at input 0) 0x3f) (at input 1),
      join_four (bit_and (at input 0) 0x3f) (at input 1) (at input 2) (at input 3),
      low_sixty_two (big_endian (take 8 input)),
    )

-- AppendWithLen with 1, 2, 4 or 8 bytes that hold the number writes what Parse reads back as that
-- number and that length, also where Append would write fewer bytes.
parse-append_with_len :
    (i k : ℕ) (rest : Bytes)
    → k ≤ 3
    → i < 2 ^ (8 * 2 ^ k - 2)
    → (out : Bytes) × (append_with_len [] i (2 ^ k) ≡ ok out)
      × (length out ≡ 2 ^ k)
      × (parse (out ++ rest) ≡ ok (i, 2 ^ k))
unfolding append_with_len
parse-append_with_len i zero rest hk h =
    (_, refl, refl, parse_one (u8 i) rest (omega arith) ∙ ground arith)
parse-append_with_len i (suc zero) rest hk h = (_, refl, refl, parse-two_bytes i rest h)
parse-append_with_len i (suc (suc zero)) rest hk h = (_, refl, refl, parse-four_bytes i rest h)
parse-append_with_len i (suc (suc (suc zero))) rest hk h =
    (_, refl, refl, parse-eight_bytes i rest (omega arith) ∙ ground arith)
parse-append_with_len i (suc (suc (suc (suc k)))) rest hk h = absurd (omega arith)

-- AppendWithLen panics on every other length.
pub append_with_len_panics :
    (b : Bytes) (i n : ℕ) → n ≢ 1 → n ≢ 2 → n ≢ 4 → n ≢ 8 → append_with_len b i n ≡ panics
unfolding append_with_len
append_with_len_panics b i n h1 h2 h4 h8 = ground arith
