-- ===== src/Varint/Arithmetic.antt =====
-- The masks and shifts of varint.go on bytes, as sums and remainders.
use quic_test.Prelude.{
  ℕ, ◌+◌, ◌*◌, ◌/◌, ◌%◌, ◌^◌, ◌<◌, ◌≡◌, refl, ap, ◌∙◌, bit_and, bit_or, arith, u32,
}
use quic_test.Prelude.Bits.{bit_or_fields, bit_and_mask, agree_below, agree_below→eq}

pub low_six : (b : ℕ) → bit_and b 0x3f ≡ b % 64
low_six b = bit_and_mask 6 b

pub low_sixty_two : (n : ℕ) → bit_and n 0x3fff_ffff_ffff_ffff ≡ n % 2 ^ 62
low_sixty_two n = bit_and_mask 62 n

pub tag_two : (b : ℕ) → b < 256 → bit_or b 0x40 ≡ b % 64 + 64 + b / 128 * 128
unfolding agree_below
tag_two = agree_below→eq _ _ 256 refl

pub tag_four : (b : ℕ) → b < 256 → bit_or b 0x80 ≡ b % 128 + 128
unfolding agree_below
tag_four = agree_below→eq _ _ 256 refl

pub tag_eight : (b : ℕ) → b < 256 → bit_or b 0xc0 ≡ b % 64 + 192
unfolding agree_below
tag_eight = agree_below→eq _ _ 256 refl

pub join_two : (a b : ℕ) → b < 256 → bit_or (a * 2 ^ 8) b ≡ a * 256 + b
join_two a b h = bit_or_fields 8 a b h

pub join_four :
    (a b c d : ℕ)
    → a < 64
    → b < 256
    → c < 256
    → d < 256
    → bit_or (bit_or (bit_or (u32 (a * 2 ^ 24)) (u32 (b * 2 ^ 16))) (u32 (c * 2 ^ 8))) d
      ≡ a * 2 ^ 24 + b * 2 ^ 16 + c * 2 ^ 8 + d
join_four a b c d ha hb hc hd =
    ap (λ (x : ℕ). bit_or (bit_or x (u32 (c * 2 ^ 8))) d) first
    ∙ ap (λ (x : ℕ). bit_or x d) second
    ∙ third
  where
    first : bit_or (u32 (a * 2 ^ 24)) (u32 (b * 2 ^ 16)) ≡ (a * 256 + b) * 2 ^ 16
    first =
        let ea : u32 (a * 2 ^ 24) ≡ a * 2 ^ 24 = omega arith in
        let eb : u32 (b * 2 ^ 16) ≡ b * 2 ^ 16 = omega arith in
        rw (ea, eb) (bit_or_fields 24 a (b * 2 ^ 16) (omega arith) ∙ omega arith)

    second : bit_or ((a * 256 + b) * 2 ^ 16) (u32 (c * 2 ^ 8)) ≡ (a * 65536 + b * 256 + c) * 2 ^ 8
    second =
        let ec : u32 (c * 2 ^ 8) ≡ c * 2 ^ 8 = omega arith in
        rw ec (bit_or_fields 16 (a * 256 + b) (c * 2 ^ 8) (omega arith) ∙ omega arith)

    third : bit_or ((a * 65536 + b * 256 + c) * 2 ^ 8) d ≡ a * 2 ^ 24 + b * 2 ^ 16 + c * 2 ^ 8 + d
    third = bit_or_fields 8 (a * 65536 + b * 256 + c) d hd ∙ omega arith
