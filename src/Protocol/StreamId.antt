-- ===== src/Protocol/StreamId.antt =====
-- The parts of a stream identifier, an int64 as its two's complement pattern.
use quic_test.Prelude.{
  ℕ, ◌-◌, ◌*◌, ◌/◌, ◌%◌, ◌^◌, ◌<◌, ◌≡◌, arith, ltb, ◌==◌, if◌then◌else◌, u64, add64, sub64,
  lt_int64,
}
use quic_test.Wire.Limits.{StreamType, bidi, uni}

pub data Perspective : Type 0 where
  server client : Perspective

-- 3 - p
unfoldable pub opposite : Perspective → Perspective
opposite server = client
opposite client = server

-- Go's `s % m` and `s / m` on an int64, which truncate towards zero.
abbrev pub rem_int64 : ℕ → ℕ → ℕ
rem_int64 s m = if ltb s (2 ^ 63) then s % m else sub64 0 ((2 ^ 64 - s) % m)

abbrev pub div_int64 : ℕ → ℕ → ℕ
div_int64 s m = if ltb s (2 ^ 63) then s / m else sub64 0 ((2 ^ 64 - s) / m)

unfoldable pub stream_type : ℕ → StreamType
stream_type s = if lt_int64 (rem_int64 s 4) 2 then bidi else uni

unfoldable pub initiated_by : ℕ → Perspective
initiated_by s = if rem_int64 s 2 == 0 then client else server

unfoldable pub stream_num : ℕ → ℕ
stream_num s = div_int64 s 4

abbrev type_bits : StreamType → ℕ
type_bits bidi = 0
type_bits uni = 2

abbrev perspective_bits : Perspective → ℕ
perspective_bits client = 0
perspective_bits server = 1

-- `id := streamNum * 4`, then `id += 2` and `id += 1`; all wrap as int64.
unfoldable pub stream_id_from_parts : ℕ → StreamType → Perspective → ℕ
stream_id_from_parts num t p = add64 (add64 (u64 (num * 4)) (type_bits t)) (perspective_bits p)

-- The number, the type and the side that a stream identifier was made of can be had back, for every
-- stream number that RFC 9000 allows.
stream_id_parts :
    (num : ℕ) (t : StreamType) (p : Perspective)
    → num < 2 ^ 60
    → let s = stream_id_from_parts num t p in
      (stream_num s ≡ num) × (stream_type s ≡ t) × (initiated_by s ≡ p) × (s < 2 ^ 62)
unfolding stream_id_from_parts stream_num stream_type initiated_by
stream_id_parts num bidi client h = (ground arith, ground arith, ground arith, omega arith)
stream_id_parts num bidi server h = (ground arith, ground arith, ground arith, omega arith)
stream_id_parts num uni client h = (ground arith, ground arith, ground arith, omega arith)
stream_id_parts num uni server h = (ground arith, ground arith, ground arith, omega arith)

-- Every identifier of a stream below 2 ^ 62 is made of its parts.
stream_id_of_parts :
    (s : ℕ) → s < 2 ^ 62 → stream_id_from_parts (stream_num s) (stream_type s) (initiated_by s) ≡ s
unfolding stream_id_from_parts stream_num stream_type initiated_by
stream_id_of_parts s h = ground arith
