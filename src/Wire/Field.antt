-- ===== src/Wire/Field.antt =====
-- The idiom by which every parser of quic/wire reads a field: Parse of data[offset:], the error
-- check, and offset += consumed.
use quic_test.Prelude.{
  ℕ, ◌+◌, ◌-◌, ◌^◌, ◌≤◌, ◌<◌, ◌≡◌, sym, ap, ◌∙◌, [], ◌++◌, arith, ltb, if◌then◌else◌, length, take,
  drop, All, length-append, length-drop, drop-drop, drop-length, take-length, All-drop, IsByte,
  Bytes, unexpected_eof, Result, ok, err, ◌>>=◌,
}
use quic_test.Varint
use quic_test.Varint.RoundTrip.{append-prefix, parse-append, append_shape}
use quic_test.Varint.Bounds.{parse_bounds}

-- The field's value and the offset behind it. In range `data[offset:]` is `drop`.
unfoldable pub next_varint : Bytes → ℕ → Result (ℕ × ℕ)
next_varint input offset = do
  (v, consumed) ← Varint.parse (drop offset input)
  ok (v, offset + consumed)

-- `int(n)` of a parsed n is n, and the sum does not wrap: a varint is below 2 ^ 62.
unfoldable pub take_bytes : Bytes → ℕ → ℕ → Result (Bytes × ℕ)
take_bytes input offset n =
    if ltb (length input) (offset + n)
    then err unexpected_eof
    else ok (take n (drop offset input), offset + n)

-- What Append of quicvarint writes for one field.
pub varint : ℕ → Bytes
varint v = Varint.append [] v

pub append-varint : (b : Bytes) (v : ℕ) → Varint.append b v ≡ b ++ varint v
unfolding varint
append-varint b v = append-prefix b v

-- A field that fits 62 bits, as every varint does.
abbrev pub IsField : ℕ → Type 0
IsField v = v < 2 ^ 62

pub length-varint : (v : ℕ) → length (varint v) ≡ Varint.len v
unfolding varint
length-varint v = omega (arith, append_shape [] v)

-- A field that stands at the offset is read, and the offset moves behind it.
pub next_varint_lem :
    (input rest : Bytes) (offset v : ℕ)
    → drop offset input ≡ varint v ++ rest
    → IsField v
    → (next_varint input offset ≡ ok (v, offset + Varint.len v))
      × (drop (offset + Varint.len v) input ≡ rest)
unfolding next_varint varint
next_varint_lem input rest offset v h fits = (
  rw h (ground (arith, parse-append v rest (omega arith))),
  sym (drop-drop offset (Varint.len v) input)
      ∙ rw (h, ← length-varint v) (drop-length (varint v) rest),
)

-- Two fields in a row.
pub two_varints :
    (input rest : Bytes) (offset v w : ℕ)
    → drop offset input ≡ varint v ++ (varint w ++ rest)
    → IsField v
    → IsField w
    → (next_varint input offset ≡ ok (v, offset + Varint.len v))
      × (next_varint input (offset + Varint.len v) ≡ ok (w, offset + Varint.len v + Varint.len w))
      × (drop (offset + Varint.len v + Varint.len w) input ≡ rest)
two_varints input rest offset v w h fv fw =
    let (e, d) = next_varint_lem input (varint w ++ rest) offset v h fv in
    let (e', d') = next_varint_lem input rest (offset + Varint.len v) w d fw in (e, e', d')

len_pos : (v : ℕ) → 1 ≤ Varint.len v
unfolding Varint.len
len_pos v = ground arith

-- Behind a field that was there the offset is in the input.
pub varint_fits :
    (input rest : Bytes) (offset v : ℕ)
    → drop offset input ≡ varint v ++ rest
    → offset + Varint.len v ≤ length input
varint_fits input rest offset v h = omega (
  arith,
  ap length h,
  length-drop offset input,
  length-append (varint v) rest,
  length-varint v,
  len_pos v,
)

-- A slice that stands at the offset is taken.
pub take_bytes_lem :
    (input bytes rest : Bytes) (offset : ℕ)
    → offset ≤ length input
    → drop offset input ≡ bytes ++ rest
    → take_bytes input offset (length bytes) ≡ ok (bytes, offset + length bytes)
unfolding take_bytes
take_bytes_lem input bytes rest offset fits h =
    let room : offset + length bytes ≤ length input =
      omega (arith, length-drop offset input, ap length h, length-append bytes rest) in
    rw (h, take-length bytes rest) (ground arith)

-- Reading a field moves the offset forward and not past the end.
pub next_varint_bounds :
    (input : Bytes) (offset v next : ℕ)
    → All IsByte input
    → next_varint input offset ≡ ok (v, next)
    → IsField v × (offset < next) × (next ≤ length input)
unfolding next_varint
next_varint_bounds input offset v next h e = ground (
  arith,
  parse_bounds (drop offset input) v (next - offset) (All-drop IsByte offset input h),
  length-drop offset input,
)
