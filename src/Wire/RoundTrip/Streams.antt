-- ===== src/Wire/RoundTrip/Streams.antt =====
-- The parser of STREAM frames on their images, under each setting of the three flags.
use quic_test.Prelude.{
  ℕ, ◌+◌, ◌-◌, ◌≤◌, bit_and, ◌≡◌, refl, ap, Bool, true, false, [], ◌∷◌, ◌++◌, append_assoc, arith,
  ltb, if◌then◌else◌, length, drop, length-append, length-drop, Bytes, ok,
}
use quic_test.Varint
use quic_test.Wire.Field.{
  varint, next_varint, next_varint_lem, varint_fits, take_bytes_lem, IsField,
}
use quic_test.Wire.Stream.{
  StreamFrame, has_offset, flag_byte, stream_first_byte, parse_stream_frame, length_stream_frame,
}
use quic_test.Wire.Image.{optional, image_stream}

-- The three tests that the parser makes on the type byte return the flags.
flag_byte_lem :
    (fin present offset : Bool)
    → let b = flag_byte fin present offset in
      (ltb 0 (bit_and b 0x01) ≡ fin)
      × (ltb 0 (bit_and b 0x02) ≡ present)
      × (ltb 0 (bit_and b 0x04) ≡ offset)
      × (bit_and b 0xf8 ≡ 0x08)
      × (0x08 ≤ b)
      × (b ≤ 0x0f)
unfolding flag_byte
flag_byte_lem true true true = (refl, refl, refl, refl, omega arith, omega arith)
flag_byte_lem true true false = (refl, refl, refl, refl, omega arith, omega arith)
flag_byte_lem true false true = (refl, refl, refl, refl, omega arith, omega arith)
flag_byte_lem true false false = (refl, refl, refl, refl, omega arith, omega arith)
flag_byte_lem false true true = (refl, refl, refl, refl, omega arith, omega arith)
flag_byte_lem false true false = (refl, refl, refl, refl, omega arith, omega arith)
flag_byte_lem false false true = (refl, refl, refl, refl, omega arith, omega arith)
flag_byte_lem false false false = (refl, refl, refl, refl, omega arith, omega arith)

pub stream_first_byte_bounds :
    (f : StreamFrame) → (0x08 ≤ stream_first_byte f) × (stream_first_byte f ≤ 0x0f)
unfolding stream_first_byte
stream_first_byte_bounds f =
    let t = flag_byte_lem f.fin f.data_len_present (has_offset f) in (t.4, t.5)

-- A field that is there when the flag `c` is set; `other` is what the parser takes instead.
optional_lem :
    (c : Bool) (input rest : Bytes) (offset v other : ℕ)
    → offset ≤ length input
    → drop offset input ≡ optional c (varint v) ++ rest
    → IsField v
    → (c ≡ false → other ≡ v)
    → let next : ℕ = offset + (if c then Varint.len v else 0) in
      ((if c then next_varint input offset else ok (other, offset)) ≡ ok (v, next))
      × (drop next input ≡ rest)
      × (next ≤ length input)
unfolding optional
optional_lem true input rest offset v other room h fits default =
    let (e, d) = next_varint_lem input rest offset v h fits in
    (e, d, varint_fits input rest offset v h)
optional_lem false input rest offset v other room h fits default =
    let e : offset + 0 ≡ offset = omega arith in rw (e, default refl) (refl, h, room)

no_offset : (f : StreamFrame) → IsField f.offset → has_offset f ≡ false → 0 ≡ f.offset
unfolding has_offset
no_offset f h e = ground arith

-- Without a length the data runs to the end of the input.
rest_of_input :
    (present : Bool) (input bytes payload rest : Bytes) (offset : ℕ)
    → drop offset input ≡ optional present bytes ++ (payload ++ rest)
    → (present ≡ false → rest ≡ [])
    → present ≡ false
    → length input - offset ≡ length payload
unfolding optional
rest_of_input true input bytes payload rest offset h last e = cc
rest_of_input false input bytes payload rest offset h last e = omega (
  arith,
  length-drop offset input,
  ap length h,
  length-append payload rest,
  ap length (last refl),
)

-- A frame that carries its length may be followed by anything, one without by nothing.
pub parse_stream_lem :
    (f : StreamFrame) (rest : Bytes)
    → IsField f.stream_id
    → IsField f.offset
    → IsField (length f.payload)
    → (f.data_len_present ≡ false → rest ≡ [])
    → parse_stream_frame (image_stream f ++ rest) ≡ ok (f, length_stream_frame f)
unfolding parse_stream_frame length_stream_frame stream_first_byte
parse_stream_lem f rest h1 h2 h3 last =
    let r3 : Bytes = f.payload ++ rest in
    let r2 : Bytes = optional f.data_len_present (varint (length f.payload)) ++ r3 in
    let r1 : Bytes = optional (has_offset f) (varint f.offset) ++ r2 in
    let input : Bytes = stream_first_byte f ∷ (varint f.stream_id ++ r1) in
    let t = flag_byte_lem f.fin f.data_len_present (has_offset f) in
    let (e1, d1) = next_varint_lem input r1 1 f.stream_id refl h1 in
    let room1 = varint_fits input r1 1 f.stream_id refl in
    let (e2, d2, room2) =
      optional_lem (has_offset f) input r2 _ f.offset 0 room1 d1 h2 (no_offset f h2) in
    let p : ℕ = 1 + Varint.len f.stream_id + (if has_offset f then Varint.len f.offset else 0) in
    let n : Bytes = varint (length f.payload) in
    let default = rest_of_input f.data_len_present input n f.payload rest p d2 last in
    let (e3, d3, room3) =
      optional_lem f.data_len_present input r3 p (length f.payload) (length input - p) room2 d2 h3
        default in
    simp append_assoc (
      rw (t.0, t.1, t.2, t.3, e1, e2, e3, take_bytes_lem input f.payload rest _ room3 d3)
        (ground arith))
