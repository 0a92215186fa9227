-- ===== src/Wire/LongHeader/Length.antt =====
-- Where SetLength writes the length of an Initial packet.
use quic_test.Prelude.{
  ℕ, ◌+◌, ◌/◌, ◌^◌, ◌≤◌, ◌<◌, bit_and, bit_or, ◌≡◌, refl, sym, ap, ◌∙◌, false, [], ◌∷◌, ◌++◌,
  append_assoc, arith, ◌==◌, length, drop, length-append, drop-drop, drop-length, take-length,
  Bytes, u8, u32, ok,
}
use quic_test.Varint
use quic_test.Varint.{at}
use quic_test.Protocol.PacketNumber.{four_big_endian}
use quic_test.Protocol.PacketNumber.Encoding.{append_packet_number-encode}
use quic_test.Wire.LongHeader.{initial}
use quic_test.Wire.LongHeader.Writing.{
  ExtendedHeader, first_long_byte, with_length, append_long_header, index, assign, set_length,
}

at-append : (xs ys : Bytes) (y : ℕ) → at (xs ++ (y ∷ ys)) (length xs) ≡ y
at-append [] ys y = refl
at-append (x ∷ xs) ys y = at-append xs ys y

length-behind : (xs ys : Bytes) (y : ℕ) → length xs < length (xs ++ (y ∷ ys))
length-behind xs ys y = omega (arith, length-append xs (y ∷ ys))

index-append : (xs ys : Bytes) (y i : ℕ) → i ≡ length xs → index (xs ++ (y ∷ ys)) i ≡ ok y
index-append xs ys y i e = rw (e, at-append xs ys y) (ground (arith, length-behind xs ys y))

assign-append :
    (xs ys : Bytes) (y i v : ℕ) → i ≡ length xs → assign (xs ++ (y ∷ ys)) i v ≡ ok (xs ++ (v ∷ ys))
assign-append xs ys y i v e =
    let rest : drop (length xs + 1) (xs ++ (y ∷ ys)) ≡ ys =
      sym (drop-drop (length xs) 1 (xs ++ (y ∷ ys))) ∙ ap (drop 1) (drop-length xs (y ∷ ys)) in
    rw (e, take-length xs (y ∷ ys), rest) (ground (arith, length-behind xs ys y))

-- The header up to the connection identifiers.
abbrev pub fixed_part : ℕ → ℕ → Bytes → Bytes → Bytes
fixed_part first version dest src =
    first ∷ (four_big_endian (u32 version) ++ with_length dest ++ with_length src)

-- Behind the connection identifiers, whatever stands there, unless the first byte has 1 in bits 4 to 6.
set_length-fixed :
    (first version : ℕ) (dest src tail : Bytes) (x y n : ℕ)
    → length dest ≤ 20
    → length src ≤ 20
    → (bit_and (first / 2 ^ 4) 0x7 == 1) ≡ false
    → set_length (fixed_part first version dest src ++ (x ∷ y ∷ tail)) n
      ≡ ok (fixed_part first version dest src ++ (bit_or (u8 (n / 2 ^ 8)) 0x40 ∷ u8 n ∷ tail))
unfolding set_length
set_length-fixed first version dest src tail x y n hd hs e =
    let pre = fixed_part first version dest src in
    let b = pre ++ (x ∷ y ∷ tail) in
    let hi = bit_or (u8 (n / 2 ^ 8)) 0x40 in
    let front : Bytes = first ∷ (four_big_endian (u32 version) ++ with_length dest) in
    let d : u8 (length dest) ≡ length dest = omega arith in
    let s : u8 (length src) ≡ length src = omega arith in
    let size : length pre ≡ 7 + length dest + length src =
      omega (arith, length-append dest (with_length src)) in
    let e1 : index b 5 ≡ ok (u8 (length dest)) = ground arith in
    let split : b ≡ front ++ (u8 (length src) ∷ (src ++ (x ∷ y ∷ tail))) =
      append_assoc front (with_length src) (x ∷ y ∷ tail) in
    let e2 : index b (6 + u8 (length dest)) ≡ ok (u8 (length src)) =
      ap (λ (z : Bytes). index z (6 + u8 (length dest))) split
      ∙ index-append front (src ++ (x ∷ y ∷ tail)) (u8 (length src)) (6 + u8 (length dest))
          (omega arith) in
    let e3 : index b 0 ≡ ok first = ground arith in
    let behind = 6 + u8 (length dest) + 1 + u8 (length src) + 0 in
    let e4 : assign b behind hi ≡ ok (pre ++ (hi ∷ y ∷ tail)) =
      assign-append pre (y ∷ tail) x behind hi (omega (arith, size)) in
    let joined : (z : ℕ) → pre ++ (hi ∷ z ∷ tail) ≡ (pre ++ (hi ∷ [])) ++ (z ∷ tail) =
      λ z. sym (append_assoc pre (hi ∷ []) (z ∷ tail)) in
    let e5 : assign (pre ++ (hi ∷ y ∷ tail)) (behind + 1) (u8 n) ≡ ok (pre ++ (hi ∷ u8 n ∷ tail)) =
      ap (λ (z : Bytes). assign z (behind + 1) (u8 n)) (joined y)
      ∙ assign-append (pre ++ (hi ∷ [])) tail y (behind + 1) (u8 n)
          (omega (arith, size, length-append pre (hi ∷ [])))
      ∙ ap (λ (z : Bytes). ok z) (sym (joined (u8 n))) in
    rw e1 (rw e2 (rw e3 (rw e (rw e4 e5))))

-- For an Initial packet without a token, with a packet number of 4 bytes, as sendInitialPacket builds
-- it, Append writes a token length of 0, the two bytes for the length, and the packet number. SetLength
-- then does not write into these two bytes: the first byte of the length replaces the token length, and
-- the second the first byte of the length field. (Connection identifiers have at most 20 bytes.)
pub set_length-append :
    (version : ℕ) (dest src rest : Bytes) (pn n : ℕ)
    → length dest ≤ 20
    → length src ≤ 20
    → let h : ExtendedHeader = record {
      packet_type = initial;
      version = version;
      src_connection_id = src;
      dest_connection_id = dest;
      token = [];
      packet_number_len = 4;
      packet_number = pn;
    } in
      let pre = fixed_part 0xc3 version dest src in
      (bs : Bytes) × (length bs ≡ 4)
      × (append_long_header [] h ≡ ok (pre ++ (0 ∷ 0x40 ∷ 0 ∷ bs)))
      × (set_length (pre ++ (0 ∷ 0x40 ∷ 0 ∷ (bs ++ rest))) n
          ≡ ok (pre ++ (bit_or (u8 (n / 2 ^ 8)) 0x40 ∷ u8 n ∷ 0 ∷ (bs ++ rest))))
unfolding append_long_header first_long_byte Varint.append
set_length-append version dest src rest pn n hd hs =
    let pre = fixed_part 0xc3 version dest src in
    let placed = (pre ++ (0 ∷ [])) ++ (0x40 ∷ 0 ∷ []) in
    let (bs, e, written, size, value) =
      append_packet_number-encode placed pn 4 (omega arith) (omega arith) in
    let shape : placed ++ bs ≡ pre ++ (0 ∷ 0x40 ∷ 0 ∷ bs) =
      append_assoc (pre ++ (0 ∷ [])) (0x40 ∷ 0 ∷ []) bs
      ∙ append_assoc pre (0 ∷ []) (0x40 ∷ 0 ∷ bs) in
    (
      bs,
      size,
      written ∙ ap (λ (z : Bytes). ok z) shape,
      set_length-fixed 0xc3 version dest src (0 ∷ (bs ++ rest)) 0 0x40 n hd hs refl,
    )
