-- ===== src/Wire/RoundTrip/Acks.antt =====
-- The parser of ACK frames on their images.
use quic_test.Prelude.{
  ℕ, ◌+◌, ◌*◌, ◌^◌, ◌≤◌, ◌<◌, ◌≡◌, refl, ap, List, [], ◌∷◌, ◌++◌, append-nil, append_assoc, arith,
  length, drop, Bytes, sub64, ok,
}
use quic_test.Wire.Encodable.{IsRange, Descends}
use quic_test.Varint
use quic_test.Wire.Field.{varint, two_varints, IsField}
use quic_test.Wire.Ack.{
  first_ack_range, AckRange, millisecond, milliseconds, gap_between, next_range, first_ack_range,
  parse_ranges, parse_ack_frame, length_ranges,
}
use quic_test.Wire.Image.{image_ack, image_ranges}

-- The gap and the length of a block give the range back.
next_range_lem :
    (prev r : AckRange)
    → prev.smallest < 2 ^ 62
    → r.smallest ≤ r.largest
    → r.largest + 2 ≤ prev.smallest
    → (next_range prev (gap_between prev r) (sub64 r.largest r.smallest) ≡ r)
      × IsField (gap_between prev r)
      × IsField (sub64 r.largest r.smallest)
next_range_lem prev r h1 h2 h3 = (ground arith, omega arith, omega arith)

parse_ranges_lem :
    (input rest : Bytes) (rs : List AckRange) (offset : ℕ) (acc : List AckRange) (prev : AckRange)
    → drop offset input ≡ image_ranges prev rs ++ rest
    → prev.smallest < 2 ^ 62
    → Descends prev rs
    → parse_ranges input (length rs) offset acc prev
      ≡ ok (acc ++ rs, offset + length_ranges prev rs)
unfolding parse_ranges length_ranges
parse_ranges_lem input rest [] offset acc prev h small v =
    let e : offset ≡ offset + 0 = omega arith in rw (append-nil acc, ← e) refl
parse_ranges_lem input rest (r ∷ rs) offset acc prev h small v =
    let gap : ℕ = gap_between prev r in
    let block : ℕ = sub64 r.largest r.smallest in
    let (back, g, b) = next_range_lem prev r small v.0 v.1 in
    let (e1, e2, d) =
      two_varints input (image_ranges r rs ++ rest) offset gap block
        (rw
          (
            ← append_assoc (varint block) (image_ranges r rs) rest,
            ← append_assoc (varint gap) (varint block ++ image_ranges r rs) rest,
          )
          h)
        g b in
    let next : ℕ = offset + Varint.len gap + Varint.len block in
    let tail = parse_ranges_lem input rest rs next (acc ++ (r ∷ [])) r d (omega arith) v.2 in
    rw (e1, e2, back, tail, append_assoc acc (r ∷ []) rs)
      (ap (λ (n : ℕ). ok (acc ++ (r ∷ rs), n)) (omega arith))

-- A delay in whole milliseconds comes back.
pub delay_lem : (k : ℕ) → k * millisecond < 2 ^ 63 → milliseconds (k * millisecond) ≡ k
delay_lem k h = ground arith

pub parse_ack_lem :
    (r : AckRange) (rs : List AckRange) (k : ℕ) (rest : Bytes)
    → IsRange r
    → Descends r rs
    → IsField (length rs)
    → k * millisecond < 2 ^ 63
    → parse_ack_frame (image_ack r rs (k * millisecond) ++ rest)
      ≡ ok (
        record { ack_ranges = r ∷ rs; delay_time = k * millisecond },
        1
            + Varint.len r.largest
            + Varint.len k
            + Varint.len (length rs)
            + Varint.len (sub64 r.largest r.smallest)
            + length_ranges r rs,
      )
unfolding parse_ack_frame
parse_ack_lem r rs k rest hr v few short =
    let ms : milliseconds (k * millisecond) ≡ k = delay_lem k short in
    let block : ℕ = sub64 r.largest r.smallest in
    let t4 : Bytes = image_ranges r rs ++ rest in
    let t2 : Bytes = varint (length rs) ++ (varint block ++ t4) in
    let input : Bytes = 0x02 ∷ (varint r.largest ++ (varint k ++ t2)) in
    let (e1, e2, d2) = two_varints input t2 1 r.largest k refl hr.1 (omega arith) in
    let p2 : ℕ = 1 + Varint.len r.largest + Varint.len k in
    let (e3, e4, d4) = two_varints input t4 p2 (length rs) block d2 few (omega arith) in
    let p4 : ℕ = p2 + Varint.len (length rs) + Varint.len block in
    let first : first_ack_range r.largest block ≡ r = ground arith in
    let e5 = parse_ranges_lem input rest rs p4 (r ∷ []) r d4 (omega arith) v in
    rw ms (simp append_assoc (rw (e1, e2, e3, e4, first, e5) (ground arith)))
