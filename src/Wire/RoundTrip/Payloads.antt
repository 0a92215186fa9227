-- ===== src/Wire/RoundTrip/Payloads.antt =====
-- The parsers of the frames with a payload, and of PADDING, PING and the PATH frames.
use quic_test.Prelude.{
  ℕ, zero, suc, ◌+◌, ◌≡◌, refl, ◌∙◌, Bool, true, false, [], ◌∷◌, ◌++◌, append_assoc, arith,
  if◌then◌else◌, length, take, replicate, length-append, take-length, Bytes, ok,
}
use quic_test.Wire.Encodable.{NoZero}
use quic_test.Varint
use quic_test.Wire.Field.{
  varint, next_varint_lem, two_varints, varint_fits, take_bytes_lem, IsField,
}
use quic_test.Wire.Control.{
  PathChallengeFrame, PathResponseFrame, ConnectionCloseFrame, count_zeros,
  parse_path_challenge_frame, parse_path_response_frame, parse_connection_close_frame,
}
use quic_test.Wire.Stream.{CryptoFrame, parse_crypto_frame}
use quic_test.Wire.Image.{optional, image_close}

count_zeros_rest : (rest : Bytes) (i : ℕ) → NoZero rest → count_zeros rest i ≡ i
unfolding count_zeros
count_zeros_rest [] i h = refl
count_zeros_rest (x ∷ xs) i h = ground arith

pub count_zeros_lem :
    (n i : ℕ) (rest : Bytes) → NoZero rest → count_zeros (replicate n 0 ++ rest) i ≡ i + n
unfolding count_zeros
count_zeros_lem zero i rest h = count_zeros_rest rest i h ∙ omega arith
count_zeros_lem (suc n) i rest h = count_zeros_lem n (i + 1) rest h ∙ omega arith

pub parse_path_challenge_lem :
    (f : PathChallengeFrame) (rest : Bytes)
    → length f.challenge ≡ 8
    → parse_path_challenge_frame (0x1a ∷ (f.challenge ++ rest)) ≡ ok (f, 9)
unfolding parse_path_challenge_frame
parse_path_challenge_lem f rest h =
    let taken : take 8 (f.challenge ++ rest) ≡ f.challenge =
      rw h at (take-length f.challenge rest) in
    rw taken (ground (arith, length-append f.challenge rest))

pub parse_path_response_lem :
    (f : PathResponseFrame) (rest : Bytes)
    → length f.response ≡ 8
    → parse_path_response_frame (0x1b ∷ (f.response ++ rest)) ≡ ok (f, 9)
unfolding parse_path_response_frame
parse_path_response_lem f rest h =
    let taken : take 8 (f.response ++ rest) ≡ f.response = rw h at (take-length f.response rest) in
    rw taken (ground (arith, length-append f.response rest))

pub parse_crypto_lem :
    (f : CryptoFrame) (rest : Bytes)
    → IsField f.offset
    → IsField (length f.payload)
    → parse_crypto_frame
        (0x06 ∷ (varint f.offset ++ (varint (length f.payload) ++ (f.payload ++ rest))))
      ≡ ok (f, 1 + Varint.len f.offset + Varint.len (length f.payload) + length f.payload)
unfolding parse_crypto_frame
parse_crypto_lem f rest h1 h2 =
    let r : Bytes = f.payload ++ rest in
    let input : Bytes = 0x06 ∷ (varint f.offset ++ (varint (length f.payload) ++ r)) in
    let (e1, e2, d) = two_varints input r 1 f.offset (length f.payload) refl h1 h2 in
    let (_, d1) = next_varint_lem input (varint (length f.payload) ++ r) 1 f.offset refl h1 in
    let fits = varint_fits input r (1 + Varint.len f.offset) (length f.payload) d1 in
    rw (e1, e2, take_bytes_lem input f.payload rest _ fits d) (ground arith)

-- The reason phrase, behind `q`: its length and its bytes.
pub parse_connection_close_lem :
    (app : Bool) (ec : ℕ) (reason rest : Bytes)
    → IsField ec
    → IsField (length reason)
    → let f : ConnectionCloseFrame = record {
      is_application = app;
      error_code = ec;
      reason_phrase = reason;
    } in
      parse_connection_close_frame (image_close f ++ rest)
      ≡ ok (
        f,
        1
            + Varint.len ec
            + (if app then 0 else Varint.len 0)
            + Varint.len (length reason)
            + length reason,
      )
unfolding parse_connection_close_frame optional
parse_connection_close_lem true ec reason rest h1 h2 =
    let r : Bytes = reason ++ rest in
    let input : Bytes = 0x1d ∷ (varint ec ++ (varint (length reason) ++ r)) in
    let (e1, e2, d) = two_varints input r 1 ec (length reason) refl h1 h2 in
    let (_, d1) = next_varint_lem input (varint (length reason) ++ r) 1 ec refl h1 in
    let fits = varint_fits input r (1 + Varint.len ec) (length reason) d1 in
    simp append_assoc (rw (e1, e2, take_bytes_lem input reason rest _ fits d) (ground arith))
parse_connection_close_lem false ec reason rest h1 h2 =
    let r : Bytes = reason ++ rest in
    let input : Bytes = 0x1c ∷ (varint ec ++ (varint 0 ++ (varint (length reason) ++ r))) in
    let (e1, e2, d2) =
      two_varints input (varint (length reason) ++ r) 1 ec 0 refl h1 (omega arith) in
    let (e3, d3) =
      next_varint_lem input r (1 + Varint.len ec + Varint.len 0) (length reason) d2 h2 in
    let fits = varint_fits input r (1 + Varint.len ec + Varint.len 0) (length reason) d2 in
    simp append_assoc (rw (e1, e2, e3, take_bytes_lem input reason rest _ fits d3) (ground arith))
