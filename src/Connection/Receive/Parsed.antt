-- ===== src/Connection/Receive/Parsed.antt =====
-- What ParseNext promises of the frames that it returns, for those that handle them.
use quic_test.Prelude.{
  ℕ, zero, suc, ◌+◌, ◌*◌, ◌≡◌, refl, ap, subst, inl, inr, Bool, true, false, ◌&&◌, ◌||◌, not, List,
  [], ◌∷◌, ◌++◌, arith, ltb, leb, ◌==◌, if◌then◌else◌, Bool-cases, if-cases, length, drop, All,
  length-take, length-drop, Bytes, u64, Error, not_supported, Result, ok, err, panics, ◌>>=◌,
  map_ok, Result-cases,
}
use quic_test.Varint.{at}
use quic_test.Wire.Field.{next_varint}
use quic_test.Wire.Ack.{
  AckRange, AckFrame, millisecond, next_range, first_ack_range, parse_ranges, parse_ack_frame,
}
use quic_test.Wire.Control.{PathChallengeFrame, is_not_path, parse_path_challenge_frame}
use quic_test.Wire.Frame.{
  Frame, padding, ping, ack, reset_stream, stop_sending, crypto, stream, max_data, max_stream_data,
  max_streams, data_blocked, stream_data_blocked, streams_blocked, path_challenge, path_response,
  connection_close, as_frame, parse_by_type, parse_next,
}
use quic_test.Connection.Frames.{frames_from, parse_and_handle_frames}

abbrev pub HasRange : AckFrame → Type 0
HasRange f = (r : AckRange) × (rs : List AckRange) × (f.ack_ranges ≡ r ∷ rs)

-- An ACK frame has a range, PATH_CHALLENGE has eight bytes.
abbrev pub IsParsed : Frame → Type 0
IsParsed (ack f) = HasRange f
IsParsed (path_challenge f) = length f.challenge ≡ 8
IsParsed _ = Unit {0}

-- What holds of the value that a parser returns.
Gives : {A : Type 0} → (A → Type 0) → Result (A × ℕ) → Type 0
Gives P (ok r) = P r.0
Gives P (err e) = Unit
Gives P panics = Unit

Gives-ok : {A : Type 0} (P : A → Type 0) (a : A) (n : ℕ) → P a → Gives P (ok (a, n))
unfolding Gives
Gives-ok P a n h = h

Gives-bind :
    {A B : Type 0} (P : B → Type 0) (x : Result (A × ℕ)) (next : A × ℕ → Result (B × ℕ))
    → ((a : A × ℕ) → Gives P (next a))
    → Gives P (x >>= next)
unfolding Gives
Gives-bind P (ok a) next h = h a
Gives-bind P (err e) next h = tt
Gives-bind P panics next h = tt

Gives-bind_that :
    {A B : Type 0} (Q : A → Type 0) (P : B → Type 0) (x : Result (A × ℕ))
    (next : A × ℕ → Result (B × ℕ))
    → Gives Q x
    → ((a : A) (n : ℕ) → Q a → Gives P (next (a, n)))
    → Gives P (x >>= next)
unfolding Gives
Gives-bind_that Q P (ok (a, n)) next q h = h a n q
Gives-bind_that Q P (err e) next q h = tt
Gives-bind_that Q P panics next q h = tt

Gives-as_frame :
    {A : Type 0} (P : Frame → Type 0) (c : A → Frame) (x : Result (A × ℕ))
    → Gives (λ a. P (c a)) x
    → Gives P (as_frame c x)
unfolding Gives
Gives-as_frame P c (ok r) h = h
Gives-as_frame P c (err e) h = tt
Gives-as_frame P c panics h = tt

Gives-all : {A : Type 0} (P : A → Type 0) (x : Result (A × ℕ)) → ((a : A) → P a) → Gives P x
unfolding Gives
Gives-all P (ok r) h = h r.0
Gives-all P (err e) h = tt
Gives-all P panics h = tt

Gives-err : {A : Type 0} (P : A → Type 0) (e : Error) → Gives P (err e)
unfolding Gives
Gives-err P e = tt

abbrev NotEmpty : List AckRange → Type 0
NotEmpty rs = (r : AckRange) × (qs : List AckRange) × (rs ≡ r ∷ qs)

parse_ranges-NotEmpty :
    (input : Bytes) (count offset : ℕ) (ranges : List AckRange) (prev : AckRange)
    → NotEmpty ranges
    → Gives NotEmpty (parse_ranges input count offset ranges prev)
unfolding parse_ranges
parse_ranges-NotEmpty input zero offset ranges prev h = Gives-ok NotEmpty ranges offset h
parse_ranges-NotEmpty input (suc count) offset ranges prev (r, rs, e) =
    Gives-bind NotEmpty (next_varint input offset) _ λ gap.
      Gives-bind NotEmpty (next_varint input gap.1) _ λ block.
        let added : AckRange = next_range prev gap.0 block.0 in
        parse_ranges-NotEmpty input count block.1 (ranges ++ (added ∷ [])) added
          (r, rs ++ (added ∷ []), ap (λ (x : List AckRange). x ++ (added ∷ [])) e)

parse_ack_frame-HasRange : (input : Bytes) → Gives HasRange (parse_ack_frame input)
unfolding parse_ack_frame
parse_ack_frame-HasRange input =
    let P : Result (AckFrame × ℕ) → Type 0 = Gives HasRange in
    if-cases P (ltb (length input) 1) (λ _. Gives-err HasRange _)
      λ _.
        if-cases P (not (at input 0 == 0x02) && not (at input 0 == 0x03))
          (λ _. Gives-err HasRange _)
          λ _. Gives-bind HasRange (next_varint input 1) _ λ largest.
            Gives-bind HasRange (next_varint input largest.1) _ λ delay.
              Gives-bind HasRange (next_varint input delay.1) _ λ count.
                Gives-bind HasRange (next_varint input count.1) _ λ first.
                  let r = first_ack_range largest.0 first.0 in
                  let frame : List AckRange → AckFrame = λ ranges. record {
                    ack_ranges = ranges;
                    delay_time = u64 (delay.0 * millisecond);
                  } in
                  Gives-bind_that NotEmpty HasRange (parse_ranges input count.0 first.1 (r ∷ []) r)
                    (λ q. ok (frame q.0, q.1))
                    (parse_ranges-NotEmpty input count.0 first.1 (r ∷ []) r (r, [], refl))
                    λ ranges end h. Gives-ok HasRange (frame ranges) end h

parse_path_challenge_frame-eight :
    (input : Bytes) → Gives (λ f. length f.challenge ≡ 8) (parse_path_challenge_frame input)
unfolding parse_path_challenge_frame
parse_path_challenge_frame-eight input =
    let P : PathChallengeFrame → Type 0 = λ f. length f.challenge ≡ 8 in
    if-cases (λ (r : Result (PathChallengeFrame × ℕ)). Gives P r) (is_not_path input 0x1a)
      (λ _. Gives-err P _)
      (λ t. Gives-ok P _ 9 (ground (arith, t, length-take 8 (drop 1 input), length-drop 1 input)))

module _ (input : Bytes) where
  -- One case of the switch.
  case_of :
      {A : Type 0} (c : Bool) (f : A → Frame) (x : Result (A × ℕ)) (y : Result (Frame × ℕ))
      → Gives (λ a. IsParsed (f a)) x
      → Gives IsParsed y
      → Gives IsParsed (if c then as_frame f x else y)
  case_of true f x y hx hy = Gives-as_frame IsParsed f x hx
  case_of false f x y hx hy = hy

  any_of :
      {A : Type 0} (c : Bool) (f : A → Frame) (x : Result (A × ℕ)) (y : Result (Frame × ℕ))
      → ((a : A) → IsParsed (f a))
      → Gives IsParsed y
      → Gives IsParsed (if c then as_frame f x else y)
  any_of c f x y h hy = case_of c f x y (Gives-all (λ a. IsParsed (f a)) x h) hy

  unsupported :
      (c : Bool) (y : Result (Frame × ℕ))
      → Gives IsParsed y
      → Gives IsParsed (if c then err not_supported else y)
  unsupported true y hy = Gives-err IsParsed not_supported
  unsupported false y hy = hy

  parse_by_type-IsParsed : (t : ℕ) → Gives IsParsed (parse_by_type t input)
  unfolding parse_by_type
  parse_by_type-IsParsed t =
      any_of (t == 0x00) padding _ _ (λ _. tt)
        (any_of (t == 0x01) (λ _. ping) _ _ (λ _. tt)
          (case_of (t == 0x02 || t == 0x03) ack _ _ (parse_ack_frame-HasRange input) (
            any_of (t == 0x04) reset_stream _ _ (λ _. tt)
              (any_of (t == 0x05) stop_sending _ _ (λ _. tt)
                (any_of (t == 0x06) crypto _ _ (λ _. tt)
                  (unsupported (t == 0x07) _ (
                    any_of (leb 0x08 t && leb t 0x0f) stream _ _ (λ _. tt)
                      (any_of (t == 0x10) max_data _ _ (λ _. tt)
                        (any_of (t == 0x11) max_stream_data _ _ (λ _. tt)
                          (any_of (t == 0x12 || t == 0x13) max_streams _ _ (λ _. tt)
                            (any_of (t == 0x14) data_blocked _ _ (λ _. tt)
                              (any_of (t == 0x15) stream_data_blocked _ _ (λ _. tt)
                                (any_of (t == 0x16 || t == 0x17) streams_blocked _ _ (λ _. tt)
                                  (unsupported (t == 0x18 || t == 0x19) _ (
                                    case_of (t == 0x1a) path_challenge _ _
                                      (parse_path_challenge_frame-eight input)
                                      (any_of (t == 0x1b) path_response _ _ (λ _. tt)
                                        (any_of (t == 0x1c || t == 0x1d) connection_close _ _
                                          (λ _. tt)
                                          (unsupported (t == 0x1e || t == 0x30 || t == 0x31) _
                                            (Gives-err IsParsed _)))))))))))))))))))

  parse_next-IsParsed : Gives IsParsed (parse_next input)
  unfolding parse_next
  parse_next-IsParsed =
      if-cases (λ (r : Result (Frame × ℕ)). Gives IsParsed r) (length input == 0)
        (λ _. Gives-err IsParsed _) (λ _. parse_by_type-IsParsed (at input 0))

-- What holds of the frames that the loop hands on.
abbrev AllParsed : Result (List Frame) → Type 0
AllParsed (ok fs) = All IsParsed fs
AllParsed (err e) = Unit
AllParsed panics = Unit

AllParsed-cons :
    (f : Frame) (r : Result (List Frame))
    → IsParsed f
    → AllParsed r
    → AllParsed (map_ok (λ fs. f ∷ fs) r)
AllParsed-cons f (ok fs) h hs = (h, hs)
AllParsed-cons f (err e) h hs = tt
AllParsed-cons f panics h hs = tt

frames_from-AllParsed :
    (n : ℕ) (input : Bytes) (offset : ℕ) → AllParsed (frames_from n input offset)
unfolding frames_from Gives
frames_from-AllParsed zero input offset = tt
frames_from-AllParsed (suc n) input offset = elim (Bool-cases (ltb offset (length input))) [
  | inr over ↦ rw (over, frames_from) tt
  | inl more ↦ elim (Result-cases (parse_next (drop offset input))) [
    | inl ((f, c), e) ↦
        let h =
          subst (λ (r : Result (Frame × ℕ)). Gives IsParsed r) e
            (parse_next-IsParsed (drop offset input)) in
        rw (more, frames_from)
          (rw e (AllParsed-cons f _ h (frames_from-AllParsed n input (offset + c))))
    | inr (inl (x, e)) ↦ rw (more, frames_from) (rw e tt)
    | inr (inr e) ↦ rw (more, frames_from) (rw e tt)
  ]
]

pub parse_and_handle_frames-IsParsed :
    (input : Bytes) (fs : List Frame) → parse_and_handle_frames input ≡ ok fs → All IsParsed fs
unfolding parse_and_handle_frames
parse_and_handle_frames-IsParsed input fs e =
    subst (λ (r : Result (List Frame)). AllParsed r) e
      (frames_from-AllParsed (length input) input 0)
