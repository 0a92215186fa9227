-- ===== src/Connection/Frames/Loop.antt =====
-- parseAndHandleFrames: the loop over the frames of a packet.
use quic_test.Prelude.{
  ℕ, zero, suc, ◌+◌, ◌≤◌, ◌<◌, ◌≡◌, refl, ap, ◌∙◌, subst, inl, inr, true, false, List, [], ◌∷◌,
  arith, ltb, Bool-cases, length, drop, All, length-drop, All-drop, IsByte, Bytes, Error, Result,
  ok, err, panics, map_ok, Result-cases,
}
use quic_test.Wire.Frame.{Frame, parse_next}
use quic_test.Wire.Progress.{parse_next-Advances}
use quic_test.Wire.Progress.Rules.{Advances}
use quic_test.Connection.Frames.{frames_from, parse_and_handle_frames}

next_bounds :
    (input : Bytes) (offset : ℕ) (f : Frame) (n : ℕ)
    → All IsByte input
    → offset < length input
    → parse_next (drop offset input) ≡ ok (f, n)
    → (1 ≤ n) × (offset + n ≤ length input)
unfolding Advances
next_bounds input offset f n bytes h e =
    let (lo, hi) =
      took (parse_next (drop offset input)) e
        (parse_next-Advances (drop offset input) (All-drop IsByte offset input bytes)) in
    (lo, omega (arith, hi, length-drop offset input))
  where
    took :
        (r : Result (Frame × ℕ))
        → r ≡ ok (f, n)
        → Advances (drop offset input) 1 r
        → (1 ≤ n) × (n ≤ length (drop offset input))
    took r e v = subst (Advances (drop offset input) 1) e v

module _ (input : Bytes) (offset : ℕ) where
  pub at_end : (n : ℕ) → length input ≤ offset → frames_from n input offset ≡ ok []
  unfolding frames_from
  at_end zero h = refl
  at_end (suc n) h =
      let e : ltb offset (length input) ≡ false = ground arith in rw (frames_from, e) refl

  pub on_frame :
      (n c : ℕ) (f : Frame)
      → offset < length input
      → parse_next (drop offset input) ≡ ok (f, c)
      → frames_from (suc n) input offset ≡ map_ok (λ fs. f ∷ fs) (frames_from n input (offset + c))
  unfolding frames_from
  on_frame n c f h e =
      let d : ltb offset (length input) ≡ true = ground arith in rw (frames_from, d, e) refl

  on_error :
      (n : ℕ) (x : Error)
      → offset < length input
      → parse_next (drop offset input) ≡ err x
      → frames_from (suc n) input offset ≡ ok []
  unfolding frames_from
  on_error n x h e =
      let d : ltb offset (length input) ≡ true = ground arith in rw (frames_from, d, e) refl

-- Any two numbers of rounds that are enough for the bytes left give the same frames.
frames_from-enough :
    (input : Bytes) (n m offset : ℕ)
    → All IsByte input
    → length input ≤ offset + n
    → length input ≤ offset + m
    → (fs : List Frame) × (frames_from n input offset ≡ ok fs)
      × (frames_from m input offset ≡ ok fs)
unfolding Advances
frames_from-enough input zero m offset bytes h k =
    ([], at_end input offset zero (omega arith), at_end input offset m (omega arith))
frames_from-enough input (suc n) zero offset bytes h k =
    ([], at_end input offset (suc n) (omega arith), at_end input offset zero (omega arith))
frames_from-enough input (suc n) (suc m) offset bytes h k =
    elim (Bool-cases (ltb offset (length input))) [
      | inr over ↦ (
        [],
        at_end input offset (suc n) (ground arith),
        at_end input offset (suc m) (ground arith),
      )
      | inl more ↦ elim (Result-cases (parse_next (drop offset input))) [
        | inl ((f, c), e) ↦
            let here : offset < length input = ground arith in
            let (lo, hi) = next_bounds input offset f c bytes here e in
            let (fs, a, b) =
              frames_from-enough input n m (offset + c) bytes (omega arith) (omega arith) in
            (
              f ∷ fs,
              on_frame input offset n c f here e ∙ ap (map_ok (λ gs. f ∷ gs)) a,
              on_frame input offset m c f here e ∙ ap (map_ok (λ gs. f ∷ gs)) b,
            )
        | inr (inl (x, e)) ↦
            let here : offset < length input = ground arith in
            ([], on_error input offset n x here e, on_error input offset m x here e)
        | inr (inr e) ↦ absurd (
            no_panic (parse_next (drop offset input)) e
              (parse_next-Advances (drop offset input) (All-drop IsByte offset input bytes)))
      ]
    ]
  where
    no_panic : (r : Result (Frame × ℕ)) → r ≡ panics → Advances (drop offset input) 1 r → ⊥
    no_panic r e v = subst (Advances (drop offset input) 1) e v

pub parse_and_handle_frames_terminates :
    (input : Bytes) (n : ℕ)
    → All IsByte input
    → length input ≤ n
    → (fs : List Frame) × (parse_and_handle_frames input ≡ ok fs) × (frames_from n input 0 ≡ ok fs)
unfolding parse_and_handle_frames
parse_and_handle_frames_terminates input n bytes h =
    frames_from-enough input (length input) n 0 bytes (omega arith) (omega arith)
