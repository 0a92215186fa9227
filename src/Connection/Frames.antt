-- ===== src/Connection/Frames.antt =====
-- parseAndHandleFrames: the frames of a packet that handleFrame gets, in their order.
pub mod Loop
use quic_test.Prelude.{
  ℕ, zero, suc, ◌+◌, true, false, List, [], ◌∷◌, ltb, length, drop, Bytes, Result, ok, err, panics,
  map_ok,
}
use quic_test.Wire.Frame.{Frame, parse_next}

-- The loop from `offset` on; it ends at the end of the packet or at the first error.
unfoldable pub frames_from : ℕ → Bytes → ℕ → Result (List Frame)
frames_from zero input offset = ok []
frames_from (suc n) input offset = elim (ltb offset (length input)) [
  | false ↦ ok []
  | true ↦ elim (parse_next (drop offset input)) [
    | ok r ↦ map_ok (λ fs. r.0 ∷ fs) (frames_from n input (offset + r.1))
    | err e ↦ ok []
    | panics ↦ panics
  ]
]

-- A round consumes a byte or more: as many rounds as bytes.
unfoldable pub parse_and_handle_frames : Bytes → Result (List Frame)
unfolding frames_from
parse_and_handle_frames input = frames_from (length input) input 0
