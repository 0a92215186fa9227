-- ===== src/Connection/Tests.antt =====
-- Runs of quic/conn.go, and its theorems at concrete inputs.
use quic_test.Prelude.{ℕ, ◌≡◌, refl, inl, inr, List, [], ◌∷◌, arith, All, Bytes}
use quic_test.Connection.AckRanges.{sort_packet_numbers, all_ranges, build_ack_ranges}
use quic_test.Connection.AckRanges.Sorting.{IsNumber, IsIn}
use quic_test.Connection.AckRanges.Covering.{
  IsCovered, build_ack_ranges_sound, build_ack_ranges_complete,
}
use quic_test.Wire.Frame.{Frame}

abbrev arrived : List ℕ
arrived = 3 ∷ 9 ∷ 4 ∷ 4 ∷ 8 ∷ []

build_ack_ranges-arrived :
    build_ack_ranges arrived
    ≡ record { smallest = 8; largest = 9 } ∷ record { smallest = 3; largest = 4 } ∷ []
unfolding build_ack_ranges
build_ack_ranges-arrived = refl

abbrev five_numbers : All IsNumber arrived
five_numbers = (omega arith, (omega arith, (omega arith, (omega arith, (omega arith, tt)))))

build_ack_ranges_complete_example : IsCovered 4 (build_ack_ranges arrived)
unfolding IsIn sort_packet_numbers all_ranges
build_ack_ranges_complete_example =
    build_ack_ranges_complete arrived 4 five_numbers (omega arith) (inr (inr (inl refl)))

build_ack_ranges_sound_example : IsIn 4 arrived
build_ack_ranges_sound_example =
    build_ack_ranges_sound arrived 4 five_numbers build_ack_ranges_complete_example

-- A PING, a MAX_DATA of 25, and a frame of an unknown type.
abbrev three_frames : Bytes
three_frames = 1 ∷ 0x10 ∷ 0x19 ∷ 0x40 ∷ []
