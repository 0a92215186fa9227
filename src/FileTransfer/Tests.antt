-- ===== src/FileTransfer/Tests.antt =====
-- A file of three bytes is uploaded and downloaded, in pieces.
use quic_test.Prelude.{◌≤◌, ◌≡◌, refl, true, none, some, List, [], ◌∷◌, ◌++◌, arith, length, Bytes}
use quic_test.FileTransfer.{
  at_eof, silent, Input, append_uint64, base, upload_writes, download_writes,
}
use quic_test.FileTransfer.Server.{put, Disk, waiting, not_found_prefix, handle_stream}
use quic_test.FileTransfer.Client.{saved, server_error, waits, save_name, download_file}
use quic_test.FileTransfer.Uploads.{Carries, Stores, handle_stream-upload_writes}
use quic_test.FileTransfer.Downloads.{Works, download_file-upload_writes, download_file-missing}
use quic_test.FileTransfer.Empty.{download_file-empty}
use quic_test.Varint.{big_endian}

abbrev disk : Disk
disk = record {
  can_create = λ name. true;
  can_write = λ name b. true;
  can_stat = λ name. true;
  directory_size = λ name. none;
  ack_message = λ name n. 79 ∷ 75 ∷ [];
}

-- "../f"
abbrev up_name : Bytes
up_name = 46 ∷ 46 ∷ 47 ∷ 102 ∷ []

abbrev three_bytes : Bytes
three_bytes = 7 ∷ 8 ∷ 9 ∷ []

abbrev up_writes : List Bytes
up_writes = (1 ∷ 0 ∷ 4 ∷ 46 ∷ 46 ∷ 47 ∷ 102 ∷ 0 ∷ 0 ∷ 0 ∷ 0 ∷ 0 ∷ 0 ∷ 0 ∷ 3 ∷ []) ∷ three_bytes ∷ []

abbrev up_input : Input
up_input = record {
  pieces =
      (1 ∷ 0 ∷ [])
      ∷ (4 ∷ 46 ∷ 46 ∷ 47 ∷ 102 ∷ 0 ∷ 0 ∷ 0 ∷ 0 ∷ 0 ∷ 0 ∷ 0 ∷ 3 ∷ 7 ∷ [])
      ∷ (8 ∷ 9 ∷ [])
      ∷ [];
  ending = silent;
}

abbrev down_writes : List Bytes
down_writes = (2 ∷ 0 ∷ 4 ∷ 46 ∷ 46 ∷ 47 ∷ 102 ∷ []) ∷ []

abbrev down_input : Input
down_input = record { pieces = (2 ∷ []) ∷ (0 ∷ 4 ∷ 46 ∷ 46 ∷ 47 ∷ 102 ∷ []) ∷ []; ending = at_eof }

abbrev down_answer : Input
down_answer = record {
  pieces = (0 ∷ 0 ∷ 0 ∷ []) ∷ (0 ∷ 0 ∷ 0 ∷ 0 ∷ 3 ∷ 7 ∷ []) ∷ (8 ∷ 9 ∷ []) ∷ [];
  ending = silent;
}

written : upload_writes up_name three_bytes ≡ some up_writes
unfolding upload_writes
written = refl

asked_for : download_writes up_name ≡ some down_writes
unfolding download_writes
asked_for = refl

up_arrives : Carries up_writes up_input
up_arrives = record { joined = refl; pieces = omega arith }

down_arrives : Carries down_writes down_input
down_arrives = record { joined = refl; pieces = omega arith }

answer_arrives :
    Carries
      (handle_stream disk (handle_stream disk [] up_input).files down_input).replies
      down_answer
unfolding handle_stream big_endian
answer_arrives = record { joined = refl; pieces = omega arith }

-- Stored as "f".
stored : (handle_stream disk [] up_input).files ≡ (102 ∷ [], three_bytes) ∷ []
unfolding handle_stream big_endian
stored = refl

up_name-Works : Works disk (base up_name)
up_name-Works = record { no_directory = refl; stat = refl; create = refl; write = λ b. refl }

handle_stream-upload_writes_example :
    handle_stream disk [] up_input ≡ Stores disk [] up_name three_bytes
handle_stream-upload_writes_example =
    handle_stream-upload_writes disk [] up_name three_bytes up_writes up_input written up_arrives
      (omega arith) (omega arith) refl (λ b. refl)

download_file-upload_writes_example :
    download_file (λ b. true) (λ p b. true) up_name [] down_answer
    ≡ saved (save_name up_name []) three_bytes
download_file-upload_writes_example =
    download_file-upload_writes disk [] (λ b. true) (λ p b. true) up_name [] three_bytes up_writes
      down_writes up_input down_input down_answer (λ b. refl) (λ p b. refl) (omega arith)
      (omega arith) up_name-Works written asked_for up_arrives down_arrives answer_arrives

-- "ERROR: file not found: f"
abbrev missing_answer : Input
missing_answer = record {
  pieces =
      (0 ∷ 0 ∷ 0 ∷ 0 ∷ 0 ∷ 0 ∷ 0 ∷ 0 ∷ 69 ∷ 82 ∷ [])
      ∷ (82 ∷ 79 ∷ 82 ∷ 58 ∷ 32 ∷ 102 ∷ 105 ∷ 108 ∷ 101 ∷ 32 ∷ 110 ∷ 111 ∷ 116 ∷ 32 ∷ 102 ∷ 111
          ∷ 117 ∷ 110 ∷ 100 ∷ 58 ∷ 32 ∷ 102 ∷ [])
      ∷ [];
  ending = at_eof;
}

missing_arrives : Carries (handle_stream disk [] down_input).replies missing_answer
unfolding handle_stream big_endian
missing_arrives = record { joined = refl; pieces = omega arith }

download_file-missing_example :
    (said : Bytes) × (rest : Bytes) × (download_file
        (λ b. true)
        (λ p b. true)
        up_name
        []
        missing_answer
      ≡ server_error said)
    × (said ++ rest ≡ not_found_prefix ++ base up_name)
    × (1 ≤ length said)
download_file-missing_example =
    download_file-missing disk [] (λ b. true) (λ p b. true) up_name [] down_writes down_input
      missing_answer refl refl asked_for down_arrives missing_arrives

abbrev empty_writes : List Bytes
empty_writes = (1 ∷ 0 ∷ 4 ∷ 46 ∷ 46 ∷ 47 ∷ 102 ∷ 0 ∷ 0 ∷ 0 ∷ 0 ∷ 0 ∷ 0 ∷ 0 ∷ 0 ∷ []) ∷ []

abbrev empty_input : Input
empty_input = record { pieces = empty_writes; ending = silent }

abbrev empty_answer : Input
empty_answer = record { pieces = append_uint64 0 ∷ []; ending = silent }

empty_written : upload_writes up_name [] ≡ some empty_writes
unfolding upload_writes
empty_written = refl

empty_arrives : Carries empty_writes empty_input
empty_arrives = record { joined = refl; pieces = omega arith }

empty_answer_arrives :
    Carries
      (handle_stream disk (handle_stream disk [] empty_input).files down_input).replies
      empty_answer
unfolding handle_stream big_endian
empty_answer_arrives = record { joined = refl; pieces = omega arith }

download_file-empty_example :
    (handle_stream disk [] empty_input
      ≡ record { files = put (base up_name) [] []; replies = []; outcome = waiting })
    × (download_file (λ b. true) (λ p b. true) up_name [] empty_answer ≡ waits)
download_file-empty_example =
    download_file-empty disk [] (λ b. true) (λ p b. true) up_name [] empty_writes down_writes
      empty_input down_input empty_answer up_name-Works empty_written asked_for empty_arrives refl
      down_arrives empty_answer_arrives refl
