-- ===== src/FileTransfer/Client.antt =====
-- cmd/fileclient/main.go: what downloadFile makes of the answer.
use quic_test.Prelude.{ℕ, Bool, not, none, some, [], ◌∷◌, ◌==◌, if◌then◌else◌, take, Bytes}
use quic_test.Varint.{big_endian}
use quic_test.FileTransfer.{silent, Input, read_full, complete, broken, stuck, receive_file, base}

-- What downloadFile returns, with the file as far as it is written.
pub data Downloaded : Type 0 where
  saved : Bytes → Bytes → Downloaded
  server_error : Bytes → Downloaded
  no_answer : Downloaded
  no_file : Downloaded
  unfinished : Bytes → Bytes → Downloaded
  waits : Downloaded
  waits_for_more : Bytes → Bytes → Downloaded

abbrev pub save_name : Bytes → Bytes → Bytes
save_name name [] = base name
save_name name (c ∷ cs) = c ∷ cs

module _ (can_create : Bytes → Bool) (can_write : Bytes → Bytes → Bool) where
  -- From os.Create on.
  unfoldable pub receive_answer : Bytes → ℕ → Input → Downloaded
  unfolding receive_file
  receive_answer path size input =
      if not (can_create path) then no_file else elim (receive_file (can_write path) size input) [
        | complete got ↦ saved path got
        | broken got ↦ unfinished path got
        | stuck got ↦ waits_for_more path got
      ]

  -- The Read of a message behind the size 0; io.EOF and an error leave no bytes.
  unfoldable pub check_error : Bytes → Input → Downloaded
  unfolding receive_answer
  check_error path input = elim input.pieces [
    | b ∷ bs ↦ server_error (take 4096 b)
    | [] ↦ elim input.ending [ silent ↦ waits | _ ↦ receive_answer path 0 input ]
  ]

  unfoldable pub download_file : Bytes → Bytes → Input → Downloaded
  unfolding read_full check_error receive_answer base
  download_file name save_path input =
      let path = save_name name save_path in
      elim (read_full 8 input.pieces) [
        | none ↦ elim input.ending [ silent ↦ waits | _ ↦ no_answer ]
        | some r ↦
            let left : Input = record { pieces = r.1; ending = input.ending } in
            let size = big_endian r.0 in
            if size == 0 then check_error path left else receive_answer path size left
      ]
