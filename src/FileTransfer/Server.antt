-- ===== src/FileTransfer/Server.antt =====
-- cmd/fileserver/main.go: handleStream, handleUpload and handleDownload.
use quic_test.Prelude.{
  ℕ, Bool, true, false, ◌&&◌, not, Option, none, some, List, [], ◌∷◌, ◌++◌, ◌==◌, if◌then◌else◌,
  length, Bytes,
}
use quic_test.Varint.{at, big_endian}
use quic_test.FileTransfer.{
  Ending, at_eof, failing, silent, Input, read_full, Receipt, complete, broken, stuck, receive_file,
  blocks, append_uint64, base,
}

abbrev pub Files : Type 0
Files = List (Bytes × Bytes)

abbrev pub same_name : Bytes → Bytes → Bool
same_name [] [] = true
same_name [] (y ∷ ys) = false
same_name (x ∷ xs) [] = false
same_name (x ∷ xs) (y ∷ ys) = (x == y) && same_name xs ys

abbrev pub find_file : Bytes → Files → Option Bytes
find_file name [] = none
find_file name (f ∷ fs) = if same_name f.0 name then some f.1 else find_file name fs

abbrev pub put : Bytes → Bytes → Files → Files
put name content [] = (name, content) ∷ []
put name content (f ∷ fs) =
    if same_name f.0 name then (f.0, content) ∷ fs else f ∷ put name content fs

-- The file system, in the server's directory, and the text of the confirmation. os.Create, Write, and
-- Stat may fail, and a name may be a directory's, with its size.
pub record Disk : Type 0 where
  pub can_create : Bytes → Bool
  pub can_write : Bytes → Bytes → Bool
  pub can_stat : Bytes → Bool
  pub directory_size : Bytes → Option ℕ
  pub ack_message : Bytes → ℕ → Bytes

-- How a handler ends: it returns, also after an error, or it waits in Read.
pub data Outcome : Type 0 where
  finished : Outcome
  failed : Outcome
  waiting : Outcome

pub record Served : Type 0 where
  pub files : Files
  pub replies : List Bytes
  pub outcome : Outcome

abbrev pub stopped : Ending → Outcome
stopped silent = waiting
stopped at_eof = failed
stopped failing = failed

abbrev pub stop : Files → Ending → Served
stop files end = record { files = files; replies = []; outcome = stopped end }

-- "ERROR: file not found: "
abbrev pub not_found_prefix : Bytes
not_found_prefix =
    69 ∷ 82 ∷ 82 ∷ 79 ∷ 82 ∷ 58 ∷ 32 ∷ 102 ∷ 105 ∷ 108 ∷ 101 ∷ 32 ∷ 110 ∷ 111 ∷ 116 ∷ 32 ∷ 102 ∷ 111
    ∷ 117 ∷ 110 ∷ 100 ∷ 58 ∷ 32 ∷ []

-- "ERROR: stat failed: "
abbrev pub stat_failed_prefix : Bytes
stat_failed_prefix =
    69 ∷ 82 ∷ 82 ∷ 79 ∷ 82 ∷ 58 ∷ 32 ∷ 115 ∷ 116 ∷ 97 ∷ 116 ∷ 32 ∷ 102 ∷ 97 ∷ 105 ∷ 108 ∷ 101 ∷ 100
    ∷ 58 ∷ 32 ∷ []

-- The size 0, and a message.
abbrev pub refusal : Bytes → List Bytes
refusal message = append_uint64 0 ∷ message ∷ []

module _ (d : Disk) where
  -- What is left of a file, and the confirmation when it is complete.
  abbrev pub keep : Files → Bytes → Receipt → Served
  keep files name (complete got) = record {
    files = put name got files;
    replies = d.ack_message name (length got) ∷ [];
    outcome = finished;
  }
  keep files name (broken got) = record {
    files = put name got files;
    replies = [];
    outcome = failed;
  }
  keep files name (stuck got) = record {
    files = put name got files;
    replies = [];
    outcome = waiting;
  }

  -- handleUpload from os.Create on.
  unfoldable pub save : Files → Bytes → ℕ → Input → Served
  unfolding receive_file
  save files name size input =
      if not (d.can_create name)
      then record { files = files; replies = []; outcome = failed }
      else keep files name (receive_file (d.can_write name) size input)

  unfoldable pub handle_upload : Files → Input → Served
  unfolding read_full base save
  handle_upload files input = elim (read_full 2 input.pieces) [
    | none ↦ stop files input.ending
    | some r ↦ elim (read_full (big_endian r.0) r.1) [
      | none ↦ stop files input.ending
      | some n ↦ elim (read_full 8 n.1) [
        | none ↦ stop files input.ending
        | some s ↦
            save files (base n.0) (big_endian s.0) (record { pieces = s.1; ending = input.ending })
      ]
    ]
  ]

  -- handleDownload from os.Open on. A directory can be opened, but not read.
  unfoldable pub send_file : Files → Bytes → Served
  unfolding blocks
  send_file files name =
      let reply : List Bytes → Outcome → Served =
        λ writes outcome. record { files = files; replies = writes; outcome = outcome } in
      elim (d.directory_size name) [
        | some size ↦
            if not (d.can_stat name)
            then reply (refusal (stat_failed_prefix ++ name)) failed
            else reply (append_uint64 size ∷ []) failed
        | none ↦ elim (find_file name files) [
          | none ↦ reply (refusal (not_found_prefix ++ name)) failed
          | some content ↦
              if not (d.can_stat name)
              then reply (refusal (stat_failed_prefix ++ name)) failed
              else reply (append_uint64 (length content) ∷ blocks (length content) content) finished
        ]
      ]

  unfoldable pub handle_download : Files → Input → Served
  unfolding read_full base send_file
  handle_download files input = elim (read_full 2 input.pieces) [
    | none ↦ stop files input.ending
    | some r ↦ elim (read_full (big_endian r.0) r.1) [
      | none ↦ stop files input.ending
      | some n ↦ send_file files (base n.0)
    ]
  ]

  -- The first byte tells what is asked; another one than 1 or 2 ends the stream.
  unfoldable pub handle_stream : Files → Input → Served
  unfolding read_full handle_upload handle_download
  handle_stream files input = elim (read_full 1 input.pieces) [
    | none ↦ stop files input.ending
    | some r ↦
        let left : Input = record { pieces = r.1; ending = input.ending } in
        if at r.0 0 == 1
        then handle_upload files left
        else if at r.0 0 == 2
        then handle_download files left
        else record { files = files; replies = []; outcome = failed }
  ]
