-- ===== src/FileTransfer/Empty.antt =====
-- A file without a byte.
use quic_test.Prelude.{
  ◌≡◌, refl, ap, ◌∙◌, subst, Bool, true, some, List, [], ◌∷◌, ◌++◌, arith, length, length-append,
  Bytes,
}
use quic_test.Varint.{big_endian}
use quic_test.FileTransfer.{
  Ending, silent, Input, concat, ended, receive, receive_file, blocks, append_uint16, append_uint64,
  base, upload_writes, download_writes,
}
use quic_test.FileTransfer.Reading.{
  IsPieces, read_full-append, big_endian-append_uint16, big_endian-append_uint64,
}
use quic_test.FileTransfer.Server.{
  Files, put, Disk, Served, waiting, keep, save, handle_upload, handle_stream,
}
use quic_test.FileTransfer.Client.{waits, check_error, download_file}
use quic_test.FileTransfer.Uploads.{Carries, concat-upload_writes}
use quic_test.FileTransfer.Downloads.{
  Works, handle_stream-download_writes, send_file-find_file, find_file-put,
}

no_blocks : blocks 0 [] ≡ []
unfolding blocks
no_blocks = refl

no_pieces : (bs : List Bytes) → IsPieces bs → concat bs ≡ [] → bs ≡ []
no_pieces [] h e = refl
no_pieces (b ∷ bs) (h, hs) e = absurd (omega (arith, ap length e, length-append b (concat bs)))

module _ (d : Disk) (files : Files) where
  -- What an upload without content comes to is decided by the end of the stream.
  handle_stream-empty_upload :
      (name : Bytes) (writes : List Bytes) (upload : Input)
      → d.can_create (base name) ≡ true
      → upload_writes name [] ≡ some writes
      → Carries writes upload
      → handle_stream d files upload ≡ keep d files (base name) (ended upload.ending [])
  unfolding handle_stream handle_upload save receive_file receive
  handle_stream-empty_upload name writes upload can e c =
      let (short, all) = concat-upload_writes name [] writes e in
      let (p1, r1, j1, h1) =
        read_full-append upload.pieces (1 ∷ [])
          (append_uint16 (length name) ++ (name ++ (append_uint64 0 ++ []))) c.pieces
          (c.joined ∙ all) in
      let (p2, r2, j2, h2) =
        read_full-append p1 (append_uint16 (length name)) (name ++ (append_uint64 0 ++ [])) h1 j1 in
      let (p3, r3, j3, h3) = read_full-append p2 name (append_uint64 0 ++ []) h2 j2 in
      let (p4, r4, j4, h4) = read_full-append p3 (append_uint64 0) [] h3 j3 in
      let n2 : big_endian (append_uint16 (length name)) ≡ length name =
        big_endian-append_uint16 (length name) (omega arith) in
      let n8 : big_endian (append_uint64 0) ≡ 0 = big_endian-append_uint64 0 (omega arith) in
      let done : receive_file (d.can_write (base name)) 0
            (record { pieces = p4; ending = upload.ending })
          ≡ ended upload.ending [] =
        rw (no_pieces p4 h4 j4) refl in
      rw (handle_stream, r1)
        (rw (handle_upload, r2) (rw n2 (rw r3 (rw r4 (rw n8 (rw (save, can) (rw done refl)))))))

  module _ (can_create : Bytes → Bool) (can_write : Bytes → Bytes → Bool) where
    -- Neither end finishes the transfer of an empty file when no FIN comes in, as it is when the
    -- FIN follows the data in a frame of its own: the server has created the file and waits in Read
    -- without an answer, and a client that asks for the file waits for a message of the server.
    -- (The server's file system does what it is asked for, and both streams are silent behind
    -- their data.)
    pub download_file-empty :
        (name path : Bytes) (uploaded asked : List Bytes) (upload request answer : Input)
        → Works d (base name)
        → upload_writes name [] ≡ some uploaded
        → download_writes name ≡ some asked
        → Carries uploaded upload
        → upload.ending ≡ silent
        → Carries asked request
        → Carries (handle_stream d (handle_stream d files upload).files request).replies answer
        → answer.ending ≡ silent
        → (handle_stream d files upload
            ≡ record { files = put (base name) [] files; replies = []; outcome = waiting })
          × (download_file can_create can_write name path answer ≡ waits)
    unfolding download_file check_error
    download_file-empty name path uploaded asked upload request answer k sent wanted c1 no_fin c2 c3
          no_end =
        let now = put (base name) [] files in
        let stored : handle_stream d files upload
            ≡ record { files = now; replies = []; outcome = waiting } =
          handle_stream-empty_upload name uploaded upload k.create sent c1
          ∙ ap (λ (e : Ending). keep d files (base name) (ended e [])) no_fin in
        let replies : (handle_stream d (handle_stream d files upload).files request).replies
            ≡ append_uint64 0 ∷ [] =
          ap (λ (s : Served). (handle_stream d s.files request).replies) stored
          ∙ ap (λ (s : Served). s.replies)
              (handle_stream-download_writes d now name asked request wanted c2
                ∙ send_file-find_file d now (base name) [] k (find_file-put (base name) [] files))
          ∙ ap (λ (bs : List Bytes). append_uint64 0 ∷ bs) no_blocks in
        let c = subst (λ (r : List Bytes). Carries r answer) replies c3 in
        let (p1, r1, j1, h1) =
          read_full-append answer.pieces (append_uint64 0) [] c.pieces c.joined in
        let n8 : big_endian (append_uint64 0) ≡ 0 = big_endian-append_uint64 0 (omega arith) in
        (
          stored,
          rw (download_file, r1) (rw n8 (rw (no_pieces p1 h1 j1) (rw (check_error, no_end) refl))),
        )
