-- ===== src/FileTransfer/Downloads.antt =====
-- Downloads: the request, the answer of the server, and what the client makes of it.
use quic_test.Prelude.{
  ◌^◌, ◌≤◌, ◌<◌, ◌≡◌, refl, sym, ap, ◌∙◌, subst, inl, inr, Bool, true, false, none, some, List, [],
  ◌∷◌, ◌++◌, append-nil, append_assoc, arith, ltb, ◌==◌, Bool-cases, some_injective, length, take,
  drop, take-append-drop, length-take, Bytes,
}
use quic_test.Varint.{big_endian}
use quic_test.FileTransfer.{
  Ending, Input, concat, blocks, append_uint16, append_uint64, base, upload_writes, download_writes,
}
use quic_test.FileTransfer.Reading.{
  IsPieces, read_full-append, concat-blocks, big_endian-append_uint16, big_endian-append_uint64,
}
use quic_test.FileTransfer.Server.{
  Files, same_name, find_file, put, Disk, Served, finished, failed, refusal, not_found_prefix,
  send_file, handle_download, handle_stream,
}
use quic_test.FileTransfer.Client.{
  saved, server_error, save_name, receive_answer, check_error, download_file,
}
use quic_test.FileTransfer.Uploads.{Carries, receive_file-complete, handle_stream-upload_writes}

concat-download_writes :
    (name : Bytes) (writes : List Bytes)
    → download_writes name ≡ some writes
    → (length name ≤ 65535)
      × (concat writes ≡ (2 ∷ []) ++ (append_uint16 (length name) ++ (name ++ [])))
unfolding download_writes
concat-download_writes name writes e = elim (Bool-cases (ltb 65535 (length name))) [
  | inl long ↦ absurd (ground (arith, long, e))
  | inr short ↦
      let request : Bytes = 2 ∷ (append_uint16 (length name) ++ name) in
      let known : request ∷ [] ≡ writes =
        some_injective (request ∷ []) writes (rw (download_writes, short) at e) in
      (ground (arith, short), ap concat (sym known) ∙ simp append_assoc refl)
]

module _ (d : Disk) (files : Files) where
  -- The request reaches handleDownload with the name.
  pub handle_stream-download_writes :
      (name : Bytes) (writes : List Bytes) (request : Input)
      → download_writes name ≡ some writes
      → Carries writes request
      → handle_stream d files request ≡ send_file d files (base name)
  unfolding handle_stream handle_download
  handle_stream-download_writes name writes request e c =
      let (short, all) = concat-download_writes name writes e in
      let (p1, r1, j1, h1) =
        read_full-append request.pieces (2 ∷ []) (append_uint16 (length name) ++ (name ++ []))
          c.pieces (c.joined ∙ all) in
      let (p2, r2, j2, h2) = read_full-append p1 (append_uint16 (length name)) (name ++ []) h1 j1 in
      let (p3, r3, j3, h3) = read_full-append p2 name [] h2 j2 in
      let n2 : big_endian (append_uint16 (length name)) ≡ length name =
        big_endian-append_uint16 (length name) (omega arith) in
      rw (handle_stream, r1) (rw (handle_download, r2) (rw n2 (rw r3 refl)))

-- The client's end: the size, and that many bytes.
download_file-saved :
    (can_create : Bytes → Bool) (can_write : Bytes → Bytes → Bool) (name path content : Bytes)
    (answer : Input)
    → ((b : Bytes) → can_create b ≡ true)
    → ((p b : Bytes) → can_write p b ≡ true)
    → 1 ≤ length content
    → length content < 2 ^ 63
    → Carries (append_uint64 (length content) ∷ blocks (length content) content) answer
    → download_file can_create can_write name path answer ≡ saved (save_name name path) content
unfolding download_file receive_answer
download_file-saved cc cw name path content answer creates writes some_bytes small c =
    let size = length content in
    let all : concat answer.pieces ≡ append_uint64 size ++ content =
      c.joined
      ∙ ap (λ (t : Bytes). append_uint64 size ++ t) (concat-blocks size content (omega arith)) in
    let (p1, r1, j1, h1) =
      read_full-append answer.pieces (append_uint64 size) content c.pieces all in
    let n8 : big_endian (append_uint64 size) ≡ size = big_endian-append_uint64 size (omega arith) in
    let left : Input = record { pieces = p1; ending = answer.ending } in
    let there : (size == 0) ≡ false = ground (arith, some_bytes) in
    let got =
      receive_file-complete (cw (save_name name path)) size content left
        (writes (save_name name path)) h1 j1 refl some_bytes small in
    rw (download_file, r1)
      (rw n8 (rw there (rw (receive_answer, creates (save_name name path)) (rw got refl))))

same_name_refl : (name : Bytes) → same_name name name ≡ true
same_name_refl [] = refl
same_name_refl (x ∷ xs) = ground (arith, same_name_refl xs)

pub find_file-put :
    (name content : Bytes) (files : Files) → find_file name (put name content files) ≡ some content
find_file-put name content [] = rw (same_name_refl name) refl
find_file-put name content (f ∷ files) = elim (Bool-cases (same_name f.0 name)) [
  | inl t ↦ rw t (rw t refl)
  | inr t ↦ rw t (rw t (find_file-put name content files))
]

-- The server's file system does what it is asked for with a name.
pub record Works (d : Disk) (name : Bytes) : Type 0 where
  pub no_directory : d.directory_size name ≡ none
  pub stat : d.can_stat name ≡ true
  pub create : d.can_create name ≡ true
  pub write : (b : Bytes) → d.can_write name b ≡ true

module _ (d : Disk) where
  -- A download of a file that the server has.
  pub send_file-find_file :
      (files : Files) (name content : Bytes)
      → Works d name
      → find_file name files ≡ some content
      → send_file d files name ≡ record {
        files = files;
        replies = append_uint64 (length content) ∷ blocks (length content) content;
        outcome = finished;
      }
  unfolding send_file
  send_file-find_file files name content k found =
      rw (send_file, k.no_directory) (rw found (rw k.stat refl))

  module _ (files : Files) (can_create : Bytes → Bool) (can_write : Bytes → Bytes → Bool) where
    -- A client downloads the file that another one has uploaded. Whatever the name is, and however the
    -- three streams cut the bytes, with a FIN or without: when the server has handled the upload and
    -- the request, the client has saved the content that was uploaded, under the path that it was
    -- given, or under the last element of the name. (The file has a byte or more and less than
    -- 2 ^ 63, and the two file systems do what they are asked for.)
    pub download_file-upload_writes :
        (name path content : Bytes) (uploaded asked : List Bytes) (upload request answer : Input)
        → ((b : Bytes) → can_create b ≡ true)
        → ((p b : Bytes) → can_write p b ≡ true)
        → 1 ≤ length content
        → length content < 2 ^ 63
        → Works d (base name)
        → upload_writes name content ≡ some uploaded
        → download_writes name ≡ some asked
        → Carries uploaded upload
        → Carries asked request
        → Carries (handle_stream d (handle_stream d files upload).files request).replies answer
        → download_file can_create can_write name path answer ≡ saved (save_name name path) content
    download_file-upload_writes name path content uploaded asked upload request answer creates
          writes some_bytes small k sent wanted c1 c2 c3 =
        let now = put (base name) content files in
        let here : (handle_stream d files upload).files ≡ now =
          ap (λ (s : Served). s.files)
            (handle_stream-upload_writes d files name content uploaded upload sent c1 some_bytes
              small k.create k.write) in
        let replies : (handle_stream d (handle_stream d files upload).files request).replies
            ≡ append_uint64 (length content) ∷ blocks (length content) content =
          ap (λ (f : Files). (handle_stream d f request).replies) here
          ∙ ap (λ (s : Served). s.replies)
              (handle_stream-download_writes d now name asked request wanted c2
                ∙ send_file-find_file now (base name) content k
                    (find_file-put (base name) content files)) in
        download_file-saved can_create can_write name path content answer creates writes some_bytes
          small (subst (λ (r : List Bytes). Carries r answer) replies c3)

    check_error-said :
        (path message : Bytes) (bs : List Bytes) (end : Ending)
        → 1 ≤ length message
        → IsPieces bs
        → concat bs ≡ message
        → (said : Bytes) × (rest : Bytes) × (check_error can_create can_write path
              (record { pieces = bs; ending = end })
            ≡ server_error said)
          × (said ++ rest ≡ message)
          × (1 ≤ length said)
    unfolding check_error
    check_error-said path message [] end some_bytes h e = absurd (omega (arith, ap length e))
    check_error-said path message (b ∷ bs) end some_bytes (h, hs) e = (
      take 4096 b,
      drop 4096 b ++ concat bs,
      refl,
      sym (append_assoc (take 4096 b) (drop 4096 b) (concat bs))
          ∙ ap (λ (t : Bytes). t ++ concat bs) (take-append-drop 4096 b)
          ∙ e,
      omega (arith, length-take 4096 b),
    )

    -- A client that asks for a file which the server does not have gets an error that the server's message
    -- begins with, one byte of it at least, and saves nothing, however the streams cut the bytes.
    pub download_file-missing :
        (name path : Bytes) (asked : List Bytes) (request answer : Input)
        → d.directory_size (base name) ≡ none
        → find_file (base name) files ≡ none
        → download_writes name ≡ some asked
        → Carries asked request
        → Carries (handle_stream d files request).replies answer
        → (said : Bytes) × (rest : Bytes) × (download_file can_create can_write name path answer
            ≡ server_error said)
          × (said ++ rest ≡ not_found_prefix ++ base name)
          × (1 ≤ length said)
    unfolding download_file send_file
    download_file-missing name path asked request answer no_directory missing wanted c1 c2 =
        let message = not_found_prefix ++ base name in
        let refused : send_file d files (base name)
            ≡ record { files = files; replies = refusal message; outcome = failed } =
          rw (send_file, no_directory) (rw missing refl) in
        let replies : (handle_stream d files request).replies ≡ refusal message =
          ap (λ (s : Served). s.replies)
            (handle_stream-download_writes d files name asked request wanted c1 ∙ refused) in
        let c = subst (λ (r : List Bytes). Carries r answer) replies c2 in
        let (p1, r1, j1, h1) =
          read_full-append answer.pieces (append_uint64 0) (message ++ []) c.pieces c.joined in
        let zero_size : big_endian (append_uint64 0) ≡ 0 =
          big_endian-append_uint64 0 (omega arith) in
        let (said, rest, e, whole, pos) =
          check_error-said (save_name name path) message p1 answer.ending (omega arith) h1
            (j1 ∙ append-nil message) in
        (said, rest, rw (download_file, r1) (rw zero_size e), whole, pos)
