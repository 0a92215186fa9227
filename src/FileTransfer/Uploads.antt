-- ===== src/FileTransfer/Uploads.antt =====
-- Uploads: what the client writes, handled by the server.
use quic_test.Prelude.{
  ℕ, ◌+◌, ◌^◌, ◌≤◌, ◌<◌, ◌≡◌, refl, sym, ap, ◌∙◌, inl, inr, Bool, true, some, List, [], ◌∷◌, ◌++◌,
  append_assoc, arith, ltb, Bool-cases, some_injective, length, Bytes,
}
use quic_test.Varint.{big_endian}
use quic_test.FileTransfer.{
  Input, concat, complete, receive_file, blocks, append_uint16, append_uint64, base, upload_writes,
}
use quic_test.FileTransfer.Reading.{
  IsPieces, read_full-append, receive-complete, concat-blocks, big_endian-append_uint16,
  big_endian-append_uint64,
}
use quic_test.FileTransfer.Server.{
  Files, put, Disk, Served, finished, save, handle_upload, handle_stream,
}

-- What Write was called with comes in cut anywhere, and nothing has failed.
pub record Carries (writes : List Bytes) (input : Input) : Type 0 where
  pub joined : concat input.pieces ≡ concat writes
  pub pieces : IsPieces input.pieces

pub receive_file-complete :
    (can_write : Bytes → Bool) (size : ℕ) (content : Bytes) (input : Input)
    → ((b : Bytes) → can_write b ≡ true)
    → IsPieces input.pieces
    → concat input.pieces ≡ content
    → length content ≡ size
    → 1 ≤ size
    → size < 2 ^ 63
    → receive_file can_write size input ≡ complete content
unfolding receive_file
receive_file-complete cw size content input ok_write h e same some_bytes small =
    receive-complete cw ok_write (length (concat input.pieces) + 1) size [] input.pieces
      input.ending h (omega (arith, ap length e)) (omega (arith, ap length e)) small (omega arith)
    ∙ ap complete e

-- The bytes of an upload: the kind, the name behind its length, the content behind its length.
abbrev pub upload_bytes : Bytes → Bytes → Bytes
upload_bytes name content =
    (1 ∷ [])
    ++ (append_uint16 (length name) ++ (name ++ (append_uint64 (length content) ++ content)))

pub concat-upload_writes :
    (name content : Bytes) (writes : List Bytes)
    → upload_writes name content ≡ some writes
    → (length name ≤ 65535) × (concat writes ≡ upload_bytes name content)
unfolding upload_writes
concat-upload_writes name content writes e = elim (Bool-cases (ltb 65535 (length name))) [
  | inl long ↦ absurd (ground (arith, long, e))
  | inr short ↦
      let size = length content in
      let header : Bytes = 1 ∷ (append_uint16 (length name) ++ (name ++ append_uint64 size)) in
      let known : header ∷ blocks size content ≡ writes =
        some_injective (header ∷ blocks size content) writes (rw (upload_writes, short) at e) in
      (
        ground (arith, short),
        ap concat (sym known)
            ∙ ap (λ (t : Bytes). header ++ t) (concat-blocks size content (omega arith))
            ∙ simp append_assoc refl,
      )
]

module _ (d : Disk) (files : Files) where
  -- The server side of an upload, behind the first byte.
  abbrev pub Stores : Bytes → Bytes → Served
  Stores name content = record {
    files = put (base name) content files;
    replies = d.ack_message (base name) (length content) ∷ [];
    outcome = finished;
  }

  save-Stores :
      (name content : Bytes) (input : Input)
      → d.can_create (base name) ≡ true
      → ((b : Bytes) → d.can_write (base name) b ≡ true)
      → IsPieces input.pieces
      → concat input.pieces ≡ content
      → 1 ≤ length content
      → length content < 2 ^ 63
      → save d files (base name) (length content) input ≡ Stores name content
  unfolding save
  save-Stores name content input can ok_write h e some_bytes small =
      let got =
        receive_file-complete (d.can_write (base name)) (length content) content input ok_write h e
          refl some_bytes small in
      rw (save, can) (rw got refl)

  -- A file of one byte or more that a client uploads, under a name of at most 65535 bytes, is stored by the
  -- server under the last element of that name, whole and nothing else, however the stream cuts the
  -- bytes, and whether or not the FIN comes in. No other file changes, and the server confirms
  -- the number of bytes. (os.Create and Write succeed, and the file has less than 2 ^ 63 bytes.)
  pub handle_stream-upload_writes :
      (name content : Bytes) (writes : List Bytes) (input : Input)
      → upload_writes name content ≡ some writes
      → Carries writes input
      → 1 ≤ length content
      → length content < 2 ^ 63
      → d.can_create (base name) ≡ true
      → ((b : Bytes) → d.can_write (base name) b ≡ true)
      → handle_stream d files input ≡ Stores name content
  unfolding handle_stream handle_upload
  handle_stream-upload_writes name content writes input e c some_bytes small can ok_write =
      let size = length content in
      let (short, all) = concat-upload_writes name content writes e in
      let (p1, r1, j1, h1) =
        read_full-append input.pieces (1 ∷ [])
          (append_uint16 (length name) ++ (name ++ (append_uint64 size ++ content))) c.pieces
          (c.joined ∙ all) in
      let (p2, r2, j2, h2) =
        read_full-append p1 (append_uint16 (length name)) (name ++ (append_uint64 size ++ content))
          h1 j1 in
      let (p3, r3, j3, h3) = read_full-append p2 name (append_uint64 size ++ content) h2 j2 in
      let (p4, r4, j4, h4) = read_full-append p3 (append_uint64 size) content h3 j3 in
      let n2 : big_endian (append_uint16 (length name)) ≡ length name =
        big_endian-append_uint16 (length name) (omega arith) in
      let n8 : big_endian (append_uint64 size) ≡ size =
        big_endian-append_uint64 size (omega arith) in
      rw (handle_stream, r1)
        (rw (handle_upload, r2)
          (rw n2 (
            rw r3 (
              rw r4 (
                rw n8 (
                  save-Stores name content (record { pieces = p4; ending = input.ending }) can
                    ok_write h4 j4 some_bytes small))))))
