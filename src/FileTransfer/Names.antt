-- ===== src/FileTransfer/Names.antt =====
-- The names under which the server stores files.
use quic_test.Prelude.{
  ◌≡◌, refl, ◌≢◌, ◌⊎◌, inl, inr, not, [], ◌∷◌, if-cases, Option-cases, All, Bytes,
}
use quic_test.Varint.{big_endian}
use quic_test.FileTransfer.{Input, read_full, slash, base}
use quic_test.FileTransfer.Server.{Files, find_file, Disk, Served, send_file, handle_download}

abbrev pub NoSlash : Bytes → Type 0
NoSlash cs = All (λ c. c ≢ slash) cs

-- One element of a path, or the root, which is a directory.
abbrev pub IsElement : Bytes → Type 0
IsElement name = NoSlash name ⊎ (name ≡ slash ∷ [])

abbrev pub AreElements : Files → Type 0
AreElements files = All (λ (f : Bytes × Bytes). IsElement f.0) files

module _ (d : Disk) (files : Files) (h : AreElements files) where
  send_file-files : (name : Bytes) → (send_file d files name).files ≡ files
  unfolding send_file
  send_file-files name = elim (Option-cases (d.directory_size name)) [
    | inr (n, e) ↦
        rw (send_file, e)
          (if-cases (λ (s : Served). s.files ≡ files) (not (d.can_stat name)) (λ t. refl)
            (λ t. refl))
    | inl e ↦ elim (Option-cases (find_file name files)) [
      | inl f ↦ rw (send_file, e) (rw f refl)
      | inr (content, f) ↦
          rw (send_file, e)
            (rw f (
              if-cases (λ (s : Served). s.files ≡ files) (not (d.can_stat name)) (λ t. refl)
                (λ t. refl)))
    ]
  ]

  pub handle_download-files : (input : Input) → (handle_download d files input).files ≡ files
  unfolding handle_download
  handle_download-files input = elim (Option-cases (read_full 2 input.pieces)) [
    | inl e ↦ rw (handle_download, e) refl
    | inr (r, e) ↦ elim (Option-cases (read_full (big_endian r.0) r.1)) [
      | inl e2 ↦ rw (handle_download, e) (rw e2 refl)
      | inr (n, e2) ↦ rw (handle_download, e) (rw e2 (send_file-files (base n.0)))
    ]
  ]
