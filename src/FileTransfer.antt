-- ===== src/FileTransfer.antt =====
-- cmd/fileserver/main.go and cmd/fileclient/main.go: uploads and downloads over a stream. A file name
-- is its bytes, the files of the server's directory are an association list. What Write puts on a
-- stream is a list of byte strings; what Read finds is a list of pieces, cut anywhere, and what comes
-- behind them. Flags, addresses, progress, times and printing are left out.
pub mod Reading
pub mod Uploads
pub mod Downloads
pub mod Names
pub mod Empty
mod Tests
pub mod Server
pub mod Client
use quic_test.Prelude.{
  ℕ, zero, suc, ◌+◌, ◌-◌, ◌/◌, ◌^◌, Bool, not, Option, none, some, List, [], ◌∷◌, ◌++◌, ltb, leb,
  ◌==◌, if◌then◌else◌, length, take, drop, Bytes, u8, lt_int64,
}
use quic_test.Varint.{big_endian}

-- What Read meets behind the pieces: io.EOF, an error, or nothing, so that it waits.
pub data Ending : Type 0 where
  at_eof : Ending
  failing : Ending
  silent : Ending

pub record Input : Type 0 where
  pub pieces : List Bytes
  pub ending : Ending

abbrev pub concat : List Bytes → Bytes
concat [] = []
concat (b ∷ bs) = b ++ concat bs

-- io.ReadFull into a buffer of `n` bytes: `none` when the pieces end before.
unfoldable pub read_full : ℕ → List Bytes → Option (Bytes × List Bytes)
read_full zero bs = some ([], bs)
read_full (suc n) [] = none
read_full (suc n) (b ∷ bs) =
    if ltb (suc n) (length b)
    then some (take (suc n) b, drop (suc n) b ∷ bs)
    else elim (read_full (suc n - length b) bs) [ none ↦ none | some r ↦ some (b ++ r.0, r.1) ]

abbrev pub buffer_size : ℕ
buffer_size = 65536

-- What the loop that fills a file leaves: the file is complete, or the loop ended with an error, or it
-- waits; each with what has been written.
pub data Receipt : Type 0 where
  complete : Bytes → Receipt
  broken : Bytes → Receipt
  stuck : Bytes → Receipt

abbrev pub ended : Ending → Bytes → Receipt
ended at_eof got = complete got
ended failing got = broken got
ended silent got = stuck got

-- What Read leaves of a piece for the next call.
abbrev pub left_of : Bytes → List Bytes → List Bytes
left_of b bs = if leb (length b) buffer_size then bs else drop buffer_size b ∷ bs

-- The loop of handleUpload and downloadFile: it ends at the size that was announced, or at io.EOF.
unfoldable pub receive : (Bytes → Bool) → ℕ → ℕ → Bytes → List Bytes → Ending → Receipt
receive can_write zero size got bs end = stuck got
receive can_write (suc n) size got [] end = ended end got
receive can_write (suc n) size got (b ∷ bs) end =
    let more = got ++ take buffer_size b in
    let rest = receive can_write n size more (left_of b bs) end in
    if not (can_write (take buffer_size b))
    then broken got
    else if not (lt_int64 (length more) size)
    then complete more
    else rest

-- A round reads a byte or more: as many rounds as bytes, and one for the end.
unfoldable pub receive_file : (Bytes → Bool) → ℕ → Input → Receipt
unfolding receive
receive_file can_write size input =
    receive can_write (length (concat input.pieces) + 1) size [] input.pieces input.ending

-- The blocks in which a file is read and written to the stream.
unfoldable pub blocks : ℕ → Bytes → List Bytes
blocks zero content = []
blocks (suc n) [] = []
blocks (suc n) (x ∷ xs) = take buffer_size (x ∷ xs) ∷ blocks n (drop buffer_size (x ∷ xs))

-- binary.BigEndian.AppendUint16, AppendUint64 and PutUint64.
abbrev pub append_uint16 : ℕ → Bytes
append_uint16 n = u8 (n / 2 ^ 8) ∷ u8 n ∷ []

abbrev pub append_uint64 : ℕ → Bytes
append_uint64 n =
    u8 (n / 2 ^ 56)
    ∷ u8 (n / 2 ^ 48)
    ∷ u8 (n / 2 ^ 40)
    ∷ u8 (n / 2 ^ 32)
    ∷ u8 (n / 2 ^ 24)
    ∷ u8 (n / 2 ^ 16)
    ∷ u8 (n / 2 ^ 8)
    ∷ u8 n
    ∷ []

-- filepath.Base: the last element of a path that is separated by slashes.
abbrev pub slash : ℕ
slash = 47

abbrev pub or_last : Bytes → Bytes → Bytes
or_last [] last = last
or_last (c ∷ cs) last = c ∷ cs

unfoldable pub last_element : Bytes → Bytes → Bytes → Bytes
last_element [] current last = or_last current last
last_element (c ∷ cs) current last =
    last_element cs (if c == slash then [] else current ++ (c ∷ []))
      (if c == slash then or_last current last else last)

-- "." for the empty path, "/" for one of slashes.
unfoldable pub base : Bytes → Bytes
unfolding last_element
base [] = 46 ∷ []
base (c ∷ cs) = or_last (last_element (c ∷ cs) [] []) (slash ∷ [])

-- The operations of the client: what it writes on the stream. `none`: the name is too long.
unfoldable pub upload_writes : Bytes → Bytes → Option (List Bytes)
unfolding blocks
upload_writes name content =
    if ltb 65535 (length name)
    then none
    else some (
        (1 ∷ (append_uint16 (length name) ++ (name ++ append_uint64 (length content))))
        ∷ blocks (length content) content)

unfoldable pub download_writes : Bytes → Option (List Bytes)
download_writes name =
    if ltb 65535 (length name)
    then none
    else some ((2 ∷ (append_uint16 (length name) ++ name)) ∷ [])
