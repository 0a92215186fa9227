-- ===== src/FileTransfer/Reading.antt =====
-- Reading from a stream, and the pieces that the bytes were cut into.
use quic_test.Prelude.{
  ℕ, zero, suc, ◌+◌, ◌-◌, ◌^◌, ◌≤◌, ◌<◌, ◌≡◌, refl, sym, ap, ap₂, ◌∙◌, inl, inr, Bool, true, false,
  not, some, List, [], ◌∷◌, ◌++◌, append-nil, append_assoc, arith, ltb, leb, Bool-cases, if-cases,
  length, take, drop, All, length-append, take-append-drop, length-take, length-drop, drop-length,
  take-length, take_all, Bytes, lt_int64,
}
use quic_test.Varint.{big_endian}
use quic_test.FileTransfer.{
  Ending, concat, read_full, buffer_size, left_of, complete, receive, blocks, append_uint16,
  append_uint64,
}

-- Read returns a byte or more, or an error.
abbrev pub IsPieces : List Bytes → Type 0
IsPieces bs = All (λ b. 1 ≤ length b) bs

-- Two ways to cut a list: what the longer beginning has more.
append_split :
    {A : Type 0} (xs ys us vs : List A)
    → xs ++ ys ≡ us ++ vs
    → length xs ≤ length us
    → (ws : List A) × (us ≡ xs ++ ws) × (ys ≡ ws ++ vs)
append_split [] ys us vs e h = (us, refl, e)
append_split (x ∷ xs) ys [] vs e h = absurd (omega arith)
append_split (x ∷ xs) ys (u ∷ us) vs e h =
    let (ws, p, q) = append_split xs ys us vs (tail_of e) (omega arith) in
    (ws, ap₂ (λ a cs. a ∷ cs) (sym (head_of e)) p, q)
  where
    tail_of : x ∷ (xs ++ ys) ≡ u ∷ (us ++ vs) → xs ++ ys ≡ us ++ vs
    tail_of e = cc

    head_of : x ∷ (xs ++ ys) ≡ u ∷ (us ++ vs) → x ≡ u
    head_of e = cc

-- ReadFull takes the first bytes, and what is left are pieces of the rest.
pub read_full-append :
    (bs : List Bytes) (head rest : Bytes)
    → IsPieces bs
    → concat bs ≡ head ++ rest
    → (left : List Bytes) × (read_full (length head) bs ≡ some (head, left))
      × (concat left ≡ rest)
      × IsPieces left
unfolding read_full
read_full-append bs [] rest h e = (bs, refl, e, h)
read_full-append [] (x ∷ head) rest h e = absurd (ground (arith, e))
read_full-append (b ∷ bs) (x ∷ head) rest (h, hs) e =
    let n = length (x ∷ head) in
    elim (Bool-cases (ltb n (length b))) [
      | inl inside ↦
          let (ws, p, q) = append_split (x ∷ head) rest b (concat bs) (sym e) (ground arith) in
          (
            ws ∷ bs,
            rw (read_full, inside)
                (ap₂ (λ (t u : Bytes). some (t, u ∷ bs)) (ap (take n) p ∙ take-length (x ∷ head) ws)
                  (ap (drop n) p ∙ drop-length (x ∷ head) ws)),
            sym q,
            (ground (arith, ap length p, length-append (x ∷ head) ws), hs),
          )
      | inr beyond ↦
          let (ws, p, q) = append_split b (concat bs) (x ∷ head) rest e (ground arith) in
          let (left, r, s, k) = read_full-append bs ws rest hs q in
          let less : n - length b ≡ length ws = omega (arith, ap length p, length-append b ws) in
          (
            left,
            rw (read_full, beyond) (rw (less, r) (ap (λ (t : Bytes). some (t, left)) (sym p))),
            s,
            k,
          )
    ]

-- A round takes the first bytes of the pieces.
left_of-concat :
    (b : Bytes) (bs : List Bytes) → take buffer_size b ++ concat (left_of b bs) ≡ b ++ concat bs
left_of-concat b bs = elim (Bool-cases (leb (length b) buffer_size)) [
  | inl small ↦
      rw small (ap (λ (t : Bytes). t ++ concat bs) (take_all buffer_size b (ground arith)))
  | inr large ↦ rw large (
      sym (append_assoc (take buffer_size b) (drop buffer_size b) (concat bs))
      ∙ ap (λ (t : Bytes). t ++ concat bs) (take-append-drop buffer_size b))
]

more_left : (m : ℕ) (b : Bytes) → leb (length b) m ≡ false → 1 ≤ length (drop m b)
more_left m b e = ground (arith, e, length-drop m b)

left_of-IsPieces : (b : Bytes) (bs : List Bytes) → IsPieces bs → IsPieces (left_of b bs)
left_of-IsPieces b bs h =
    if-cases (λ (r : List Bytes). IsPieces r) (leb (length b) buffer_size) (λ t. h)
      (λ t. (more_left buffer_size b t, h))

-- The loop goes on as long as there is more.
goes_on : (x y size : ℕ) → not (lt_int64 x size) ≡ false → x + y ≡ size → size < 2 ^ 63 → 1 ≤ y
goes_on x y size e h small = ground arith

all_read : (x y size : ℕ) → not (lt_int64 x size) ≡ true → x + y ≡ size → size < 2 ^ 63 → y ≡ 0
all_read x y size e h small = ground arith

append-empty : (xs ys zs : Bytes) → xs ++ ys ≡ zs → length ys ≡ 0 → xs ≡ zs
append-empty xs [] zs e h = sym (append-nil xs) ∙ e
append-empty xs (y ∷ ys) zs e h = absurd (omega arith)

-- The loop collects the pieces when they have as many bytes as were announced, and one at least.
pub receive-complete :
    (can_write : Bytes → Bool)
    → ((b : Bytes) → can_write b ≡ true)
    → (n size : ℕ) (got : Bytes) (bs : List Bytes) (end : Ending) → IsPieces bs
    → 1 ≤ length (concat bs)
    → length got + length (concat bs) ≡ size
    → size < 2 ^ 63
    → length (concat bs) < n
    → receive can_write n size got bs end ≡ complete (got ++ concat bs)
unfolding receive
receive-complete cw ok_write zero size got bs end h some_left total small enough =
    absurd (omega arith)
receive-complete cw ok_write (suc n) size got [] end h some_left total small enough =
    absurd (omega arith)
receive-complete cw ok_write (suc n) size got (b ∷ bs) end (h, hs) some_left total small enough =
    let m = take buffer_size b in
    let more = got ++ m in
    let left = left_of b bs in
    let joined = left_of-concat b bs in
    let sum : length more + length (concat left) ≡ size =
      omega (arith, ap length joined, length-append got m, length-append m (concat left)) in
    let whole : more ++ concat left ≡ got ++ (b ++ concat bs) =
      append_assoc got m (concat left) ∙ ap (λ (t : Bytes). got ++ t) joined in
    let pos : 1 ≤ length m = omega (arith, length-take buffer_size b) in
    elim (Bool-cases (not (lt_int64 (length more) size))) [
      | inl done ↦
          rw (receive, ok_write m)
            (rw done (
              ap complete (
                append-empty more (concat left) _ whole
                  (all_read (length more) (length (concat left)) size done sum small))))
      | inr goes ↦
          rw (receive, ok_write m)
            (rw goes (
              receive-complete cw ok_write n size more left end (left_of-IsPieces b bs hs)
                (goes_on (length more) (length (concat left)) size goes sum small) sum small
                (omega (arith, ap length joined, length-append m (concat left)))
              ∙ ap complete whole))
    ]

pub concat-blocks :
    (n : ℕ) (content : Bytes) → length content ≤ n → concat (blocks n content) ≡ content
unfolding blocks
concat-blocks zero [] h = refl
concat-blocks zero (x ∷ xs) h = absurd (omega arith)
concat-blocks (suc n) [] h = refl
concat-blocks (suc n) (x ∷ xs) h =
    ap (λ (t : Bytes). take buffer_size (x ∷ xs) ++ t)
      (concat-blocks n (drop buffer_size (x ∷ xs))
        (omega (arith, length-drop buffer_size (x ∷ xs))))
    ∙ take-append-drop buffer_size (x ∷ xs)

pub big_endian-append_uint16 : (n : ℕ) → n < 2 ^ 16 → big_endian (append_uint16 n) ≡ n
unfolding big_endian
big_endian-append_uint16 n h = omega arith

pub big_endian-append_uint64 : (n : ℕ) → n < 2 ^ 64 → big_endian (append_uint64 n) ≡ n
unfolding big_endian
big_endian-append_uint64 n h = omega arith
