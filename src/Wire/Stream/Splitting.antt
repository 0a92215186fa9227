-- ===== src/Wire/Stream/Splitting.antt =====
-- MaxDataLen and MaybeSplitOffFrame: what a STREAM frame that must fit a size is cut into.
use quic_test.Prelude.{
  ℕ, zero, suc, ◌+◌, ◌-◌, ◌≤◌, ◌<◌, ◌≡◌, refl, sym, ap, ◌≢◌, ◌⊎◌, inl, inr, false, Option, none,
  some, ◌++◌, arith, leb, ◌==◌, Bool-cases, length, take, drop, take-append-drop, length-take,
  length-drop, add64, ok,
}
use quic_test.Varint
use quic_test.Wire.Stream.{
  StreamFrame, has_offset, length_stream_frame, fitting_len, base_header_len, max_data_len,
  maybe_split_off_frame,
}

len_mono : (a b : ℕ) → a ≤ b → Varint.len a ≤ Varint.len b
unfolding Varint.len
len_mono a b h = ground arith

len_pos : (a : ℕ) → 1 ≤ Varint.len a
unfolding Varint.len
len_pos a = ground arith

-- A frame with the length before its data, of `n` bytes of data.
abbrev pub with_data : StreamFrame → ℕ → ℕ
with_data f n = base_header_len f + Varint.len n + n

fitting_len-fits :
    (base m n : ℕ) → let k = fitting_len base m n in (k ≡ 0) ⊎ (base + Varint.len k + k ≤ m)
unfolding fitting_len
fitting_len-fits base m zero = inl refl
fitting_len-fits base m (suc n) = ground (arith, fitting_len-fits base m n)

fitting_len-max : (base m n k : ℕ) → k ≤ n → base + Varint.len k + k ≤ m → k ≤ fitting_len base m n
unfolding fitting_len
fitting_len-max base m zero k h d = h
fitting_len-max base m (suc n) k h d = ground (arith, fitting_len-max base m n k)

-- MaxDataLen is the greatest amount of data with which a frame that carries its length fits the
-- size: it is 0 or it fits, and an amount that fits is no greater.
max_data_len_lem :
    (f : StreamFrame) (max_size k : ℕ)
    → with_data f k ≤ max_size
    → let n = max_data_len f max_size in ((n ≡ 0) ⊎ (with_data f n ≤ max_size)) × (k ≤ n)
unfolding max_data_len
max_data_len_lem f m k h = (
  fitting_len-fits (base_header_len f) m (m - base_header_len f - 1),
  fitting_len-max (base_header_len f) m (m - base_header_len f - 1) k (omega (arith, len_pos k)) h,
)

max_data_len-fits :
    (f : StreamFrame) (m : ℕ) → let n = max_data_len f m in (n ≡ 0) ⊎ (with_data f n ≤ m)
unfolding max_data_len
max_data_len-fits f m = fitting_len-fits (base_header_len f) m (m - base_header_len f - 1)

-- The two frames carry the data and the FIN of the one that was cut, each with some data, the
-- second from where the first ends, and the first fits.
abbrev pub IsCut : StreamFrame → ℕ → StreamFrame → StreamFrame → Type 0
IsCut f max_size g h =
    (g.payload ++ h.payload ≡ f.payload)
    × (1 ≤ length g.payload)
    × (1 ≤ length h.payload)
    × (g.offset ≡ f.offset)
    × (h.offset ≡ add64 f.offset (length g.payload))
    × (g.fin ≡ false)
    × (h.fin ≡ f.fin)
    × (g.stream_id ≡ f.stream_id)
    × (h.stream_id ≡ f.stream_id)
    × (length_stream_frame g ≤ max_size)

-- Nothing is cut only from a frame that fits, or that no data fits with.
unfoldable pub IsSplit : StreamFrame → ℕ → Option (StreamFrame × StreamFrame) → Type 0
IsSplit f max_size none = (length_stream_frame f ≤ max_size) ⊎ (max_data_len f max_size ≡ 0)
IsSplit f max_size (some (g, h)) = IsCut f max_size g h

data_fits :
    (f : StreamFrame) (m n : ℕ)
    → n ≡ max_data_len f m
    → m < length_stream_frame f
    → n ≢ 0
    → n < length f.payload
unfolding length_stream_frame base_header_len
data_fits f m n e h ne = ground (arith, max_data_len-fits f m, len_mono (length f.payload) n)

cut_fits :
    (f : StreamFrame) (n m : ℕ)
    → n ≤ length f.payload
    → with_data f n ≤ m
    → length_stream_frame (record f { payload = take n f.payload; fin = false }) ≤ m
unfolding length_stream_frame base_header_len has_offset
cut_fits f n m h d = rw (length-take n f.payload) (ground arith)

-- MaybeSplitOffFrame never slices past the data. When it cuts a frame, the frame left and the one
-- split off carry its data and its FIN, each with some data, at consecutive offsets of the same
-- stream, and the frame left fits; otherwise the frame fits already, or no data fits.
pub maybe_split_off_frame-IsSplit :
    (f : StreamFrame) (max_size : ℕ)
    → (r : Option (StreamFrame × StreamFrame)) × (maybe_split_off_frame f max_size ≡ ok r)
      × IsSplit f max_size r
unfolding maybe_split_off_frame IsSplit
maybe_split_off_frame-IsSplit f m = elim (Bool-cases (leb (length_stream_frame f) m)) [
  | inl fits ↦ (none, ground arith, inl (ground arith))
  | inr big ↦ elim (Bool-cases (max_data_len f m == 0)) [
    | inl e ↦ (none, ground arith, inr (ground arith))
    | inr ne ↦
        let n = max_data_len f m in
        let short : n < length f.payload = data_fits f m n refl (ground arith) (ground arith) in
        let taken : length (take n f.payload) ≡ n = rw (length-take n f.payload) (ground arith) in
        let some_data : 1 ≤ n = ground arith in
        (
          some (
            record f { payload = take n f.payload; fin = false },
            record f { offset = add64 f.offset n; payload = drop n f.payload },
          ),
          ground arith,
          (
            take-append-drop n f.payload,
            rw taken some_data,
            rw (length-drop n f.payload) (omega arith),
            refl,
            ap (add64 f.offset) (sym taken),
            refl,
            refl,
            refl,
            refl,
            cut_fits f n m (omega arith) (ground (arith, max_data_len-fits f m)),
          ),
        )
  ]
]
