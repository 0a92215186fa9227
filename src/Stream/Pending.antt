-- ===== src/Stream/Pending.antt =====
-- The map from offsets to data that arrived ahead of its turn, as an association list.
use quic_test.Prelude.{
  ℕ, ◌≤◌, ◌<◌, ◌≡◌, refl, sym, ◌≢◌, inl, inr, Option, none, some, List, [], ◌∷◌, arith, ◌==◌,
  if◌then◌else◌, Bool-cases, length, All, Bytes,
}

abbrev pub Chunks : Type 0
Chunks = List (ℕ × Bytes)

unfoldable pub find : ℕ → Chunks → Option Bytes
find key [] = none
find key ((k, chunk) ∷ cs) = if k == key then some chunk else find key cs

unfoldable pub delete : ℕ → Chunks → Chunks
delete key [] = []
delete key ((k, chunk) ∷ cs) =
    let rest = delete key cs in if k == key then rest else (k, chunk) ∷ rest

-- `m[key] = chunk`
unfoldable pub store : ℕ → Bytes → Chunks → Chunks
unfolding delete
store key chunk cs = (key, chunk) ∷ delete key cs

module _ (P : ℕ × Bytes → Type 0) where
  pub All-find :
      (key : ℕ) (cs : Chunks) (chunk : Bytes) → All P cs → find key cs ≡ some chunk → P (key, chunk)
  unfolding find
  All-find key [] chunk h e = absurd (ground arith)
  All-find key ((k, c) ∷ cs) chunk (p, h) e = elim (Bool-cases (k == key)) [
    | inl same ↦
        let k≡key : k ≡ key = ground arith in
        let c≡chunk : c ≡ chunk = ground arith in rw (sym k≡key, sym c≡chunk) p
    | inr other ↦ All-find key cs chunk h (ground arith)
  ]

  pub All-delete : (key : ℕ) (cs : Chunks) → All P cs → All P (delete key cs)
  unfolding delete
  All-delete key [] h = h
  All-delete key ((k, c) ∷ cs) (p, h) = ground (arith, All-delete key cs h)

  pub All-store :
      (key : ℕ) (chunk : Bytes) (cs : Chunks)
      → P (key, chunk)
      → All P cs
      → All P (store key chunk cs)
  unfolding store
  All-store key chunk cs p h = (p, All-delete key cs h)

pub find-delete : (key k : ℕ) (cs : Chunks) → k ≢ key → find k (delete key cs) ≡ find k cs
unfolding find delete
find-delete key k [] d = refl
find-delete key k ((j, c) ∷ cs) d = ground (arith, find-delete key k cs d)

length-delete_le : (key : ℕ) (cs : Chunks) → length (delete key cs) ≤ length cs
unfolding delete
length-delete_le key [] = omega arith
length-delete_le key ((k, c) ∷ cs) = ground (arith, length-delete_le key cs)

pub length-delete :
    (key : ℕ) (cs : Chunks) (chunk : Bytes)
    → find key cs ≡ some chunk
    → length (delete key cs) < length cs
unfolding find delete
length-delete key [] chunk e = absurd (ground arith)
length-delete key ((k, c) ∷ cs) chunk e =
    ground (arith, length-delete_le key cs, length-delete key cs chunk)

pub delete-find : (key : ℕ) (cs : Chunks) → find key (delete key cs) ≡ none
unfolding find delete
delete-find key [] = refl
delete-find key ((k, c) ∷ cs) = ground (arith, delete-find key cs)

pub find-store :
    (key : ℕ) (chunk : Bytes) (cs : Chunks) → find key (store key chunk cs) ≡ some chunk
unfolding find store
find-store key chunk cs = ground arith

pub find-store_other :
    (key k : ℕ) (chunk : Bytes) (cs : Chunks) → k ≢ key → find k (store key chunk cs) ≡ find k cs
unfolding find store
find-store_other key k chunk cs d = ground (arith, find-delete key k cs d)
