-- ===== src/Prelude/Errors.antt =====
-- Go's (value, error) pair. The value of a failed call is never read by the code, so it is left out.
use Prim.Native.Nat.{ℕ}
use mathlib.Core.Path.{◌≡◌, refl, ap}
use mathlib.Core.Logic.{◌⊎◌, inl, inr}

-- The errors that the code returns, one constructor for each message it can build.
pub data Error : Type 0 where
  -- io.ErrUnexpectedEOF
  unexpected_eof : Error
  -- "not a … frame", "not a short header packet"
  wrong_type : Error
  -- "… frame not supported", "version negotiation packet not supported"
  not_supported : Error
  -- "unknown frame type: 0x%02x"
  unknown_frame : ℕ → Error
  -- "ACK frame must have at least one range"
  no_ranges : Error

-- `panics` is a run-time panic of Go: a call of panic, or an index out of range.
pub data Result {ℓ} (A : Type ℓ) : Type ℓ where
  ok : A → Result A
  err : Error → Result A
  panics : Result A

infixl 5 ◌>>=◌
abbrev pub ◌>>=◌ {ℓ κ} : {A : Type ℓ} {B : Type κ} → Result A → (A → Result B) → Result B
panics >>= next = panics
err e >>= next = err e
ok a >>= next = next a

abbrev pub map_ok {ℓ κ} : {A : Type ℓ} {B : Type κ} → (A → B) → Result A → Result B
map_ok f (ok a) = ok (f a)
map_ok f (err e) = err e
map_ok f panics = panics

abbrev ok_value : {A : Type 0} → A → Result A → A
ok_value a (ok x) = x
ok_value a (err e) = a
ok_value a panics = a

pub ok_injective : {A : Type 0} (a b : A) → ok a ≡ ok b → a ≡ b
ok_injective a b e = ap (ok_value a) e

pub Result-cases {ℓ} :
    {A : Type ℓ} (r : Result A)
    → ((a : A) × (r ≡ ok a)) ⊎ (((e : Error) × (r ≡ err e)) ⊎ (r ≡ panics))
Result-cases (ok a) = inl (a, refl)
Result-cases (err e) = inr (inl (e, refl))
Result-cases panics = inr (inr refl)
