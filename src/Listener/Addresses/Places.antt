-- ===== src/Listener/Addresses/Places.antt =====
-- quic/listener.go: the places of the connections, and their addresses.
use quic_test.Prelude.{
  ℕ, zero, suc, ◌≡◌, refl, sym, ap, Option, none, some, List, [], ◌∷◌, ◌++◌, arith, length, All,
  Result, ok, err, panics,
}
use quic_test.Listener.{Endpoint, Listener, without_addr, endpoint, replace}

pub All-imp :
    {A : Type 0} {P Q : A → Type 0} → ((x : A) → P x → Q x) → (xs : List A) → All P xs → All Q xs
All-imp f [] h = tt
All-imp f (x ∷ xs) (p, h) = (f x p, All-imp f xs h)

-- The entries that are left are entries of another address.
pub All-without_addr :
    (P : ℕ × ℕ → Type 0) (addr : ℕ) (map : List (ℕ × ℕ))
    → All P map
    → All (λ e. P e × ¬ (e.0 ≡ addr)) (without_addr addr map)
All-without_addr P addr [] h = tt
All-without_addr P addr (e ∷ map) (p, h) =
    let rest = All-without_addr P addr map h in ground (arith, rest, p)

module _ {S : Type 0} where
  -- The remote address of the connection in a place.
  abbrev pub remote_at : ℕ → List (Endpoint S) → Option ℕ
  remote_at h [] = none
  remote_at zero (e ∷ es) = some e.remote_addr
  remote_at (suc h) (e ∷ es) = remote_at h es

  -- Every address of the map leads to a connection that has this address.
  abbrev pub AddressesMatch : Listener S → Type 0
  AddressesMatch l = All (λ (e : ℕ × ℕ). remote_at e.1 l.endpoints ≡ some e.0) l.conn_map

  -- What holds of the state that a call returns.
  abbrev pub Returns : (Listener S → Type 0) → Result (Listener S) → Type 0
  Returns P (ok l) = P l
  Returns P (err e) = Unit
  Returns P panics = Unit

  pub remote_at-endpoint :
      (h : ℕ) (es : List (Endpoint S)) (e : Endpoint S)
      → endpoint h es ≡ some e
      → remote_at h es ≡ some e.remote_addr
  remote_at-endpoint h [] e f = absurd (ground (arith, f))
  remote_at-endpoint zero (x ∷ es) e f = grind (arith, f)
  remote_at-endpoint (suc h) (x ∷ es) e f = remote_at-endpoint h es e f

  pub remote_at-append :
      (h : ℕ) (es fs : List (Endpoint S)) (a : ℕ)
      → remote_at h es ≡ some a
      → remote_at h (es ++ fs) ≡ some a
  remote_at-append h [] fs a f = absurd (ground (arith, f))
  remote_at-append zero (x ∷ es) fs a f = f
  remote_at-append (suc h) (x ∷ es) fs a f = remote_at-append h es fs a f

  pub remote_at-last :
      (es : List (Endpoint S)) (e : Endpoint S)
      → remote_at (length es) (es ++ (e ∷ [])) ≡ some e.remote_addr
  remote_at-last [] e = refl
  remote_at-last (x ∷ es) e = remote_at-last es e

  pub remote_at-replace :
      (h : ℕ) (es : List (Endpoint S)) (x : Endpoint S) (a : ℕ)
      → remote_at h es ≡ some a
      → remote_at h (replace h x es) ≡ some x.remote_addr
  remote_at-replace h [] x a f = absurd (ground (arith, f))
  remote_at-replace zero (e ∷ es) x a f = refl
  remote_at-replace (suc h) (e ∷ es) x a f = remote_at-replace h es x a f

  -- Replacing a connection changes the address of its place alone.
  pub remote_at-replace_other :
      (k h : ℕ) (es : List (Endpoint S)) (x : Endpoint S)
      → ¬ (k ≡ h)
      → remote_at k (replace h x es) ≡ remote_at k es
  remote_at-replace_other k h [] x n = refl
  remote_at-replace_other zero zero (e ∷ es) x n = absurd (n refl)
  remote_at-replace_other zero (suc h) (e ∷ es) x n = refl
  remote_at-replace_other (suc k) zero (e ∷ es) x n = refl
  remote_at-replace_other (suc k) (suc h) (e ∷ es) x n =
      remote_at-replace_other k h es x (λ e. n (ap suc e))

  pub remote_at-replace_same :
      (k h : ℕ) (es : List (Endpoint S)) (x : Endpoint S)
      → remote_at h es ≡ some x.remote_addr
      → remote_at k (replace h x es) ≡ remote_at k es
  remote_at-replace_same k h [] x f = refl
  remote_at-replace_same zero zero (e ∷ es) x f = sym f
  remote_at-replace_same zero (suc h) (e ∷ es) x f = refl
  remote_at-replace_same (suc k) zero (e ∷ es) x f = refl
  remote_at-replace_same (suc k) (suc h) (e ∷ es) x f = remote_at-replace_same k h es x f
