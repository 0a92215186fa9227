-- ===== src/Listener/Dialing.antt =====
-- quic/listener.go: dialOne. The errors of the resolver, of the socket and of the random generator are
-- arguments, and so is `wait`: what the connection has become when WaitReady returns, and whether it
-- returned without an error.
use quic_test.Prelude.{
  ℕ, ◌≡◌, refl, Bool, true, false, not, Option, none, some, [], ◌∷◌, if◌then◌else◌, Bytes, Result,
  ok, ◌>>=◌, map_ok,
}
use quic_test.Connection.State.{World, Connection}
use quic_test.Connection.Setup.{new_connection, send_connection_setup}
use quic_test.Connection.Closing.{close_with_error}
use quic_test.Connection.Closing.Timeouts.{close_with_error-Silent}

-- The UDP socket of an attempt.
pub data Socket : Type 0 where
  unopened opened shut : Socket

-- No connection was made, or it was given up, or it is returned.
pub data Dialled (S : Type 0) : Type 0 where
  not_made : Socket → Dialled S
  timed_out : Socket → Connection S → Dialled S
  connected : Socket → Connection S → Dialled S

-- protocol.Version1
abbrev pub version1 : ℕ
version1 = 1

-- "handshake timeout"
abbrev pub handshake_timeout : Bytes
handshake_timeout =
    104 ∷ 97 ∷ 110 ∷ 100 ∷ 115 ∷ 104 ∷ 97 ∷ 107 ∷ 101 ∷ 32 ∷ 116 ∷ 105 ∷ 109 ∷ 101 ∷ 111 ∷ 117 ∷ 116
    ∷ []

module _ {S : Type 0} (w : World S) (now later : ℕ)
    (wait : Connection S → Connection S × Bool) where
  -- Behind WaitReady.
  unfoldable pub conclude : Connection S × Bool → Result (Dialled S)
  unfolding close_with_error
  conclude (d, true) = ok (connected opened d)
  conclude (d, false) =
      map_ok (λ (e : Connection S). timed_out shut e)
        (close_with_error w later d 0 handshake_timeout)

  -- From newClientConnection on.
  unfoldable pub handshake : Bytes → Bytes → S → Result (Dialled S)
  unfolding new_connection send_connection_setup conclude
  handshake client_id initial_id controller = do
    c ← send_connection_setup w now (new_connection w controller initial_id) version1 client_id
    conclude (wait c)

  unfoldable pub dial_one : Bool → Bool → Option Bytes → Option Bytes → S → Result (Dialled S)
  unfolding handshake
  dial_one resolved listens client_id initial_id controller =
      if not resolved
      then ok (not_made unopened)
      else if not listens
      then ok (not_made unopened)
      else elim client_id [
        | none ↦ ok (not_made shut)
        | some src ↦ elim initial_id [
          | none ↦ ok (not_made shut)
          | some dest ↦ handshake src dest controller
        ]
      ]

  -- The connection that is given up is closed, and so is its socket, for which nothing else has been
  -- written to the peer.
  conclude-closes :
      (d : Connection S)
      → (e : Connection S) × (conclude (d, false) ≡ ok (timed_out shut e))
        × (e.close_once ≡ true)
        × (e.written ≡ d.written)
  unfolding conclude
  conclude-closes d =
      let (e, f, written, number, history, congestion, once, rest, again) =
        close_with_error-Silent w later d 0 handshake_timeout in
      (e, rw f refl, once, written)
