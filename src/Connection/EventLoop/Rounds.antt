-- ===== src/Connection/EventLoop/Rounds.antt =====
-- conn.go: the rounds of the event loop.
use quic_test.Prelude.{
  ℕ, ◌+◌, ◌^◌, ◌<◌, ◌≡◌, true, List, [], ◌∷◌, length, All, IsByte, Bytes, Result, ok,
}
use quic_test.Connection.State.{World, Connection}
use quic_test.Connection.Loss.Settled.{Settled}
use quic_test.Connection.Receive.Packets.{Lasts}
use quic_test.Connection.Receive.Unpacking.{unpack}
use quic_test.Connection.EventLoop.{Loop, Round, goes_on, returns, not_ready}

module _ {S : Type 0} (w : World S) (now : ℕ) where
  -- The packets that wait are bytes, and there are numbers left for a round.
  abbrev pub FirstLasts : Connection S → List Bytes → Type 0
  FirstLasts c [] = Unit
  FirstLasts c (p ∷ ps) = Lasts w now (unpack c p)

  pub record CanRun (l : Loop S) : Type 0 where
    pub settled : Settled w l.conn
    pub bytes : All (λ (p : Bytes). All IsByte p) l.packets
    pub numbers : l.conn.send_pn + length l.conn.history + 2 < 2 ^ 64
    pub lasts : FirstLasts l.conn l.packets

  -- What a round leaves: a settled connection, and packets that waited before.
  abbrev pub Leaves : Loop S → Round S → Type 0
  Leaves l (goes_on k) = Settled w k.conn × All (λ (p : Bytes). All IsByte p) k.packets
  Leaves l (returns k) = (k ≡ l) × (l.conn.close_once ≡ true)
  Leaves l not_ready = Unit

  abbrev pub RunsOn : Loop S → Result (Round S) → Type 0
  RunsOn l r = (x : Round S) × (r ≡ ok x) × Leaves l x
