-- ===== src/Connection/Pipe.antt =====
-- stream.go with conn.go: what Write takes on one side and Read returns on the other, with the network
-- between them. A packet is taken for the STREAM frame in it.
use quic_test.Prelude.{
  ℕ, ◌^◌, ◌<◌, ◌≡◌, ◌⊎◌, Bool, true, false, List, [], ◌∷◌, ◌++◌, ltb, if◌then◌else◌, take, Bytes,
  ok,
}
use quic_test.Stream.{
  Stream, new_stream, window, handle_stream_data, update_max_data, read_round, close, cancel_write,
}
use quic_test.Stream.Delivery.{bytes_of}
use quic_test.Connection.State.{World, Connection}
use quic_test.Connection.Writing.{WriteRound, wrote, write_round}
pub mod Slices
pub mod Window
pub mod Pieces
pub mod Delivery
pub mod Chunks
pub mod Writes
pub mod Whole
mod Traces

-- The offset, the data and the FIN of a STREAM frame.
abbrev pub Segment : Type 0
Segment = ℕ × Bytes × Bool

-- The two sides of a stream: the writer with its connection, what Write has taken so far, the frames
-- that were sent, the reader and what Read has returned.
pub record Pipe (S : Type 0) : Type 0 where
  pub conn : Connection S
  pub writer : Stream
  pub accepted : Bytes
  pub frames : List Segment
  pub reader : Stream
  pub out : Bytes

abbrev pub IsOneOf : Segment → List Segment → Type 0
IsOneOf f [] = ⊥
IsOneOf f (g ∷ gs) = (f ≡ g) ⊎ IsOneOf f gs

-- A round of Write that sends, anything else that happens to the writer's connection, a new limit of
-- the peer (a variable-length integer), CancelWrite, Close, the arrival of a frame, and a round of
-- Read. A frame may arrive late, more than once, or never.
pub data Reaches {S : Type 0} (w : World S) : Pipe S → Type 0 where
  begin :
      (c : Connection S) (id : ℕ)
      → Reaches w (record {
        conn = c;
        writer = new_stream id;
        accepted = [];
        frames = [];
        reader = new_stream id;
        out = [];
      })
  writes :
      {p : Pipe S} (now : ℕ) (left : Bytes) (c : Connection S) (s : Stream) (n : ℕ)
      → write_round w now p.conn p.writer left ≡ ok (wrote c s n)
      → Reaches w p
      → Reaches w (record p {
        conn = c;
        writer = s;
        accepted = p.accepted ++ take n left;
        frames =
            if ltb 0 n then (p.writer.write_offset, take n left, false) ∷ p.frames else p.frames;
      })
  works : {p : Pipe S} (c : Connection S) → Reaches w p → Reaches w (record p { conn = c })
  widens :
      {p : Pipe S} (limit : ℕ)
      → limit < 2 ^ 62
      → Reaches w p
      → Reaches w (record p { writer = update_max_data p.writer limit })
  cancels : {p : Pipe S} → Reaches w p → Reaches w (record p { writer = cancel_write p.writer })
  closes :
      {p : Pipe S}
      → Reaches w p
      → Reaches w (record p {
        writer = (close p.writer).0;
        frames = (p.writer.write_offset, [], true) ∷ p.frames;
      })
  arrives :
      {p : Pipe S} (offset : ℕ) (payload : Bytes) (fin : Bool)
      → IsOneOf (offset, payload, fin) p.frames
      → Reaches w p
      → Reaches w (record p { reader = (handle_stream_data p.reader offset payload fin).0 })
  reads :
      {p : Pipe S} (size : ℕ)
      → Reaches w p
      → Reaches w (record p {
        reader = (read_round p.reader size).0;
        out = p.out ++ bytes_of (read_round p.reader size).1;
      })
