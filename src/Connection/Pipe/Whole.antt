-- ===== src/Connection/Pipe/Whole.antt =====
-- A Write on a new stream, and a network that loses nothing for good.
use quic_test.Stream.{Stream}
use quic_test.Connection.State.{Connection}
use quic_test.Connection.Pipe.{Pipe}
