-- ===== src/Connection/EventLoop.antt =====
-- conn.go: run, the loop of a connection over its packets, its signals and its tickers. Each round is a
-- step with the case that `select` takes.
use quic_test.Prelude.{ℕ, ◌-◌, List, [], ◌∷◌, ◌==◌, if◌then◌else◌, Bytes, Result, ok, map_ok}
use quic_test.Connection.State.{World, Connection}
use quic_test.Connection.Closing.{check_pto}
use quic_test.Connection.Receive.{handle_received_packet, send_ack_if_needed}
pub mod Rounds
mod Tests

-- The cases of the `select`.
pub data Event : Type 0 where
  packet immediate_ack ack_tick pto_tick done : Event

-- `packets` is what waits in packetCh; the signals that wait in immediateAckCh are in the connection.
pub record Loop (S : Type 0) : Type 0 where
  pub conn : Connection S
  pub packets : List Bytes

-- The loop goes on, or it returns, or this case is not ready.
pub data Round (S : Type 0) : Type 0 where
  goes_on : Loop S → Round S
  returns : Loop S → Round S
  not_ready : Round S

module _ {S : Type 0} (w : World S) (now : ℕ) where
  abbrev with_conn : Loop S → Result (Connection S) → Result (Round S)
  with_conn l r = map_ok (λ (c : Connection S). goes_on (record l { conn = c })) r

  abbrev pub take_packet : Loop S → List Bytes → Result (Round S)
  take_packet l [] = ok not_ready
  take_packet l (p ∷ ps) =
      with_conn (record l { packets = ps }) (handle_received_packet w now l.conn p)

  unfoldable pub run_event : Loop S → Event → Result (Round S)
  run_event l packet = take_packet l l.packets
  run_event l immediate_ack =
      if l.conn.ack_signals == 0
      then ok not_ready
      else with_conn l
          (send_ack_if_needed w now (record l.conn { ack_signals = l.conn.ack_signals - 1 }))
  run_event l ack_tick = with_conn l (send_ack_if_needed w now l.conn)
  run_event l pto_tick = with_conn l (check_pto w now l.conn)
  run_event l done = if l.conn.close_once then ok (returns l) else ok not_ready
