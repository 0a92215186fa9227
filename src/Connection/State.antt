-- ===== src/Connection/State.antt =====
-- conn.go: the state of a connection and the history of the packets that it sent. Packet numbers,
-- sizes and times are int64 patterns; each operation reads the clock once. The mutexes, the buffer
-- pools and logging are left out.
use quic_test.Prelude.{
  ℕ, Bool, true, false, ◌||◌, Option, none, some, List, [], ◌∷◌, ◌++◌, ◌==◌, if◌then◌else◌, length,
  take, Bytes, u64, add64, lt_int64,
}
use quic_test.Wire.Frame.{Frame}
use quic_test.Congestion.Controller.{Controller}
use quic_test.Congestion.Rtt.{RttStats}
use quic_test.Stream.{Stream}

-- What a connection is given: its congestion controller, whether WriteTo takes a datagram after those
-- that it was handed before, and the floating point product of LossDelay.
pub record World (S : Type 0) : Type 0 where
  pub cc : Controller S
  pub write_ok : List Bytes → Bytes → Bool
  pub nine_eighths : ℕ → ℕ

-- `time` is never zero: each packet gets the time at which it is sent. `buf` is what was copied into
-- the array, without the zeros behind it.
pub record SentPacket : Type 0 where
  pub pn : ℕ
  pub buf : Bytes
  pub data_len : ℕ
  pub time : ℕ
  pub is_ack_eliciting : Bool
  pub acked : Bool
  pub lost : Bool
  pub retransmitted : Bool
  pub is_retransmit : Bool

pub data CloseError : Type 0 where
  -- "%s (code %d)"
  local_close : Bytes → ℕ → CloseError
  -- "remote closed: %s (code %d)"
  remote_close : Bytes → ℕ → CloseError

-- `history` has the packets in the order of sendPacketHistory, and `tracked` the keys of sendPacketMap,
-- whose pointers go to the packets of the history. `accepted` is what waits in acceptCh, `ack_signals`
-- the number of signals in immediateAckCh, and `written` every datagram that WriteTo was handed.
pub record Connection (S : Type 0) : Type 0 where
  pub dest_conn_id : Bytes
  pub streams : List (ℕ × Stream)
  pub next_bidi : ℕ
  pub next_uni : ℕ
  pub accepted : List ℕ
  pub ready : Bool
  pub closed : Bool
  pub close_once : Bool
  pub close_err : Option CloseError
  pub send_pn : ℕ
  pub recv_pn : ℕ
  pub largest_recv_pn : ℕ
  pub pending_frames : List Frame
  pub max_streams_bidi : ℕ
  pub max_streams_uni : ℕ
  pub conn_max_data : ℕ
  pub recv_packet_history : List ℕ
  pub history : List SentPacket
  pub tracked : List ℕ
  pub ack_signals : ℕ
  pub ack_eliciting_since_last_ack : ℕ
  pub last_ack_time : Option ℕ
  pub rtt_stats : RttStats
  pub congestion : S
  pub retransmit_queue : List SentPacket
  pub last_recv_ack_time : Option ℕ
  pub pto_count : ℕ
  pub largest_sent_pn : ℕ
  pub largest_acked_pn : ℕ
  pub local_max_stream_data : List (ℕ × ℕ)
  pub max_packet_size : ℕ
  pub written : List Bytes

abbrev pub max_packet_buffer_size : ℕ
max_packet_buffer_size = 1452

-- A packet that was just sent: `copy` cuts it to the array, and `len` counts all of it.
unfoldable pub new_sent_packet : ℕ → Bytes → ℕ → Bool → Bool → SentPacket
new_sent_packet pn b now eliciting again = record {
  pn = pn;
  buf = take max_packet_buffer_size b;
  data_len = u64 (length b);
  time = now;
  is_ack_eliciting = eliciting;
  acked = false;
  lost = false;
  retransmitted = false;
  is_retransmit = again;
}

abbrev pub larger_int64 : ℕ → ℕ → ℕ
larger_int64 a b = if lt_int64 a b then b else a

abbrev pub member : ℕ → List ℕ → Bool
member x [] = false
member x (y ∷ ys) = (y == x) || member x ys

abbrev pub remove : ℕ → List ℕ → List ℕ
remove x [] = []
remove x (y ∷ ys) = if y == x then remove x ys else y ∷ remove x ys

abbrev pub find_packet : ℕ → List SentPacket → Option SentPacket
find_packet n [] = none
find_packet n (p ∷ ps) = if p.pn == n then some p else find_packet n ps

-- `sendPacketMap[pn]`
abbrev pub lookup : List ℕ → List SentPacket → ℕ → Option SentPacket
lookup keys ps n = if member n keys then find_packet n ps else none

abbrev pub mark_acked : ℕ → List SentPacket → List SentPacket
mark_acked n [] = []
mark_acked n (p ∷ ps) = (if p.pn == n then record p { acked = true } else p) ∷ mark_acked n ps

-- `if orig, ok := c.sendPacketMap[pn]; ok { orig.acked = true }`
abbrev pub acknowledge : List ℕ → ℕ → List SentPacket → List SentPacket
acknowledge keys n ps = if member n keys then mark_acked n ps else ps

module _ {S : Type 0} where
  -- sendPN.Add(1) - 1, with largestSentPN.
  abbrev pub take_number : Connection S → Connection S
  take_number c = record c {
    send_pn = add64 c.send_pn 1;
    largest_sent_pn = larger_int64 c.largest_sent_pn c.send_pn;
  }

  abbrev pub track : Connection S → SentPacket → Connection S
  track c p = record c { history = c.history ++ (p ∷ []); tracked = c.tracked ++ (p.pn ∷ []) }

  abbrev pub written_to : Connection S → Bytes → Connection S
  written_to c b = record c { written = c.written ++ (b ∷ []) }

-- compactSentHistory: what is left of the history, and of the keys.
unfoldable pub compact_history : List SentPacket → List SentPacket
compact_history [] = []
compact_history (p ∷ ps) = if p.acked then compact_history ps else p ∷ compact_history ps

unfoldable pub compact_keys : List SentPacket → List ℕ → List ℕ
compact_keys [] keys = keys
compact_keys (p ∷ ps) keys = compact_keys ps (if p.acked then remove p.pn keys else keys)

unfoldable pub compact_sent_history : {S : Type 0} → Connection S → Connection S
unfolding compact_history compact_keys
compact_sent_history c = record c {
  history = compact_history c.history;
  tracked = compact_keys c.history c.tracked;
}
