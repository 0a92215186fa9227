-- ===== src/Lib.antt =====
-- A model of a QUIC transport without encryption (quic/), of the file transfer over it (cmd/), and what
-- holds of them.
--
-- The program. quic/quicvarint codes integers, quic/protocol has packet numbers, stream and
-- connection identifiers, quic/wire has the frames and packet headers, quic/stream.go puts the data
-- of a stream together again. quic/conn.go parses packets with quic/wire, hands the frames to the
-- streams, and sends; quic/listener.go hands packets to connections. cmd/fileserver and cmd/fileclient
-- send files over the streams.
--
-- The files.
--   Prelude: shared names, Boolean tests, lists over the native numbers, machine words, the results
--     of fallible Go functions (a value, an error or a panic), lemmas on bit operations.
--   Varint: quic/quicvarint/varint.go (Parse, Append, AppendWithLen, Len).
--   Protocol: quic/protocol/types.go. StreamId has StreamID and Perspective, PacketNumber has
--     DecodePacketNumber, PacketNumberLengthForHeader, EncodePacketNumber, AppendPacketNumber.
--   Wire: quic/wire. Limits, Control, Stream and Ack have the frames of the files of those names and
--     of frame.go, Frame has ParseNext and the Frame interface, Header has the short header of
--     header.go, LongHeader the long header, which LongHeader.Writing writes. A parser keeps the
--     source's offset.
--   Stream: quic/stream.go but Write. One function per method, from a state to a state; the rounds of
--     the loop of Read are steps. Pending is the map of data that came in ahead of its turn.
--   Connection: quic/conn.go. State has the connection and the history of sent packets, Setup a new
--     connection and the Initial packets, Sending has sendFrame and flushPendingFrames, Loss has
--     handleAckFrame and flushRetransmitQueue, Closing has CloseWithError and checkPTO, Receive has
--     handleReceivedPacket, handleFrame and sendAckIfNeeded, AckRanges has buildAckRanges, Frames the
--     loop of parseAndHandleFrames. Runs has the runs of a connection. Writing is Write of
--     quic/stream.go. Transfer is a packet from one connection to another, Pipe a stream with both its
--     ends and a network between them that loses, repeats and reorders frames. EventLoop is run.
--   Congestion: quic/utils. Controller is the interface of congctl.go, which Instances fills, NewReno
--     is congestion.go, Cubic is cubic.go, Bbr is bbr.go, Rtt is rtt.go. Floats is float64 as a
--     parameter of Cubic and Bbr; NewReno and Rtt take the one value that they need of it.
--   Listener: quic/listener.go, dispatchPacket. Dialing is dialOne, Happy is DialHappy: its goroutines
--     take turns in any order, and an attempt is known by its place in the list of addresses.
--   FileTransfer: the requests and answers of cmd/fileserver/main.go (Server) and
--     cmd/fileclient/main.go (Client). A stream is the pieces that Read returns, and what comes
--     behind them: a FIN, an error or silence. The files of a directory are an association list.
--
-- The connection's state. sendPacketHistory is the list `history`; sendPacketMap is the list
-- `tracked` of its keys, and a pointer in it is found in the history by its number. The datagrams
-- handed to WriteTo are the list `written`; whether WriteTo takes one is a function of what it was
-- handed before. A method takes the time as an argument, and reads the clock once.
--
-- How it corresponds. A byte is a number below 256, an int64 is the number of its two's complement
-- pattern, sums and differences wrap as written; a slice is a list; a map is an association list. A
-- function that returns an error is a function into Result, where a run-time panic is a result too.
-- The error of a message with no number in it is one constructor for all messages of its kind.
--
-- Loops and fuel. The loops over the input are structural, or run on fuel that the input's length or
-- the number of waiting chunks bounds, or, in Write, the number of the bytes. Slices and lengths are
-- below 2 ^ 63, as in every Go program.
--
-- Not modelled: sockets, timers, mutexes (an operation under a mutex is one step), logs, and
-- goroutines but for those of DialHappy; random connection identifiers; deadlines, and the condition
-- variables of quic/stream.go, where an operation that would wait returns so; the read loops, and the
-- selects of WaitReady, AcceptStream and Accept; Close of quic/listener.go; the echo programs cmd/client
-- and cmd/server; flags, progress and printing in the file programs.
pub mod Prelude
pub mod Varint
pub mod Wire
pub mod Protocol
pub mod Stream
pub mod Connection
pub mod Congestion
pub mod FileTransfer
pub mod Listener
