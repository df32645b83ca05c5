-- ===== src/Lib.antt =====
-- rnetlib: a verification library beside a game networking library in Rust.
--
-- The program is a workspace of crates. rnet-core holds handles, the event queue, the lifecycle and the
-- exported buffers; rnet-protocol the wire formats; rnet-security the keys and the transitions of a
-- session; rnet-transport the socket drivers on top of these; rnet-game the game layer that applications
-- use. A driver turns received bytes into frames or records, gives security controls to the transition
-- controller, and pushes events, which name endpoints and sessions by handles.
--
-- Core follows crates/rnet-core/src. Core/Handle is handle.rs (HandleTable, encode_handle,
-- decode_handle): a slot is a generation and an optional value, and the free list is a list whose head is
-- the end of the vector. Core/EventQueue is event_queue.rs with Event of event.rs: every operation holds
-- both locks, so it is one step on the state; a push_timeout takes its deadline, if an instant can
-- represent it, and the list of its sleeps, each with what other threads make of the queue meanwhile. Core/Lifecycle is lifecycle.rs, where a load and the
-- exchange after it are two steps. Core/Buffer is buffer.rs on the handle table; the address of a buffer
-- is its token. Error codes are those of error.rs (Prelude/Results); the diagnostic text is dropped.
--
-- Protocol follows crates/rnet-protocol/src. Protocol/Frame is lib.rs (FrameCodec, encode_frame,
-- decode_datagram, parse_header), Protocol/Control is control.rs (records, protected messages, controls).
-- Bytes are numbers below 256, and big-endian integers are read and written by Prelude/Bytes.
--
-- Security/Transition is crates/rnet-security/src/transition.rs (SecurityController). Its child Link is
-- the driver around it, process_inbound and the loop of crates/rnet-transport/src/adaptive_tcp_session.rs,
-- and the two ends of a connection with the records between them. Keys belong to a third-party package:
-- a key is the number of its rekeys, and a record opens only under the number that it was sealed with.
-- Security/Replay and Security/Datagram are the replay window and the datagram transport of lib.rs in the
-- same crate (ReplayWindow, DatagramTransport), over a cipher that is a parameter: the snow package.
--
-- Transport/RecordReader is crates/rnet-transport/src/record_reader.rs with write_wire of adaptive_tcp.rs.
--
-- Game follows crates/rnet-game/src: Envelope is envelope.rs, Heartbeat is heartbeat.rs, Quality is
-- quality.rs (loss tracker, grades, change gate), ClockSync is clock_sync.rs, Join is join.rs with
-- GameProtocol of config.rs, Realtime is realtime.rs (the
-- map of pending snapshots is the list of its entries; Realtime/Staging and Realtime/Client have the list of
-- messages that the calls make by the configuration alone), Admission is admission.rs (Admission/Race has the threads that
-- send, close and stop at once, in the order of lifecycle.rs and runtime.rs), Scheduler is the queue of one priority class of
-- scheduler.rs and Scheduler/Weighted the whole scheduler, with the calls that scheduler_runtime.rs and
-- the cleanup of runtime.rs make of it as steps (Scheduler/Weighted/Run). Instants and durations are
-- nanoseconds. A hash map whose keys are not enumerated is a function (Prelude/Maps).
--
-- Observe/Latency is LatencyHistogram of crates/rnet-observe/src/lib.rs, with one caller at a time.
--
-- usize and u64 are 64 bits, u32 32 bits; additions wrap, saturate or are checked as in the source
-- (Prelude/Words). Loops run on fuel where they are not structural: make_room of the event queue takes
-- one more than the events queued, since each round removes one; drain_frames of the frame codec and
-- take_all of the record reader take at most one round for each byte in the buffer, since each round
-- consumes a header; pop_next of the scheduler takes more than the messages queued, since each round
-- takes one. Where fuel can run out the result is an Option, or the bound is in the definition.
--
-- Not modelled: sockets, threads and timers, metrics, Protobuf helpers, the Noise handshake, KCP, the
-- datagram sockets, the logger, the runtimes and the foreign interface, which are input, output or calls of
-- other packages; and the game ranges, session resume, automatic rekeys and the datagram wire format.
pub mod Prelude
pub mod Core
pub mod Observe
pub mod Protocol
pub mod Security
pub mod Transport
pub mod Game
