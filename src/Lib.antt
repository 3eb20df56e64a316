-- ===== src/Lib.antt =====
-- n-backup: an agent streams a backup of a machine to a server, over one connection or over several
-- in parallel, and survives lost connections by sending again what was not acknowledged.
--
-- The agent's producer cuts the archive into chunks and writes each, behind a header, into the ring
-- buffer of one connection; a sender reads it at absolute offsets, and the buffer is freed when the
-- server acknowledges. The server reads the chunks of all connections and rebuilds the stream from
-- their sequence numbers. A control channel beside the data carries pings, progress, statistics and requests.
--
-- RingBuffer (internal/agent/ringbuffer.go). The record is the struct. `write_step` and `read_at` are
--   one critical section of Write and ReadAt each; a wait on a condition variable is an outcome.
--   RingBuffer/System has the loops of Write and ReadFullAt over a schedule of critical sections, in
--   which acknowledgements and the close come at any place. The abstract view (`Holds`, in
--   RingBuffer/Content) is the stream itself: the buffer has its bytes from `tail` to `head`.
-- Protocol (internal/protocol/frames.go, writer.go, reader.go). Protocol/Frames has the structs and
--   magics, Protocol/Writer each writer as the list of its Write calls, Protocol/Reader each reader
--   as a function of the bytes that the connection still delivers. Protocol/Wire has these inputs,
--   the errors and the big-endian numbers.
-- Protocol/Control (internal/protocol/control.go). Control/Frames and Control/Codec are the frames of
--   the control channel; Control/Channel is how the loops of internal/server/handler_control.go and
--   internal/agent/control_channel.go tell them apart by magic.
-- Frame: a chunk with its header of 13 bytes, as it stands in a ring buffer and on a data connection.
-- Dispatcher (internal/agent/dispatcher.go): Write, Flush and emitChunk of the producer. A ring buffer
--   is the bytes that were ever written to it (what RingBuffer shows of Write), and a write to it one
--   step: the waits for room are those of RingBuffer/System. `Log` is the list of
--   chunks that were emitted. ActivateStream is modelled from the answer of the server on.
-- Ledger (internal/agent/dispatcher.go): the ledger of a ParallelStream, which translates the wire
--   offsets that the server acknowledges to offsets of the ring buffer. Ledger/Sent is the history of
--   what was sent, Ledger/Reach the histories that can be. A new record is taken to be made in the
--   order of the wire. `translate_wire_offset` subtracts on ℕ: the code lets its base pass below 0 and
--   returns 0 then, and only ever subtracts.
-- Sender (internal/agent/dispatcher.go): what the sender of a stream does with its ring buffer, its
--   ledger and its connection: readChunkFrame, writeFrame, the acknowledgements, and
--   syncStreamAfterReconnect. Sender/Loop has the loop of startSenderWithRetry, with waitForFinalDrain
--   and the rotation of the port, and RetransmitChunk: one turn of the loop is a step, and what the
--   connection, reconnectStream and the waits do is its argument.
-- AutoScaler (internal/agent/autoscaler.go): evaluate in both modes, over the streams of Dispatcher. A
--   rate is a float in the code; a sample says how the code's comparisons of it come out, and the
--   gain of a probe is a section parameter. The rates of the snapshot and the messages to the server
--   are left out.
-- Receive (internal/server/handler_parallel.go): the loop of receiveParallelStream, over the bytes that
--   a connection delivers until it ends. The delivery of a chunk and CRC32 are section parameters.
-- ChunkBuffer (internal/server/chunkbuffer.go): the queue in memory that may stand between the receive
--   loops and the assemblers. ChunkBuffer/Defs has the struct and its operations, cut where other
--   goroutines can come in: the Adds on the two counters of bytes and the Delete of Flush are steps of
--   their own. ChunkBuffer/System runs the steps of Push, the drainer, MarkSessionAborted and that
--   Delete in any order, with WriteChunk as a parameter. The counters are natural numbers: the code's
--   could pass below 0 only behind a Delete that lost a count.
-- Join (internal/server/handler_parallel.go, slot.go): handleParallelJoin ahead of and behind the receive
--   loop, and abort. Connections and contexts are left out; the answer's write is an argument.
-- Assembler (internal/server/assembler.go). Assembler/Defs has the struct and WriteChunk. A spill to
--   disk releases the mutex in the middle of a call, so a call is an entry (`write_chunk`) and a
--   commit (`commit_spill`); Assembler/System runs any number of calls in any order of these.
--   Assembler/Finish has Finalize and Cleanup. Eager mode writes chunks as they come in turn, lazy
--   mode stages all of them and assembles at the end.
-- Transfer: Dispatcher, Frame, Receive and Assembler put together. It instantiates the delivery with
--   WriteChunk, and serves the connections one after the other.
-- Storage (internal/server/storage.go, handler_parallel.go): the rotation on the entries of a directory,
--   with os.Remove as a parameter, and validateAndCommitWithTrailer as the list of its effects.
-- Single (internal/server/handler_single.go, handler.go): receiveWithSACK, with the bufio.Writer in front
--   of the temporary file. Single/Handshake has HandleConnection and the checks of handleBackup,
--   Single/Sessions the backup, the resume and the commit over the maps of the Handler, a call being one
--   step. Single/Delivery and Single/Upload add what the agent sends. The sizes of the buffer and of the
--   SACK interval and SHA-256 are section parameters.
-- Sanitize (internal/server/sanitize.go): the check of a name that is to be a component of a path.
-- Prelude: the names of the libraries that all parts use, Boolean tests on numbers, lemmas on lists,
--   and `copy_at`, which is Go's `copy` into a slice.
--
-- Numbers. Offsets and byte counts are int64 in the code and ℕ here: but for the ledger's
--   base, above, none of the modelled code makes them negative, and they stay below 2^63. Sequence numbers and lengths of the protocol are
--   machine-width: the writers wrap what they write, and `next_seq` wraps at 2^32. A float32 is its
--   32 bits. A byte is a number, below 256 where a theorem needs it.
-- Fuel. flushPending has as much fuel as chunks wait, the assembly of lazy mode one round more: each
--   round but the last takes a chunk out of the map. The loops of the ring buffer end with the
--   schedule they are given. Write of the dispatcher has a round for each byte: no round takes none. drainSlot makes its three attempts, and the loop of Flush has a list of looks. The
--   receive loop has the number of rounds after which its context is cancelled.
-- Failures. Reads end in an error where the bytes end. Failures of disk writes and renames are
--   arguments. Writes to the assembled file and reads of a staged file are taken to succeed. The text
--   of an error is kept only as what it says it was doing.
-- Not modelled: logging, metrics, terminal and HTTP output, timers and deadlines, TLS, the archive
--   formats and compression, the S3 client, YAML; the waits of a parallel session
--   and post-commit uploads.
pub mod Prelude
pub mod RingBuffer
pub mod Protocol
pub mod Frame
pub mod Dispatcher
pub mod Ledger
pub mod Sender
pub mod AutoScaler
pub mod Receive
pub mod ChunkBuffer
pub mod Join
pub mod Assembler
pub mod Transfer
pub mod Storage
pub mod Single
pub mod Sanitize
