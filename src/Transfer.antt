-- ===== src/Transfer.antt =====
-- A backup over parallel connections from the agent's producer to the server's file, where no
-- connection is lost: emitChunk of internal/agent/dispatcher.go fills the ring buffers, each connection
-- delivers the bytes of one, and receiveParallelStream of internal/server/handler_parallel.go passes the
-- chunks on to the assembler, here without the chunk buffer between them. The connections are served
-- one after the other; that their calls of WriteChunk may also mix is what Assembler shows.
pub mod Laws
pub mod Whole
mod Tests
use n_backup.Prelude.{ℕ, ◌+◌, List, [], ◌∷◌, length, get_elem?, none, some}
use n_backup.Dispatcher.{Dispatcher}
use n_backup.Assembler.Defs.{Assembler}
use n_backup.Assembler.Alone.{write_chunk_alone}
use n_backup.Receive.{Receiving, Ended, receive_parallel_stream}

-- The bytes that a stream's connection delivers.
unfoldable pub ring_of : Dispatcher → ℕ → List ℕ
ring_of d i = elim (get_elem? d.streams i) [ none ↦ [] | some s ↦ s.written ]

-- The slot of a stream that joins for the first time.
unfoldable pub joined : Assembler → Receiving Assembler
joined ca = record {
  session = ca;
  offset = 0;
  local_chunk_seq = 0;
  chunks_received = 0;
  last_chunk_seq = 0;
  sacks = [];
}

unfoldable pub receive_stream : (List ℕ → ℕ) → ℕ → List ℕ → Assembler → Ended × Assembler
receive_stream crc i bytes ca =
    let (ended, r) =
      receive_parallel_stream write_chunk_alone crc i (length bytes + 1) bytes (joined ca) in
    (ended, r.session)

-- The connections of the streams in `order`, and how each ends.
unfoldable pub receive_streams :
    (List ℕ → ℕ) → Dispatcher → List ℕ → Assembler → List Ended × Assembler
receive_streams crc d [] ca = ([], ca)
receive_streams crc d (i ∷ order) ca =
    let (ended, ca') = receive_stream crc i (ring_of d i) ca in
    let (others, out) = receive_streams crc d order ca' in (ended ∷ others, out)
