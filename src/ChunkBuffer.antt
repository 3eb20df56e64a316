-- ===== src/ChunkBuffer.antt =====
-- internal/server/chunkbuffer.go: the queue in memory between the receive loops of all sessions and their
-- assemblers. Defs has the state and the operations; System runs any number of calls of Push, the
-- drainer and MarkSessionAborted in any order of their atomic steps.
pub mod Defs
pub mod System
pub mod Counts
pub mod Queue
pub mod Runs
pub mod Flush
mod Tests
