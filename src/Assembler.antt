-- ===== src/Assembler.antt =====
-- internal/server/assembler.go: rebuilds one stream from the chunks of parallel connections.
-- Defs has the state and the operations, one function for each stretch of code under `ca.mu`; a
-- spill to disk releases the mutex in the middle, so `WriteChunk` is an entry and a commit.
pub mod Pending
pub mod Defs
pub mod Stream
pub mod Branches
pub mod Finish
pub mod System
pub mod Calls
pub mod Alone
pub mod Whole
pub mod Memory
pub mod Again
mod Tests
pub mod Assembly
pub mod Staged
pub mod Lazily
