-- ===== src/Protocol/Control.antt =====
-- The control channel between agent and server: its frames, their writers and readers, and the
-- dispatch loops at both ends.
pub mod Frames
pub mod Codec
pub mod Laws
pub mod Whole
pub mod Channel
mod Tests
