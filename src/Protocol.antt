-- ===== src/Protocol.antt =====
-- internal/protocol: the binary frames that agent and server exchange. Wire holds what the source
-- takes from io, bufio and encoding/binary; Frames the types and constants of frames.go; Writer and
-- Reader the functions of writer.go and reader.go; Control those of control.go.
pub mod Wire
pub mod Frames
pub mod Writer
pub mod Reader
pub mod RoundTrip
pub mod Truncation
mod Tests
pub mod Control
