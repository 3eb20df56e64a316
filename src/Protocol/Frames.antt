-- ===== src/Protocol/Frames.antt =====
-- The magic bytes, status codes and frame types of internal/protocol/frames.go. Strings and byte
-- arrays are lists of bytes; unsigned integers of w bits are numbers, below 2 ^ w on the wire.
use n_backup.Prelude.{ℕ, List, [], ◌∷◌}

abbrev pub magic_handshake : List ℕ
magic_handshake = b'N' ∷ b'B' ∷ b'K' ∷ b'P' ∷ []

abbrev pub magic_trailer : List ℕ
magic_trailer = b'D' ∷ b'O' ∷ b'N' ∷ b'E' ∷ []

abbrev pub magic_ping : List ℕ
magic_ping = b'P' ∷ b'I' ∷ b'N' ∷ b'G' ∷ []

abbrev pub magic_resume : List ℕ
magic_resume = b'R' ∷ b'S' ∷ b'M' ∷ b'E' ∷ []

abbrev pub magic_sack : List ℕ
magic_sack = b'S' ∷ b'A' ∷ b'C' ∷ b'K' ∷ []

abbrev pub magic_parallel_join : List ℕ
magic_parallel_join = b'P' ∷ b'J' ∷ b'I' ∷ b'N' ∷ []

abbrev pub magic_chunk_sack : List ℕ
magic_chunk_sack = b'C' ∷ b'S' ∷ b'A' ∷ b'K' ∷ []

-- ProtocolVersion
abbrev pub protocol_version : ℕ
protocol_version = 6

-- ChunkHeaderSize
abbrev pub chunk_header_size : ℕ
chunk_header_size = 13

-- JoinReasonNone
abbrev pub join_reason_none : ℕ
join_reason_none = 0

pub record Handshake : Type 0 where
  pub version : ℕ
  pub agent_name : List ℕ
  pub storage_name : List ℕ
  pub backup_name : List ℕ
  pub client_version : List ℕ

pub record Ack : Type 0 where
  pub status : ℕ
  pub message : List ℕ
  pub session_id : List ℕ
  pub compression_mode : ℕ

pub record Trailer : Type 0 where
  pub checksum : List ℕ
  pub size : ℕ

pub record Resume : Type 0 where
  pub session_id : List ℕ
  pub agent_name : List ℕ
  pub storage_name : List ℕ

pub record ResumeAck : Type 0 where
  pub status : ℕ
  pub last_offset : ℕ

pub record HealthResponse : Type 0 where
  pub status : ℕ
  pub disk_free : ℕ

pub record ParallelInit : Type 0 where
  pub max_streams : ℕ
  pub chunk_size : ℕ

pub record ParallelJoin : Type 0 where
  pub session_id : List ℕ
  pub stream_index : ℕ
  pub flags : ℕ

pub record ParallelAck : Type 0 where
  pub status : ℕ
  pub last_offset : ℕ

pub record ChunkSack : Type 0 where
  pub stream_index : ℕ
  pub chunk_seq : ℕ
  pub offset : ℕ

pub record ChunkHeader : Type 0 where
  pub global_seq : ℕ
  pub length : ℕ
  pub slot_id : ℕ
  pub crc32 : ℕ
