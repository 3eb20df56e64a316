-- ===== src/Protocol/Writer.antt =====
-- The writers of internal/protocol/writer.go: each is the list of its `w.Write` calls, in order.
use n_backup.Prelude.{ℕ, List, [], ◌∷◌, ◌==◌, if◌then◌else◌, length}
use n_backup.Protocol.Wire.{put_be}
use n_backup.Protocol.Frames.{
  magic_handshake, magic_trailer, magic_ping, magic_resume, magic_sack, magic_parallel_join,
  magic_chunk_sack, protocol_version,
}

-- The calls of one writer.
abbrev pub Writes : Type 0
Writes = List (List ℕ)

abbrev newline : List ℕ
newline = 10 ∷ []

unfoldable pub write_handshake : List ℕ → List ℕ → List ℕ → List ℕ → Writes
write_handshake agent_name storage_name backup_name client_version =
    magic_handshake
    ∷ (protocol_version ∷ [])
    ∷ agent_name
    ∷ newline
    ∷ storage_name
    ∷ newline
    ∷ backup_name
    ∷ newline
    ∷ client_version
    ∷ newline
    ∷ []

unfoldable pub write_ack : ℕ → List ℕ → List ℕ → ℕ → Writes
write_ack status message session_id compression_mode =
    let behind : Writes = newline ∷ session_id ∷ newline ∷ (compression_mode ∷ []) ∷ [] in
    (status ∷ []) ∷ (if length message == 0 then behind else message ∷ behind)

unfoldable pub write_trailer : List ℕ → ℕ → Writes
write_trailer checksum size = magic_trailer ∷ checksum ∷ put_be 8 size ∷ []

unfoldable pub write_final_ack : ℕ → Writes
write_final_ack status = (status ∷ []) ∷ []

unfoldable pub write_ping : Writes
write_ping = magic_ping ∷ []

unfoldable pub write_health_response : ℕ → ℕ → Writes
write_health_response status disk_free = (status ∷ []) ∷ put_be 8 disk_free ∷ newline ∷ []

unfoldable pub write_resume : List ℕ → List ℕ → List ℕ → Writes
write_resume session_id agent_name storage_name =
    magic_resume
    ∷ (protocol_version ∷ [])
    ∷ session_id
    ∷ newline
    ∷ agent_name
    ∷ newline
    ∷ storage_name
    ∷ newline
    ∷ []

unfoldable pub write_sack : ℕ → Writes
write_sack offset = magic_sack ∷ put_be 8 offset ∷ []

unfoldable pub write_resume_ack : ℕ → ℕ → Writes
write_resume_ack status last_offset = (status ∷ []) ∷ put_be 8 last_offset ∷ []

unfoldable pub write_parallel_init : ℕ → ℕ → Writes
write_parallel_init max_streams chunk_size = (max_streams ∷ []) ∷ put_be 4 chunk_size ∷ []

unfoldable pub write_parallel_init_ack : ℕ → Writes
write_parallel_init_ack status = (status ∷ []) ∷ []

unfoldable pub write_parallel_join : List ℕ → ℕ → ℕ → Writes
write_parallel_join session_id stream_index flags =
    magic_parallel_join
    ∷ (protocol_version ∷ [])
    ∷ session_id
    ∷ newline
    ∷ (stream_index ∷ [])
    ∷ (flags ∷ [])
    ∷ []

unfoldable pub write_parallel_ack : ℕ → ℕ → Writes
write_parallel_ack status last_offset = (status ∷ []) ∷ put_be 8 last_offset ∷ []

unfoldable pub write_chunk_sack : ℕ → ℕ → ℕ → Writes
write_chunk_sack stream_index chunk_seq offset =
    magic_chunk_sack ∷ (stream_index ∷ []) ∷ put_be 4 chunk_seq ∷ put_be 8 offset ∷ []

unfoldable pub write_chunk_header : ℕ → ℕ → ℕ → ℕ → Writes
write_chunk_header global_seq len slot_id crc32 =
    put_be 4 global_seq ∷ put_be 4 len ∷ (slot_id ∷ []) ∷ put_be 4 crc32 ∷ []
