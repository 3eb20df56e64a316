-- ===== src/Protocol/Reader.antt =====
-- The readers of internal/protocol/reader.go. ReadResume and ReadParallelJoin start behind the magic,
-- which the server's dispatcher has read.
use Prim.Native.String.{String}
use n_backup.Prelude.{ℕ, ◌+◌, List, [], ◌∷◌, ltb, leb, ◌==◌, if◌then◌else◌}
use n_backup.Protocol.Wire.{
  Reader, ok, err, eof, line_too_long, reading, invalid_version, ◌>>=◌, ◌>>◌, done, fail, read_full,
  read_byte, read_uint, read_magic, read_string, cons_byte,
}
use n_backup.Protocol.Frames.{
  magic_handshake, magic_trailer, magic_ping, magic_sack, magic_chunk_sack, protocol_version,
  join_reason_none, Handshake, Ack, Trailer, Resume, ResumeAck, HealthResponse, ParallelInit,
  ParallelJoin, ParallelAck, ChunkSack, ChunkHeader,
}

-- maxLineLength
abbrev pub max_line_length : ℕ
max_line_length = 1024

-- `buf` has `len` bytes when the loop comes round.
unfoldable pub read_line_from : String → ℕ → ℕ → Reader (List ℕ)
read_line_from what max len [] = err (reading what eof)
read_line_from what max len (b ∷ s) =
    let more = cons_byte b (read_line_from what max (len + 1) s) in
    if b == 10
    then ok ([], s)
    else if ltb max (len + 1)
    then err (reading what line_too_long)
    else more

-- readLineLimited
unfoldable pub read_line_limited : String → ℕ → Reader (List ℕ)
read_line_limited what max = read_line_from what max 0

-- The version byte, which has to be this program's own.
unfoldable pub read_version : String → Reader ℕ
read_version what = do
  version ← read_byte what
  if version == protocol_version then done version else fail invalid_version

unfoldable pub read_handshake : Reader Handshake
read_handshake = do
  read_magic magic_handshake "handshake magic"
  version ← read_version "handshake version"
  name ← read_string "agent name"
  storage_name ← read_string "storage name"
  backup_name ← read_string "backup name"
  client_version ← if leb 3 version then read_string "client version" else done []
  done (record {
    version = version;
    agent_name = name;
    storage_name = storage_name;
    backup_name = backup_name;
    client_version = client_version;
  })

unfoldable pub read_ack : Reader Ack
read_ack = do
  status ← read_byte "ack status"
  msg ← read_string "ack message"
  session_id ← read_string "ack session id"
  comp_mode ← read_byte "ack compression mode"
  done (record {
    status = status;
    message = msg;
    session_id = session_id;
    compression_mode = comp_mode;
  })

unfoldable pub read_trailer : Reader Trailer
read_trailer = do
  read_magic magic_trailer "trailer magic"
  checksum ← read_full 32 "trailer checksum"
  size ← read_uint 8 "trailer size"
  done (record { checksum = checksum; size = size })

unfoldable pub read_final_ack : Reader ℕ
read_final_ack = read_byte "final ack"

unfoldable pub read_ping : Reader (Unit {0})
read_ping = read_magic magic_ping "ping magic"

unfoldable pub read_health_response : Reader HealthResponse
read_health_response = do
  status ← read_byte "health status"
  disk_free ← read_uint 8 "health disk free"
  delim ← read_byte "health delimiter"
  done (record { status = status; disk_free = disk_free })

unfoldable pub read_resume : Reader Resume
read_resume = do
  version ← read_version "resume version"
  session_id ← read_line_limited "resume session id" max_line_length
  agent_name ← read_line_limited "resume agent name" max_line_length
  storage_name ← read_line_limited "resume storage name" max_line_length
  done (record { session_id = session_id; agent_name = agent_name; storage_name = storage_name })

unfoldable pub read_sack : Reader ℕ
read_sack = do read_magic magic_sack "sack magic"; read_uint 8 "sack offset"

unfoldable pub read_resume_ack : Reader ResumeAck
read_resume_ack = do
  status ← read_byte "resume ack status"
  last_offset ← read_uint 8 "resume ack offset"
  done (record { status = status; last_offset = last_offset })

unfoldable pub read_parallel_init_after_max_streams : ℕ → Reader ParallelInit
read_parallel_init_after_max_streams max_streams = do
  chunk_size ← read_uint 4 "parallel init chunk size"
  done (record { max_streams = max_streams; chunk_size = chunk_size })

unfoldable pub read_parallel_init : Reader ParallelInit
read_parallel_init = do
  max_streams ← read_byte "parallel init max streams"
  chunk_size ← read_uint 4 "parallel init chunk size"
  done (record { max_streams = max_streams; chunk_size = chunk_size })

unfoldable pub read_parallel_init_ack : Reader ℕ
read_parallel_init_ack = read_byte "parallel init ack"

-- An old agent sends no flags: the end of input there is no error.
unfoldable pub read_flags : Reader ℕ
read_flags [] = ok (join_reason_none, [])
read_flags (b ∷ s) = ok (b, s)

unfoldable pub read_parallel_join : Reader ParallelJoin
read_parallel_join = do
  version ← read_version "parallel join version"
  session_id ← read_line_limited "parallel join session id" max_line_length
  stream_index ← read_byte "parallel join stream index"
  flags ← read_flags
  done (record { session_id = session_id; stream_index = stream_index; flags = flags })

unfoldable pub read_parallel_ack : Reader ParallelAck
read_parallel_ack = do
  status ← read_byte "parallel ack"
  last_offset ← read_uint 8 "parallel ack offset"
  done (record { status = status; last_offset = last_offset })

unfoldable pub read_chunk_sack : Reader ChunkSack
read_chunk_sack = do
  read_magic magic_chunk_sack "chunk sack magic"
  stream_index ← read_byte "chunk sack stream index"
  chunk_seq ← read_uint 4 "chunk sack chunk seq"
  offset ← read_uint 8 "chunk sack offset"
  done (record { stream_index = stream_index; chunk_seq = chunk_seq; offset = offset })

unfoldable pub read_chunk_header : Reader ChunkHeader
read_chunk_header = do
  global_seq ← read_uint 4 "chunk header seq"
  len ← read_uint 4 "chunk header length"
  slot_id ← read_byte "chunk header slot id"
  crc32 ← read_uint 4 "chunk header crc32"
  done (record { global_seq = global_seq; length = len; slot_id = slot_id; crc32 = crc32 })
