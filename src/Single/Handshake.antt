-- ===== src/Single/Handshake.antt =====
-- internal/server/handler.go, HandleConnection, and the checks of handleBackup in
-- internal/server/handler_single.go. The texts of the answers are left out.
pub mod Laws
use Prim.Native.String.{String}
use n_backup.Prelude.{
  ℕ, Bool, true, false, not, ◌&&◌, ◌||◌, List, [], ◌∷◌, length, Option, none, some, ltb, leb, ◌==◌,
  if◌then◌else◌,
}
use n_backup.Protocol.Wire.{Reader, Result, ok, err, ◌>>=◌, done, read_full, read_byte, bytes_eq}
use n_backup.Protocol.Frames.{
  magic_ping, magic_handshake, magic_resume, magic_parallel_join, protocol_version, Handshake,
  Resume, ParallelInit, ParallelJoin,
}
use n_backup.Protocol.Control.Frames.{magic_control}
use n_backup.Protocol.Reader.{
  read_line_limited, read_resume, read_parallel_join, read_parallel_init_after_max_streams,
}
use n_backup.Sanitize.{validate_path_component, NameError}
use n_backup.Storage.{Name}
use n_backup.Single.Sessions.{lock_key}

abbrev pub status_busy : ℕ
status_busy = 2

abbrev pub status_reject : ℕ
status_reject = 3

abbrev pub status_storage_not_found : ℕ
status_storage_not_found = 4

abbrev pub max_handshake_field_len : ℕ
max_handshake_field_len = 512

-- readUntilNewline
unfoldable pub read_until_newline : String → Reader (List ℕ)
read_until_newline what = read_line_limited what max_handshake_field_len

-- What follows the ACK: a single-stream backup or a parallel one.
pub data StreamMode : Type 0 where
  single_stream : StreamMode
  parallel_streams : ParallelInit → StreamMode

-- The end of handleBackup's checks: the connection is closed without an ACK, it is refused with a status,
-- or it is admitted with the lock that was taken and, unless it ends there, its mode with the bytes that
-- follow.
pub data Admission : Type 0 where
  hangs_up : Admission
  refuses : ℕ → Admission
  admits : Handshake → Name → Result (StreamMode × List ℕ) → Admission

-- The handshake behind its version byte.
unfoldable pub read_names : ℕ → Reader Handshake
read_names version = do
  agent ← read_until_newline "agent name"
  storage ← read_until_newline "storage name"
  backup ← read_until_newline "backup name"
  client ← if leb 3 version then read_until_newline "client version" else done []
  done (record {
    version = version;
    agent_name = agent;
    storage_name = storage;
    backup_name = backup;
    client_version = client;
  })

-- The mode byte behind the ACK.
unfoldable pub read_mode : Reader StreamMode
read_mode = do
  mode ← read_byte "mode byte"
  if leb 1 mode
      then (do init ← read_parallel_init_after_max_streams mode; done (parallel_streams init))
      else done single_stream

abbrev pub refuses_name : Option NameError → Bool
refuses_name none = false
refuses_name (some e) = true

-- handleBackup from the test of the names on. `cert_name` is the answer of extractAgentName; `storages`
-- and `locks` are the storages of the configuration and the map of locks.
unfoldable pub check_handshake :
    Name → (Name → Bool) → (Name → Bool) → Handshake → List ℕ → Admission
check_handshake cert_name storages locks h rest =
    let key = lock_key h.agent_name h.storage_name h.backup_name in
    if refuses_name (validate_path_component h.agent_name)
    then refuses status_reject
    else if refuses_name (validate_path_component h.storage_name)
    then refuses status_reject
    else if refuses_name (validate_path_component h.backup_name)
    then refuses status_reject
    else if not (length cert_name == 0) && not (bytes_eq cert_name h.agent_name)
    then refuses status_reject
    else if not (storages h.storage_name)
    then refuses status_storage_not_found
    else if locks key
    then refuses status_busy
    else admits h key (read_mode rest)

-- handleBackup from the version byte on.
unfoldable pub handle_backup : Name → (Name → Bool) → (Name → Bool) → List ℕ → Admission
handle_backup cert_name storages locks s = elim (read_byte "protocol version" s) [
  | err e ↦ hangs_up
  | ok (version, names) ↦
      if ltb version protocol_version
      then refuses status_reject
      else elim (read_names version names) [
        | err e ↦ hangs_up
        | ok (h, rest) ↦ check_handshake cert_name storages locks h rest
      ]
]

-- Which handler a connection comes to.
pub data Connection : Type 0 where
  dropped : Connection
  health_check : Connection
  control_channel : List ℕ → Connection
  backup : Admission → Connection
  resumes : Result (Resume × List ℕ) → Connection
  joins : Result (ParallelJoin × List ℕ) → Connection

-- HandleConnection
unfoldable pub handle_connection : Name → (Name → Bool) → (Name → Bool) → List ℕ → Connection
handle_connection cert_name storages locks s = elim (read_full 4 "magic bytes" s) [
  | err e ↦ dropped
  | ok (magic, rest) ↦
      if bytes_eq magic magic_ping
      then health_check
      else if bytes_eq magic magic_handshake
      then backup (handle_backup cert_name storages locks rest)
      else if bytes_eq magic magic_resume
      then resumes (read_resume rest)
      else if bytes_eq magic magic_parallel_join
      then joins (read_parallel_join rest)
      else if bytes_eq magic magic_control
      then control_channel rest
      else dropped
]
