-- ===== src/Protocol/Control/Channel.antt =====
-- The dispatch by magic at both ends of the control channel: the reader loop of
-- internal/server/handler_control.go for what an agent sends, and that of
-- internal/agent/control_channel.go for what a server sends.
pub mod Agent
pub mod Server
use n_backup.Prelude.{ℕ, zero, suc, List, [], ◌∷◌, ◌++◌, Option, none, some, if◌then◌else◌}
use n_backup.Protocol.Wire.{Reader, ◌>>=◌, done, fail, invalid_magic, bytes_eq}
use n_backup.Protocol.Control.Frames.{
  ControlPong, ControlProgress, ControlStats, ControlAutoScaleStats, ControlAssemblyProgress,
  magic_control_ping, magic_control_rotate, magic_control_rotate_ack, magic_control_progress,
  magic_control_stats, magic_control_auto_scale_stats, magic_control_ingestion_done,
  magic_control_slot_park, magic_control_slot_resume, magic_control_assembly_progress,
}
use n_backup.Protocol.Control.Codec.{
  read_control_magic, read_control_ping_payload, read_control_pong_payload,
  read_control_rotate_payload, read_control_rotate_ack_payload, read_control_progress_payload,
  read_control_stats_payload, read_control_auto_scale_stats_payload,
  read_control_ingestion_done_payload, read_control_slot_park_payload,
  read_control_slot_resume_payload, read_control_assembly_progress_payload, write_control_ping,
  write_control_pong, write_control_rotate, write_control_rotate_ack, write_control_progress,
  write_control_stats, write_control_auto_scale_stats, write_control_ingestion_done,
  write_control_slot_park, write_control_slot_resume, write_control_assembly_progress,
}

-- What an agent sends.
pub data AgentFrame : Type 0 where
  ping : ℕ → AgentFrame
  stats : ControlStats → AgentFrame
  auto_scale : ControlAutoScaleStats → AgentFrame
  rotate_ack : ℕ → AgentFrame
  progress : ControlProgress → AgentFrame
  ingestion_done : List ℕ → AgentFrame
  slot_park : ℕ → AgentFrame
  slot_resume : ℕ → AgentFrame

-- The writer that the agent calls for it; WriteControlIngestionDone may refuse.
unfoldable pub write_agent_frame : AgentFrame → Option (List ℕ)
write_agent_frame (ping timestamp) = some (write_control_ping timestamp)
write_agent_frame (stats s) = some (write_control_stats s)
write_agent_frame (auto_scale s) = some (write_control_auto_scale_stats s)
write_agent_frame (rotate_ack stream_index) = some (write_control_rotate_ack stream_index)
write_agent_frame (progress p) = some (write_control_progress p)
write_agent_frame (ingestion_done session_id) = write_control_ingestion_done session_id
write_agent_frame (slot_park slot_id) = some (write_control_slot_park slot_id)
write_agent_frame (slot_resume slot_id) = some (write_control_slot_resume slot_id)

-- One payload reader for each magic of the server's switch; any other magic ends the connection.
pub read_agent_payload : List ℕ → Reader AgentFrame
read_agent_payload magic =
    if bytes_eq magic magic_control_ping
    then (do timestamp ← read_control_ping_payload; done (ping timestamp))
    else if bytes_eq magic magic_control_stats
    then (do s ← read_control_stats_payload; done (stats s))
    else if bytes_eq magic magic_control_auto_scale_stats
    then (do s ← read_control_auto_scale_stats_payload; done (auto_scale s))
    else if bytes_eq magic magic_control_rotate_ack
    then (do stream_index ← read_control_rotate_ack_payload; done (rotate_ack stream_index))
    else if bytes_eq magic magic_control_progress
    then (do p ← read_control_progress_payload; done (progress p))
    else if bytes_eq magic magic_control_ingestion_done
    then (do session_id ← read_control_ingestion_done_payload; done (ingestion_done session_id))
    else if bytes_eq magic magic_control_slot_park
    then (do slot_id ← read_control_slot_park_payload; done (slot_park slot_id))
    else if bytes_eq magic magic_control_slot_resume
    then (do slot_id ← read_control_slot_resume_payload; done (slot_resume slot_id))
    else fail invalid_magic

-- One round of the server's loop.
pub read_agent_frame : Reader AgentFrame
read_agent_frame = do magic ← read_control_magic; read_agent_payload magic

-- Some rounds of it.
pub read_agent_frames : ℕ → Reader (List AgentFrame)
read_agent_frames zero = done []
read_agent_frames (suc n) = do
  frame ← read_agent_frame
  frames ← read_agent_frames n
  done (frame ∷ frames)

-- What a server sends.
pub data ServerFrame : Type 0 where
  pong : ControlPong → ServerFrame
  rotate : ℕ → ServerFrame
  assembly_progress : ControlAssemblyProgress → ServerFrame

pub write_server_frame : ServerFrame → List ℕ
write_server_frame (pong p) = write_control_pong p
write_server_frame (rotate stream_index) = write_control_rotate stream_index
write_server_frame (assembly_progress p) = write_control_assembly_progress p

pub read_server_payload : List ℕ → Reader ServerFrame
read_server_payload magic =
    if bytes_eq magic magic_control_ping
    then (do p ← read_control_pong_payload; done (pong p))
    else if bytes_eq magic magic_control_rotate
    then (do stream_index ← read_control_rotate_payload; done (rotate stream_index))
    else if bytes_eq magic magic_control_assembly_progress
    then (do p ← read_control_assembly_progress_payload; done (assembly_progress p))
    else fail invalid_magic

-- One round of the agent's loop.
pub read_server_frame : Reader ServerFrame
read_server_frame = do magic ← read_control_magic; read_server_payload magic
