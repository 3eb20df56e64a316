-- ===== src/Protocol/Control/Codec.antt =====
-- The writers and readers of internal/protocol/control.go, and the slot frames of writer.go and
-- reader.go. Each writer makes one `w.Write` of the whole frame. A reader with `_payload` starts
-- behind the magic, one without takes the magic too.
use n_backup.Prelude.{
  ℕ, ◌%◌, not, List, [], ◌∷◌, ◌++◌, length, take, drop, ltb, ◌==◌, if◌then◌else◌, Option, none,
  some,
}
use n_backup.Protocol.Wire.{
  Reader, ◌>>=◌, done, fail, invalid_magic, read_full, read_byte, read_uint, put_be, get_be,
  bytes_eq,
}
use n_backup.Protocol.Control.Frames.{
  magic_control_ping, magic_control_rotate, magic_control_rotate_ack, magic_control_admit,
  magic_control_defer, magic_control_abort, magic_control_progress, magic_control_stats,
  magic_control_auto_scale_stats, magic_control_ingestion_done, magic_control_slot_park,
  magic_control_slot_resume, magic_control_assembly_progress, ControlPong, ControlProgress,
  ControlStats, ControlAutoScaleStats, ControlAssemblyProgress,
}

-- ReadControlMagic
unfoldable pub read_control_magic : Reader (List ℕ)
read_control_magic = read_full 4 "control magic"

unfoldable pub write_control_ping : ℕ → List ℕ
write_control_ping timestamp = magic_control_ping ++ put_be 8 timestamp

unfoldable pub read_control_ping_payload : Reader ℕ
read_control_ping_payload = read_uint 8 "control ping payload"

-- The readers of a whole frame read all of it first, and then look at the magic.
unfoldable pub split_frame : List ℕ → List ℕ → Reader (List ℕ)
split_frame magic frame =
    if bytes_eq (take 4 frame) magic then done (drop 4 frame) else fail invalid_magic

unfoldable pub read_control_ping : Reader ℕ
read_control_ping = do
  buf ← read_full 12 "control ping"
  payload ← split_frame magic_control_ping buf
  done (get_be 0 payload)

unfoldable pub write_control_pong : ControlPong → List ℕ
write_control_pong p =
    magic_control_ping ++ (put_be 8 p.timestamp ++ (put_be 4 p.server_load ++ put_be 4 p.disk_free))

-- The fields of a payload of 16 bytes.
unfoldable pub parse_control_pong : List ℕ → ControlPong
parse_control_pong buf = record {
  timestamp = get_be 0 (take 8 buf);
  server_load = get_be 0 (take 4 (drop 8 buf));
  disk_free = get_be 0 (take 4 (drop 12 buf));
}

unfoldable pub read_control_pong_payload : Reader ControlPong
read_control_pong_payload = do
  buf ← read_full 16 "control pong payload"
  done (parse_control_pong buf)

unfoldable pub read_control_pong : Reader ControlPong
read_control_pong = do
  buf ← read_full 20 "control pong"
  payload ← split_frame magic_control_ping buf
  done (parse_control_pong payload)

-- WriteControlRotate, WriteControlRotateACK, WriteControlAdmit, WriteControlSlotPark and
-- WriteControlSlotResume: a magic and one byte.
unfoldable pub write_byte_frame : List ℕ → ℕ → List ℕ
write_byte_frame magic b = magic ++ (b ∷ [])

unfoldable pub write_control_rotate : ℕ → List ℕ
write_control_rotate stream_index = write_byte_frame magic_control_rotate stream_index

unfoldable pub read_control_rotate_payload : Reader ℕ
read_control_rotate_payload = read_byte "control rotate payload"

unfoldable pub read_control_rotate : Reader ℕ
read_control_rotate = do
  buf ← read_full 5 "control rotate"
  payload ← split_frame magic_control_rotate buf
  done (get_be 0 payload)

unfoldable pub write_control_rotate_ack : ℕ → List ℕ
write_control_rotate_ack stream_index = write_byte_frame magic_control_rotate_ack stream_index

unfoldable pub read_control_rotate_ack_payload : Reader ℕ
read_control_rotate_ack_payload = read_byte "control rotate ack payload"

unfoldable pub read_control_rotate_ack : Reader ℕ
read_control_rotate_ack = do
  buf ← read_full 5 "control rotate ack"
  payload ← split_frame magic_control_rotate_ack buf
  done (get_be 0 payload)

unfoldable pub write_control_admit : ℕ → List ℕ
write_control_admit slot_id = write_byte_frame magic_control_admit slot_id

unfoldable pub read_control_admit_payload : Reader ℕ
read_control_admit_payload = read_byte "control admit payload"

unfoldable pub write_control_slot_park : ℕ → List ℕ
write_control_slot_park slot_id = write_byte_frame magic_control_slot_park slot_id

unfoldable pub read_control_slot_park_payload : Reader ℕ
read_control_slot_park_payload = read_byte "control slot park payload"

unfoldable pub write_control_slot_resume : ℕ → List ℕ
write_control_slot_resume slot_id = write_byte_frame magic_control_slot_resume slot_id

unfoldable pub read_control_slot_resume_payload : Reader ℕ
read_control_slot_resume_payload = read_byte "control slot resume payload"

unfoldable pub write_control_defer : ℕ → List ℕ
write_control_defer wait_minutes = magic_control_defer ++ put_be 4 wait_minutes

unfoldable pub read_control_defer_payload : Reader ℕ
read_control_defer_payload = read_uint 4 "control defer payload"

unfoldable pub write_control_abort : ℕ → List ℕ
write_control_abort reason = magic_control_abort ++ put_be 4 reason

unfoldable pub read_control_abort_payload : Reader ℕ
read_control_abort_payload = read_uint 4 "control abort payload"

-- Bit 0 of the flags is WalkComplete.
unfoldable pub write_control_progress : ControlProgress → List ℕ
write_control_progress p =
    magic_control_progress
    ++ (put_be 4 p.total_objects
        ++ (put_be 4 p.objects_sent ++ ((if p.walk_complete then 1 else 0) ∷ [])))

unfoldable pub parse_control_progress : List ℕ → ControlProgress
parse_control_progress buf = record {
  total_objects = get_be 0 (take 4 buf);
  objects_sent = get_be 0 (take 4 (drop 4 buf));
  walk_complete = not (get_be 0 (drop 8 buf) % 2 == 0);
}

unfoldable pub read_control_progress_payload : Reader ControlProgress
read_control_progress_payload = do
  buf ← read_full 9 "control progress payload"
  done (parse_control_progress buf)

unfoldable pub read_control_progress : Reader ControlProgress
read_control_progress = do
  buf ← read_full 13 "control progress"
  payload ← split_frame magic_control_progress buf
  done (parse_control_progress payload)

-- WriteControlStatsPayload
unfoldable pub write_control_stats_payload : ControlStats → List ℕ
write_control_stats_payload s =
    put_be 4 s.cpu_percent
    ++ (put_be 4 s.memory_percent ++ (put_be 4 s.disk_usage_percent ++ put_be 4 s.load_average))

unfoldable pub write_control_stats : ControlStats → List ℕ
write_control_stats s = magic_control_stats ++ write_control_stats_payload s

unfoldable pub parse_control_stats : List ℕ → ControlStats
parse_control_stats buf = record {
  cpu_percent = get_be 0 (take 4 buf);
  memory_percent = get_be 0 (take 4 (drop 4 buf));
  disk_usage_percent = get_be 0 (take 4 (drop 8 buf));
  load_average = get_be 0 (take 4 (drop 12 buf));
}

unfoldable pub read_control_stats_payload : Reader ControlStats
read_control_stats_payload = do
  buf ← read_full 16 "control stats payload"
  done (parse_control_stats buf)

unfoldable pub read_control_stats : Reader ControlStats
read_control_stats = do
  buf ← read_full 20 "control stats"
  payload ← split_frame magic_control_stats buf
  done (parse_control_stats payload)

unfoldable pub write_control_auto_scale_stats : ControlAutoScaleStats → List ℕ
write_control_auto_scale_stats s =
    magic_control_auto_scale_stats
    ++ (put_be 4 s.efficiency
        ++ (put_be 4 s.producer_mbs
            ++ (put_be 4 s.drain_mbs
                ++ (s.active_streams ∷ s.max_streams ∷ s.state ∷ s.probe_active ∷ []))))

unfoldable pub parse_control_auto_scale_stats : List ℕ → ControlAutoScaleStats
parse_control_auto_scale_stats buf = record {
  efficiency = get_be 0 (take 4 buf);
  producer_mbs = get_be 0 (take 4 (drop 4 buf));
  drain_mbs = get_be 0 (take 4 (drop 8 buf));
  active_streams = get_be 0 (take 1 (drop 12 buf));
  max_streams = get_be 0 (take 1 (drop 13 buf));
  state = get_be 0 (take 1 (drop 14 buf));
  probe_active = get_be 0 (take 1 (drop 15 buf));
}

unfoldable pub read_control_auto_scale_stats_payload : Reader ControlAutoScaleStats
read_control_auto_scale_stats_payload = do
  buf ← read_full 16 "auto-scale stats payload"
  done (parse_control_auto_scale_stats buf)

unfoldable pub read_control_auto_scale_stats : Reader ControlAutoScaleStats
read_control_auto_scale_stats = do
  buf ← read_full 20 "auto-scale stats"
  payload ← split_frame magic_control_auto_scale_stats buf
  done (parse_control_auto_scale_stats payload)

-- WriteControlIngestionDone refuses a session id that its length byte cannot tell.
unfoldable pub write_control_ingestion_done : List ℕ → Option (List ℕ)
write_control_ingestion_done session_id =
    if ltb 255 (length session_id)
    then none
    else some (magic_control_ingestion_done ++ ((length session_id % 256) ∷ session_id))

unfoldable pub read_control_ingestion_done_payload : Reader (List ℕ)
read_control_ingestion_done_payload = do
  len ← read_byte "ControlIngestionDone sessionID length"
  if ltb 0 len then read_full len "ControlIngestionDone sessionID" else done []

unfoldable pub write_control_assembly_progress : ControlAssemblyProgress → List ℕ
write_control_assembly_progress p =
    magic_control_assembly_progress
    ++ (put_be 4 p.total_chunks ++ (put_be 4 p.assembled_chunks ++ (p.phase ∷ [])))

unfoldable pub parse_control_assembly_progress : List ℕ → ControlAssemblyProgress
parse_control_assembly_progress buf = record {
  total_chunks = get_be 0 (take 4 buf);
  assembled_chunks = get_be 0 (take 4 (drop 4 buf));
  phase = get_be 0 (drop 8 buf);
}

unfoldable pub read_control_assembly_progress_payload : Reader ControlAssemblyProgress
read_control_assembly_progress_payload = do
  buf ← read_full 9 "ControlAssemblyProgress payload"
  done (parse_control_assembly_progress buf)
