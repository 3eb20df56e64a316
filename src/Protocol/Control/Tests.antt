-- ===== src/Protocol/Control/Tests.antt =====
-- The control channel on concrete frames, and the theorems at them.
use n_backup.Prelude.{ℕ, ◌≡◌, refl, arith, true, List, [], ◌∷◌, ◌++◌, some, none, replicate}
use n_backup.Protocol.Wire.{ok, err, invalid_magic}
use n_backup.Protocol.Control.Frames.{
  ControlPong, ControlProgress, ControlStats, ControlAutoScaleStats,
}
use n_backup.Protocol.Control.Codec.{
  write_control_ping, read_control_ping, write_control_pong, read_control_pong,
  write_control_rotate, read_control_rotate, write_control_rotate_ack, read_control_rotate_ack,
  write_control_progress, read_control_progress, write_control_stats, read_control_stats,
  write_control_auto_scale_stats, read_control_auto_scale_stats, write_control_admit,
  write_control_defer, write_control_abort, write_control_ingestion_done, write_control_slot_park,
  write_byte_frame,
}
use n_backup.Protocol.Control.Whole.{whole_frames}
use n_backup.Protocol.Control.Channel.{
  ingestion_done, slot_park, pong, write_agent_frame, read_agent_frames, write_server_frame,
  read_server_frame,
}
use n_backup.Protocol.Control.Channel.Agent.{read_agent_frames-SentAll}
use n_backup.Protocol.Control.Channel.Server.{
  read_server_frame-write_server_frame, read_server_frame_unknown,
}

abbrev a_pong : ControlPong
a_pong = record { timestamp = 1700000000; server_load = 0x3e800000; disk_free = 512 }

abbrev a_progress : ControlProgress
a_progress = record { total_objects = 100; objects_sent = 40; walk_complete = true }

abbrev a_stats : ControlStats
a_stats = record { cpu_percent = 1; memory_percent = 2; disk_usage_percent = 3; load_average = 4 }

abbrev a_scale : ControlAutoScaleStats
a_scale = record {
  efficiency = 1;
  producer_mbs = 2;
  drain_mbs = 3;
  active_streams = 4;
  max_streams = 8;
  state = 3;
  probe_active = 1;
}

whole_frames_example :
    (read_control_ping (write_control_ping 99 ++ []) ≡ ok (99, []))
    × (read_control_pong (write_control_pong a_pong ++ []) ≡ ok (a_pong, []))
    × (read_control_rotate (write_control_rotate 2 ++ []) ≡ ok (2, []))
    × (read_control_rotate_ack (write_control_rotate_ack 2 ++ []) ≡ ok (2, []))
    × (read_control_progress (write_control_progress a_progress ++ []) ≡ ok (a_progress, []))
    × (read_control_stats (write_control_stats a_stats ++ []) ≡ ok (a_stats, []))
    × (read_control_auto_scale_stats (write_control_auto_scale_stats a_scale ++ [])
        ≡ ok (a_scale, []))
whole_frames_example =
    whole_frames 99 2 a_pong a_progress a_stats a_scale [] (omega arith) (omega arith) (omega arith)
      (omega arith) (omega arith)

abbrev session : List ℕ
session = b's' ∷ b'1' ∷ []

session_frame :
    write_agent_frame (ingestion_done session)
    ≡ some (b'C' ∷ b'I' ∷ b'D' ∷ b'N' ∷ 2 ∷ b's' ∷ b'1' ∷ [])
unfolding write_agent_frame write_control_ingestion_done
session_frame = refl

park_frame : write_agent_frame (slot_park 3) ≡ some (b'C' ∷ b'S' ∷ b'L' ∷ b'P' ∷ 3 ∷ [])
unfolding write_agent_frame write_control_slot_park write_byte_frame
park_frame = refl

read_agent_frames-SentAll_example :
    read_agent_frames 2
      (b'C' ∷ b'S' ∷ b'L' ∷ b'P' ∷ 3 ∷ b'C' ∷ b'I' ∷ b'D' ∷ b'N' ∷ 2 ∷ b's' ∷ b'1' ∷ [])
    ≡ ok (slot_park 3 ∷ ingestion_done session ∷ [], [])
read_agent_frames-SentAll_example =
    read_agent_frames-SentAll (slot_park 3 ∷ ingestion_done session ∷ []) []
      (b'C' ∷ b'S' ∷ b'L' ∷ b'P' ∷ 3 ∷ b'C' ∷ b'I' ∷ b'D' ∷ b'N' ∷ 2 ∷ b's' ∷ b'1' ∷ [])
      (
        omega arith,
        (
          b'C' ∷ b'S' ∷ b'L' ∷ b'P' ∷ 3 ∷ [],
          b'C' ∷ b'I' ∷ b'D' ∷ b'N' ∷ 2 ∷ b's' ∷ b'1' ∷ [],
          park_frame,
          refl,
          (tt, (b'C' ∷ b'I' ∷ b'D' ∷ b'N' ∷ 2 ∷ b's' ∷ b'1' ∷ [], [], session_frame, refl, refl)),
        ),
      )

read_server_frame-write_server_frame_example :
    read_server_frame (write_server_frame (pong a_pong) ++ (1 ∷ [])) ≡ ok (pong a_pong, 1 ∷ [])
read_server_frame-write_server_frame_example =
    read_server_frame-write_server_frame (pong a_pong) (1 ∷ []) (omega arith)

read_server_frame_unknown_example :
    (read_server_frame (write_control_admit 2 ++ []) ≡ err invalid_magic)
    × (read_server_frame (write_control_defer 2 ++ []) ≡ err invalid_magic)
    × (read_server_frame (write_control_abort 2 ++ []) ≡ err invalid_magic)
read_server_frame_unknown_example = read_server_frame_unknown 2 []

too_long : write_agent_frame (ingestion_done (replicate 256 0)) ≡ none
unfolding write_agent_frame write_control_ingestion_done
too_long = refl
