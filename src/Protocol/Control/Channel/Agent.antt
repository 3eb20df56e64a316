-- ===== src/Protocol/Control/Channel/Agent.antt =====
-- What the server makes of the frames of an agent.
use n_backup.Prelude.{
  ℕ, ◌^◌, ◌<◌, ◌≡◌, refl, ap, sym, ◌∙◌, ◌%◌, List, [], ◌∷◌, ◌++◌, length, some, append_assoc, ltb,
  Bool-cases, inl, inr, ltb→ge,
}
use n_backup.Protocol.Wire.{ok, put_be, bytes_eq, read_byte}
use n_backup.Protocol.Wire.Laws.{read_full-append, read_uint-put_be}
use n_backup.Protocol.Control.Codec.{
  read_control_magic, read_control_ping_payload, write_control_ping, write_control_stats,
  write_control_stats_payload, write_control_auto_scale_stats, write_control_rotate_ack,
  read_control_rotate_ack_payload, write_control_progress, write_control_ingestion_done,
  write_control_slot_park, read_control_slot_park_payload, write_control_slot_resume,
  read_control_slot_resume_payload, write_byte_frame,
}
use n_backup.Protocol.Control.Frames.{
  magic_control_ping, magic_control_stats, magic_control_auto_scale_stats, magic_control_rotate_ack,
  magic_control_progress, magic_control_ingestion_done, magic_control_slot_park,
  magic_control_slot_resume,
}
use n_backup.Protocol.Control.Laws.{
  progress_payload, auto_scale_payload, IsStats, IsAutoScale, IsProgress, read_stats,
  read_auto_scale, read_progress, read_ingestion_done,
}
use n_backup.Protocol.Control.Channel.{
  AgentFrame, ping, stats, auto_scale, rotate_ack, progress, ingestion_done, slot_park, slot_resume,
  write_agent_frame, read_agent_payload, read_agent_frame, read_agent_frames,
}

-- The numbers of a frame fit their fields.
abbrev pub IsAgentFrame : AgentFrame → Type 0
IsAgentFrame (ping timestamp) = timestamp < 2 ^ 64
IsAgentFrame (stats s) = IsStats s
IsAgentFrame (auto_scale s) = IsAutoScale s
IsAgentFrame (rotate_ack stream_index) = stream_index < 256
IsAgentFrame (progress p) = IsProgress p
IsAgentFrame (ingestion_done session_id) = Unit
IsAgentFrame (slot_park slot_id) = slot_id < 256
IsAgentFrame (slot_resume slot_id) = slot_id < 256

read_frame :
    (magic payload rest : List ℕ)
    → length magic ≡ 4
    → read_agent_frame ((magic ++ payload) ++ rest) ≡ read_agent_payload magic (payload ++ rest)
unfolding read_agent_frame read_control_magic
read_frame magic payload rest e =
    rw (append_assoc magic payload rest, read_full-append 4 _ magic (payload ++ rest) e)

-- A frame is its magic and its payload.
sent :
    (f : AgentFrame) (magic payload rest frame : List ℕ)
    → some (magic ++ payload) ≡ some frame
    → length magic ≡ 4
    → read_agent_payload magic (payload ++ rest) ≡ ok (f, rest)
    → read_agent_frame (frame ++ rest) ≡ ok (f, rest)
sent f magic payload rest frame e size h =
    let whole : magic ++ payload ≡ frame = cc in
    ap (λ (bytes : List ℕ). read_agent_frame (bytes ++ rest)) (sym whole)
    ∙ read_frame magic payload rest size
    ∙ h

-- Each frame that an agent's writer sends is read back by the server's dispatch, which finds its
-- reader by the magic and leaves what follows.
pub read_agent_frame-write_agent_frame :
    (f : AgentFrame) (frame rest : List ℕ)
    → IsAgentFrame f
    → write_agent_frame f ≡ some frame
    → read_agent_frame (frame ++ rest) ≡ ok (f, rest)
unfolding write_agent_frame read_agent_payload bytes_eq write_control_ping write_control_stats
    write_control_auto_scale_stats write_control_rotate_ack write_control_progress
    write_control_ingestion_done write_control_slot_park write_control_slot_resume write_byte_frame
    read_control_ping_payload read_control_rotate_ack_payload read_control_slot_park_payload
    read_control_slot_resume_payload read_byte
read_agent_frame-write_agent_frame (ping timestamp) frame rest h e =
    sent _ magic_control_ping (put_be 8 timestamp) rest frame e refl
      (rw (read_uint-put_be 8 _ timestamp rest h))
read_agent_frame-write_agent_frame (stats s) frame rest h e =
    sent _ magic_control_stats (write_control_stats_payload s) rest frame e refl
      (rw (read_stats s rest h))
read_agent_frame-write_agent_frame (auto_scale s) frame rest h e =
    sent _ magic_control_auto_scale_stats (auto_scale_payload s) rest frame e refl
      (rw (read_auto_scale s rest h))
read_agent_frame-write_agent_frame (rotate_ack stream_index) frame rest h e =
    sent _ magic_control_rotate_ack (stream_index ∷ []) rest frame e refl refl
read_agent_frame-write_agent_frame (progress p) frame rest h e =
    sent _ magic_control_progress (progress_payload p) rest frame e refl
      (rw (read_progress p rest h))
read_agent_frame-write_agent_frame (ingestion_done session_id) frame rest h e =
    elim (Bool-cases (ltb 255 (length session_id))) [
      | inl over ↦ cc (over)
      | inr fits ↦
          sent _ magic_control_ingestion_done ((length session_id % 256) ∷ session_id) rest frame
            (rw fits at e) refl (rw (read_ingestion_done session_id rest (ltb→ge _ _ fits)))
    ]
read_agent_frame-write_agent_frame (slot_park slot_id) frame rest h e =
    sent _ magic_control_slot_park (slot_id ∷ []) rest frame e refl refl
read_agent_frame-write_agent_frame (slot_resume slot_id) frame rest h e =
    sent _ magic_control_slot_resume (slot_id ∷ []) rest frame e refl refl

-- What an agent sends one frame after the other.
abbrev pub SentAll : List AgentFrame → List ℕ → List ℕ → Type 0
SentAll [] rest bytes = bytes ≡ rest
SentAll (f ∷ fs) rest bytes =
    IsAgentFrame f
    × ((frame : List ℕ) × (behind : List ℕ) × (write_agent_frame f ≡ some frame)
        × (bytes ≡ frame ++ behind)
        × SentAll fs rest behind)

-- The server's loop reads every sequence of frames back, in order, whatever follows it.
pub read_agent_frames-SentAll :
    (fs : List AgentFrame) (rest bytes : List ℕ)
    → SentAll fs rest bytes
    → read_agent_frames (length fs) bytes ≡ ok (fs, rest)
unfolding read_agent_frames
read_agent_frames-SentAll [] rest bytes h = ap (λ (s : List ℕ). ok ([], s)) h
read_agent_frames-SentAll (f ∷ fs) rest bytes (h, (frame, behind, e, e', hs)) =
    rw (e', read_agent_frame-write_agent_frame f frame behind h e)
      (rw (read_agent_frames-SentAll fs rest behind hs))
