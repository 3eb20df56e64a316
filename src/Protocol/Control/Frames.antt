-- ===== src/Protocol/Control/Frames.antt =====
-- The magic bytes and frame types of internal/protocol/control.go. A float32 is given by its bits,
-- and an int64 by its bit pattern: `math.Float32bits`, `int64(…)` and their inverses keep those.
use n_backup.Prelude.{ℕ, Bool, List, [], ◌∷◌}

abbrev pub magic_control : List ℕ
magic_control = b'C' ∷ b'T' ∷ b'R' ∷ b'L' ∷ []

abbrev pub magic_control_ping : List ℕ
magic_control_ping = b'C' ∷ b'P' ∷ b'N' ∷ b'G' ∷ []

abbrev pub magic_control_rotate : List ℕ
magic_control_rotate = b'C' ∷ b'R' ∷ b'O' ∷ b'T' ∷ []

abbrev pub magic_control_rotate_ack : List ℕ
magic_control_rotate_ack = b'C' ∷ b'R' ∷ b'A' ∷ b'K' ∷ []

abbrev pub magic_control_admit : List ℕ
magic_control_admit = b'C' ∷ b'A' ∷ b'D' ∷ b'M' ∷ []

abbrev pub magic_control_defer : List ℕ
magic_control_defer = b'C' ∷ b'D' ∷ b'F' ∷ b'E' ∷ []

abbrev pub magic_control_abort : List ℕ
magic_control_abort = b'C' ∷ b'A' ∷ b'B' ∷ b'T' ∷ []

abbrev pub magic_control_progress : List ℕ
magic_control_progress = b'C' ∷ b'P' ∷ b'R' ∷ b'G' ∷ []

abbrev pub magic_control_stats : List ℕ
magic_control_stats = b'C' ∷ b'S' ∷ b'T' ∷ b'S' ∷ []

abbrev pub magic_control_auto_scale_stats : List ℕ
magic_control_auto_scale_stats = b'C' ∷ b'A' ∷ b'S' ∷ b'S' ∷ []

abbrev pub magic_control_ingestion_done : List ℕ
magic_control_ingestion_done = b'C' ∷ b'I' ∷ b'D' ∷ b'N' ∷ []

abbrev pub magic_control_slot_park : List ℕ
magic_control_slot_park = b'C' ∷ b'S' ∷ b'L' ∷ b'P' ∷ []

abbrev pub magic_control_slot_resume : List ℕ
magic_control_slot_resume = b'C' ∷ b'S' ∷ b'L' ∷ b'R' ∷ []

abbrev pub magic_control_assembly_progress : List ℕ
magic_control_assembly_progress = b'C' ∷ b'A' ∷ b'S' ∷ b'P' ∷ []

pub record ControlPong : Type 0 where
  pub timestamp : ℕ
  pub server_load : ℕ
  pub disk_free : ℕ

pub record ControlProgress : Type 0 where
  pub total_objects : ℕ
  pub objects_sent : ℕ
  pub walk_complete : Bool

pub record ControlStats : Type 0 where
  pub cpu_percent : ℕ
  pub memory_percent : ℕ
  pub disk_usage_percent : ℕ
  pub load_average : ℕ

pub record ControlAutoScaleStats : Type 0 where
  pub efficiency : ℕ
  pub producer_mbs : ℕ
  pub drain_mbs : ℕ
  pub active_streams : ℕ
  pub max_streams : ℕ
  pub state : ℕ
  pub probe_active : ℕ

pub record ControlAssemblyProgress : Type 0 where
  pub total_chunks : ℕ
  pub assembled_chunks : ℕ
  pub phase : ℕ
