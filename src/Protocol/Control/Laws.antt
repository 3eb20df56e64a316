-- ===== src/Protocol/Control/Laws.antt =====
-- Each payload of the control channel is read back as it was written.
use n_backup.Prelude.{
  ℕ, ◌%◌, ◌^◌, ◌<◌, ◌≤◌, ◌≡◌, refl, ◌∙◌, arith, Bool, true, not, ◌==◌, false, List, [], ◌∷◌, ◌++◌,
  length, lt→ltb, if◌then◌else◌,
}
use n_backup.Protocol.Wire.{ok, put_be, get_be, read_byte}
use n_backup.Protocol.Wire.Laws.{read_full-append, get_be-put_be}
use n_backup.Protocol.Control.Frames.{
  ControlPong, ControlProgress, ControlStats, ControlAutoScaleStats, ControlAssemblyProgress,
}
use n_backup.Protocol.Control.Codec.{
  read_control_pong_payload, parse_control_pong, read_control_auto_scale_stats_payload,
  parse_control_auto_scale_stats, parse_control_assembly_progress,
  read_control_assembly_progress_payload, read_control_ingestion_done_payload,
  parse_control_progress, read_control_progress_payload, write_control_stats_payload,
  parse_control_stats, read_control_stats_payload,
}

-- Every field fits its width on the wire.
pub record IsPong (p : ControlPong) : Type 0 where
  pub timestamp_fits : p.timestamp < 2 ^ 64
  pub load_fits : p.server_load < 2 ^ 32
  pub disk_fits : p.disk_free < 2 ^ 32

pub get_be_put : (k v : ℕ) → v < 256 ^ k → get_be 0 (put_be k v) ≡ v
get_be_put k v h = get_be-put_be k v 0 h ∙ omega arith

abbrev pub pong_payload : ControlPong → List ℕ
pong_payload p = put_be 8 p.timestamp ++ (put_be 4 p.server_load ++ put_be 4 p.disk_free)

pub parse_pong : (p : ControlPong) → IsPong p → parse_control_pong (pong_payload p) ≡ p
unfolding parse_control_pong put_be
parse_pong p h = λ i. record {
  timestamp = get_be_put 8 p.timestamp h.timestamp_fits i;
  server_load = get_be_put 4 p.server_load h.load_fits i;
  disk_free = get_be_put 4 p.disk_free h.disk_fits i;
}

pub read_pong :
    (p : ControlPong) (rest : List ℕ)
    → IsPong p
    → read_control_pong_payload (pong_payload p ++ rest) ≡ ok (p, rest)
unfolding read_control_pong_payload
read_pong p rest h =
    rw (read_full-append 16 _ (pong_payload p) rest (unfold put_be in refl), parse_pong p h)

pub record IsProgress (p : ControlProgress) : Type 0 where
  pub total_fits : p.total_objects < 2 ^ 32
  pub sent_fits : p.objects_sent < 2 ^ 32

abbrev pub progress_payload : ControlProgress → List ℕ
progress_payload p =
    put_be 4 p.total_objects
    ++ (put_be 4 p.objects_sent ++ ((if p.walk_complete then 1 else 0) ∷ []))

flag_bit : (b : Bool) → not (get_be 0 ((if b then 1 else 0) ∷ []) % 2 == 0) ≡ b
unfolding get_be
flag_bit true = refl
flag_bit false = refl

pub parse_progress :
    (p : ControlProgress) → IsProgress p → parse_control_progress (progress_payload p) ≡ p
unfolding parse_control_progress put_be
parse_progress p h = λ i. record {
  total_objects = get_be_put 4 p.total_objects h.total_fits i;
  objects_sent = get_be_put 4 p.objects_sent h.sent_fits i;
  walk_complete = flag_bit p.walk_complete i;
}

pub read_progress :
    (p : ControlProgress) (rest : List ℕ)
    → IsProgress p
    → read_control_progress_payload (progress_payload p ++ rest) ≡ ok (p, rest)
unfolding read_control_progress_payload
read_progress p rest h =
    rw (read_full-append 9 _ (progress_payload p) rest (unfold put_be in refl), parse_progress p h)

pub record IsStats (s : ControlStats) : Type 0 where
  pub cpu_fits : s.cpu_percent < 2 ^ 32
  pub memory_fits : s.memory_percent < 2 ^ 32
  pub disk_fits : s.disk_usage_percent < 2 ^ 32
  pub load_fits : s.load_average < 2 ^ 32

pub parse_stats :
    (s : ControlStats) → IsStats s → parse_control_stats (write_control_stats_payload s) ≡ s
unfolding parse_control_stats write_control_stats_payload put_be
parse_stats s h = λ i. record {
  cpu_percent = get_be_put 4 s.cpu_percent h.cpu_fits i;
  memory_percent = get_be_put 4 s.memory_percent h.memory_fits i;
  disk_usage_percent = get_be_put 4 s.disk_usage_percent h.disk_fits i;
  load_average = get_be_put 4 s.load_average h.load_fits i;
}

pub read_stats :
    (s : ControlStats) (rest : List ℕ)
    → IsStats s
    → read_control_stats_payload (write_control_stats_payload s ++ rest) ≡ ok (s, rest)
unfolding read_control_stats_payload
read_stats s rest h = rw (
  read_full-append 16 _ (write_control_stats_payload s) rest
      (unfold put_be write_control_stats_payload in refl),
  parse_stats s h,
)

pub record IsAutoScale (s : ControlAutoScaleStats) : Type 0 where
  pub efficiency_fits : s.efficiency < 2 ^ 32
  pub producer_fits : s.producer_mbs < 2 ^ 32
  pub drain_fits : s.drain_mbs < 2 ^ 32

abbrev pub auto_scale_payload : ControlAutoScaleStats → List ℕ
auto_scale_payload s =
    put_be 4 s.efficiency
    ++ (put_be 4 s.producer_mbs
        ++ (put_be 4 s.drain_mbs
            ++ (s.active_streams ∷ s.max_streams ∷ s.state ∷ s.probe_active ∷ [])))

pub one_byte : (b : ℕ) → get_be 0 (b ∷ []) ≡ b
unfolding get_be
one_byte b = omega arith

pub parse_auto_scale :
    (s : ControlAutoScaleStats)
    → IsAutoScale s
    → parse_control_auto_scale_stats (auto_scale_payload s) ≡ s
unfolding parse_control_auto_scale_stats put_be
parse_auto_scale s h = λ i. record {
  efficiency = get_be_put 4 s.efficiency h.efficiency_fits i;
  producer_mbs = get_be_put 4 s.producer_mbs h.producer_fits i;
  drain_mbs = get_be_put 4 s.drain_mbs h.drain_fits i;
  active_streams = one_byte s.active_streams i;
  max_streams = one_byte s.max_streams i;
  state = one_byte s.state i;
  probe_active = one_byte s.probe_active i;
}

pub read_auto_scale :
    (s : ControlAutoScaleStats) (rest : List ℕ)
    → IsAutoScale s
    → read_control_auto_scale_stats_payload (auto_scale_payload s ++ rest) ≡ ok (s, rest)
unfolding read_control_auto_scale_stats_payload
read_auto_scale s rest h = rw (
  read_full-append 16 _ (auto_scale_payload s) rest (unfold put_be in refl),
  parse_auto_scale s h,
)

pub record IsAssembly (p : ControlAssemblyProgress) : Type 0 where
  pub total_fits : p.total_chunks < 2 ^ 32
  pub assembled_fits : p.assembled_chunks < 2 ^ 32

abbrev pub assembly_payload : ControlAssemblyProgress → List ℕ
assembly_payload p = put_be 4 p.total_chunks ++ (put_be 4 p.assembled_chunks ++ (p.phase ∷ []))

parse_assembly :
    (p : ControlAssemblyProgress)
    → IsAssembly p
    → parse_control_assembly_progress (assembly_payload p) ≡ p
unfolding parse_control_assembly_progress put_be
parse_assembly p h = λ i. record {
  total_chunks = get_be_put 4 p.total_chunks h.total_fits i;
  assembled_chunks = get_be_put 4 p.assembled_chunks h.assembled_fits i;
  phase = one_byte p.phase i;
}

pub read_assembly :
    (p : ControlAssemblyProgress) (rest : List ℕ)
    → IsAssembly p
    → read_control_assembly_progress_payload (assembly_payload p ++ rest) ≡ ok (p, rest)
unfolding read_control_assembly_progress_payload
read_assembly p rest h =
    rw (read_full-append 9 _ (assembly_payload p) rest (unfold put_be in refl), parse_assembly p h)

-- The session id of an IngestionDone, behind its length byte.
pub read_ingestion_done :
    (session_id rest : List ℕ)
    → length session_id ≤ 255
    → read_control_ingestion_done_payload (((length session_id % 256) ∷ session_id) ++ rest)
      ≡ ok (session_id, rest)
unfolding read_control_ingestion_done_payload read_byte
read_ingestion_done [] rest h = refl
read_ingestion_done (b ∷ session_id) rest h =
    let e : length (b ∷ session_id) % 256 ≡ length (b ∷ session_id) = omega arith in
    rw (e, lt→ltb 0 (length (b ∷ session_id)) (omega arith))
      (read_full-append _ _ (b ∷ session_id) rest refl)
