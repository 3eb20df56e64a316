-- ===== src/Protocol/Control/Whole.antt =====
-- The readers of control.go that take a frame with its magic.
use n_backup.Prelude.{ℕ, ◌^◌, ◌<◌, ◌≡◌, refl, ap, List, [], ◌∷◌, ◌++◌}
use n_backup.Protocol.Wire.{ok, put_be, bytes_eq}
use n_backup.Protocol.Wire.Laws.{read_full-append}
use n_backup.Protocol.Control.Frames.{
  ControlPong, ControlProgress, ControlStats, ControlAutoScaleStats, magic_control_ping,
  magic_control_rotate, magic_control_rotate_ack, magic_control_progress, magic_control_stats,
  magic_control_auto_scale_stats,
}
use n_backup.Protocol.Control.Codec.{
  split_frame, write_control_ping, read_control_ping, write_control_pong, read_control_pong,
  write_control_rotate, read_control_rotate, write_control_rotate_ack, read_control_rotate_ack,
  write_byte_frame, write_control_progress, read_control_progress, write_control_stats,
  write_control_stats_payload, read_control_stats, write_control_auto_scale_stats,
  read_control_auto_scale_stats,
}
use n_backup.Protocol.Control.Laws.{
  IsPong, IsProgress, IsStats, IsAutoScale, pong_payload, progress_payload, auto_scale_payload,
  parse_pong, parse_progress, parse_stats, parse_auto_scale, get_be_put, one_byte,
}

-- Each reader of a whole frame reads back what the writer of that frame sends.
pub whole_frames :
    (timestamp stream_index : ℕ) (pong : ControlPong) (progress : ControlProgress)
    (stats : ControlStats) (scale : ControlAutoScaleStats) (rest : List ℕ)
    → timestamp < 2 ^ 64
    → IsPong pong
    → IsProgress progress
    → IsStats stats
    → IsAutoScale scale
    → (read_control_ping (write_control_ping timestamp ++ rest) ≡ ok (timestamp, rest))
      × (read_control_pong (write_control_pong pong ++ rest) ≡ ok (pong, rest))
      × (read_control_rotate (write_control_rotate stream_index ++ rest) ≡ ok (stream_index, rest))
      × (read_control_rotate_ack (write_control_rotate_ack stream_index ++ rest)
          ≡ ok (stream_index, rest))
      × (read_control_progress (write_control_progress progress ++ rest) ≡ ok (progress, rest))
      × (read_control_stats (write_control_stats stats ++ rest) ≡ ok (stats, rest))
      × (read_control_auto_scale_stats (write_control_auto_scale_stats scale ++ rest)
          ≡ ok (scale, rest))
unfolding read_control_ping write_control_ping read_control_pong write_control_pong
    read_control_rotate write_control_rotate read_control_rotate_ack write_control_rotate_ack
    write_byte_frame read_control_progress write_control_progress read_control_stats
    write_control_stats write_control_stats_payload read_control_auto_scale_stats
    write_control_auto_scale_stats split_frame bytes_eq put_be
whole_frames timestamp stream_index pong progress stats scale rest ht hp hg hs ha = (
  rw (read_full-append 12 _ (magic_control_ping ++ put_be 8 timestamp) rest refl)
      (ap (λ (n : ℕ). ok (n, rest)) (get_be_put 8 timestamp ht)),
  rw (read_full-append 20 _ (magic_control_ping ++ pong_payload pong) rest refl)
      (ap (λ (p : ControlPong). ok (p, rest)) (parse_pong pong hp)),
  rw (read_full-append 5 _ (magic_control_rotate ++ (stream_index ∷ [])) rest refl)
      (ap (λ (n : ℕ). ok (n, rest)) (one_byte stream_index)),
  rw (read_full-append 5 _ (magic_control_rotate_ack ++ (stream_index ∷ [])) rest refl)
      (ap (λ (n : ℕ). ok (n, rest)) (one_byte stream_index)),
  rw (read_full-append 13 _ (magic_control_progress ++ progress_payload progress) rest refl)
      (ap (λ (p : ControlProgress). ok (p, rest)) (parse_progress progress hg)),
  rw (read_full-append 20 _ (magic_control_stats ++ write_control_stats_payload stats) rest refl)
      (ap (λ (s : ControlStats). ok (s, rest)) (parse_stats stats hs)),
  rw (read_full-append 20 _ (magic_control_auto_scale_stats ++ auto_scale_payload scale) rest refl)
      (ap (λ (s : ControlAutoScaleStats). ok (s, rest)) (parse_auto_scale scale ha)),
)
