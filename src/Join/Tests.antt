-- ===== src/Join/Tests.antt =====
-- A session of two streams, of which one joins three times.
use n_backup.Prelude.{ℕ, ◌≡◌, refl, true, false, List, [], ◌∷◌}
use n_backup.Protocol.Frames.{ParallelJoin}
use n_backup.Join.{
  Session, new_session, preallocate_slots, preallocate_from, new_slot, set_slot, join_slot,
  handle_parallel_join, leave_stream,
}
use n_backup.Join.Runs.{
  Event, joins, receives, leaves, run, step, after_join, receive_bytes, accepted_now,
  accepted_joins,
}

abbrev request : ℕ → ℕ → ParallelJoin
request i flags = record { session_id = 115 ∷ []; stream_index = i; flags = flags }

-- It joins, is cut off, joins again, and changes its port; another stream is beyond the session's.
abbrev events : List Event
events =
    joins (request 1 0) true
    ∷ receives 1 20
    ∷ leaves 1 false
    ∷ joins (request 1 0) true
    ∷ joins (request 1 1) true
    ∷ joins (request 7 0) true
    ∷ []

abbrev later : Session
later = run events (new_session 2)

later_lem : (accepted_joins 1 events (new_session 2) ≡ 0 ∷ 0 ∷ 1 ∷ []) × (later.stream_wg ≡ 2)
unfolding run step after_join receive_bytes accepted_now accepted_joins new_session
    preallocate_slots preallocate_from new_slot set_slot join_slot handle_parallel_join leave_stream
later_lem = (refl, refl)
