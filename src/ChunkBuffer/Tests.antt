-- ===== src/ChunkBuffer/Tests.antt =====
-- Two sessions that share a buffer of 100 bytes, with assemblers that list what they are given.
use n_backup.Prelude.{ℕ, ◌≡◌, refl, Bool, true, false, List, [], ◌∷◌, none, ◌==◌, if◌then◌else◌}
use n_backup.Assembler.System.{contains}
use n_backup.ChunkBuffer.Defs.{
  Slot, ChunkBuffer, reserve, count, add_at, subtract_at, enqueue, remove_at, take_slot, drained,
  count_drained, delete_counter, flush_loop, flush_session, stalled,
}
use n_backup.ChunkBuffer.System.{
  System, Event, pushes, counts, enqueues, takes, finishes, settles, deletes, set_store, try_write,
  settle, drain_slot, push, enqueue_waiting, step, run,
}
use n_backup.ChunkBuffer.Runs.{started}

abbrev listed : List ℕ → ℕ → List ℕ → Bool → Bool × List ℕ
listed a n chunk disk = if disk then (true, n ∷ a) else (false, a)

abbrev never : ℕ → ℕ → Bool
never used size = false

abbrev fresh_buffer : ChunkBuffer
fresh_buffer = record {
  size_raw = 100;
  capacity = 2;
  write_through = true;
  slots = [];
  reserved = [];
  waiting = [];
  timed_out = [];
  draining = none;
  released = none;
  drain_signal = false;
  in_flight_bytes = 0;
  session_bytes = λ s. 0;
  failed_sessions = [];
  aborted_sessions = [];
  total_pushed = 0;
  total_drained = 0;
  total_fallbacks = 0;
  backpressure_events = 0;
}

abbrev one : Slot
one = record { session = 1; seq = 0; chunk = 7 ∷ 8 ∷ [] }

abbrev two : Slot
two = record { session = 2; seq = 5; chunk = 9 ∷ [] }

-- The chunk of session 1 is written at the second attempt, and a Flush deletes its counter; that of
-- session 2 still waits.
abbrev events : List Event
events =
    pushes one true
    ∷ pushes two true
    ∷ counts 1
    ∷ enqueues 0
    ∷ counts 0
    ∷ enqueues 0
    ∷ takes
    ∷ finishes (λ left. (left == 1, false))
    ∷ settles
    ∷ deletes 1
    ∷ []

abbrev shared_run : System (List ℕ)
shared_run = run listed never events (started listed never fresh_buffer (λ s. []))

shared_run_lem :
    (shared_run.buffer.in_flight_bytes ≡ 1)
    × (shared_run.store 1 ≡ 0 ∷ [])
    × (shared_run.buffer.slots ≡ two ∷ [])
unfolding run step push enqueue_waiting drain_slot settle try_write set_store reserve add_at
    subtract_at count enqueue remove_at take_slot drained count_drained delete_counter contains
shared_run_lem = (refl, refl, refl)

-- The other session's Flush sees no progress.
stalled_lem :
    flush_session 2 shared_run.buffer
      (record { buffer = shared_run.buffer; too_late = false; interval_over = true } ∷ [])
    ≡ stalled 1
unfolding run step push enqueue_waiting drain_slot settle try_write set_store reserve add_at
    subtract_at count enqueue remove_at take_slot drained count_drained delete_counter contains
    flush_session flush_loop
stalled_lem = refl
