-- ===== src/ChunkBuffer/System.antt =====
-- The buffer with the assemblers behind it. A step is what one goroutine does between two points where
-- others can come in.
use n_backup.Prelude.{
  ℕ, zero, suc, ◌+◌, Bool, true, false, List, [], ◌∷◌, ◌++◌, get_elem?, leb, length, none, some,
  ◌==◌, if◌then◌else◌,
}
use n_backup.Assembler.System.{contains}
use n_backup.ChunkBuffer.Defs.{
  Slot, ChunkBuffer, reserve, count, enqueue, time_out, give_up, take_slot, Tried, stored,
  session_aborted, gave_up, drain_slot_max_retries, drained, count_drained, delete_counter,
}

-- `store` has the assembler of each session. Two lists are for the theorems only: the slots that
-- went into the channel, and those that the drainer is done with, and whether it has written them; both
-- have the oldest first.
pub record System {ℓ} (A : Type ℓ) : Type ℓ where
  pub buffer : ChunkBuffer
  pub store : ℕ → A
  pub queued : List Slot
  pub done : List (Slot × Bool)

-- The steps of Push: it reserves or passes its chunk on; it counts the bytes of its session; it gets into
-- the channel, or times out and gives up. Those of the drainer: it takes a slot, ends with it, and
-- counts that. A session is aborted; a Flush deletes the counter of its session. The Booleans are what
-- the disk does, and at each attempt of drainSlot also whether the session is marked as aborted while it
-- backs off.
pub data Event : Type 0 where
  pushes : Slot → Bool → Event
  counts : ℕ → Event
  enqueues : ℕ → Event
  times_out : ℕ → Event
  gives_up : ℕ → Event
  takes : Event
  finishes : (ℕ → Bool × Bool) → Event
  settles : Event
  aborts : ℕ → Event
  deletes : ℕ → Event

-- `write` is WriteChunk, which tells whether it returns nil; `due` as in `enqueue`.
module _ {ℓ} {A : Type ℓ} (write : A → ℕ → List ℕ → Bool → Bool × A) (due : ℕ → ℕ → Bool) where
  unfoldable pub set_store : ℕ → A → (ℕ → A) → ℕ → A
  set_store s a store t = if s == t then a else store t

  -- The attempts of drainSlot.
  unfoldable pub try_write : ℕ → (ℕ → Bool × Bool) → Slot → A → Tried × A
  try_write zero env slot a = (gave_up, a)
  try_write (suc left) env slot a =
      let (ok, a') = write a slot.seq slot.chunk (env left).0 in
      let rest = try_write left env slot a' in
      if ok then (stored, a') else if (env left).1 then (session_aborted, a') else rest

  -- drainSlot behind its attempts.
  unfoldable pub settle : System A → Slot → Tried → A → System A
  settle sys slot stored a = record sys {
    buffer = drained sys.buffer slot;
    store = set_store slot.session a sys.store;
    done = sys.done ++ ((slot, true) ∷ []);
  }
  settle sys slot session_aborted a = record sys {
    buffer =
        drained
          (record sys.buffer { aborted_sessions = slot.session ∷ sys.buffer.aborted_sessions })
          slot;
    store = set_store slot.session a sys.store;
    done = sys.done ++ ((slot, false) ∷ []);
  }
  settle sys slot gave_up a = record sys {
    buffer =
        drained (record sys.buffer { failed_sessions = slot.session ∷ sys.buffer.failed_sessions })
          slot;
    store = set_store slot.session a sys.store;
    done = sys.done ++ ((slot, false) ∷ []);
  }

  -- drainSlot
  unfoldable pub drain_slot : System A → Slot → (ℕ → Bool × Bool) → System A
  drain_slot sys slot env =
      let (end, a) = try_write drain_slot_max_retries env slot (sys.store slot.session) in
      if contains slot.session sys.buffer.aborted_sessions
      then record sys { buffer = drained sys.buffer slot; done = sys.done ++ ((slot, false) ∷ []) }
      else settle sys slot end a

  -- The start of a Push: it reserves, or passes the chunk on itself.
  unfoldable pub push : System A → Slot → Bool → System A
  push sys slot disk = elim (reserve sys.buffer slot) [
    | some cb ↦ record sys { buffer = cb }
    | none ↦
        let (ok, a) = write (sys.store slot.session) slot.seq slot.chunk disk in
        record sys {
          buffer = record sys.buffer { total_fallbacks = sys.buffer.total_fallbacks + 1 };
          store = set_store slot.session a sys.store;
        }
  ]

  -- A Push whose slot gets into the channel; a full channel lets it wait.
  unfoldable pub enqueue_waiting : System A → ℕ → Slot → System A
  enqueue_waiting sys i slot =
      if leb sys.buffer.capacity (length sys.buffer.slots)
      then sys
      else record sys { buffer = enqueue due sys.buffer i slot; queued = sys.queued ++ (slot ∷ []) }

  unfoldable pub step : Event → System A → System A
  step (pushes slot disk) sys = push sys slot disk
  step (counts i) sys = elim (get_elem? sys.buffer.reserved i) [
    | some slot ↦ record sys { buffer = count sys.buffer i slot }
    | none ↦ sys
  ]
  step (enqueues i) sys = elim (get_elem? sys.buffer.waiting i) [
    | some slot ↦ enqueue_waiting sys i slot
    | none ↦ sys
  ]
  step (times_out i) sys = elim (get_elem? sys.buffer.waiting i) [
    | some slot ↦ record sys { buffer = time_out sys.buffer i slot }
    | none ↦ sys
  ]
  step (gives_up i) sys = elim (get_elem? sys.buffer.timed_out i) [
    | some slot ↦ record sys { buffer = give_up sys.buffer i slot }
    | none ↦ sys
  ]
  step takes sys = record sys { buffer = take_slot sys.buffer }
  step (finishes env) sys = elim sys.buffer.draining [
    | some slot ↦ drain_slot sys slot env
    | none ↦ sys
  ]
  step settles sys = elim sys.buffer.released [
    | some slot ↦ record sys { buffer = count_drained sys.buffer slot }
    | none ↦ sys
  ]
  step (deletes s) sys = record sys { buffer = delete_counter sys.buffer s }
  step (aborts s) sys = record sys {
    buffer = record sys.buffer { aborted_sessions = s ∷ sys.buffer.aborted_sessions };
  }

  unfoldable pub run : List Event → System A → System A
  run [] sys = sys
  run (e ∷ es) sys = run es (step e sys)
