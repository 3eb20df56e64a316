-- ===== src/ChunkBuffer/Defs.antt =====
-- The state of a ChunkBuffer and its operations. A session is named by a number, which stands for the
-- pointer to its assembler.
use n_backup.Prelude.{
  ℕ, zero, suc, ◌+◌, ◌-◌, ◌/◌, ◌^◌, Bool, false, ◌||◌, List, [], ◌∷◌, ◌++◌, length, Option, none,
  some, ltb, leb, ◌==◌, if◌then◌else◌,
}

-- chunkSlot
pub record Slot : Type 0 where
  pub session : ℕ
  pub seq : ℕ
  pub chunk : List ℕ

-- `slots` is the channel, with the oldest slot first. A call of Push is in `reserved` from its
-- CompareAndSwap to the Add on the counter of its session, then in `waiting` for the channel; when it
-- times out it is in `timed_out` between the two Adds that undo its reservation. `draining` is the slot
-- that drainSlot has, `released` that slot between the Adds of its end. A counter that is not in the map
-- sessionBytes reads as 0. The sets keep the newest entry first.
pub record ChunkBuffer : Type 0 where
  pub size_raw : ℕ
  pub capacity : ℕ
  pub write_through : Bool
  pub slots : List Slot
  pub reserved : List Slot
  pub waiting : List Slot
  pub timed_out : List Slot
  pub draining : Option Slot
  pub released : Option Slot
  pub drain_signal : Bool
  pub in_flight_bytes : ℕ
  pub session_bytes : ℕ → ℕ
  pub failed_sessions : List ℕ
  pub aborted_sessions : List ℕ
  pub total_pushed : ℕ
  pub total_drained : ℕ
  pub total_fallbacks : ℕ
  pub backpressure_events : ℕ

-- The number of slots of the channel; 0 stands for a value that is not positive.
unfoldable pub channel_capacity : ℕ → ℕ → ℕ
channel_capacity size_raw channel_slots =
    let c = if channel_slots == 0 then size_raw / 2 ^ 20 else channel_slots in
    if ltb c 2 then 2 else c

-- NewChunkBuffer; `write_through` tells whether the drain ratio is 0.
unfoldable pub new_chunk_buffer : ℕ → ℕ → Bool → Option ChunkBuffer
new_chunk_buffer size_raw channel_slots write_through =
    if size_raw == 0
    then none
    else some (record {
      size_raw = size_raw;
      capacity = channel_capacity size_raw channel_slots;
      write_through = write_through;
      slots = [];
      reserved = [];
      waiting = [];
      timed_out = [];
      draining = none;
      released = none;
      drain_signal = false;
      in_flight_bytes = 0;
      session_bytes = λ s. 0;
      failed_sessions = [];
      aborted_sessions = [];
      total_pushed = 0;
      total_drained = 0;
      total_fallbacks = 0;
      backpressure_events = 0;
    })

unfoldable pub add_at : ℕ → ℕ → (ℕ → ℕ) → ℕ → ℕ
add_at s n counters t = if s == t then counters t + n else counters t

unfoldable pub subtract_at : ℕ → ℕ → (ℕ → ℕ) → ℕ → ℕ
subtract_at s n counters t = if s == t then counters t - n else counters t

-- The compare-and-swap loop of Push, as its last round; none when the chunk does not fit.
unfoldable pub reserve : ChunkBuffer → Slot → Option ChunkBuffer
reserve cb slot =
    if ltb (cb.size_raw - cb.in_flight_bytes) (length slot.chunk)
    then none
    else some (record cb {
      in_flight_bytes = cb.in_flight_bytes + length slot.chunk;
      reserved = slot ∷ cb.reserved;
    })

unfoldable pub remove_at : ℕ → List Slot → List Slot
remove_at i [] = []
remove_at zero (slot ∷ slots) = slots
remove_at (suc i) (slot ∷ slots) = slot ∷ remove_at i slots

-- The Add of Push on the counter of the session.
unfoldable pub count : ChunkBuffer → ℕ → Slot → ChunkBuffer
count cb i slot = record cb {
  session_bytes = add_at slot.session (length slot.chunk) cb.session_bytes;
  reserved = remove_at i cb.reserved;
  waiting = slot ∷ cb.waiting;
}

-- The send to the channel, and the signal to the drainer, where `due` compares the fill ratio with the
-- drain ratio.
unfoldable pub enqueue : (ℕ → ℕ → Bool) → ChunkBuffer → ℕ → Slot → ChunkBuffer
enqueue due cb i slot = record cb {
  slots = cb.slots ++ (slot ∷ []);
  waiting = remove_at i cb.waiting;
  total_pushed = cb.total_pushed + 1;
  drain_signal = cb.drain_signal || (cb.write_through || due cb.in_flight_bytes cb.size_raw);
}

-- The timeout of Push: the first Add, and what follows it.
unfoldable pub time_out : ChunkBuffer → ℕ → Slot → ChunkBuffer
time_out cb i slot = record cb {
  in_flight_bytes = cb.in_flight_bytes - length slot.chunk;
  waiting = remove_at i cb.waiting;
  timed_out = slot ∷ cb.timed_out;
}

unfoldable pub give_up : ChunkBuffer → ℕ → Slot → ChunkBuffer
give_up cb i slot = record cb {
  session_bytes = subtract_at slot.session (length slot.chunk) cb.session_bytes;
  timed_out = remove_at i cb.timed_out;
  backpressure_events = cb.backpressure_events + 1;
}

-- A round of drainAll takes the oldest slot of the channel.
unfoldable pub take_slot : ChunkBuffer → ChunkBuffer
take_slot cb = elim cb.draining [
  | some slot ↦ cb
  | none ↦ elim cb.released [
    | some slot ↦ cb
    | none ↦ elim cb.slots [
      | [] ↦ cb
      | slot ∷ slots ↦ record cb { slots = slots; draining = some slot }
    ]
  ]
]

-- How the attempts of drainSlot end.
pub data Tried : Type 0 where
  stored : Tried
  session_aborted : Tried
  gave_up : Tried

abbrev pub drain_slot_max_retries : ℕ
drain_slot_max_retries = 3

-- The end of drainSlot: the first Add, and what follows it.
unfoldable pub drained : ChunkBuffer → Slot → ChunkBuffer
drained cb slot = record cb {
  in_flight_bytes = cb.in_flight_bytes - length slot.chunk;
  draining = none;
  released = some slot;
}

unfoldable pub count_drained : ChunkBuffer → Slot → ChunkBuffer
count_drained cb slot = record cb {
  session_bytes = subtract_at slot.session (length slot.chunk) cb.session_bytes;
  released = none;
  total_drained = cb.total_drained + 1;
}

-- sessionBytes.Delete of Flush.
unfoldable pub delete_counter : ChunkBuffer → ℕ → ChunkBuffer
delete_counter cb session = record cb {
  session_bytes = λ t. if session == t then 0 else cb.session_bytes t;
}

-- What Flush sees at one of its looks: the buffer, whether the absolute limit is reached, and whether
-- the interval of the stall check is over.
pub record Look : Type 0 where
  pub buffer : ChunkBuffer
  pub too_late : Bool
  pub interval_over : Bool

-- What Flush returns, with the buffer that it saw, or that it goes on.
pub data Flushed : Type 0 where
  flushed : ChunkBuffer → Flushed
  max_exceeded : ℕ → Flushed
  stalled : ℕ → Flushed
  flushing : Flushed

-- The loop of Flush.
unfoldable pub flush_loop : ℕ → ℕ → List Look → Flushed
flush_loop session prev_remaining [] = flushing
flush_loop session prev_remaining (look ∷ looks) =
    let remaining = look.buffer.session_bytes session in
    let again = flush_loop session prev_remaining looks in
    let progressed = flush_loop session remaining looks in
    if remaining == 0
    then flushed look.buffer
    else if look.too_late
    then max_exceeded remaining
    else if look.interval_over
    then if leb prev_remaining remaining then stalled remaining else progressed
    else again

-- Flush, whose first look is the check of the counter ahead of the loop. The Delete behind a look at 0 is
-- a step of its own, `delete_counter`.
unfoldable pub flush_session : ℕ → ChunkBuffer → List Look → Flushed
flush_session session cb looks =
    if cb.session_bytes session == 0
    then flushed cb
    else flush_loop session (cb.session_bytes session) looks
