-- ===== src/Join.antt =====
-- handleParallelJoin of internal/server/handler_parallel.go, on the slots of internal/server/slot.go: a
-- connection asks to carry one stream of a parallel session.
pub mod Laws
pub mod Runs
mod Tests
use n_backup.Prelude.{
  ℕ, zero, suc, ◌+◌, ◌-◌, ◌%◌, ◌^◌, Bool, true, false, not, ◌&&◌, List, [], ◌∷◌, get_elem?, Option,
  none, some, ltb, leb, ◌==◌, if◌then◌else◌,
}
use n_backup.Protocol.Frames.{ParallelJoin}

-- SlotStatus
pub data SlotStatus : Type 0 where
  slot_idle : SlotStatus
  slot_receiving : SlotStatus
  slot_disconnected : SlotStatus
  slot_disabled : SlotStatus

-- The fields of Slot that a join reads or writes; `connected` tells whether ConnectedAt is set. The
-- counters are int32 and count connections.
pub record Slot : Type 0 where
  pub index : ℕ
  pub status : SlotStatus
  pub offset : ℕ
  pub connected : Bool
  pub reconnects : ℕ
  pub rotations : ℕ

-- ParallelSession; `stream_wg` is the counter of the WaitGroup, `stream_ready` whether the channel
-- StreamReady is closed, and so `aborted`.
pub record Session : Type 0 where
  pub max_streams : ℕ
  pub closing : Bool
  pub aborted : Bool
  pub abort_err : Option (List ℕ)
  pub stream_wg : ℕ
  pub stream_ready : Bool
  pub slots : List Slot

-- NewSlot
unfoldable pub new_slot : ℕ → Slot
new_slot index = record {
  index = index;
  status = slot_idle;
  offset = 0;
  connected = false;
  reconnects = 0;
  rotations = 0;
}

-- The loop of PreallocateSlots from an index on.
unfoldable pub preallocate_from : ℕ → ℕ → List Slot
preallocate_from i zero = []
preallocate_from i (suc n) = new_slot i ∷ preallocate_from (i + 1) n

-- PreallocateSlots
unfoldable pub preallocate_slots : ℕ → List Slot
preallocate_slots max_streams = preallocate_from 0 max_streams

unfoldable pub set_slot : ℕ → Slot → List Slot → List Slot
set_slot i s [] = []
set_slot zero s (t ∷ ts) = s ∷ ts
set_slot (suc i) s (t ∷ ts) = t ∷ set_slot i s ts

-- The session that handleParallelBackup registers.
unfoldable pub new_session : ℕ → Session
new_session max_streams = record {
  max_streams = max_streams;
  closing = false;
  aborted = false;
  abort_err = none;
  stream_wg = 0;
  stream_ready = false;
  slots = preallocate_slots max_streams;
}

-- ParallelStatusOK, ParallelStatusFull, ParallelStatusNotFound, JoinReasonRotation
abbrev pub parallel_status_ok : ℕ
parallel_status_ok = 0

abbrev pub parallel_status_full : ℕ
parallel_status_full = 1

abbrev pub parallel_status_not_found : ℕ
parallel_status_not_found = 2

abbrev pub join_reason_rotation : ℕ
join_reason_rotation = 1

-- The status and the counters of a slot that is joined.
unfoldable pub join_slot : ℕ → Slot → Slot
join_slot flags slot =
    let receiving = record slot { status = slot_receiving; connected = true } in
    if not slot.connected
    then receiving
    else if flags == join_reason_rotation
    then record receiving { rotations = slot.rotations + 1 }
    else record receiving { reconnects = slot.reconnects + 1 }

-- What comes of a request: it is answered with a status and an offset and goes no further, its answer
-- cannot be written, or the receive loop starts. The last is an index without a slot, where Go panics.
pub data Joined : Type 0 where
  refused : ℕ → Joined
  unanswered : Joined
  joined : ℕ → Session → Joined
  no_slot : Joined

-- handleParallelJoin up to the receive loop; `found` is what the table of sessions has for the session
-- id, and `written` whether the ACK can be written.
unfoldable pub handle_parallel_join : Option Session → ParallelJoin → Bool → Joined
handle_parallel_join none pj written = refused parallel_status_not_found
handle_parallel_join (some s) pj written =
    if leb s.max_streams pj.stream_index
    then refused parallel_status_full
    else if s.closing
    then refused parallel_status_not_found
    else elim (get_elem? s.slots pj.stream_index) [
      | none ↦ no_slot
      | some slot ↦
          if not written
          then unanswered
          else joined slot.offset (record s {
            slots = set_slot pj.stream_index (join_slot pj.flags slot) s.slots;
            stream_wg = s.stream_wg + 1;
            stream_ready = true;
          })
    ]

-- handleParallelJoin behind the receive loop; `replaced` tells that another join has taken the stream
-- over while the session was not aborted.
unfoldable pub leave_stream : ℕ → Bool → Session → Session
leave_stream i replaced s =
    let left = record s { stream_wg = s.stream_wg - 1 } in
    if replaced && not s.aborted then left else elim (get_elem? s.slots i) [
      | none ↦ left
      | some slot ↦ record left {
        slots = set_slot i (record slot { status = slot_disconnected }) s.slots;
      }
    ]

-- abort
unfoldable pub abort : Option (List ℕ) → Session → Session
abort err s = record s {
  closing = true;
  aborted = true;
  abort_err = elim err [ none ↦ s.abort_err | some e ↦ some e ];
}
