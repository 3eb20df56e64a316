-- ===== src/Join/Runs.antt =====
-- Sequences of joins, of streams that end, and of aborts.
use n_backup.Prelude.{
  ◌++◌, ℕ, ◌+◌, ◌-◌, ◌≡◌, Bool, true, false, List, [], ◌∷◌, get_elem?, Option, none, some, ◌==◌,
  if◌then◌else◌,
}
use n_backup.Protocol.Frames.{ParallelJoin}
use n_backup.Join.{
  Slot, Session, set_slot, Joined, refused, unanswered, joined, no_slot, handle_parallel_join,
  leave_stream, abort,
}
use n_backup.Join.Laws.{rotating, reconnecting, joined_by}

-- What happens to a session.
pub data Event : Type 0 where
  joins : ParallelJoin → Bool → Event
  receives : ℕ → ℕ → Event
  leaves : ℕ → Bool → Event
  aborts : Option (List ℕ) → Event

-- The bytes that the receive loop of a stream adds to the offset of its slot.
unfoldable pub receive_bytes : ℕ → ℕ → Session → Session
receive_bytes i n s = elim (get_elem? s.slots i) [
  | none ↦ s
  | some slot ↦ record s { slots = set_slot i (record slot { offset = slot.offset + n }) s.slots }
]

-- A request that is turned down leaves the session.
unfoldable pub after_join : Session → Joined → Session
after_join s (joined offset s') = s'
after_join s (refused status) = s
after_join s unanswered = s
after_join s no_slot = s

unfoldable pub step : Event → Session → Session
step (joins pj written) s = after_join s (handle_parallel_join (some s) pj written)
step (receives i n) s = receive_bytes i n s
step (leaves i replaced) s = leave_stream i replaced s
step (aborts err) s = abort err s

unfoldable pub run : List Event → Session → Session
run [] s = s
run (e ∷ es) s = run es (step e s)

-- The flags of an event that is a request for a stream and is accepted.
unfoldable pub accepted_now : ℕ → Event → Session → List ℕ
accepted_now i (joins pj written) s = elim (handle_parallel_join (some s) pj written) [
  | joined offset s' ↦ if pj.stream_index == i then pj.flags ∷ [] else []
  | refused status ↦ []
  | unanswered ↦ []
  | no_slot ↦ []
]
accepted_now i (receives j n) s = []
accepted_now i (leaves j replaced) s = []
accepted_now i (aborts err) s = []

-- The flags of the requests for a stream that are accepted, in order.
unfoldable pub accepted_joins : ℕ → List Event → Session → List ℕ
accepted_joins i [] s = []
accepted_joins i (e ∷ es) s = accepted_now i e s ++ accepted_joins i es (step e s)

abbrev answer : Session → ParallelJoin → Slot → Bool → Joined
answer s pj slot written = if written then joined slot.offset (joined_by s pj slot) else unanswered

abbrev left : Session → Session
left s = record s { stream_wg = s.stream_wg - 1 }

-- What a new slot has counted when connections were accepted with these flags.
unfoldable pub IsTally : List ℕ → Slot → Type 0
IsTally [] slot = (slot.connected ≡ false) × (slot.reconnects ≡ 0) × (slot.rotations ≡ 0)
IsTally (first ∷ fs) slot =
    (slot.connected ≡ true) × (slot.reconnects ≡ reconnecting fs) × (slot.rotations ≡ rotating fs)
