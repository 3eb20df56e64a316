-- ===== src/Sender/Loop.antt =====
-- internal/agent/dispatcher.go: the loop of startSenderWithRetry, waitForFinalDrain and RetransmitChunk.
-- A turn of the loop is one step; what the ACK reader and the producer do to the ring buffer meanwhile is
-- not part of it. What goes out on the current connection is `sent`.
use n_backup.Prelude.{
  ℕ, zero, suc, ◌+◌, Bool, true, false, not, ◌&&◌, ◌||◌, List, [], ◌∷◌, ◌++◌, length, get_elem?,
  Option, none, some, ltb, leb, ◌==◌, if◌then◌else◌,
}
use n_backup.RingBuffer.{
  RingBuffer, ReadStep, read, read_wait, offset_expired, read_closed, read_at, contains_range,
}
use n_backup.RingBuffer.System.{full, partial, waiting}
use n_backup.Ledger.{Ledger, record_retransmit, advance_normal}
use n_backup.Dispatcher.{Location}
use n_backup.Sender.{
  frame_read, invalid_length, not_read, read_chunk_frame, Wrote, frame_written, write_failed,
  wrote_nothing, still_writing, write_frame, synced, sync_stream_after_reconnect,
}

abbrev pub max_retries_per_stream : ℕ
max_retries_per_stream = 5

-- What the goroutine puts into senderErr: nil, context.Canceled, or one of its errors.
pub data SenderEnd : Type 0 where
  all_acked : SenderEnd
  canceled : SenderEnd
  max_retries_exceeded : SenderEnd
  offset_was_expired : SenderEnd
  frame_unreadable : SenderEnd
  sync_failed : SenderEnd

-- A stream with its sender.
pub record Sending : Type 0 where
  pub rb : RingBuffer
  pub ledger : Ledger
  pub retries : ℕ
  pub chunks_since_rotation : ℕ
  pub active : Bool
  pub dead : Bool
  pub sent : List ℕ
  pub ended : Option SenderEnd

-- What a turn meets: the calls of conn.Write, whether the ring buffer is acknowledged in time, whether
-- the waits are aborted, the offsets that reconnectStream returns after a failure and for a rotation,
-- and whether the SACK timeout is exceeded.
pub record Turn : Type 0 where
  pub wrote : List Wrote
  pub drained : Bool
  pub aborted : Bool
  pub reconnected : Option ℕ
  pub rotated : Option ℕ
  pub sack_timed_out : Bool

unfoldable pub end_with : SenderEnd → Sending → Sending
end_with why s = record s { ended = some why }

-- stream.dead.Store(true), DeactivateStream and the error.
unfoldable pub die_with : SenderEnd → Sending → Sending
die_with why s = record s { dead = true; active = false; ended = some why }

-- The sections run with d.chunkSize and d.chunksPerCycle.
module _ (chunk_size chunks_per_cycle : ℕ) where
  -- syncStreamAfterReconnect on the new connection.
  unfoldable pub resync : ℕ → Sending → Sending
  resync offset s = elim (sync_stream_after_reconnect chunk_size s.rb s.ledger offset) [
    | synced rb ledger ↦ record s { rb = rb; ledger = ledger; sent = [] }
    | other ↦ die_with sync_failed (record s { sent = [] })
  ]

  -- From the test of the retries on; `retries` is set back behind a connection that is in sync.
  unfoldable pub retry_turn : Turn → Sending → Sending
  retry_turn t s =
      let again = record s { retries = s.retries + 1 } in
      if leb max_retries_per_stream s.retries
      then die_with max_retries_exceeded s
      else if t.aborted
      then end_with canceled again
      else elim t.reconnected [
        | none ↦ again
        | some offset ↦
            let resumed = resync offset again in
            elim resumed.ended [ none ↦ record resumed { retries = 0 } | some why ↦ resumed ]
      ]

  abbrev is_acked : RingBuffer → Bool
  is_acked rb = not (ltb rb.tail rb.head)

  -- waitForFinalDrain, and what the loop makes of its results.
  unfoldable pub wait_for_final_drain : Turn → Sending → Sending
  wait_for_final_drain t s =
      let next = retry_turn t s in
      if is_acked s.rb || t.drained
      then end_with all_acked s
      else if t.aborted
      then end_with canceled s
      else elim next.ended [
        | some why ↦ next
        | none ↦ if (next.retries == 0) && is_acked next.rb then end_with all_acked next else next
      ]

  -- The rotation of the port behind a frame.
  unfoldable pub rotate_port : Turn → Sending → Sending
  rotate_port t s =
      let counted = record s { chunks_since_rotation = s.chunks_since_rotation + 1 } in
      let rotating = record s { chunks_since_rotation = 0 } in
      if chunks_per_cycle == 0
      then s
      else if not (leb chunks_per_cycle counted.chunks_since_rotation)
      then counted
      else elim t.rotated [ none ↦ rotating | some offset ↦ resync offset rotating ]

  -- writeFrame with the frame, and what follows it.
  unfoldable pub write_turn : Turn → List ℕ → Sending → Sending
  write_turn t frame s =
      let (how, out) = write_frame t.wrote frame in
      let tried = record s { sent = s.sent ++ out } in
      let advanced = record tried {
        retries = 0;
        ledger = advance_normal s.ledger (length frame);
      } in
      elim how [
        | still_writing ↦ s
        | write_failed ↦ retry_turn t tried
        | wrote_nothing ↦ retry_turn t tried
        | frame_written ↦ if t.sack_timed_out then advanced else rotate_port t advanced
      ]

  -- One turn of the loop. While the frame is not written or not read yet, the turn goes on.
  unfoldable pub sender_turn : Turn → Sending → Sending
  sender_turn t s = elim s.ended [
    | some why ↦ s
    | none ↦ elim (read_chunk_frame chunk_size (s.rb ∷ []) (s.rb ∷ []) s.ledger.send_offset) [
      | frame_read frame ↦ write_turn t frame s
      | invalid_length n ↦ end_with frame_unreadable s
      | not_read (waiting bytes) ↦ s
      | not_read (full bytes) ↦ s
      | not_read (partial bytes read_closed) ↦ wait_for_final_drain t s
      | not_read (partial bytes offset_expired) ↦ die_with offset_was_expired s
      | not_read (partial bytes read_wait) ↦ s
      | not_read (partial bytes (read more)) ↦ s
    ]
  ]

  unfoldable pub sender_turns : List Turn → Sending → Sending
  sender_turns [] s = s
  sender_turns (t ∷ ts) s = sender_turns ts (sender_turn t s)

-- What RetransmitChunk returns: sent, unrecoverable, or an error; or that it is still writing.
pub data Retransmitted : Type 0 where
  resent : Retransmitted
  unrecoverable : Retransmitted
  resend_failed : Retransmitted
  still_resending : Retransmitted

-- d.chunkMap[globalSeq]
unfoldable pub find_location : ℕ → List (ℕ × Location) → Option Location
find_location seq [] = none
find_location seq ((n, loc) ∷ rest) = if n == seq then some loc else find_location seq rest

-- The first active stream that is not dead.
unfoldable pub live_stream : ℕ → List Sending → Option ℕ
live_stream i [] = none
live_stream i (s ∷ ss) =
    let rest = live_stream (i + 1) ss in if s.active && not s.dead then some i else rest

unfoldable pub set_sending : ℕ → Sending → List Sending → List Sending
set_sending i s [] = []
set_sending zero s (t ∷ ts) = s ∷ ts
set_sending (suc i) s (t ∷ ts) = t ∷ set_sending i s ts

-- writeFrame and recordRetransmitLocked.
unfoldable pub resend : List Wrote → List ℕ → ℕ → List Sending → Retransmitted × List Sending
resend ws frame i ss = elim (get_elem? ss i) [
  | none ↦ (resend_failed, ss)
  | some s ↦
      let (how, out) = write_frame ws frame in
      let tried = record s { sent = s.sent ++ out } in
      elim how [
        | frame_written ↦ (
          resent,
          set_sending i (record tried { ledger = record_retransmit s.ledger (length frame) }) ss,
        )
        | still_writing ↦ (still_resending, set_sending i tried ss)
        | write_failed ↦ (resend_failed, set_sending i tried ss)
        | wrote_nothing ↦ (resend_failed, set_sending i tried ss)
      ]
]

-- RetransmitChunk from the read of the ring buffer on.
unfoldable pub resend_read :
    List Wrote → Location → Sending → ReadStep → List Sending → Retransmitted × List Sending
resend_read ws loc s step ss = elim step [
  | read frame ↦
      if ltb (length frame) loc.len
      then (unrecoverable, ss)
      else if s.dead
      then elim (live_stream 0 ss) [ none ↦ (resend_failed, ss) | some i ↦ resend ws frame i ss ]
      else resend ws frame loc.stream_idx ss
  | other ↦ (resend_failed, ss)
]

-- RetransmitChunk; d.streams has the stream of every location.
unfoldable pub retransmit_chunk :
    List (ℕ × Location) → List Wrote → ℕ → List Sending → Retransmitted × List Sending
retransmit_chunk chunk_map ws seq ss = elim (find_location seq chunk_map) [
  | none ↦ (unrecoverable, ss)
  | some loc ↦ elim (get_elem? ss loc.stream_idx) [
    | none ↦ (unrecoverable, ss)
    | some s ↦
        if not (contains_range s.rb loc.rb_offset loc.len)
        then (unrecoverable, ss)
        else resend_read ws loc s (read_at s.rb loc.rb_offset loc.len) ss
  ]
]
