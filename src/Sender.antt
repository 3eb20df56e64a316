-- ===== src/Sender.antt =====
-- internal/agent/dispatcher.go: the sender of a stream, between its ring buffer and its connection. It
-- reads one frame at a time (readChunkFrame), writes it (writeFrame), follows the acknowledgements
-- (startACKReader) and starts again from the offset that the server gives for a new connection
-- (syncStreamAfterReconnect).
pub mod Frames
pub mod Resync
pub mod Loop
pub mod Retries
pub mod Resend
pub mod Delivery
mod Tests
use n_backup.Prelude.{
  ℕ, zero, suc, ◌+◌, ◌-◌, ◌%◌, ◌^◌, min, Bool, true, false, not, ◌&&◌, List, [], ◌∷◌, ◌++◌, length,
  take, drop, ltb, leb, ◌==◌, if◌then◌else◌,
}
use n_backup.Protocol.Wire.{get_be}
use n_backup.RingBuffer.{
  RingBuffer, ReadStep, read, read_wait, offset_expired, read_closed, read_at, contains_range,
  advance,
}
use n_backup.RingBuffer.System.{ReadFull, full, partial, waiting, read_full_at}
use n_backup.Ledger.{Ledger, apply_ack, apply_ack_offset, resume_from_wire_offset}

-- binary.BigEndian.Uint32(hdr[4:8])
abbrev pub length_field : List ℕ → ℕ
length_field hdr = get_be 0 (take 4 (drop 4 hdr))

-- What readChunkFrame returns, or that it still waits.
pub data FrameRead : Type 0 where
  frame_read : List ℕ → FrameRead
  invalid_length : ℕ → FrameRead
  not_read : ReadFull → FrameRead

-- readChunkFrame; the lists are the ring buffer as the critical sections of its two calls of ReadFullAt
-- find it. A full result is never short.
unfoldable pub read_chunk_frame : ℕ → List RingBuffer → List RingBuffer → ℕ → FrameRead
read_chunk_frame chunk_size rbs rbs' offset = elim (read_full_at rbs offset 13 [] false) [
  | partial bytes why ↦ not_read (partial bytes why)
  | waiting bytes ↦ not_read (waiting bytes)
  | full hdr ↦
      if ltb (chunk_size % 2 ^ 32) (length_field hdr)
      then invalid_length (length_field hdr)
      else if length_field hdr == 0
      then frame_read hdr
      else elim (read_full_at rbs' (offset + 13) (length_field hdr) [] false) [
        | partial bytes why ↦ not_read (partial bytes why)
        | waiting bytes ↦ not_read (waiting bytes)
        | full payload ↦ frame_read (hdr ++ payload)
      ]
]

-- What conn.Write does with a slice: it takes a number of bytes, and may return an error then.
pub record Wrote : Type 0 where
  pub taken : ℕ
  pub failed : Bool

pub data FrameWritten : Type 0 where
  frame_written : FrameWritten
  write_failed : FrameWritten
  wrote_nothing : FrameWritten
  still_writing : FrameWritten

-- The loop of writeFrame over what the calls of conn.Write do: how it ends, and the bytes that went out.
-- A call takes at most the bytes it is given.
unfoldable pub write_frame : List Wrote → List ℕ → FrameWritten × List ℕ
write_frame ws [] = (frame_written, [])
write_frame [] (b ∷ frame) = (still_writing, [])
write_frame (w ∷ ws) (b ∷ frame) =
    let n = min w.taken (length (b ∷ frame)) in
    let (end, out) = write_frame ws (drop n (b ∷ frame)) in
    if w.failed
    then (write_failed, take n (b ∷ frame))
    else if n == 0
    then (wrote_nothing, [])
    else (end, take n (b ∷ frame) ++ out)

-- A ChunkSACK with an offset of the wire, in the loop of startACKReader.
unfoldable pub receive_sack : RingBuffer → Ledger → ℕ → RingBuffer × Ledger
receive_sack rb s wire_offset =
    (advance rb (apply_ack_offset s wire_offset), apply_ack s wire_offset)

-- What syncStreamAfterReconnect leaves: the ring buffer and the ledger, or a stream that is dead.
pub data Sync : Type 0 where
  synced : RingBuffer → Ledger → Sync
  resume_expired : Sync
  header_unreadable : Sync
  desync : ℕ → Sync

-- resumeFromWireOffsetLocked and Advance.
unfoldable pub sync_ledger : RingBuffer → Ledger → ℕ → Sync
sync_ledger rb s resume_offset =
    let s' = resume_from_wire_offset s resume_offset in synced (advance rb s'.send_offset) s'

-- The check of the header at the offset.
unfoldable pub sync_header : ℕ → RingBuffer → Ledger → ℕ → Sync
sync_header chunk_size rb s resume_offset = elim (read_at rb resume_offset 13) [
  | read_wait ↦ header_unreadable
  | offset_expired ↦ header_unreadable
  | read_closed ↦ header_unreadable
  | read hdr ↦
      if ltb (length hdr) 13
      then header_unreadable
      else if ltb (chunk_size % 2 ^ 32) (length_field hdr)
      then desync (length_field hdr)
      else sync_ledger rb s resume_offset
]

-- syncStreamAfterReconnect
unfoldable pub sync_stream_after_reconnect : ℕ → RingBuffer → Ledger → ℕ → Sync
sync_stream_after_reconnect chunk_size rb s resume_offset =
    if (ltb 0 resume_offset && not (contains_range rb resume_offset 13))
      && not (resume_offset == rb.head)
    then resume_expired
    else if ltb 0 resume_offset && ltb resume_offset rb.head
    then sync_header chunk_size rb s resume_offset
    else sync_ledger rb s resume_offset
