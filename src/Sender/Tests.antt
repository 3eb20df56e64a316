-- ===== src/Sender/Tests.antt =====
-- Two frames of one byte each in a ring buffer of 28 bytes, and the theorems at them.
use n_backup.Prelude.{
  ℕ, sym, ◌+◌, ◌%◌, ◌^◌, ◌≤◌, ◌≡◌, refl, ap, arith, inl, none, true, false, List, [], ◌∷◌, ◌++◌,
  length, get_elem?,
}
use n_backup.Protocol.Writer.{write_chunk_header}
use n_backup.Protocol.Wire.{put_be}
use n_backup.Frame.{Chunk, frame, frames, Fits}
use n_backup.RingBuffer.{RingBuffer}
use n_backup.RingBuffer.Content.{Holds}
use n_backup.RingBuffer.System.Reads.{IsSnapshot}
use n_backup.Ledger.{Ledger, record_retransmit, advance_normal, apply_ack_offset}
use n_backup.Ledger.Reach.{fresh_ledger, fresh, send, resend}
use n_backup.Ledger.Sent.{normal, again}
use n_backup.Sender.{
  write_frame, resume_expired, frame_read, read_chunk_frame, sync_stream_after_reconnect,
}
use n_backup.Sender.Frames.{read_chunk_frame-frame}
use n_backup.Sender.Loop.{Sending, Turn, sender_turns}
use n_backup.Sender.Retries.{IsFailing, IsGivenUp, sender_turns-IsRetried}
use n_backup.Dispatcher.{Location}
use n_backup.Sender.Delivery.{Delivers, IsDelivered, sender_turns-IsDelivered}
use n_backup.Sender.Resync.{IsResumed, sync_stream-resent, sync_stream-IsResumed}

abbrev checksum : List ℕ → ℕ
checksum l = length l % 2 ^ 32

abbrev first : Chunk
first = record { seq = 0; payload = 7 ∷ [] }

abbrev second : Chunk
second = record { seq = 1; payload = 8 ∷ [] }

abbrev bytes : List ℕ
bytes = frames checksum 0 (first ∷ []) ++ frames checksum 0 (second ∷ [])

abbrev ring : RingBuffer
ring = record { buf = bytes; size = 28; head = 28; tail = 14; closed = false }

bytes_lem : length bytes ≡ 28
unfolding frames frame write_chunk_header put_be
bytes_lem = refl

ring-Holds : Holds bytes ring
ring-Holds = record {
  pos = omega arith;
  room = bytes_lem;
  written = bytes_lem;
  ordered = omega arith;
  fits = omega arith;
  bytes = λ k lo hi. ap (get_elem? bytes) (omega arith);
}

abbrev second_fits : Fits checksum second
second_fits = record { seq_fits = omega arith; length_fits = omega arith; crc_fits = omega arith }

frames_length : length (frames checksum 0 (first ∷ [])) ≡ 14
unfolding frames frame write_chunk_header put_be
frames_length = refl

snapshot :
    IsSnapshot
      (frames checksum 0 (first ∷ []) ++ (frame checksum 0 second ++ []))
      (length (frames checksum 0 (first ∷ [])))
      ring
unfolding frames frame write_chunk_header put_be
snapshot = record { holds = ring-Holds; kept = omega arith }

there : length (frames checksum 0 (first ∷ [])) + length (frame checksum 0 second) ≤ ring.head
unfolding frames frame write_chunk_header put_be
there = omega arith

ready : read_chunk_frame 4 (ring ∷ []) (ring ∷ []) 14 ≡ frame_read (frame checksum 0 second)
unfolding frames frame write_chunk_header put_be
ready =
    read_chunk_frame-frame checksum 0 second second_fits 4 (frames checksum 0 (first ∷ [])) [] ring
      ring (omega arith) (omega arith) (omega arith) snapshot snapshot there there

-- Both frames were sent, and the first one again.
abbrev resent : Ledger
resent = advance_normal (record_retransmit (advance_normal fresh_ledger 14) 14) 14

resent_offsets : (resent.send_offset ≡ 28) × (resent.wire_offset ≡ 42)
unfolding advance_normal record_retransmit
resent_offsets = (refl, refl)

sync_stream-resent_example :
    (apply_ack_offset resent resent.wire_offset ≡ 28)
    × (sync_stream_after_reconnect 4 ring resent resent.wire_offset ≡ resume_expired)
sync_stream-resent_example =
    sync_stream-resent 4 (normal 14 ∷ again 14 ∷ normal 14 ∷ []) 0 ring resent
      (send 14 (resend 14 (send 14 fresh))) (omega arith) resent_offsets.0
      (omega (arith, resent_offsets.0, resent_offsets.1))

abbrev sent : Ledger
sent = record { send_offset = 28; wire_offset = 28; acked_retransmit = 0; retransmit_spans = [] }

sync_stream-IsResumed_example :
    let w = length (frames checksum 0 (first ∷ [])) in
    IsResumed ring sent w (sync_stream_after_reconnect 4 ring sent w)
sync_stream-IsResumed_example =
    sync_stream-IsResumed checksum 0 4 (first ∷ []) (second ∷ []) ring sent (omega arith)
      ((second_fits, omega arith), tt) ring-Holds (omega (arith, frames_length)) refl refl

-- The second frame is not acknowledged yet, and the connection is lost.
abbrev sending : Sending
sending = record {
  rb = ring;
  ledger = record {
    send_offset = 14;
    wire_offset = 14;
    acked_retransmit = 0;
    retransmit_spans = [];
  };
  retries = 0;
  chunks_since_rotation = 0;
  active = true;
  dead = false;
  sent = [];
  ended = none;
}

abbrev lost : Turn
lost = record {
  wrote = record { taken = 0; failed = true } ∷ [];
  drained = false;
  aborted = false;
  reconnected = none;
  rotated = none;
  sack_timed_out = false;
}

lost-IsFailing : IsFailing lost
lost-IsFailing = record {
  call = record { taken = 0; failed = true };
  calls = [];
  wrote = refl;
  failed = refl;
  not_drained = refl;
  not_aborted = refl;
  not_reconnected = refl;
}

-- Six turns: the sixth failure is one too many.
sender_turns-IsRetried_example :
    IsGivenUp (sender_turns 4 0 (lost ∷ lost ∷ lost ∷ lost ∷ lost ∷ lost ∷ []) sending)
unfolding read_chunk_frame frame write_chunk_header put_be
sender_turns-IsRetried_example =
    (sender_turns-IsRetried 4 0 (lost ∷ lost ∷ lost ∷ lost ∷ lost ∷ lost ∷ []) sending
        (
          lost-IsFailing,
          (
            lost-IsFailing,
            (lost-IsFailing, (lost-IsFailing, (lost-IsFailing, (lost-IsFailing, tt)))),
          ),
        )
        refl (omega arith) (inl (0, _, ready))).1
      (omega arith)

abbrev location : Location
location = record { stream_idx = 0; rb_offset = 14; len = 14 }

-- The producer is done, and the connection takes the second frame in two pieces.
abbrev closed_ring : RingBuffer
closed_ring = record ring { closed = true }

closed_ring-Holds : Holds bytes closed_ring
closed_ring-Holds = record {
  pos = omega arith;
  room = bytes_lem;
  written = bytes_lem;
  ordered = omega arith;
  fits = omega arith;
  bytes = λ k lo hi. ap (get_elem? bytes) (omega arith);
}

abbrev turns : List Turn
turns =
    record lost {
      wrote = record { taken = 9; failed = false } ∷ record { taken = 9; failed = false } ∷ [];
    }
    ∷ record lost { drained = true }
    ∷ []

delivers : Delivers checksum 0 4 turns (second ∷ [])
unfolding Delivers write_frame frame write_chunk_header put_be
delivers = (refl, refl)

sender_turns-IsDelivered_example :
    let s = record sending { rb = closed_ring } in
    IsDelivered (frames checksum 0 (second ∷ [])) s (sender_turns 4 0 turns s)
sender_turns-IsDelivered_example =
    sender_turns-IsDelivered checksum 0 4 turns (second ∷ []) (frames checksum 0 (first ∷ []))
      (record sending { rb = closed_ring }) (omega arith)
      ((second_fits, omega arith, omega arith), tt) delivers closed_ring-Holds
      (omega (arith, frames_length)) refl refl (sym frames_length)
