-- ===== src/Sender/Resync.antt =====
-- A new connection of a stream: from which offset the sender goes on.
use n_backup.Prelude.{
  ℕ, ◌+◌, ◌%◌, ◌^◌, ◌≤◌, ◌<◌, ◌≡◌, refl, sym, ap, ◌∙◌, arith, List, [], ◌∷◌, ◌++◌, length, take,
  drop, length-append, inl, inr, All, lt_or_ge,
}
use n_backup.Frame.{Chunk, frame, frames, Fits}
use n_backup.Frame.Laws.{header, length-frame, frames-append}
use n_backup.RingBuffer.{
  RingBuffer, ReadStep, read, read_wait, offset_expired, read_closed, read_at, contains_range,
  advance,
}
use n_backup.RingBuffer.Content.{Holds}
use n_backup.RingBuffer.Read.{ReadOutcome, read_at_lem}
use n_backup.Ledger.{Ledger, apply_ack_offset, resume_from_wire_offset, resume_loop}
use n_backup.Ledger.Sent.{Sent, normal_before}
use n_backup.Ledger.Reach.{Reach, Reach-sent, apply_ack_lem}
use n_backup.Sender.{
  length_field, Sync, synced, resume_expired, sync_ledger, sync_header, sync_stream_after_reconnect,
}
use n_backup.Sender.Frames.{length_field-header, header_piece}

beyond_head :
    (size w : ℕ) (rb : RingBuffer) (s : Ledger)
    → rb.head < w
    → sync_stream_after_reconnect size rb s w ≡ resume_expired
unfolding sync_stream_after_reconnect contains_range
beyond_head size w rb s lt = ground arith

-- A history of a stream that is recorded in the order of the wire, in which every byte of the ring
-- buffer was sent and some bytes were sent again, and a server that got everything: the offset that it
-- gives for the new connection stands for the head of the ring buffer, so that nothing is left to
-- send, yet syncStreamAfterReconnect declares the stream dead.
pub sync_stream-resent :
    (size : ℕ) (log : List Sent) (acked : ℕ) (rb : RingBuffer) (s : Ledger)
    → Reach log acked s
    → acked ≤ s.wire_offset
    → s.send_offset ≡ rb.head
    → s.send_offset < s.wire_offset
    → (apply_ack_offset s s.wire_offset ≡ rb.head)
      × (sync_stream_after_reconnect size rb s s.wire_offset ≡ resume_expired)
sync_stream-resent size log acked rb s reach le all more =
    let (wire, sent) = Reach-sent log acked s reach in
    (
      apply_ack_lem log acked s.wire_offset s reach le (omega arith)
          ∙ (ap (normal_before log) wire ∙ (sym sent ∙ all)),
      beyond_head size s.wire_offset rb s (omega arith),
    )

at_head :
    (size w : ℕ) (rb : RingBuffer) (s : Ledger)
    → w ≡ rb.head
    → sync_stream_after_reconnect size rb s w ≡ sync_ledger rb s w
unfolding sync_stream_after_reconnect contains_range
at_head size w rb s e = ground arith

at_zero :
    (size w : ℕ) (rb : RingBuffer) (s : Ledger)
    → w ≡ 0
    → sync_stream_after_reconnect size rb s w ≡ sync_ledger rb s w
unfolding sync_stream_after_reconnect contains_range
at_zero size w rb s e = ground arith

at_frame :
    (size w : ℕ) (rb : RingBuffer) (s : Ledger)
    → 0 < w
    → rb.tail ≤ w
    → w + 13 ≤ rb.head
    → sync_stream_after_reconnect size rb s w ≡ sync_header size rb s w
unfolding sync_stream_after_reconnect contains_range
at_frame size w rb s pos le there = ground arith

good_header :
    (size w : ℕ) (rb : RingBuffer) (s : Ledger) (hdr : List ℕ)
    → read_at rb w 13 ≡ read hdr
    → length hdr ≡ 13
    → length_field hdr ≤ size % 2 ^ 32
    → sync_header size rb s w ≡ sync_ledger rb s w
unfolding sync_header
good_header size w rb s hdr e len le = ground arith

-- A read of bytes that are there.
read_there :
    (stream : List ℕ) (rb : RingBuffer) (w n : ℕ)
    → Holds stream rb
    → rb.tail ≤ w
    → 0 < n
    → w + n ≤ rb.head
    → read_at rb w n ≡ read (take n (drop w stream))
read_there stream rb w n v le pos there = settle (read_at rb w n) (read_at_lem stream rb w n v)
  where
    settle : (r : ReadStep) → ReadOutcome stream rb w n r → r ≡ read (take n (drop w stream))
    settle (read bytes) o = ap read (o.2 ∙ ap (λ (k : ℕ). take k (drop w stream)) (omega arith))
    settle read_wait o = absurd (omega arith)
    settle offset_expired o = absurd (omega arith)
    settle read_closed o = absurd (omega arith)

-- What the sender goes on with.
abbrev pub IsResumed : RingBuffer → Ledger → ℕ → Sync → Type 0
IsResumed rb s w (synced rb' s') =
    (s'.send_offset ≡ w) × (s'.wire_offset ≡ w) × (rb'.tail ≡ w) × (rb'.head ≡ rb.head)
IsResumed rb s w other = ⊥

sync_ledger-IsResumed :
    (rb : RingBuffer) (s : Ledger) (w : ℕ)
    → s.acked_retransmit ≡ 0
    → s.retransmit_spans ≡ []
    → rb.tail ≤ w
    → w ≤ rb.head
    → IsResumed rb s w (sync_ledger rb s w)
unfolding sync_ledger resume_from_wire_offset advance
sync_ledger-IsResumed rb s w none_acked no_spans le le' =
    let nothing : resume_loop s.retransmit_spans w ≡ 0 =
      ap (λ l. resume_loop l w) no_spans ∙ (unfold resume_loop in refl) in
    ground arith

module _ (crc : List ℕ → ℕ) (index size : ℕ) where
  -- A stream that had no retransmission, with the frames of two lists of chunks in its ring buffer, the
  -- chunks at most as long as the chunk size and their fields within their widths. When the server has
  -- got the first list, none of which need be in the ring buffer still, the new connection goes on
  -- exactly with the second: no stream is given up, no byte is skipped and none is sent twice.
  pub sync_stream-IsResumed :
      (got left : List Chunk) (rb : RingBuffer) (s : Ledger)
      → size < 2 ^ 32
      → All (λ ch. Fits crc ch × (length ch.payload ≤ size)) left
      → Holds (frames crc index got ++ frames crc index left) rb
      → rb.tail ≤ length (frames crc index got)
      → s.acked_retransmit ≡ 0
      → s.retransmit_spans ≡ []
      → let w = length (frames crc index got) in
        IsResumed rb s w (sync_stream_after_reconnect size rb s w)
  sync_stream-IsResumed got left rb s small fit v le none_acked no_spans =
      let w = length (frames crc index got) in
      let written = v.written in
      let len = length-append (frames crc index got) (frames crc index left) in
      let resumed = sync_ledger-IsResumed rb s w none_acked no_spans le (omega arith) in
      next left fit v resumed
    where
      next :
          (left : List Chunk)
          → All (λ ch. Fits crc ch × (length ch.payload ≤ size)) left
          → Holds (frames crc index got ++ frames crc index left) rb
          → IsResumed rb s
              (length (frames crc index got))
              (sync_ledger rb s (length (frames crc index got)))
          → IsResumed rb s
              (length (frames crc index got))
              (sync_stream_after_reconnect size rb s (length (frames crc index got)))
      next [] fit v resumed =
          let w = length (frames crc index got) in
          let nil : frames crc index [] ≡ [] = unfold frames in refl in
          let all : w ≡ rb.head = omega (
            arith,
            v.written,
            length-append (frames crc index got) (frames crc index []),
            ap length nil,
          ) in
          rw (at_head size w rb s all) resumed
      next (ch ∷ chs) ((fits, short), fit) v resumed =
          let w = length (frames crc index got) in
          let cons : frames crc index (ch ∷ chs) ≡ frame crc index ch ++ frames crc index chs =
            unfold frames in refl in
          let there : w + 13 ≤ rb.head = omega (
            arith,
            v.written,
            length-append (frames crc index got) (frames crc index (ch ∷ chs)),
            ap length cons,
            length-append (frame crc index ch) (frames crc index chs),
            length-frame crc index ch,
          ) in
          elim (lt_or_ge 0 w) [
            | inr zero_offset ↦ rw (at_zero size w rb s (omega arith)) resumed
            | inl pos ↦
                let head : read_at rb w 13 ≡ read (header crc index ch) =
                  read_there (frames crc index got ++ frames crc index (ch ∷ chs)) rb w 13 v le
                    (omega arith) there
                  ∙ ap read (
                      ap (λ l. take 13 (drop w (frames crc index got ++ l))) cons
                      ∙ header_piece crc index ch fits (frames crc index got)
                          (frames crc index chs)) in
                rw
                  (
                    at_frame size w rb s pos le there,
                    good_header size w rb s (header crc index ch) head
                        (n_backup.Frame.Laws.length-header crc index ch)
                        (omega (arith, length_field-header crc index ch fits)),
                  )
                  resumed
          ]
