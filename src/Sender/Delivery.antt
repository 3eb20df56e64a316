-- ===== src/Sender/Delivery.antt =====
-- What the sender of a stream sends while its connection holds.
use n_backup.Prelude.{
  ℕ, ◌+◌, ◌^◌, ◌≤◌, ◌<◌, ◌≡◌, refl, sym, ap, ◌∙◌, arith, true, List, [], ◌∷◌, ◌++◌, length, take,
  All, append_assoc, append-nil, length-append, none, some,
}
use mathlib.Core.Path.{subst}
use n_backup.Frame.{Chunk, frame, frames, Fits}
use n_backup.RingBuffer.{RingBuffer, read_closed}
use n_backup.RingBuffer.Content.{Holds}
use n_backup.RingBuffer.System.{partial}
use n_backup.RingBuffer.System.Reads.{IsSnapshot, read_full_at-closed}
use n_backup.Ledger.{advance_normal}
use n_backup.Sender.{frame_read, not_read, read_chunk_frame, frame_written, write_frame}
use n_backup.Sender.Frames.{read_chunk_frame-frame, write_frame-IsSent}
use n_backup.Sender.Loop.{
  all_acked, Sending, Turn, end_with, wait_for_final_drain, rotate_port, write_turn, sender_turn,
  sender_turns,
}
use n_backup.Sender.Retries.{turn_frame, turn_closed, ended_stays}

-- The sender has sent `out` and ended without an error.
pub record IsDelivered (out : List ℕ) (s s' : Sending) : Type 0 where
  pub sent : s'.sent ≡ s.sent ++ out
  pub ended : s'.ended ≡ some all_acked
  pub offset : s'.ledger.send_offset ≡ s.ledger.send_offset + length out
  pub rb : s'.rb ≡ s.rb
  pub dead : s'.dead ≡ s.dead

take_all : (l : List ℕ) → take (length l) l ≡ l
take_all [] = refl
take_all (x ∷ l) = ap (λ t. x ∷ t) (take_all l)

-- A stream that is written whole is in the ring buffer as it is.
snapshot :
    (stream : List ℕ) (offset : ℕ) (rb : RingBuffer)
    → Holds stream rb
    → rb.tail ≤ offset
    → IsSnapshot stream offset rb
snapshot stream offset rb v kept = record {
  holds =
      subst (λ l. Holds l rb)
        (sym (ap (λ (k : ℕ). take k stream) (sym v.written) ∙ take_all stream)) v;
  kept = kept;
}

write_whole :
    (chunk_size : ℕ) (t : Turn) (bytes : List ℕ) (s : Sending)
    → (write_frame t.wrote bytes).0 ≡ frame_written
    → write_turn chunk_size 0 t bytes s ≡ record s {
      sent = s.sent ++ bytes;
      retries = 0;
      ledger = advance_normal s.ledger (length bytes);
    }
unfolding write_turn rotate_port
write_whole chunk_size t bytes s e =
    rw (e, write_turn, (write_frame-IsSent t.wrote bytes).1 e) (ground arith)

module _ (crc : List ℕ → ℕ) (index chunk_size : ℕ) where
  abbrev pub IsSendable : Chunk → Type 0
  IsSendable ch = Fits crc ch × (0 < length ch.payload) × (length ch.payload ≤ chunk_size)

  -- One turn for each chunk, in which conn.Write takes all of its frame, in whatever pieces; and one in
  -- which the rest is acknowledged.
  unfoldable pub Delivers : List Turn → List Chunk → Type 0
  Delivers [] chs = ⊥
  Delivers (t ∷ ts) [] = t.drained ≡ true
  Delivers (t ∷ ts) (ch ∷ chs) =
      ((write_frame t.wrote (frame crc index ch)).0 ≡ frame_written) × Delivers ts chs

  reads_next :
      (pre : List ℕ) (ch : Chunk) (chs : List Chunk) (rb : RingBuffer)
      → chunk_size < 2 ^ 32
      → IsSendable ch
      → Holds (pre ++ frames crc index (ch ∷ chs)) rb
      → rb.tail ≤ length pre
      → read_chunk_frame chunk_size (rb ∷ []) (rb ∷ []) (length pre)
        ≡ frame_read (frame crc index ch)
  unfolding frames
  reads_next pre ch chs rb small (fits, more, short) v kept =
      let post = frames crc index chs in
      let v' = snapshot (pre ++ (frame crc index ch ++ post)) (length pre) rb v kept in
      let there : length pre + length (frame crc index ch) ≤ rb.head = omega (
        arith,
        v.written,
        length-append pre (frame crc index ch ++ post),
        length-append (frame crc index ch) post,
      ) in
      read_chunk_frame-frame crc index ch fits chunk_size pre post rb rb more short small v' v'
        there there

  reads_closed :
      (rb : RingBuffer) (offset : ℕ)
      → rb.closed ≡ true
      → rb.tail ≤ offset
      → rb.head ≤ offset
      → read_chunk_frame chunk_size (rb ∷ []) (rb ∷ []) offset ≡ not_read (partial [] read_closed)
  unfolding read_chunk_frame
  reads_closed rb offset closed kept done =
      rw (read_full_at-closed rb offset 13 closed kept done (omega arith), read_chunk_frame) refl

  -- The turn in which the rest is acknowledged.
  ends :
      (t : Turn) (s : Sending)
      → t.drained ≡ true
      → s.ended ≡ none
      → s.rb.closed ≡ true
      → s.rb.tail ≤ s.ledger.send_offset
      → s.rb.head ≤ s.ledger.send_offset
      → sender_turn chunk_size 0 t s ≡ end_with all_acked s
  ends t s drained goes_on closed kept done =
      turn_closed chunk_size 0 t [] s goes_on
        (reads_closed s.rb s.ledger.send_offset closed kept done)
      ∙ (unfold wait_for_final_drain in ground arith)

  -- The ring buffer of a stream is closed and holds the frames of chunks behind the offset of the
  -- sender, the chunks not empty, at most as long as the chunk size and their fields within their
  -- widths; the port is not rotated. In turns whose writes succeed and a last one in which the server
  -- has acknowledged all, the sender sends each frame exactly once and in order, and then ends without
  -- an error.
  pub sender_turns-IsDelivered :
      (ts : List Turn) (chs : List Chunk) (pre : List ℕ) (s : Sending)
      → chunk_size < 2 ^ 32
      → All IsSendable chs
      → Delivers ts chs
      → Holds (pre ++ frames crc index chs) s.rb
      → s.rb.tail ≤ length pre
      → s.rb.closed ≡ true
      → s.ended ≡ none
      → s.ledger.send_offset ≡ length pre
      → IsDelivered (frames crc index chs) s (sender_turns chunk_size 0 ts s)
  unfolding Delivers frames sender_turns advance_normal end_with
  sender_turns-IsDelivered [] chs pre s small fit never v kept closed goes_on at = absurd never
  sender_turns-IsDelivered (t ∷ ts) [] pre s small fit drained v kept closed goes_on at =
      let done : s.rb.head ≤ s.ledger.send_offset =
        omega (arith, v.written, length-append pre (frames crc index []), at) in
      let step = ends t s drained goes_on closed (omega (arith, kept, at)) done in
      rw (step, ended_stays chunk_size 0 ts (end_with all_acked s) all_acked refl)
        (record {
          sent = sym (append-nil s.sent);
          ended = refl;
          offset = omega arith;
          rb = refl;
          dead = refl;
        })
  sender_turns-IsDelivered (t ∷ ts) (ch ∷ chs) pre s small (fits, fit) (wrote, more) v kept closed
        goes_on at =
      let out = frame crc index ch in
      let next = record s {
        sent = s.sent ++ out;
        retries = 0;
        ledger = advance_normal s.ledger (length out);
      } in
      let step =
        turn_frame chunk_size 0 t out s goes_on (
          subst (λ o. read_chunk_frame chunk_size (s.rb ∷ []) (s.rb ∷ []) o ≡ frame_read out)
            (sym at) (reads_next pre ch chs s.rb small fits v kept))
        ∙ write_whole chunk_size t out s wrote in
      let rest =
        sender_turns-IsDelivered ts chs (pre ++ out) next small fit more
          (subst (λ l. Holds l s.rb) (sym (append_assoc pre out (frames crc index chs))) v)
          (omega (arith, kept, length-append pre out)) closed goes_on
          (omega (arith, at, length-append pre out)) in
      rw step (record {
        sent = rest.sent ∙ append_assoc s.sent out (frames crc index chs);
        ended = rest.ended;
        offset = omega (arith, rest.offset, length-append out (frames crc index chs));
        rb = rest.rb;
        dead = rest.dead;
      })
