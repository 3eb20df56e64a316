-- ===== src/Sender/Frames.antt =====
-- What the sender reads from a ring buffer of frames, and what it writes.
use n_backup.Prelude.{
  ℕ, ◌+◌, ◌^◌, ◌≤◌, ◌<◌, ◌≡◌, refl, sym, ap, ◌∙◌, arith, true, false, List, [], ◌∷◌, ◌++◌, length,
  take, drop, append_assoc, length-append, take-length-append, drop-length-append, drop-drop,
  take-append-drop, min, inl, inr, Bool-cases, lt_or_ge, length-take, take-append_take,
}
use n_backup.Protocol.Wire.{get_be, put_be}
use n_backup.Protocol.Wire.Laws.{length-put_be, get_be-put_be}
use n_backup.Protocol.Writer.{write_chunk_header}
use n_backup.Frame.{Chunk, frame, Fits}
use n_backup.Frame.Laws.{header, length-header, frame-header, length-frame}
use n_backup.RingBuffer.{RingBuffer}
use n_backup.RingBuffer.System.{full, read_full_at}
use n_backup.RingBuffer.System.Reads.{IsSnapshot, read_full_at-ready}
use n_backup.Sender.{
  length_field, frame_read, read_chunk_frame, Wrote, FrameWritten, frame_written, write_failed,
  wrote_nothing, write_frame,
}

read_whole :
    (size offset len : ℕ) (rbs rbs' : List RingBuffer) (hdr payload : List ℕ)
    → 0 < len
    → len ≤ size
    → size < 2 ^ 32
    → length_field hdr ≡ len
    → read_full_at rbs offset 13 [] false ≡ full hdr
    → read_full_at rbs' (offset + 13) len [] false ≡ full payload
    → read_chunk_frame size rbs rbs' offset ≡ frame_read (hdr ++ payload)
unfolding read_chunk_frame
read_whole size offset len rbs rbs' hdr payload pos le small field head body = ground arith

module _ (crc : List ℕ → ℕ) (index : ℕ) (ch : Chunk) (fits : Fits crc ch) where
  pub length_field-header : length_field (header crc index ch) ≡ length ch.payload
  unfolding write_chunk_header
  length_field-header =
      let s = put_be 4 ch.seq in
      let l = put_be 4 (length ch.payload) in
      let tail = index ∷ (put_be 4 (crc ch.payload) ++ []) in
      let behind : drop 4 (s ++ (l ++ tail)) ≡ l ++ tail =
        ap (λ (k : ℕ). drop k (s ++ (l ++ tail))) (sym (length-put_be 4 ch.seq))
        ∙ drop-length-append s (l ++ tail) in
      let field : take 4 (l ++ tail) ≡ l =
        ap (λ (k : ℕ). take k (l ++ tail)) (sym (length-put_be 4 (length ch.payload)))
        ∙ take-length-append l tail in
      ap (λ t. get_be 0 (take 4 t)) behind
      ∙ (ap (get_be 0) field
          ∙ (get_be-put_be 4 (length ch.payload) 0 (omega (arith, fits.length_fits)) ∙ omega arith))

  -- The pieces of the stream that the two reads ask for.
  pub header_piece :
      (pre post : List ℕ)
      → take 13 (drop (length pre) (pre ++ (frame crc index ch ++ post))) ≡ header crc index ch
  header_piece pre post =
      let h = header crc index ch in
      ap (take 13) (drop-length-append pre (frame crc index ch ++ post))
      ∙ (ap (λ f. take 13 (f ++ post)) (frame-header crc index ch)
          ∙ (ap (take 13) (append_assoc h ch.payload post)
              ∙ (ap (λ (k : ℕ). take k (h ++ (ch.payload ++ post)))
                    (sym (length-header crc index ch))
                  ∙ take-length-append h (ch.payload ++ post))))

  payload_piece :
      (pre post : List ℕ)
      → take (length ch.payload) (drop (length pre + 13) (pre ++ (frame crc index ch ++ post)))
        ≡ ch.payload
  payload_piece pre post =
      let h = header crc index ch in
      ap (take (length ch.payload)) (
        sym (drop-drop (length pre) 13 (length pre + 13) (pre ++ (frame crc index ch ++ post)) refl)
        ∙ (ap (drop 13) (drop-length-append pre (frame crc index ch ++ post))
            ∙ (ap (λ f. drop 13 (f ++ post)) (frame-header crc index ch)
                ∙ (ap (drop 13) (append_assoc h ch.payload post)
                    ∙ (ap (λ (k : ℕ). drop k (h ++ (ch.payload ++ post)))
                          (sym (length-header crc index ch))
                        ∙ drop-length-append h (ch.payload ++ post))))))
      ∙ take-length-append ch.payload post

  -- The ring buffer is to get a stream in which a frame stands behind the bytes `pre`, its chunk not
  -- empty and at most the chunk size, its fields within their widths. When that frame is written and
  -- not given up, at both of the sender's reads, readChunkFrame at the offset behind `pre` returns the
  -- frame.
  pub read_chunk_frame-frame :
      (size : ℕ) (pre post : List ℕ) (rb rb' : RingBuffer)
      → 0 < length ch.payload
      → length ch.payload ≤ size
      → size < 2 ^ 32
      → IsSnapshot (pre ++ (frame crc index ch ++ post)) (length pre) rb
      → IsSnapshot (pre ++ (frame crc index ch ++ post)) (length pre) rb'
      → length pre + length (frame crc index ch) ≤ rb.head
      → length pre + length (frame crc index ch) ≤ rb'.head
      → read_chunk_frame size (rb ∷ []) (rb' ∷ []) (length pre) ≡ frame_read (frame crc index ch)
  read_chunk_frame-frame size pre post rb rb' pos le small s s' there there' =
      let all = pre ++ (frame crc index ch ++ post) in
      let len = length-frame crc index ch in
      read_whole size (length pre) (length ch.payload) (rb ∷ []) (rb' ∷ []) (header crc index ch)
        ch.payload pos le small length_field-header
        (read_full_at-ready all (length pre) 13 rb [] s (omega arith) (omega arith)
          ∙ ap full (header_piece pre post))
        (read_full_at-ready all (length pre + 13) (length ch.payload) rb' []
            (record { holds = s'.holds; kept = omega (arith, s'.kept) }) pos (omega arith)
          ∙ ap full (payload_piece pre post))
      ∙ ap frame_read (sym (frame-header crc index ch))

module _ (w : Wrote) (ws : List Wrote) (frame : List ℕ) (some : 0 < length frame) where
  abbrev taken : ℕ
  taken = min w.taken (length frame)

  write_frame-failed :
      w.failed ≡ true → write_frame (w ∷ ws) frame ≡ (write_failed, take taken frame)
  unfolding write_frame
  write_frame-failed e = more w ws frame some e
    where
      more :
          (w : Wrote) (ws : List Wrote) (frame : List ℕ)
          → 0 < length frame
          → w.failed ≡ true
          → write_frame (w ∷ ws) frame ≡ (write_failed, take (min w.taken (length frame)) frame)
      more w ws [] pos e = absurd (omega arith)
      more w ws (b ∷ frame) pos e = ground arith

  write_frame-nothing :
      w.failed ≡ false → taken ≡ 0 → write_frame (w ∷ ws) frame ≡ (wrote_nothing, [])
  unfolding write_frame
  write_frame-nothing e z = more w ws frame some e z
    where
      more :
          (w : Wrote) (ws : List Wrote) (frame : List ℕ)
          → 0 < length frame
          → w.failed ≡ false
          → min w.taken (length frame) ≡ 0
          → write_frame (w ∷ ws) frame ≡ (wrote_nothing, [])
      more w ws [] pos e z = absurd (omega arith)
      more w ws (b ∷ frame) pos e z = ground arith

  write_frame-more :
      w.failed ≡ false
      → 0 < taken
      → write_frame (w ∷ ws) frame ≡ (
        (write_frame ws (drop taken frame)).0,
        take taken frame ++ (write_frame ws (drop taken frame)).1,
      )
  unfolding write_frame
  write_frame-more e z = more w ws frame some e z
    where
      more :
          (w : Wrote) (ws : List Wrote) (frame : List ℕ)
          → 0 < length frame
          → w.failed ≡ false
          → 0 < min w.taken (length frame)
          → write_frame (w ∷ ws) frame ≡ (
            (write_frame ws (drop (min w.taken (length frame)) frame)).0,
            take (min w.taken (length frame)) frame
                ++ (write_frame ws (drop (min w.taken (length frame)) frame)).1,
          )
      more w ws [] pos e z = absurd (omega arith)
      more w ws (b ∷ frame) pos e z = ground arith

-- A prefix was sent, and all of it if the call succeeds.
abbrev pub IsSent : List ℕ → FrameWritten × List ℕ → Type 0
IsSent frame r = (r.1 ≡ take (length r.1) frame) × (r.0 ≡ frame_written → r.1 ≡ frame)

-- Whatever the calls of conn.Write do, the bytes that writeFrame has sent begin the frame, and when it
-- returns nil they are all of it.
pub write_frame-IsSent : (ws : List Wrote) (frame : List ℕ) → IsSent frame (write_frame ws frame)
write_frame-IsSent ws [] = unfold write_frame in (refl, λ e. refl)
write_frame-IsSent [] (b ∷ frame) = unfold write_frame in (refl, λ e. absurd (ground arith))
write_frame-IsSent (w ∷ ws) (b ∷ frame) =
    let f = b ∷ frame in
    let n = min w.taken (length f) in
    let size : length (take n f) ≡ n = omega (arith, length-take n f) in
    elim (Bool-cases w.failed) [
      | inl failed ↦
          rw (write_frame-failed w ws f (omega arith) failed)
            (ap (λ (k : ℕ). take k f) (sym size), λ e. absurd (ground arith))
      | inr fine ↦ elim (lt_or_ge 0 n) [
        | inl some ↦
            let (prefix, whole) = write_frame-IsSent ws (drop n f) in
            let out = (write_frame ws (drop n f)).1 in
            rw (write_frame-more w ws f (omega arith) fine some) (
              ap (λ l. take n f ++ l) prefix
                  ∙ take-append_take n (length out) (length (take n f ++ out)) f
                      (omega (arith, size, length-append (take n f) out)),
              λ e. ap (λ l. take n f ++ l) (whole e) ∙ take-append-drop n f,
            )
        | inr none ↦
            rw (write_frame-nothing w ws f (omega arith) fine (omega arith))
              (refl, λ e. absurd (ground arith))
      ]
    ]
