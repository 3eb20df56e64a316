-- ===== src/Frame/Laws.antt =====
-- A frame in front of other bytes, and what is read of a piece of one.
use n_backup.Prelude.{
  ℕ, ◌+◌, ◌<◌, ◌≡◌, refl, sym, ap, ◌∙◌, arith, List, [], ◌∷◌, ◌++◌, length, append_assoc,
  length-append,
}
use n_backup.Protocol.Wire.{stream, put_be, ok, err, Error}
use n_backup.Protocol.Wire.Laws.{length-put_be}
use n_backup.Protocol.Writer.{write_chunk_header}
use n_backup.Protocol.Reader.{read_chunk_header}
use n_backup.Protocol.Frames.{ChunkHeader}
use n_backup.Protocol.RoundTrip.{read_chunk_header-write_chunk_header}
use n_backup.Protocol.Truncation.{read_chunk_header_cut}
use n_backup.Frame.{Chunk, frame, frames, Fits}

pub stream-append :
    (ws : List (List ℕ)) (xs ys : List ℕ) → stream ws xs ++ ys ≡ stream ws (xs ++ ys)
stream-append [] xs ys = refl
stream-append (w ∷ ws) xs ys =
    append_assoc w (stream ws xs) ys ∙ ap (λ zs. w ++ zs) (stream-append ws xs ys)

module _ (crc : List ℕ → ℕ) (index : ℕ) (ch : Chunk) where
  -- The 13 bytes of the header.
  abbrev pub header : List ℕ
  header = stream (write_chunk_header ch.seq (length ch.payload) index (crc ch.payload)) []

  pub length-header : length header ≡ 13
  unfolding write_chunk_header
  length-header =
      let s = put_be 4 ch.seq in
      let l = put_be 4 (length ch.payload) in
      let k = put_be 4 (crc ch.payload) in
      omega (
        arith,
        length-append s (l ++ (index ∷ (k ++ []))),
        length-append l (index ∷ (k ++ [])),
        length-append k [],
        length-put_be 4 ch.seq,
        length-put_be 4 (length ch.payload),
        length-put_be 4 (crc ch.payload),
      )

  pub frame-header : frame crc index ch ≡ header ++ ch.payload
  unfolding frame
  frame-header = sym (
      stream-append (write_chunk_header ch.seq (length ch.payload) index (crc ch.payload)) []
        ch.payload)

  abbrev pub header_fields : ChunkHeader
  header_fields = record {
    global_seq = ch.seq;
    length = length ch.payload;
    slot_id = index;
    crc32 = crc ch.payload;
  }

  pub read_chunk_header-header :
      (rest : List ℕ) → Fits crc ch → read_chunk_header (header ++ rest) ≡ ok (header_fields, rest)
  read_chunk_header-header rest fits =
      ap read_chunk_header (
        stream-append (write_chunk_header ch.seq (length ch.payload) index (crc ch.payload)) []
          rest)
      ∙ read_chunk_header-write_chunk_header ch.seq (length ch.payload) index (crc ch.payload) rest
          fits.seq_fits fits.length_fits fits.crc_fits

  pub length-frame : length (frame crc index ch) ≡ 13 + length ch.payload
  length-frame =
      ap length frame-header ∙ omega (arith, length-append header ch.payload, length-header)

  -- A piece of the header alone cannot be read.
  pub read_chunk_header-cut :
      (front back : List ℕ)
      → Fits crc ch
      → header ≡ front ++ back
      → length front < 13
      → (e : Error) × (read_chunk_header front ≡ err e)
  read_chunk_header-cut front [] fits e short =
      absurd (omega (arith, ap length e, length-append front [], length-header))
  read_chunk_header-cut front (x ∷ back) fits e short =
      read_chunk_header_cut ch.seq (length ch.payload) index (crc ch.payload) front x back
        fits.seq_fits fits.length_fits fits.crc_fits e

module _ (crc : List ℕ → ℕ) (index : ℕ) where
  pub frames-append :
      (xs ys : List Chunk)
      → frames crc index (xs ++ ys) ≡ frames crc index xs ++ frames crc index ys
  unfolding frames
  frames-append [] ys = refl
  frames-append (ch ∷ xs) ys =
      ap (λ t. frame crc index ch ++ t) (frames-append xs ys)
      ∙ sym (append_assoc (frame crc index ch) (frames crc index xs) (frames crc index ys))
