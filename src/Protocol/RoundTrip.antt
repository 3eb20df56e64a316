-- ===== src/Protocol/RoundTrip.antt =====
-- What a reader of reader.go makes of the frame that the writer of writer.go sends, with anything
-- behind it.
use Prim.Native.String.{String}
use n_backup.Prelude.{ℕ, ◌+◌, ◌^◌, ◌<◌, ◌≤◌, ◌≡◌, refl, arith, List, [], ◌∷◌, ◌++◌, length, ge→ltb}
use n_backup.Protocol.Wire.{ok, stream, IsLine, read_byte}
use n_backup.Protocol.Wire.Laws.{read_full-append, read_uint-put_be, read_magic-append}
use n_backup.Protocol.Frames.{magic_trailer}
use n_backup.Protocol.Writer.{write_trailer, write_chunk_header}
use n_backup.Protocol.Reader.{read_trailer, read_chunk_header, read_line_from}

pub read_line_from-line :
    (what : String) (max len : ℕ) (line rest : List ℕ)
    → IsLine line
    → len + length line ≤ max
    → read_line_from what max len (line ++ (10 ∷ rest)) ≡ ok (line, rest)
unfolding read_line_from
read_line_from-line what max len [] rest h le = refl
read_line_from-line what max len (b ∷ line) rest h le = rw (
  h.0,
  ge→ltb max (len + 1) (omega arith),
  read_line_from-line what max (len + 1) line rest h.1 (omega arith),
)

-- ReadTrailer reads back the checksum of 32 bytes and the size of WriteTrailer.
pub read_trailer-write_trailer :
    (checksum : List ℕ) (size : ℕ) (rest : List ℕ)
    → length checksum ≡ 32
    → size < 2 ^ 64
    → read_trailer (stream (write_trailer checksum size) rest)
      ≡ ok (record { checksum = checksum; size = size }, rest)
unfolding read_trailer write_trailer
read_trailer-write_trailer checksum size rest hc hs = rw (
  read_magic-append magic_trailer _ _ refl,
  read_full-append 32 _ checksum _ hc,
  read_uint-put_be 8 _ size rest hs,
)

-- ReadChunkHeader reads back the fields of WriteChunkHeader, each within its width.
pub read_chunk_header-write_chunk_header :
    (global_seq len slot_id crc32 : ℕ) (rest : List ℕ)
    → global_seq < 2 ^ 32
    → len < 2 ^ 32
    → crc32 < 2 ^ 32
    → read_chunk_header (stream (write_chunk_header global_seq len slot_id crc32) rest)
      ≡ ok
          (record { global_seq = global_seq; length = len; slot_id = slot_id; crc32 = crc32 }, rest)
unfolding read_chunk_header write_chunk_header read_byte
read_chunk_header-write_chunk_header global_seq len slot_id crc32 rest hg hl hc = rw (
  read_uint-put_be 4 _ global_seq _ hg,
  read_uint-put_be 4 _ len _ hl,
  read_uint-put_be 4 _ crc32 rest hc,
)
