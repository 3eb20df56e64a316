-- ===== src/Protocol/Tests.antt =====
-- The frames on concrete inputs, and the theorems at them.
use n_backup.Prelude.{ℕ, ◌≡◌, refl, arith, List, [], ◌∷◌, ◌++◌}
use n_backup.Protocol.Wire.{ok, err, stream, read_full, read_uint, put_be, reading, eof}
use n_backup.Protocol.Writer.{write_handshake, write_chunk_header}
use n_backup.Protocol.Reader.{read_chunk_header}
use n_backup.Protocol.RoundTrip.{read_chunk_header-write_chunk_header}

abbrev agent : List ℕ
agent = b'w' ∷ b'1' ∷ []

abbrev storage : List ℕ
storage = b's' ∷ []

abbrev backup : List ℕ
backup = b'e' ∷ b't' ∷ b'c' ∷ []

abbrev version : List ℕ
version = b'4' ∷ []

header_bytes :
    stream (write_chunk_header 258 2 1 0xdeadbeef) []
    ≡ 0 ∷ 0 ∷ 1 ∷ 2 ∷ 0 ∷ 0 ∷ 0 ∷ 2 ∷ 1 ∷ 0xde ∷ 0xad ∷ 0xbe ∷ 0xef ∷ []
unfolding write_chunk_header put_be
header_bytes = refl

read_chunk_header-write_chunk_header_example :
    read_chunk_header (stream (write_chunk_header 258 2 1 0xdeadbeef) (7 ∷ 8 ∷ []))
    ≡ ok (record { global_seq = 258; length = 2; slot_id = 1; crc32 = 0xdeadbeef }, 7 ∷ 8 ∷ [])
read_chunk_header-write_chunk_header_example =
    read_chunk_header-write_chunk_header 258 2 1 0xdeadbeef (7 ∷ 8 ∷ []) (omega arith) (omega arith)
      (omega arith)

-- The end of a stream between two chunks is the one error that the server takes for its end.
read_chunk_header_at_end : read_chunk_header [] ≡ err (reading "chunk header seq" eof)
unfolding read_chunk_header read_uint read_full
read_chunk_header_at_end = refl

short_handshake :
    stream (write_handshake [] [] [] []) []
    ≡ (b'N' ∷ b'B' ∷ b'K' ∷ b'P' ∷ 6 ∷ 10 ∷ []) ++ (10 ∷ 10 ∷ 10 ∷ [])
unfolding write_handshake
short_handshake = refl
