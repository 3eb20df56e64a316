-- ===== src/Frame.antt =====
-- The frames of a data connection, between emitChunk of internal/agent/dispatcher.go, which puts
-- them into a ring buffer, and receiveParallelStream of internal/server/handler_parallel.go.
-- crc32.ChecksumIEEE of the standard library is a parameter.
pub mod Laws
use n_backup.Prelude.{ℕ, ◌+◌, ◌<◌, ◌^◌, List, [], ◌∷◌, ◌++◌, length, All}
use n_backup.Protocol.Wire.{stream}
use n_backup.Protocol.Writer.{write_chunk_header}

pub record Chunk : Type 0 where
  pub seq : ℕ
  pub payload : List ℕ

module _ (crc : List ℕ → ℕ) (index : ℕ) where
  -- The header that emitChunk writes, and the data behind it.
  unfoldable pub frame : Chunk → List ℕ
  frame ch =
      stream (write_chunk_header ch.seq (length ch.payload) index (crc ch.payload)) ch.payload

  unfoldable pub frames : List Chunk → List ℕ
  frames [] = []
  frames (ch ∷ chs) = frame ch ++ frames chs

-- The fields of a header fit their widths.
pub record Fits (crc : List ℕ → ℕ) (ch : Chunk) : Type 0 where
  pub seq_fits : ch.seq < 2 ^ 32
  pub length_fits : length ch.payload < 2 ^ 32
  pub crc_fits : crc ch.payload < 2 ^ 32
