-- ===== src/Single.antt =====
-- internal/server/handler_single.go: receiveWithSACK. The connection is the list of the reads that it
-- answers; the temporary file and the bufio.Writer in front of it are lists of bytes.
pub mod Laws
pub mod Sessions
pub mod Delivery
pub mod Trailer
pub mod Resume
pub mod Upload
pub mod Lost
pub mod Handshake
mod Tests
use n_backup.Prelude.{
  ℕ, ◌+◌, ◌-◌, Bool, true, false, not, List, [], ◌∷◌, ◌++◌, length, take, drop, Option, none, some,
  ltb, leb, ◌==◌, if◌then◌else◌,
}

-- The error of a Read: io.EOF, or any other, a timeout included.
pub data ReadEnd : Type 0 where
  at_eof : ReadEnd
  broken : ReadEnd

-- One call of Read, and whether the file fails in the writes that follow it: `some k` is a write that
-- takes k bytes and fails. `sack_sent` tells whether WriteSACK returns nil, if a SACK is due.
pub record Read : Type 0 where
  pub bytes : List ℕ
  pub ended : Option ReadEnd
  pub on_write : Option ℕ
  pub on_sack : Option ℕ
  pub sack_sent : Bool
  pub on_end : Option ℕ

-- The variables of receiveWithSACK, session.BytesWritten, the file, what bufFile holds, and the offsets
-- of the SACKs that were written and of those whose WriteSACK failed.
pub record SackLoop : Type 0 where
  pub file : List ℕ
  pub buffered : List ℕ
  pub bytes_received : ℕ
  pub last_sack : ℕ
  pub bytes_written : ℕ
  pub sacks : List ℕ
  pub failed_sacks : List ℕ

-- Back at the top of the loop, or returned, with no error or with one.
pub data Received : Type 0 where
  goes_on : SackLoop → Received
  returned : Bool → SackLoop → Received

-- receiveWithSACK at its first read.
unfoldable pub start_receiving : List ℕ → ℕ → SackLoop
start_receiving file bytes_written = record {
  file = file;
  buffered = [];
  bytes_received = 0;
  last_sack = 0;
  bytes_written = bytes_written;
  sacks = [];
  failed_sacks = [];
}

-- bufFile.Flush
unfoldable pub flush_file : Option ℕ → SackLoop → Bool × SackLoop
flush_file fault r = elim fault [
  | none ↦ (true, record r { file = r.file ++ r.buffered; buffered = [] })
  | some k ↦
      if length r.buffered == 0
      then (true, r)
      else (false, record r { file = r.file ++ take k r.buffered; buffered = drop k r.buffered })
]

-- The parameters are singleStreamIOBufferSize and sackInterval.
module _ (io_buffer_size sack_interval : ℕ) where
  -- bufFile.Write of at most as many bytes as its buffer has.
  unfoldable pub write_file : Option ℕ → List ℕ → SackLoop → Bool × SackLoop
  write_file fault p r =
      let room = io_buffer_size - length r.buffered in
      let (flushed, f) = flush_file fault (record r { buffered = r.buffered ++ take room p }) in
      if leb (length p) room
      then (true, record r { buffered = r.buffered ++ p })
      else if flushed
      then (true, record f { buffered = drop room p })
      else (false, f)

  -- The handling of readErr.
  unfoldable pub end_read : Read → SackLoop → Received
  end_read read r = elim read.ended [
    | none ↦ goes_on r
    | some at_eof ↦ returned (flush_file read.on_end r).0 (flush_file read.on_end r).1
    | some broken ↦ returned false (flush_file read.on_end r).1
  ]

  -- WriteSACK; a SACK that fails is only logged.
  unfoldable pub send_sack : Bool → SackLoop → SackLoop
  send_sack sent r =
      let r' = record r { last_sack = r.bytes_received } in
      if sent
      then record r' { sacks = r.sacks ++ (r.bytes_written ∷ []) }
      else record r' { failed_sacks = r.failed_sacks ++ (r.bytes_written ∷ []) }

  -- The SACK, when it is due, then the handling of readErr.
  unfoldable pub sack_read : Read → SackLoop → Received
  sack_read read r =
      let (flushed, f) = flush_file read.on_sack r in
      if leb sack_interval (r.bytes_received - r.last_sack)
      then if flushed then end_read read (send_sack read.sack_sent f) else returned false f
      else end_read read r

  -- The loop's body.
  unfoldable pub read_once : Read → SackLoop → Received
  read_once read r =
      let n = length read.bytes in
      let (wrote, w) = write_file read.on_write read.bytes r in
      if n == 0
      then end_read read r
      else if not wrote
      then returned false w
      else sack_read read
          (record w { bytes_received = w.bytes_received + n; bytes_written = w.bytes_written + n })

  -- receiveWithSACK over the reads; with none left it waits for the next.
  unfoldable pub receive_with_sack : List Read → SackLoop → Received
  receive_with_sack [] r = goes_on r
  receive_with_sack (read ∷ reads) r = elim (read_once read r) [
    | goes_on r' ↦ receive_with_sack reads r'
    | returned ok r' ↦ returned ok r'
  ]
