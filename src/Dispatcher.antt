-- ===== src/Dispatcher.antt =====
-- internal/agent/dispatcher.go: the producer's side. Write cuts the archive into chunks, emitChunk puts
-- each as a frame into the ring buffer of one stream, in turn. A ring buffer is given here by the bytes
-- that were ever written to it and by how many it still takes before it is closed; that Write appends
-- its bytes and then waits for room is what RingBuffer shows.
pub mod Log
pub mod Emit
pub mod Written
pub mod Write
pub mod Flush
pub mod Numbers
pub mod Produce
pub mod Whole
mod Tests
use n_backup.Prelude.{
  ℕ, zero, suc, ◌+◌, ◌-◌, ◌/◌, ◌%◌, ◌^◌, min, Bool, true, false, not, ◌&&◌, List, [], ◌∷◌, ◌++◌,
  length, take, drop, get_elem?, Option, none, some, ltb, leb, ◌==◌, if◌then◌else◌,
}

-- ParallelStream; `room` is none while the ring buffer stays open.
pub record Stream : Type 0 where
  pub index : ℕ
  pub active : Bool
  pub dead : Bool
  pub written : List ℕ
  pub room : Option ℕ

-- chunkLocation
pub record Location : Type 0 where
  pub stream_idx : ℕ
  pub rb_offset : ℕ
  pub len : ℕ

-- `pending` is d.pending[:d.pendingLen]; `chunk_map` has the newest entry first.
pub record Dispatcher : Type 0 where
  pub chunk_size : ℕ
  pub pending : List ℕ
  pub global_seq : ℕ
  pub next_stream : ℕ
  pub streams : List Stream
  pub chunk_map : List (ℕ × Location)

-- ErrAllStreamsDead, a Write to a ring buffer that was closed, and a loop that was given too few rounds.
pub data Failure : Type 0 where
  all_streams_dead : Failure
  ring_closed : Failure
  no_rounds : Failure

unfoldable pub new_stream : ℕ → Stream
new_stream i = record { index = i % 2 ^ 8; active = false; dead = false; written = []; room = none }

unfoldable pub new_streams : ℕ → ℕ → List Stream
new_streams i zero = []
new_streams i (suc n) = new_stream i ∷ new_streams (i + 1) n

-- NewDispatcher
unfoldable pub new_dispatcher : ℕ → ℕ → Dispatcher
new_dispatcher max_streams chunk_size = record {
  chunk_size = chunk_size;
  pending = [];
  global_seq = 0;
  next_stream = 0;
  streams = new_streams 0 max_streams;
  chunk_map = [];
}

unfoldable pub set_stream : ℕ → Stream → List Stream → List Stream
set_stream i s [] = []
set_stream zero s (t ∷ ts) = s ∷ ts
set_stream (suc i) s (t ∷ ts) = t ∷ set_stream i s ts

-- rb.Write when it returns; the waits for room are left to RingBuffer.System. `room` is what it takes until
-- the buffer is closed, if it is.
unfoldable pub ring_write : Stream → List ℕ → Option Failure × Stream
ring_write s p = elim s.room [
  | none ↦ (none, record s { written = s.written ++ p })
  | some k ↦
      if leb (length p) k
      then (none, record s { written = s.written ++ p; room = some (k - length p) })
      else (some ring_closed, record s { written = s.written ++ take k p; room = some 0 })
]

-- The round robin of emitChunk: the stream that takes the chunk, and the next value of nextStream.
unfoldable pub pick_stream : ℕ → ℕ → List Stream → Option Stream × ℕ
pick_stream zero next streams = (none, next)
pick_stream (suc attempts) next streams =
    let rest = pick_stream attempts (next + 1) streams in
    elim (get_elem? streams (next % length streams)) [
      | none ↦ rest
      | some s ↦ if s.active && not s.dead then (some s, next + 1) else rest
    ]

-- byte(v >> 24), byte(v >> 16), byte(v >> 8), byte(v)
abbrev pub bytes_of_uint32 : ℕ → List ℕ
bytes_of_uint32 v = v / 2 ^ 24 % 256 ∷ v / 2 ^ 16 % 256 ∷ v / 2 ^ 8 % 256 ∷ v % 256 ∷ []

-- `hdr` of emitChunk
unfoldable pub chunk_header_bytes : (List ℕ → ℕ) → ℕ → ℕ → List ℕ → List ℕ
chunk_header_bytes crc seq index payload =
    bytes_of_uint32 seq
    ++ (bytes_of_uint32 (length payload) ++ (index ∷ bytes_of_uint32 (crc payload)))

-- emitChunk behind the choice of a stream.
unfoldable pub emit_to :
    (List ℕ → ℕ) → ℕ → Dispatcher → Stream → List ℕ → Option Failure × Dispatcher
emit_to crc seq d s payload =
    let (failed, after_header) = ring_write s (chunk_header_bytes crc seq s.index payload) in
    let (failed', after_payload) = ring_write after_header payload in
    elim failed [
      | some e ↦ (some e, record d { streams = set_stream s.index after_header d.streams })
      | none ↦
          let d' = record d { streams = set_stream s.index after_payload d.streams } in
          elim failed' [
            | some e ↦ (some e, d')
            | none ↦ (
              none,
              record d' {
                chunk_map =
                    (
                      seq,
                      record {
                        stream_idx = s.index;
                        rb_offset = length s.written;
                        len = 13 + length payload;
                      },
                    )
                    ∷ d.chunk_map;
              },
            )
          ]
    ]

-- emitChunk
unfoldable pub emit_chunk : (List ℕ → ℕ) → Dispatcher → List ℕ → Option Failure × Dispatcher
emit_chunk crc d payload =
    let (found, next) = pick_stream (length d.streams) d.next_stream d.streams in
    let d' = record d { global_seq = (d.global_seq + 1) % 2 ^ 32; next_stream = next } in
    elim found [
      | none ↦ (some all_streams_dead, d')
      | some s ↦ emit_to crc d.global_seq d' s payload
    ]

-- emitChunk of d.pending, which is empty afterwards unless that failed.
unfoldable pub emit_pending : (List ℕ → ℕ) → Dispatcher → Option Failure × Dispatcher
emit_pending crc d =
    let (failed, d') = emit_chunk crc d d.pending in
    elim failed [ some e ↦ (some e, d') | none ↦ (none, record d' { pending = [] }) ]

-- A round of Write's loop with the bytes `p` that are left.
unfoldable pub write_round : (List ℕ → ℕ) → Dispatcher → List ℕ → Option Failure × Dispatcher
write_round crc d p =
    let to_copy = min (length p) (d.chunk_size - length d.pending) in
    let filled = record d { pending = d.pending ++ take to_copy p } in
    if length filled.pending == d.chunk_size then emit_pending crc filled else (none, filled)

-- Write, with fuel for the rounds of its loop.
unfoldable pub write_loop : (List ℕ → ℕ) → ℕ → Dispatcher → List ℕ → Option Failure × Dispatcher
write_loop crc rounds d [] = (none, d)
write_loop crc zero d (b ∷ p) = (some no_rounds, d)
write_loop crc (suc rounds) d (b ∷ p) =
    let to_copy = min (length (b ∷ p)) (d.chunk_size - length d.pending) in
    let (failed, d') = write_round crc d (b ∷ p) in
    elim failed [ some e ↦ (some e, d') | none ↦ write_loop crc rounds d' (drop to_copy (b ∷ p)) ]

unfoldable pub write : (List ℕ → ℕ) → Dispatcher → List ℕ → Option Failure × Dispatcher
write crc d p = write_loop crc (length p) d p

-- Flush
unfoldable pub flush : (List ℕ → ℕ) → Dispatcher → Option Failure × Dispatcher
flush crc d = if ltb 0 (length d.pending) then emit_pending crc d else (none, d)

-- The activation of a stream by ActivateStream, and DeactivateStream; indices out of range do nothing.
unfoldable pub activate_stream : ℕ → Dispatcher → Dispatcher
activate_stream i d = elim (get_elem? d.streams i) [
  | none ↦ d
  | some s ↦
      if s.dead
      then d
      else record d { streams = set_stream i (record s { active = true }) d.streams }
]

unfoldable pub deactivate_stream : ℕ → Dispatcher → Dispatcher
deactivate_stream i d = elim (get_elem? d.streams i) [
  | none ↦ d
  | some s ↦ record d { streams = set_stream i (record s { active = false }) d.streams }
]

-- What happens to a dispatcher: a Write of the producer, and the scaling between.
pub data Call : Type 0 where
  writes : List ℕ → Call
  activates : ℕ → Call
  deactivates : ℕ → Call

-- A sequence of calls, until a Write fails.
unfoldable pub produce : (List ℕ → ℕ) → Dispatcher → List Call → Option Failure × Dispatcher
produce crc d [] = (none, d)
produce crc d (writes p ∷ calls) =
    let (failed, d') = write crc d p in
    elim failed [ some e ↦ (some e, d') | none ↦ produce crc d' calls ]
produce crc d (activates i ∷ calls) = produce crc (activate_stream i d) calls
produce crc d (deactivates i ∷ calls) = produce crc (deactivate_stream i d) calls
