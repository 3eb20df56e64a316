-- ===== src/Dispatcher/Tests.antt =====
-- The dispatcher on two streams and chunks of two bytes.
use n_backup.Prelude.{ℕ, ◌%◌, ◌^◌, ◌≡◌, refl, arith, List, [], ◌∷◌, length, map, none}
use n_backup.Dispatcher.{
  Dispatcher, new_dispatcher, Call, writes, activates, deactivates, produce, flush, write,
  new_streams, new_stream, activate_stream, deactivate_stream, set_stream, write_loop, write_round,
  emit_pending, emit_chunk, emit_to, pick_stream, ring_write, chunk_header_bytes,
}
use n_backup.Protocol.Wire.{stream}
use n_backup.Protocol.Writer.{write_chunk_header}
use n_backup.Dispatcher.Emit.{chunk_header_bytes-write_chunk_header}
use n_backup.Dispatcher.Log.{written_by}
use n_backup.Dispatcher.Flush.{IsFlushed}
use n_backup.Dispatcher.Whole.{flush-produce}

abbrev checksum : List ℕ → ℕ
checksum l = length l % 2 ^ 32

abbrev calls : List Call
calls =
    activates 0
    ∷ activates 1
    ∷ writes (10 ∷ 20 ∷ 30 ∷ [])
    ∷ deactivates 0
    ∷ writes (40 ∷ 50 ∷ [])
    ∷ []

abbrev produced : Dispatcher
produced = (produce checksum (new_dispatcher 2 2) calls).1

abbrev flushed : Dispatcher
flushed = (flush checksum produced).1

produced_lem : produce checksum (new_dispatcher 2 2) calls ≡ (none, produced)
unfolding produce new_dispatcher new_streams new_stream activate_stream deactivate_stream set_stream
    write write_loop write_round emit_pending emit_chunk emit_to pick_stream ring_write
    chunk_header_bytes flush
produced_lem = refl

flushed_lem : flush checksum produced ≡ (none, flushed)
unfolding produce new_dispatcher new_streams new_stream activate_stream deactivate_stream set_stream
    write write_loop write_round emit_pending emit_chunk emit_to pick_stream ring_write
    chunk_header_bytes flush
flushed_lem = refl

-- The second stream takes the second chunk, and the last one, which is short.
flushed_streams : map (λ s. length s.written) flushed.streams ≡ 15 ∷ 29 ∷ []
unfolding produce new_dispatcher new_streams new_stream activate_stream deactivate_stream set_stream
    write write_loop write_round emit_pending emit_chunk emit_to pick_stream ring_write
    chunk_header_bytes flush
flushed_streams = refl

flush-produce_example : IsFlushed checksum 2 (written_by calls) flushed
flush-produce_example =
    flush-produce checksum 2 (omega arith) 2 calls produced flushed (omega arith) produced_lem
      flushed_lem

chunk_header_bytes-write_chunk_header_example :
    chunk_header_bytes checksum 70000 3 (10 ∷ 20 ∷ []) ≡ stream (write_chunk_header 70000 2 3 2) []
chunk_header_bytes-write_chunk_header_example =
    chunk_header_bytes-write_chunk_header checksum 70000 3 (10 ∷ 20 ∷ [])
