-- ===== src/Transfer/Tests.antt =====
-- A backup of five bytes over two connections, in chunks of two bytes.
use n_backup.Prelude.{
  ℕ, ◌+◌, ◌%◌, ◌^◌, ◌<◌, ◌≡◌, refl, arith, true, All, List, [], ◌∷◌, length, none, ◌*◌, ◌≤◌,
}
use n_backup.Assembler.Defs.{eager, new_chunk_assembler}
use n_backup.Assembler.System.{contains}
use n_backup.Receive.{finished}
use n_backup.Dispatcher.{
  Dispatcher, new_dispatcher, Call, writes, activates, deactivates, produce, flush, write,
  new_streams, new_stream, activate_stream, deactivate_stream, set_stream, write_loop, write_round,
  emit_pending, emit_chunk, emit_to, pick_stream, ring_write, chunk_header_bytes,
}
use n_backup.Dispatcher.Log.{written_by}
use n_backup.Transfer.{receive_streams}
use n_backup.Transfer.Whole.{receive_streams-produce}

abbrev checksum : List ℕ → ℕ
checksum l = length l % 2 ^ 32

abbrev calls : List Call
calls =
    activates 0
    ∷ activates 1
    ∷ writes (10 ∷ 20 ∷ 30 ∷ [])
    ∷ deactivates 0
    ∷ writes (40 ∷ 50 ∷ [])
    ∷ []

abbrev produced : Dispatcher
produced = (produce checksum (new_dispatcher 2 2) calls).1

abbrev flushed : Dispatcher
flushed = (flush checksum produced).1

produced_lem : produce checksum (new_dispatcher 2 2) calls ≡ (none, produced)
unfolding produce new_dispatcher new_streams new_stream activate_stream deactivate_stream set_stream
    write write_loop write_round emit_pending emit_chunk emit_to pick_stream ring_write
    chunk_header_bytes flush
produced_lem = refl

flushed_lem : flush checksum produced ≡ (none, flushed)
unfolding produce new_dispatcher new_streams new_stream activate_stream deactivate_stream set_stream
    write write_loop write_round emit_pending emit_chunk emit_to pick_stream ring_write
    chunk_header_bytes flush
flushed_lem = refl

both : (i : ℕ) → i < length flushed.streams → contains i (1 ∷ 0 ∷ 1 ∷ []) ≡ true
unfolding produce new_dispatcher new_streams new_stream activate_stream deactivate_stream set_stream
    write write_loop write_round emit_pending emit_chunk emit_to pick_stream ring_write
    chunk_header_bytes flush contains
both i lt = ground arith

few : length (written_by calls) + 2 ≤ 2 ^ 32 * 2
unfolding written_by
few = omega arith

-- The second stream's connection comes first, and once more.
receive_streams-produce_example :
    let (ends, ca) =
      receive_streams checksum flushed (1 ∷ 0 ∷ 1 ∷ []) (new_chunk_assembler eager 0) in
    All (λ e. e ≡ finished) ends × (ca.out ≡ written_by calls)
receive_streams-produce_example =
    receive_streams-produce checksum 0 2 2 calls (1 ∷ 0 ∷ 1 ∷ []) produced flushed
      (λ l. omega arith) (omega arith) (omega arith) (omega arith) few produced_lem flushed_lem both
