-- ===== src/Receive.antt =====
-- receiveParallelStream of internal/server/handler_parallel.go: the loop that takes the chunks of one
-- data connection, checks them and passes them on.
pub mod Whole
pub mod Resume
mod Tests
use text.Mathlib.Text.{◌==◌ as str_eq}
use n_backup.Prelude.{
  ℕ, zero, suc, ◌+◌, ◌%◌, ◌^◌, Bool, true, false, not, List, [], ◌∷◌, ◌++◌, length, take, drop, ltb,
  ◌==◌, if◌then◌else◌,
}
use n_backup.Protocol.Wire.{Error, reading, Cause, eof, ok, err, Result}
use n_backup.Protocol.Frames.{ChunkHeader, ChunkSack}
use n_backup.Protocol.Reader.{read_chunk_header}

-- What the loop changes: the session behind it, the fields of its slot, and the ChunkSACKs it has sent.
-- `chunks_received` and `last_chunk_seq` are uint32, `offset` an int64 that counts bytes.
pub record Receiving {ℓ} (S : Type ℓ) : Type ℓ where
  pub session : S
  pub offset : ℕ
  pub local_chunk_seq : ℕ
  pub chunks_received : ℕ
  pub last_chunk_seq : ℕ
  pub sacks : List ChunkSack

-- Why the loop ended: its context was cancelled, the input ended between two chunks, or an error.
pub data Ended : Type 0 where
  cancelled : Ended
  finished : Ended
  header_failed : Error → Ended
  payload_failed : Ended
  crc_mismatch : Ended
  not_delivered : Ended

-- How a round goes on: with the next one over the bytes that are left, or with the end of the loop.
pub data Round {ℓ} (S : Type ℓ) : Type ℓ where
  next : Receiving S → List ℕ → Round S
  stop : Ended → Receiving S → Round S

-- `err == io.EOF || err.Error() == "reading chunk header seq: EOF"`
unfoldable pub is_end : Error → Bool
is_end (reading what eof) = str_eq what "chunk header seq"
is_end e = false

-- `deliver` is Push of the chunk buffer or WriteChunk of the assembler; `crc` is crc32.ChecksumIEEE.
module _ {ℓ} {S : Type ℓ} (deliver : S → ℕ → List ℕ → Bool × S) (crc : List ℕ → ℕ) (index : ℕ) where
  -- What the loop does with a chunk that was delivered.
  unfoldable pub acknowledge : ChunkHeader → S → Receiving S → Receiving S
  acknowledge hdr session r =
      let offset = r.offset + (hdr.length + 13) in
      let chunk_seq = (r.local_chunk_seq + 1) % 2 ^ 32 in
      record {
        session = session;
        offset = offset;
        local_chunk_seq = chunk_seq;
        chunks_received = (r.chunks_received + 1) % 2 ^ 32;
        last_chunk_seq = hdr.global_seq;
        sacks =
            r.sacks
            ++ (record { stream_index = index; chunk_seq = chunk_seq; offset = offset } ∷ []);
      }

  -- A round behind a header that was read, with the bytes `s` that follow.
  unfoldable pub receive_payload : ChunkHeader → List ℕ → Receiving S → Round S
  receive_payload hdr s r =
      if ltb (length s) hdr.length
      then stop payload_failed r
      else if not (crc (take hdr.length s) == hdr.crc32)
      then stop crc_mismatch r
      else let (accepted, session) = deliver r.session hdr.global_seq (take hdr.length s) in
        if accepted
        then next (acknowledge hdr session r) (drop hdr.length s)
        else stop not_delivered (record r { session = session })

  unfoldable pub receive_round : List ℕ → Receiving S → Round S
  receive_round s r = elim (read_chunk_header s) [
    | ok (hdr, rest) ↦ receive_payload hdr rest r
    | err e ↦ stop (if is_end e then finished else header_failed e) r
  ]

  -- The loop, over the bytes that the connection delivers until it ends; its context is cancelled
  -- after a number of rounds.
  unfoldable pub receive_loop : ℕ → List ℕ → Receiving S → Ended × Receiving S
  receive_loop zero s r = (cancelled, r)
  receive_loop (suc rounds) s r = elim (receive_round s r) [
    | next r' rest ↦ receive_loop rounds rest r'
    | stop e r' ↦ (e, r')
  ]

  -- receiveParallelStream goes on from the offset of the slot.
  unfoldable pub receive_parallel_stream : ℕ → List ℕ → Receiving S → Ended × Receiving S
  receive_parallel_stream rounds s r = receive_loop rounds s (record r { local_chunk_seq = 0 })
