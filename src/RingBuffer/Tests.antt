-- ===== src/RingBuffer/Tests.antt =====
-- The buffer on concrete inputs, and its theorems at them.
use n_backup.Prelude.{ℕ, ◌≤◌, ◌≡◌, refl, arith, true, false, List, [], ◌∷◌, ◌++◌, copy_at}
use native.Mathlib.Decide.{ℕ_discrete}
use n_backup.RingBuffer.{
  RingBuffer, wrote, write_step, put_chunk, chunk_size, read, read_at, read_woken, get_chunk,
  read_wait, offset_expired, advance, close, contains, contains_range,
}
use n_backup.RingBuffer.Content.{Holds}
use n_backup.RingBuffer.System.{writer, ack, shut, Call, turn, run, write_round, read_full_at}
use n_backup.RingBuffer.System.Writes.{IsPrefixWritten, acked, run-IsPrefixWritten}
use n_backup.RingBuffer.System.Reads.{IsSnapshot, FullOutcome, read_full_at_lem}

-- Five bytes written to four places; the first three are acknowledged.
abbrev stream : List ℕ
stream = 10 ∷ 11 ∷ 12 ∷ 13 ∷ 14 ∷ []

abbrev wrapped : RingBuffer
wrapped = record { buf = 14 ∷ 11 ∷ 12 ∷ 13 ∷ []; size = 4; head = 5; tail = 3; closed = false }

wrapped-Holds : Holds stream wrapped
wrapped-Holds = record {
  pos = omega arith;
  room = refl;
  written = refl;
  ordered = omega arith;
  fits = omega arith;
  bytes = λ k lo hi. elim (ℕ_discrete k 3) [
    | yes e ↦ rw e refl
    | no ne ↦ let e : k ≡ 4 = omega arith in rw e refl
  ];
}

write_wraps :
    write_step (record wrapped { head = 7; tail = 5 }) (1 ∷ 2 ∷ 3 ∷ [])
    ≡ wrote 2 (record { buf = 2 ∷ 11 ∷ 12 ∷ 1 ∷ []; size = 4; head = 9; tail = 5; closed = false })
unfolding write_step chunk_size put_chunk copy_at
write_wraps = refl

reads :
    (read_at wrapped 3 8 ≡ read (13 ∷ 14 ∷ []))
    × (read_at wrapped 2 8 ≡ offset_expired)
    × (read_at wrapped 5 8 ≡ read_wait)
unfolding read_at read_woken get_chunk
reads = (refl, refl, refl)

ranges :
    (contains wrapped 4 ≡ true)
    × (contains wrapped 5 ≡ false)
    × (contains_range wrapped 3 2 ≡ true)
    × (contains_range wrapped 3 3 ≡ false)
unfolding contains contains_range
ranges = (refl, refl, refl, refl)

-- A call of `Write` over it that has not written anything yet.
abbrev call : Call
call = record { ring = wrapped; written = 0; failed = false }

abbrev more : List ℕ
more = 15 ∷ 16 ∷ 17 ∷ 18 ∷ 19 ∷ 20 ∷ []

call-IsPrefixWritten : IsPrefixWritten stream more call
call-IsPrefixWritten = record { bounded = omega arith; content = wrapped-Holds }

run-IsPrefixWritten_example :
    let ts = writer ∷ ack 4 ∷ writer ∷ shut ∷ writer ∷ [] in
    IsPrefixWritten stream more (run more call ts) × ((run more call ts).ring.tail ≤ acked 3 ts)
run-IsPrefixWritten_example =
    run-IsPrefixWritten stream more (writer ∷ ack 4 ∷ writer ∷ shut ∷ writer ∷ []) call
      call-IsPrefixWritten

blocked_then_closed :
    (run more call (writer ∷ writer ∷ ack 4 ∷ writer ∷ shut ∷ writer ∷ [])).written ≡ 3
unfolding run turn write_round write_step chunk_size put_chunk copy_at advance close
blocked_then_closed = refl

-- One byte more is acknowledged in each round.
abbrev offsets : List ℕ
offsets = 4 ∷ 5 ∷ 6 ∷ 7 ∷ 8 ∷ 9 ∷ []

snapshot : IsSnapshot (stream ++ (15 ∷ [])) 3 wrapped
snapshot = record { holds = wrapped-Holds; kept = omega arith }

read_full_at_lem_example :
    FullOutcome (stream ++ (15 ∷ [])) 3 3 (read_full_at (wrapped ∷ wrapped ∷ []) 3 3 [] false)
read_full_at_lem_example =
    read_full_at_lem (stream ++ (15 ∷ [])) 3 3 (wrapped ∷ wrapped ∷ []) [] false
      (snapshot, (snapshot, tt)) (refl, omega arith)
