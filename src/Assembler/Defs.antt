-- ===== src/Assembler/Defs.antt =====
-- The state of a ChunkAssembler and its operations.
use n_backup.Prelude.{
  ℕ, zero, suc, ◌+◌, ◌-◌, ◌%◌, ◌^◌, Bool, false, not, ◌||◌, List, [], ◌++◌, length, none, some, ltb,
  leb, ◌==◌, if◌then◌else◌,
}
use n_backup.Assembler.Pending.{
  Pending, in_memory, on_disk, bytes_of, memory_of, PendingMap, lookup, delete, insert,
}

-- AssemblerModeEager, AssemblerModeLazy
pub data Mode : Type 0 where
  eager : Mode
  lazy : Mode

-- `out` is what has gone through outBuf to the output file and the hasher. The uint32 counters wrap;
-- the byte counters are int64 and never fall below 0.
pub record Assembler : Type 0 where
  pub mode : Mode
  pub out : List ℕ
  pub pending : PendingMap
  pub pending_mem_limit : ℕ
  pub next_expected_seq : ℕ
  pub pending_mem_bytes : ℕ
  pub pending_count : ℕ
  pub total_bytes : ℕ
  pub finalized : Bool
  pub lazy_max_seq : ℕ
  pub assembled_chunks : ℕ

abbrev pub max_chunk_length : ℕ
max_chunk_length = 33554432

abbrev pub default_pending_mem_limit : ℕ
default_pending_mem_limit = 8388608

-- NewChunkAssemblerWithOptions; in eager mode a limit of 0 is the default one.
unfoldable pub new_chunk_assembler : Mode → ℕ → Assembler
new_chunk_assembler mode limit = record {
  mode = mode;
  out = [];
  pending = [];
  pending_mem_limit = elim mode [
    | eager ↦ if limit == 0 then default_pending_mem_limit else limit
    | lazy ↦ limit
  ];
  next_expected_seq = 0;
  pending_mem_bytes = 0;
  pending_count = 0;
  total_bytes = 0;
  finalized = false;
  lazy_max_seq = 0;
  assembled_chunks = 0;
}

-- `nextExpectedSeq.Store(nextSeq + 1)` on a uint32.
abbrev pub next_seq : ℕ → ℕ
next_seq n = (n + 1) % 2 ^ 32

-- A chunk in its turn goes to the output.
unfoldable pub append_next : Assembler → List ℕ → Assembler
append_next ca payload = record ca {
  out = ca.out ++ payload;
  total_bytes = ca.total_bytes + length payload;
  next_expected_seq = next_seq ca.next_expected_seq;
}

-- One round of flushPending for the chunk that it found.
unfoldable pub flush_one : Assembler → Pending → Assembler
flush_one ca p =
    let written = append_next ca (bytes_of p) in
    record written {
      pending = delete ca.next_expected_seq ca.pending;
      pending_mem_bytes = ca.pending_mem_bytes - memory_of p;
      pending_count = ca.pending_count - 1;
    }

-- flushPending, with fuel for its rounds: each takes a pending chunk out.
unfoldable pub flush_loop : ℕ → Assembler → Assembler
flush_loop zero ca = ca
flush_loop (suc fuel) ca = elim (lookup ca.next_expected_seq ca.pending) [
  | some p ↦ flush_loop fuel (flush_one ca p)
  | none ↦ ca
]

unfoldable pub flush_pending : Assembler → Assembler
flush_pending ca = flush_loop (length ca.pending) ca

-- What `WriteChunk` has done when it gives up the mutex: it returns nil or an error, or it goes on
-- to write a temporary file and will come back.
pub data Entered : Type 0 where
  returned : Assembler → Entered
  failed : Assembler → Entered
  spilling : Assembler → Entered

-- The first half of saveOutOfOrder: a chunk that fits the memory limit is kept in memory.
unfoldable pub save_out_of_order : Assembler → ℕ → List ℕ → Entered
save_out_of_order ca global_seq payload =
    if leb (ca.pending_mem_bytes + length payload) ca.pending_mem_limit
    then returned (record ca {
      pending = insert global_seq (in_memory payload) ca.pending;
      pending_count = ca.pending_count + 1;
      pending_mem_bytes = ca.pending_mem_bytes + length payload;
    })
    else spilling ca

-- The second half, behind the write of the temporary file and with the mutex taken again: `written`
-- tells whether that write succeeded, `renamed` whether the rename to the final path does.
unfoldable pub commit_spill : Assembler → ℕ → List ℕ → Bool → Bool → Entered
commit_spill ca global_seq payload written renamed =
    if not written then failed ca else elim (lookup global_seq ca.pending) [
      | some p ↦ returned ca
      | none ↦
          if ltb global_seq ca.next_expected_seq
          then returned ca
          else if global_seq == ca.next_expected_seq
          then returned (flush_pending (append_next ca payload))
          else if not renamed
          then failed ca
          else returned (record ca {
            pending = insert global_seq (on_disk payload) ca.pending;
            pending_count = ca.pending_count + 1;
          })
    ]

-- writeChunkLazy; `disk` tells whether the staging file is written.
unfoldable pub write_chunk_lazy : Assembler → ℕ → List ℕ → Bool → Entered
write_chunk_lazy ca global_seq buf disk = elim (lookup global_seq ca.pending) [
  | some p ↦ returned ca
  | none ↦
      if not disk
      then failed ca
      else let pending = insert global_seq (on_disk buf) ca.pending in
        returned (record ca {
          pending = pending;
          lazy_max_seq =
              if (length pending == 1) || ltb ca.lazy_max_seq global_seq
              then global_seq
              else ca.lazy_max_seq;
          pending_count = ca.pending_count + 1;
          total_bytes = ca.total_bytes + length buf;
        })
]

-- WriteChunk on eager chunks, behind the check of the length.
unfoldable pub write_chunk_eager : Assembler → ℕ → List ℕ → Entered
write_chunk_eager ca global_seq buf =
    if global_seq == ca.next_expected_seq
    then returned (flush_pending (append_next ca buf))
    else if ltb global_seq ca.next_expected_seq
    then returned ca
    else save_out_of_order ca global_seq buf

-- WriteChunk up to its return or to the spill. `buf` is what io.ReadFull has read.
unfoldable pub write_chunk : Assembler → ℕ → List ℕ → Bool → Entered
write_chunk ca global_seq buf disk =
    if (length buf == 0) || ltb max_chunk_length (length buf) then failed ca else elim ca.mode [
      | lazy ↦ write_chunk_lazy ca global_seq buf disk
      | eager ↦ write_chunk_eager ca global_seq buf
    ]
