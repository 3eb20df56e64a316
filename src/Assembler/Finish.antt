-- ===== src/Assembler/Finish.antt =====
-- `Finalize` and `Cleanup`.
use n_backup.Prelude.{
  ℕ, zero, suc, ◌+◌, ◌-◌, true, List, [], ◌++◌, length, Option, none, some, leb, ◌==◌,
  if◌then◌else◌,
}
use n_backup.Assembler.Pending.{Pending, bytes_of, lookup, delete}
use n_backup.Assembler.Defs.{eager, lazy, Assembler, next_seq}

-- What the assembly of lazy mode comes to. It stops without an answer only when its fuel is gone.
pub data Assembly : Type 0 where
  assembled : Assembler → Assembly
  missing : ℕ → Assembler → Assembly
  no_fuel : Assembler → Assembly

-- One round of finalizeLazy: the staged chunk is copied to the output, and its file removed. A staged
-- file that was written is read back whole.
unfoldable pub assemble_one : Assembler → ℕ → Pending → Assembler
assemble_one ca seq p = record ca {
  out = ca.out ++ bytes_of p;
  pending = delete seq ca.pending;
  pending_count = ca.pending_count - 1;
  assembled_chunks = ca.assembled_chunks + 1;
}

-- The loop of finalizeLazy from `seq` on.
unfoldable pub assemble_loop : ℕ → ℕ → Assembler → Assembly
assemble_loop zero seq ca = no_fuel ca
assemble_loop (suc fuel) seq ca =
    if leb seq ca.lazy_max_seq
    then elim (lookup seq ca.pending) [
      | some p ↦ assemble_loop fuel (next_seq seq) (assemble_one ca seq p)
      | none ↦ missing seq ca
    ]
    else assembled ca

-- finalizeLazy: each round but the last takes a chunk out of the map.
unfoldable pub finalize_lazy : Assembler → Assembly
finalize_lazy ca =
    if length ca.pending == 0 then assembled ca else assemble_loop (length ca.pending + 1) 0 ca

-- Finalize: what is written is the file; chunks that still wait in eager mode are only logged.
unfoldable pub finalize : Assembler → Assembly
finalize ca = elim ca.mode [
  | eager ↦ assembled (record ca { finalized = true })
  | lazy ↦ elim (finalize_lazy ca) [
    | assembled done ↦ assembled (record done { finalized = true })
    | missing seq left ↦ missing seq left
    | no_fuel left ↦ no_fuel left
  ]
]

-- What a Finalize that returns nil has written, and the chunk that one which fails names.
abbrev pub output : Assembly → Option (List ℕ)
output (assembled ca) = some ca.out
output (missing seq ca) = none
output (no_fuel ca) = none

abbrev pub missing_of : Assembly → Option ℕ
missing_of (assembled ca) = none
missing_of (missing seq ca) = some seq
missing_of (no_fuel ca) = none

-- Cleanup, of the state it leaves: without Finalize the output is removed too.
unfoldable pub cleanup : Assembler → Assembler
cleanup ca = record ca {
  out = if ca.finalized then ca.out else [];
  pending = [];
  pending_count = 0;
  pending_mem_bytes = 0;
}
