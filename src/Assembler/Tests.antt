-- ===== src/Assembler/Tests.antt =====
-- Runs of the assembler on small streams, and the theorems at them.
use n_backup.Prelude.{ℕ, ◌≡◌, ◌<◌, ◌≤◌, refl, arith, true, false, List, [], ◌∷◌, none, some, length}
use n_backup.Assembler.Pending.{in_memory, memory_sum, lookup, insert, delete}
use n_backup.Assembler.Defs.{
  eager, lazy, Assembler, new_chunk_assembler, returned, write_chunk, write_chunk_eager,
  write_chunk_lazy, append_next, flush_pending, flush_loop, flush_one, save_out_of_order,
  commit_spill,
}
use n_backup.Assembler.System.{Event, enter, commit, run, start, step, leave, contains, remove_one}
use n_backup.Assembler.Stream.{chunks}
use n_backup.Assembler.Whole.{run_complete}
use n_backup.Assembler.Memory.{run-IsBounded}
use n_backup.Assembler.Again.{write_chunk_repeated}
use n_backup.Assembler.Finish.{
  finalize, finalize_lazy, assemble_loop, assemble_one, output, missing_of,
}
use n_backup.Assembler.Lazily.{run-finalize_lazy, run-finalize_gap}

-- Three chunks of two bytes.
abbrev stream : ℕ → List ℕ
stream s = s ∷ 7 ∷ []

-- Chunk 1 waits in memory, chunk 2 is spilled, chunk 0 comes, and the file of chunk 2 is done.
abbrev spilling_run : List Event
spilling_run = enter 1 true ∷ enter 2 true ∷ enter 0 true ∷ commit 2 true true ∷ []

spilling_run_lem :
    (run stream spilling_run (start eager 3)).assembler.out ≡ 0 ∷ 7 ∷ 1 ∷ 7 ∷ 2 ∷ 7 ∷ []
unfolding run start step leave contains remove_one new_chunk_assembler write_chunk write_chunk_eager
    append_next flush_pending flush_loop flush_one save_out_of_order commit_spill lookup insert
    delete
spilling_run_lem = refl

three_stored : (s : ℕ) → s < 3 → contains s (run stream spilling_run (start eager 3)).stored ≡ true
unfolding run start step leave contains remove_one new_chunk_assembler write_chunk write_chunk_eager
    append_next flush_pending flush_loop flush_one save_out_of_order commit_spill lookup insert
    delete
three_stored s lt = ground arith

run_complete_example :
    let ca = (run stream spilling_run (start eager 3)).assembler in
    (ca.next_expected_seq ≡ 3) × (ca.out ≡ chunks stream 3) × ((s : ℕ) → lookup s ca.pending ≡ none)
run_complete_example =
    run_complete stream 3 (omega arith) 3 spilling_run
      (omega arith, (omega arith, (omega arith, (omega arith, tt)))) three_stored

run-IsBounded_example :
    let ca = (run stream spilling_run (start eager 3)).assembler in
    (memory_sum ca.pending ≤ ca.pending_mem_bytes)
    × (ca.pending_mem_bytes ≤ 3)
    × (length ca.pending ≤ ca.pending_count)
run-IsBounded_example = run-IsBounded 3 stream spilling_run

-- An assembler in which chunk 2 waits in memory.
abbrev waiting : Assembler
waiting = record {
  mode = eager;
  out = 0 ∷ 7 ∷ [];
  pending = (2, in_memory (2 ∷ 7 ∷ [])) ∷ [];
  pending_mem_limit = 8;
  next_expected_seq = 1;
  pending_mem_bytes = 2;
  pending_count = 1;
  total_bytes = 2;
  finalized = false;
  lazy_max_seq = 0;
  assembled_chunks = 0;
}

waiting_lookup : lookup 2 waiting.pending ≡ some (in_memory (2 ∷ 7 ∷ []))
unfolding lookup
waiting_lookup = refl

write_chunk_repeated_example :
    (ca' : Assembler) × (write_chunk waiting 2 (2 ∷ 7 ∷ []) true ≡ returned ca')
    × ((k : ℕ) → lookup k ca'.pending ≡ lookup k waiting.pending)
    × (ca'.pending_count ≡ 2)
    × (ca'.pending_mem_bytes ≡ 4)
write_chunk_repeated_example =
    write_chunk_repeated waiting 2 (2 ∷ 7 ∷ []) true refl refl (omega arith) waiting_lookup refl

-- Lazy mode: chunk 2 comes first, chunk 1 fails once, and chunk 0 comes twice.
abbrev lazy_run : List Event
lazy_run = enter 2 true ∷ enter 1 false ∷ enter 0 true ∷ enter 0 true ∷ enter 1 true ∷ []

lazy_run_lem :
    output (finalize (run stream lazy_run (start lazy 0)).assembler)
    ≡ some (0 ∷ 7 ∷ 1 ∷ 7 ∷ 2 ∷ 7 ∷ [])
unfolding run start step leave contains new_chunk_assembler write_chunk write_chunk_lazy lookup
    insert delete finalize finalize_lazy assemble_loop assemble_one
lazy_run_lem = refl

lazily_stored : (s : ℕ) → s < 3 → contains s (run stream lazy_run (start lazy 0)).stored ≡ true
unfolding run start step leave contains new_chunk_assembler write_chunk write_chunk_lazy lookup
    insert delete
lazily_stored s lt = ground arith

run-finalize_lazy_example :
    output (finalize (run stream lazy_run (start lazy 0)).assembler) ≡ some (chunks stream 3)
run-finalize_lazy_example =
    run-finalize_lazy stream 3 (omega arith) 0 lazy_run
      (omega arith, (omega arith, (omega arith, (omega arith, (omega arith, tt))))) (omega arith)
      lazily_stored

abbrev gap_run : List Event
gap_run = enter 2 true ∷ enter 1 false ∷ enter 0 true ∷ []

gap_before : (s : ℕ) → s < 1 → contains s (run stream gap_run (start lazy 0)).stored ≡ true
unfolding run start step leave contains new_chunk_assembler write_chunk write_chunk_lazy lookup
    insert delete
gap_before s lt = ground arith

gap_absent : lookup 1 (run stream gap_run (start lazy 0)).assembler.pending ≡ none
unfolding run start step leave contains new_chunk_assembler write_chunk write_chunk_lazy lookup
    insert delete
gap_absent = refl

gap_behind : contains 2 (run stream gap_run (start lazy 0)).stored ≡ true
unfolding run start step leave contains new_chunk_assembler write_chunk write_chunk_lazy lookup
    insert delete
gap_behind = refl

run-finalize_gap_example :
    missing_of (finalize (run stream gap_run (start lazy 0)).assembler) ≡ some 1
run-finalize_gap_example =
    run-finalize_gap stream 3 (omega arith) 0 gap_run 1 2
      (omega arith, (omega arith, (omega arith, tt))) gap_before gap_absent (omega arith) gap_behind
