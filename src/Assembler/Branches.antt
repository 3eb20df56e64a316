-- ===== src/Assembler/Branches.antt =====
-- The branches of `WriteChunk` and of the commit of a spill, one equation each.
use n_backup.Prelude.{
  ℕ, ◌+◌, ◌<◌, ◌≡◌, refl, arith, Bool, true, false, List, length, none, some, ◌==◌, ltb, leb, ◌||◌,
}
use n_backup.Assembler.Pending.{Pending, in_memory, on_disk, lookup, insert}
use n_backup.Assembler.Defs.{
  eager, Assembler, append_next, flush_pending, max_chunk_length, Entered, returned, failed,
  spilling, save_out_of_order, commit_spill, write_chunk_eager, write_chunk,
}

-- What a chunk that comes in its turn leaves.
abbrev pub written_next : Assembler → List ℕ → Entered
written_next ca buf = returned (flush_pending (append_next ca buf))

abbrev pub kept_in_memory : Assembler → ℕ → List ℕ → Entered
kept_in_memory ca s buf = returned (record ca {
  pending = insert s (in_memory buf) ca.pending;
  pending_count = ca.pending_count + 1;
  pending_mem_bytes = ca.pending_mem_bytes + length buf;
})

abbrev pub kept_on_disk : Assembler → ℕ → List ℕ → Entered
kept_on_disk ca s buf = returned (record ca {
  pending = insert s (on_disk buf) ca.pending;
  pending_count = ca.pending_count + 1;
  pending_mem_bytes = ca.pending_mem_bytes;
})

-- Whether the length of a chunk is refused.
abbrev pub is_refused : List ℕ → Bool
is_refused buf = (length buf == 0) || ltb max_chunk_length (length buf)

module _ (ca : Assembler) (s : ℕ) (buf : List ℕ) where
  pub eager_early : s < ca.next_expected_seq → write_chunk_eager ca s buf ≡ returned ca
  unfolding write_chunk_eager
  eager_early h = ground arith

  pub eager_turn : s ≡ ca.next_expected_seq → write_chunk_eager ca s buf ≡ written_next ca buf
  unfolding write_chunk_eager
  eager_turn h = ground arith

  pub eager_fits :
      ca.next_expected_seq < s
      → leb (ca.pending_mem_bytes + length buf) ca.pending_mem_limit ≡ true
      → write_chunk_eager ca s buf ≡ kept_in_memory ca s buf
  unfolding write_chunk_eager save_out_of_order
  eager_fits h e = ground arith

  pub eager_spills :
      ca.next_expected_seq < s
      → leb (ca.pending_mem_bytes + length buf) ca.pending_mem_limit ≡ false
      → write_chunk_eager ca s buf ≡ spilling ca
  unfolding write_chunk_eager save_out_of_order
  eager_spills h e = ground arith

  pub commit_unwritten : (renamed : Bool) → commit_spill ca s buf false renamed ≡ failed ca
  unfolding commit_spill
  commit_unwritten renamed = refl

  pub commit_waiting :
      (renamed : Bool) (p : Pending)
      → lookup s ca.pending ≡ some p
      → commit_spill ca s buf true renamed ≡ returned ca
  unfolding commit_spill
  commit_waiting renamed p e = ground arith

  pub commit_early :
      (renamed : Bool)
      → lookup s ca.pending ≡ none
      → s < ca.next_expected_seq
      → commit_spill ca s buf true renamed ≡ returned ca
  unfolding commit_spill
  commit_early renamed e h = ground arith

  pub commit_turn :
      (renamed : Bool)
      → lookup s ca.pending ≡ none
      → s ≡ ca.next_expected_seq
      → commit_spill ca s buf true renamed ≡ written_next ca buf
  unfolding commit_spill
  commit_turn renamed e h = ground arith

  pub commit_renamed :
      lookup s ca.pending ≡ none
      → ca.next_expected_seq < s
      → commit_spill ca s buf true true ≡ kept_on_disk ca s buf
  unfolding commit_spill
  commit_renamed e h = ground arith

  pub commit_not_renamed :
      lookup s ca.pending ≡ none
      → ca.next_expected_seq < s
      → commit_spill ca s buf true false ≡ failed ca
  unfolding commit_spill
  commit_not_renamed e h = ground arith

  pub write_chunk_refused :
      (disk : Bool) → is_refused buf ≡ true → write_chunk ca s buf disk ≡ failed ca
  unfolding write_chunk
  write_chunk_refused disk e = rw e refl

  pub write_chunk_accepted :
      (disk : Bool)
      → is_refused buf ≡ false
      → ca.mode ≡ eager
      → write_chunk ca s buf disk ≡ write_chunk_eager ca s buf
  unfolding write_chunk
  write_chunk_accepted disk e m = ground arith
