-- ===== src/Assembler/Memory.antt =====
-- The memory that chunks hold while they wait, over every order of the calls of `WriteChunk`.
use n_backup.Prelude.{
  ℕ, zero, suc, ◌+◌, ◌≤◌, ◌<◌, ◌≡◌, refl, arith, Bool, true, false, List, [], ◌∷◌, length, none,
  some, ◌==◌, leb, inl, inr, Option-cases, Bool-cases, if◌then◌else◌,
}
use n_backup.Assembler.Pending.{
  Pending, in_memory, on_disk, memory_sum, lookup, insert, delete_found, memory_sum-insert-le,
  length-insert-le,
}
use n_backup.Assembler.Defs.{
  eager, Assembler, append_next, flush_pending, flush_loop, flush_one, Entered, new_chunk_assembler,
  returned, failed, spilling, commit_spill, write_chunk_eager, write_chunk,
  default_pending_mem_limit,
}
use n_backup.Assembler.Branches.{
  eager_early, eager_turn, eager_fits, eager_spills, commit_unwritten, commit_waiting, commit_early,
  commit_turn, commit_renamed, commit_not_renamed, is_refused, write_chunk_refused,
  write_chunk_accepted,
}
use n_backup.Assembler.Stream.{flush_loop_stop, flush_loop_round}
use n_backup.Assembler.Calls.{compare_cases}
use n_backup.Assembler.System.{
  System, Event, enter, commit, contains, remove_one, leave, step, run, start,
}

-- `pendingMemBytes` covers what the map holds in memory and stays within the limit, `pendingCount`
-- covers the entries of the map.
pub record IsBounded (limit : ℕ) (ca : Assembler) : Type 0 where
  pub limit_kept : ca.pending_mem_limit ≡ limit
  pub is_eager : ca.mode ≡ eager
  pub held : memory_sum ca.pending ≤ ca.pending_mem_bytes
  pub capped : ca.pending_mem_bytes ≤ limit
  pub counted : length ca.pending ≤ ca.pending_count

-- What a call leaves is bounded.
unfoldable AllBounded : ℕ → Entered → Type 0
AllBounded limit (returned ca) = IsBounded limit ca
AllBounded limit (failed ca) = IsBounded limit ca
AllBounded limit (spilling ca) = IsBounded limit ca

module _ (limit : ℕ) where
  append_next-IsBounded :
      (ca : Assembler) (payload : List ℕ)
      → IsBounded limit ca
      → IsBounded limit (append_next ca payload)
  unfolding append_next
  append_next-IsBounded ca payload v = record {
    limit_kept = v.limit_kept;
    is_eager = v.is_eager;
    held = v.held;
    capped = v.capped;
    counted = v.counted;
  }

  flush_one-IsBounded :
      (ca : Assembler) (p : Pending)
      → lookup ca.next_expected_seq ca.pending ≡ some p
      → IsBounded limit ca
      → IsBounded limit (flush_one ca p)
  unfolding flush_one append_next
  flush_one-IsBounded ca p found v =
      let (shorter, freed) = delete_found ca.next_expected_seq p ca.pending found in
      record {
        limit_kept = v.limit_kept;
        is_eager = v.is_eager;
        held = omega (arith, v.held);
        capped = omega (arith, v.capped);
        counted = omega (arith, v.counted);
      }

  flush_loop-IsBounded :
      (fuel : ℕ) (ca : Assembler) → IsBounded limit ca → IsBounded limit (flush_loop fuel ca)
  flush_loop-IsBounded zero ca v = unfold flush_loop in v
  flush_loop-IsBounded (suc fuel) ca v =
      elim (Option-cases (lookup ca.next_expected_seq ca.pending)) [
        | inl stop ↦ rw (flush_loop_stop fuel ca stop) v
        | inr (p, found) ↦
            rw (flush_loop_round fuel ca p found)
              (flush_loop-IsBounded fuel (flush_one ca p) (flush_one-IsBounded ca p found v))
      ]

  in_turn :
      (ca : Assembler) (payload : List ℕ)
      → IsBounded limit ca
      → IsBounded limit (flush_pending (append_next ca payload))
  unfolding flush_pending
  in_turn ca payload v =
      flush_loop-IsBounded (length (append_next ca payload).pending) (append_next ca payload)
        (append_next-IsBounded ca payload v)

  write_chunk_eager-AllBounded :
      (ca : Assembler) (s : ℕ) (buf : List ℕ)
      → IsBounded limit ca
      → AllBounded limit (write_chunk_eager ca s buf)
  unfolding AllBounded
  write_chunk_eager-AllBounded ca s buf v = elim (compare_cases s ca.next_expected_seq) [
    | inl (inl before) ↦ rw (eager_early ca s buf before) v
    | inl (inr e) ↦ rw (eager_turn ca s buf e) (in_turn ca buf v)
    | inr later ↦ elim (Bool-cases (leb (ca.pending_mem_bytes + length buf) ca.pending_mem_limit)) [
      | inl fits ↦ rw (eager_fits ca s buf later fits) (keep fits)
      | inr big ↦ rw (eager_spills ca s buf later big) v
    ]
  ]
    where
      keep :
          leb (ca.pending_mem_bytes + length buf) ca.pending_mem_limit ≡ true
          → IsBounded limit (record ca {
            pending = insert s (in_memory buf) ca.pending;
            pending_count = ca.pending_count + 1;
            pending_mem_bytes = ca.pending_mem_bytes + length buf;
          })
      keep fits = record {
        limit_kept = v.limit_kept;
        is_eager = v.is_eager;
        held = omega (arith, v.held, memory_sum-insert-le s (in_memory buf) ca.pending);
        capped = ground (arith, v.limit_kept);
        counted = omega (arith, v.counted, length-insert-le s (in_memory buf) ca.pending);
      }

  commit_spill-AllBounded :
      (ca : Assembler) (s : ℕ) (buf : List ℕ) (written renamed : Bool)
      → IsBounded limit ca
      → AllBounded limit (commit_spill ca s buf written renamed)
  unfolding AllBounded
  commit_spill-AllBounded ca s buf false renamed v = rw (commit_unwritten ca s buf renamed) v
  commit_spill-AllBounded ca s buf true renamed v = elim (Option-cases (lookup s ca.pending)) [
    | inr (p, found) ↦ rw (commit_waiting ca s buf renamed p found) v
    | inl absent ↦ elim (compare_cases s ca.next_expected_seq) [
      | inl (inl before) ↦ rw (commit_early ca s buf renamed absent before) v
      | inl (inr e) ↦ rw (commit_turn ca s buf renamed absent e) (in_turn ca buf v)
      | inr later ↦ commit_later absent later renamed
    ]
  ]
    where
      commit_later :
          lookup s ca.pending ≡ none
          → ca.next_expected_seq < s
          → (renamed : Bool) → AllBounded limit (commit_spill ca s buf true renamed)
      commit_later e later true = rw (commit_renamed ca s buf e later) (record {
        limit_kept = v.limit_kept;
        is_eager = v.is_eager;
        held = omega (arith, v.held, memory_sum-insert-le s (on_disk buf) ca.pending);
        capped = v.capped;
        counted = omega (arith, v.counted, length-insert-le s (on_disk buf) ca.pending);
      })
      commit_later e later false = rw (commit_not_renamed ca s buf e later) v

  write_chunk-AllBounded :
      (ca : Assembler) (s : ℕ) (buf : List ℕ) (disk : Bool)
      → IsBounded limit ca
      → AllBounded limit (write_chunk ca s buf disk)
  write_chunk-AllBounded ca s buf disk v = elim (Bool-cases (is_refused buf)) [
    | inl bad ↦ rw (write_chunk_refused ca s buf disk bad) (unfold AllBounded in v)
    | inr good ↦
        rw (write_chunk_accepted ca s buf disk good v.is_eager)
          (write_chunk_eager-AllBounded ca s buf v)
  ]

  leave-IsBounded :
      (s : ℕ) (o : Entered) (sys : System)
      → AllBounded limit o
      → IsBounded limit (leave s o sys).assembler
  unfolding leave AllBounded
  leave-IsBounded s (returned ca) sys v = v
  leave-IsBounded s (failed ca) sys v = v
  leave-IsBounded s (spilling ca) sys v = v

  step-IsBounded :
      (c : ℕ → List ℕ) (e : Event) (sys : System)
      → IsBounded limit sys.assembler
      → IsBounded limit (step c e sys).assembler
  unfolding step
  step-IsBounded c (enter s disk) sys v =
      leave-IsBounded s (write_chunk sys.assembler s (c s) disk) sys
        (write_chunk-AllBounded sys.assembler s (c s) disk v)
  step-IsBounded c (commit s written renamed) sys v = elim (Bool-cases (contains s sys.writing)) [
    | inl busy ↦ rw busy (
        leave-IsBounded s (commit_spill sys.assembler s (c s) written renamed)
          (record sys { writing = remove_one s sys.writing })
          (commit_spill-AllBounded sys.assembler s (c s) written renamed v))
    | inr not_writing ↦ rw not_writing v
  ]

  run_from-IsBounded :
      (c : ℕ → List ℕ) (es : List Event) (sys : System)
      → IsBounded limit sys.assembler
      → IsBounded limit (run c es sys).assembler
  unfolding run
  run_from-IsBounded c [] sys v = v
  run_from-IsBounded c (e ∷ es) sys v =
      run_from-IsBounded c es (step c e sys) (step-IsBounded c e sys v)

start-IsBounded :
    (limit : ℕ)
    → IsBounded
        (if limit == 0 then default_pending_mem_limit else limit)
        (start eager limit).assembler
unfolding start new_chunk_assembler memory_sum
start-IsBounded limit = record {
  limit_kept = refl;
  is_eager = refl;
  held = omega arith;
  capped = omega arith;
  counted = omega arith;
}

-- In eager mode, over every run of the calls, on any chunks and with any failures: the bytes that wait in memory are
-- at most `pending_mem_bytes`, which stays within the limit, and the entries of the map are at most
-- `pending_count`.
pub run-IsBounded :
    (limit : ℕ) (c : ℕ → List ℕ) (es : List Event)
    → let ca = (run c es (start eager limit)).assembler in
      let bound = if limit == 0 then default_pending_mem_limit else limit in
      (memory_sum ca.pending ≤ ca.pending_mem_bytes)
      × (ca.pending_mem_bytes ≤ bound)
      × (length ca.pending ≤ ca.pending_count)
run-IsBounded limit c es =
    let v =
      run_from-IsBounded (if limit == 0 then default_pending_mem_limit else limit) c es
        (start eager limit) (start-IsBounded limit) in
    (v.held, v.capped, v.counted)
