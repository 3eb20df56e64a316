-- ===== src/Assembler/Stream.antt =====
-- The invariant of eager assembly: what is written is the stream's chunks 0, 1, 2, … in order, and
-- what waits are later chunks of that stream.
use n_backup.Prelude.{
  ℕ, zero, suc, ◌^◌, ◌≤◌, ◌<◌, ◌≡◌, refl, arith, ◌-◌, Bool, true, false, List, [], ◌++◌, length,
  none, some, length-append, ◌==◌, ◌⊎◌, inl, inr, Option-cases, if◌then◌else◌,
}
use n_backup.Assembler.Pending.{
  Pending, PendingMap, lookup_empty, bytes_of, memory_of, lookup, delete, lookup-delete,
  delete_found,
}
use n_backup.Assembler.Defs.{Assembler, append_next, flush_one, flush_loop, flush_pending, next_seq}

-- The first `n` chunks of a stream, one after the other.
abbrev pub chunks : (ℕ → List ℕ) → ℕ → List ℕ
chunks c zero = []
chunks c (suc n) = chunks c n ++ c n

-- `c` is the stream by chunks, `n` the number of its chunks.
pub record IsStream (c : ℕ → List ℕ) (n : ℕ) (ca : Assembler) : Type 0 where
  pub written : ca.out ≡ chunks c ca.next_expected_seq
  pub counted : ca.total_bytes ≡ length ca.out
  pub below : ca.next_expected_seq ≤ n
  pub waiting :
      (s : ℕ) (p : Pending)
      → lookup s ca.pending ≡ some p
      → (bytes_of p ≡ c s) × (ca.next_expected_seq ≤ s) × (s < n)

-- No chunk that could be written waits.
abbrev pub IsSettled : Assembler → Type 0
IsSettled ca = lookup ca.next_expected_seq ca.pending ≡ none

-- A chunk is written or waits.
abbrev pub Has : Assembler → ℕ → Type 0
Has ca s = (s < ca.next_expected_seq) ⊎ ((p : Pending) × (lookup s ca.pending ≡ some p))

-- The rounds of flushPending.
pub flush_loop_stop : (fuel : ℕ) (ca : Assembler) → IsSettled ca → flush_loop (suc fuel) ca ≡ ca
unfolding flush_loop
flush_loop_stop fuel ca stop = ground arith

pub flush_loop_round :
    (fuel : ℕ) (ca : Assembler) (p : Pending)
    → lookup ca.next_expected_seq ca.pending ≡ some p
    → flush_loop (suc fuel) ca ≡ flush_loop fuel (flush_one ca p)
unfolding flush_loop
flush_loop_round fuel ca p found = ground arith

module _ (c : ℕ → List ℕ) (n : ℕ) (small : n < 2 ^ 32) where
  -- The next chunk goes to the output, and out of the map where it was waiting.
  append_chunk :
      (ca : Assembler) (payload : List ℕ) (pending : PendingMap) (mem count : ℕ)
      → IsStream c n ca
      → ca.next_expected_seq < n
      → payload ≡ c ca.next_expected_seq
      → ((s : ℕ)
          → lookup s pending ≡ (if ca.next_expected_seq == s then none else lookup s ca.pending))
      → IsStream c n (record (append_next ca payload) {
        pending = pending;
        pending_mem_bytes = mem;
        pending_count = count;
      })
  unfolding append_next
  append_chunk ca payload pending mem count v lt e h =
      let next : next_seq ca.next_expected_seq ≡ suc ca.next_expected_seq = omega arith in
      rw next (record {
        written = cc (v.written, e);
        counted = omega (arith, v.counted, length-append ca.out payload);
        below = lt;
        waiting = λ s p found. ground (arith, h s, v.waiting s p);
      })

  pub append_next-IsStream :
      (ca : Assembler) (payload : List ℕ)
      → IsStream c n ca
      → IsSettled ca
      → ca.next_expected_seq < n
      → payload ≡ c ca.next_expected_seq
      → IsStream c n (append_next ca payload)
  unfolding append_next
  append_next-IsStream ca payload v settled lt e =
      append_chunk ca payload ca.pending ca.pending_mem_bytes ca.pending_count v lt e
        (λ s. still s (ca.next_expected_seq == s) refl)
    where
      still :
          (s : ℕ) (b : Bool)
          → (ca.next_expected_seq == s) ≡ b
          → lookup s ca.pending ≡ (if b then none else lookup s ca.pending)
      still s true e = let same : ca.next_expected_seq ≡ s = ground arith in rw (← same) settled
      still s false e = refl

  flush_one-IsStream :
      (ca : Assembler) (p : Pending)
      → IsStream c n ca
      → lookup ca.next_expected_seq ca.pending ≡ some p
      → IsStream c n (flush_one ca p)
  unfolding flush_one
  flush_one-IsStream ca p v found =
      let (bytes, le, lt) = v.waiting ca.next_expected_seq p found in
      append_chunk ca (bytes_of p) (delete ca.next_expected_seq ca.pending)
        (ca.pending_mem_bytes - memory_of p) (ca.pending_count - 1) v lt bytes
        (λ s. lookup-delete ca.next_expected_seq s ca.pending)

  -- flushPending keeps the stream, and ends with nothing that it could still write.
  flush_loop-IsStream :
      (fuel : ℕ) (ca : Assembler)
      → IsStream c n ca
      → length ca.pending ≤ fuel
      → IsStream c n (flush_loop fuel ca) × IsSettled (flush_loop fuel ca)
  flush_loop-IsStream zero ca v h =
      unfold flush_loop in (v, lookup_empty ca.pending (omega arith) ca.next_expected_seq)
  flush_loop-IsStream (suc fuel) ca v h =
      elim (Option-cases (lookup ca.next_expected_seq ca.pending)) [
        | inl stop ↦ rw (flush_loop_stop fuel ca stop) (v, stop)
        | inr (p, found) ↦ rw (flush_loop_round fuel ca p found) (
            flush_loop-IsStream fuel (flush_one ca p) (flush_one-IsStream ca p v found) (
              unfold flush_one in
              omega (arith, (delete_found ca.next_expected_seq p ca.pending found).0)))
      ]

  pub flush_pending-IsStream :
      (ca : Assembler)
      → IsStream c n ca
      → IsStream c n (flush_pending ca) × IsSettled (flush_pending ca)
  unfolding flush_pending
  flush_pending-IsStream ca v = flush_loop-IsStream (length ca.pending) ca v (omega arith)

  -- Flushing loses no chunk.
  flush_one-Has :
      (ca : Assembler) (p : Pending) (s : ℕ)
      → Has ca s
      → ca.next_expected_seq < n
      → Has (flush_one ca p) s
  unfolding flush_one append_next
  flush_one-Has ca p s h lt =
      let next : next_seq ca.next_expected_seq ≡ suc ca.next_expected_seq = omega arith in
      rw (next, lookup-delete ca.next_expected_seq s ca.pending)
        (kept (ca.next_expected_seq == s) refl h)
    where
      kept :
          (b : Bool)
          → (ca.next_expected_seq == s) ≡ b
          → Has ca s
          → (s < suc ca.next_expected_seq)
            ⊎ ((q : Pending) × ((if b then none else lookup s ca.pending) ≡ some q))
      kept true e h = inl (ground arith)
      kept false e (inl lt) = inl (omega arith)
      kept false e (inr h) = inr h

  flush_loop-Has :
      (fuel : ℕ) (ca : Assembler) (s : ℕ) → IsStream c n ca → Has ca s → Has (flush_loop fuel ca) s
  flush_loop-Has zero ca s v h = unfold flush_loop in h
  flush_loop-Has (suc fuel) ca s v h =
      elim (Option-cases (lookup ca.next_expected_seq ca.pending)) [
        | inl stop ↦ rw (flush_loop_stop fuel ca stop) h
        | inr (p, found) ↦ rw (flush_loop_round fuel ca p found) (
            flush_loop-Has fuel (flush_one ca p) s (flush_one-IsStream ca p v found)
              (flush_one-Has ca p s h (v.waiting _ p found).2))
      ]

  pub flush_pending-Has :
      (ca : Assembler) (s : ℕ) → IsStream c n ca → Has ca s → Has (flush_pending ca) s
  unfolding flush_pending
  flush_pending-Has ca s v h = flush_loop-Has (length ca.pending) ca s v h
