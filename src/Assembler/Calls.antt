-- ===== src/Assembler/Calls.antt =====
-- What a call of `WriteChunk` does to an assembler of eager mode, in its first half and in the one
-- behind a temporary file.
use n_backup.Prelude.{
  ℕ, suc, zero, ap, ◌∙◌, ◌+◌, ◌^◌, ◌<◌, ◌≡◌, refl, arith, Bool, true, false, List, length, none,
  some, ◌==◌, leb, ◌⊎◌, inl, inr, Option-cases, Bool-cases,
}
use n_backup.Assembler.Pending.{
  Pending, in_memory, on_disk, bytes_of, lookup, insert, lookup-insert,
}
use n_backup.Assembler.Defs.{
  eager, Assembler, append_next, flush_pending, flush_loop, flush_one, next_seq, Entered, returned,
  failed, spilling, commit_spill, write_chunk_eager, write_chunk,
}
use n_backup.Assembler.Branches.{
  eager_early, eager_turn, eager_fits, eager_spills, commit_unwritten, commit_waiting, commit_early,
  commit_turn, commit_renamed, commit_not_renamed, is_refused, write_chunk_refused,
  write_chunk_accepted,
}
use n_backup.Assembler.Stream.{
  IsStream, IsSettled, Has, append_next-IsStream, flush_loop_stop, flush_loop_round,
  flush_pending-IsStream, flush_pending-Has,
}

pub record IsEager (c : ℕ → List ℕ) (n : ℕ) (ca : Assembler) : Type 0 where
  pub stream : IsStream c n ca
  pub settled : IsSettled ca
  pub is_eager : ca.mode ≡ eager

-- A call that returns nil leaves a good assembler that has its chunk and every chunk it had; one that
-- fails, or goes to write a file, changes nothing.
unfoldable pub Outcome : (ℕ → List ℕ) → ℕ → Assembler → ℕ → Entered → Type 0
Outcome c n ca s (returned ca') = IsEager c n ca' × Has ca' s × ((t : ℕ) → Has ca t → Has ca' t)
Outcome c n ca s (failed ca') = ca' ≡ ca
Outcome c n ca s (spilling ca') = ca' ≡ ca

flush_loop-mode : (fuel : ℕ) (ca : Assembler) → (flush_loop fuel ca).mode ≡ ca.mode
flush_loop-mode zero ca = unfold flush_loop in refl
flush_loop-mode (suc fuel) ca = elim (Option-cases (lookup ca.next_expected_seq ca.pending)) [
  | inl stop ↦ ap (λ a. a.mode) (flush_loop_stop fuel ca stop)
  | inr (p, found) ↦
      ap (λ a. a.mode) (flush_loop_round fuel ca p found)
      ∙ (flush_loop-mode fuel (flush_one ca p) ∙ (unfold flush_one append_next in refl))
]

flush_pending-mode : (ca : Assembler) → (flush_pending ca).mode ≡ ca.mode
unfolding flush_pending
flush_pending-mode ca = flush_loop-mode (length ca.pending) ca

append_next-mode : (ca : Assembler) (payload : List ℕ) → (append_next ca payload).mode ≡ ca.mode
unfolding append_next
append_next-mode ca payload = refl

pub compare_cases : (a b : ℕ) → ((a < b) ⊎ (a ≡ b)) ⊎ (b < a)
compare_cases a b = ground arith

module _ (c : ℕ → List ℕ) (n : ℕ) (small : n < 2 ^ 32) where
  append_next-Has :
      (ca : Assembler) (payload : List ℕ) (t : ℕ)
      → ca.next_expected_seq < n
      → Has ca t ⊎ (t ≡ ca.next_expected_seq)
      → Has (append_next ca payload) t
  unfolding append_next
  append_next-Has ca payload t lt h =
      let next : next_seq ca.next_expected_seq ≡ suc ca.next_expected_seq = omega arith in
      rw next (elim h [
        | inl (inl before) ↦ inl (omega arith)
        | inl (inr waits) ↦ inr waits
        | inr e ↦ inl (omega arith)
      ])

  -- The chunk in its turn.
  in_turn :
      (ca : Assembler) (s : ℕ)
      → IsEager c n ca
      → s < n
      → s ≡ ca.next_expected_seq
      → Outcome c n ca s (returned (flush_pending (append_next ca (c s))))
  unfolding Outcome
  in_turn ca s v lt e =
      let next_lt : ca.next_expected_seq < n = omega arith in
      let appended = append_next ca (c s) in
      let after : IsStream c n appended =
        append_next-IsStream c n small ca (c s) v.stream v.settled next_lt (ap c e) in
      let (stream, settled) = flush_pending-IsStream c n small appended after in
      (
        record {
          stream = stream;
          settled = settled;
          is_eager = flush_pending-mode appended ∙ (append_next-mode ca (c s) ∙ v.is_eager);
        },
        flush_pending-Has c n small appended s after (append_next-Has ca (c s) s next_lt (inr e)),
        λ t h.
            flush_pending-Has c n small appended t after
              (append_next-Has ca (c s) t next_lt (inl h)),
      )

  -- A later chunk that is kept.
  keep :
      (ca : Assembler) (s : ℕ) (p : Pending) (count mem : ℕ)
      → IsEager c n ca
      → s < n
      → ca.next_expected_seq < s
      → bytes_of p ≡ c s
      → Outcome c n ca s (
          returned (record ca {
            pending = insert s p ca.pending;
            pending_count = count;
            pending_mem_bytes = mem;
          }))
  unfolding Outcome
  keep ca s p count mem v lt later e = (
    record {
      stream = record {
        written = v.stream.written;
        counted = v.stream.counted;
        below = v.stream.below;
        waiting = λ t q found. ground (arith, lookup-insert s t p ca.pending, v.stream.waiting t q);
      };
      settled = ground (arith, lookup-insert s ca.next_expected_seq p ca.pending, v.settled);
      is_eager = v.is_eager;
    },
    inr (p, ground (arith, lookup-insert s s p ca.pending)),
    λ t h. kept t h (s == t) refl,
  )
    where
      kept :
          (t : ℕ)
          → Has ca t
          → (b : Bool) → (s == t) ≡ b
          → (t < ca.next_expected_seq)
            ⊎ ((q : Pending) × (lookup t (insert s p ca.pending) ≡ some q))
      kept t (inl lt) b e = inl lt
      kept t (inr (q, found)) true e = inr (p, lookup-insert s t p ca.pending ∙ rw e refl)
      kept t (inr (q, found)) false e = inr (q, lookup-insert s t p ca.pending ∙ rw e found)

  -- Behind the check of the length.
  write_chunk_eager-Outcome :
      (ca : Assembler) (s : ℕ)
      → IsEager c n ca
      → s < n
      → Outcome c n ca s (write_chunk_eager ca s (c s))
  write_chunk_eager-Outcome ca s v lt = elim (compare_cases s ca.next_expected_seq) [
    | inl (inl before) ↦
        rw (eager_early ca s (c s) before) (unfold Outcome in (v, inl before, λ t h. h))
    | inl (inr e) ↦ rw (eager_turn ca s (c s) e) (in_turn ca s v lt e)
    | inr later ↦
        elim (Bool-cases (leb (ca.pending_mem_bytes + length (c s)) ca.pending_mem_limit)) [
          | inl fits ↦ rw (eager_fits ca s (c s) later fits) (
              keep ca s (in_memory (c s)) (ca.pending_count + 1)
                (ca.pending_mem_bytes + length (c s)) v lt later refl)
          | inr big ↦ rw (eager_spills ca s (c s) later big) (unfold Outcome in refl)
        ]
  ]

  -- Behind the temporary file.
  pub commit_spill-Outcome :
      (ca : Assembler) (s : ℕ) (written renamed : Bool)
      → IsEager c n ca
      → s < n
      → Outcome c n ca s (commit_spill ca s (c s) written renamed)
  commit_spill-Outcome ca s false renamed v lt =
      rw (commit_unwritten ca s (c s) renamed) (unfold Outcome in refl)
  commit_spill-Outcome ca s true renamed v lt = elim (Option-cases (lookup s ca.pending)) [
    | inr (p, found) ↦
        rw (commit_waiting ca s (c s) renamed p found)
          (unfold Outcome in (v, inr (p, found), λ t h. h))
    | inl absent ↦ elim (compare_cases s ca.next_expected_seq) [
      | inl (inl before) ↦
          rw (commit_early ca s (c s) renamed absent before)
            (unfold Outcome in (v, inl before, λ t h. h))
      | inl (inr e) ↦ rw (commit_turn ca s (c s) renamed absent e) (in_turn ca s v lt e)
      | inr later ↦ commit_later absent later renamed
    ]
  ]
    where
      commit_later :
          lookup s ca.pending ≡ none
          → ca.next_expected_seq < s
          → (renamed : Bool) → Outcome c n ca s (commit_spill ca s (c s) true renamed)
      commit_later e later true =
          rw (commit_renamed ca s (c s) e later)
            (keep ca s (on_disk (c s)) (ca.pending_count + 1) ca.pending_mem_bytes v lt later refl)
      commit_later e later false =
          rw (commit_not_renamed ca s (c s) e later) (unfold Outcome in refl)

  -- WriteChunk in eager mode.
  pub write_chunk-Outcome :
      (ca : Assembler) (s : ℕ) (disk : Bool)
      → IsEager c n ca
      → s < n
      → Outcome c n ca s (write_chunk ca s (c s) disk)
  write_chunk-Outcome ca s disk v lt = elim (Bool-cases (is_refused (c s))) [
    | inl bad ↦ rw (write_chunk_refused ca s (c s) disk bad) (unfold Outcome in refl)
    | inr good ↦
        rw (write_chunk_accepted ca s (c s) disk good v.is_eager)
          (write_chunk_eager-Outcome ca s v lt)
  ]
