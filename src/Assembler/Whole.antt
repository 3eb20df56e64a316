-- ===== src/Assembler/Whole.antt =====
-- What the assembled file holds, over every order in which the calls of `WriteChunk` run.
use n_backup.Prelude.{
  ℕ, ◌^◌, ◌<◌, ◌≡◌, refl, ap, ◌∙◌, arith, Bool, true, false, List, [], ◌∷◌, none, ◌==◌, inl, inr,
  All, Bool-cases, Option-cases,
}
use n_backup.Assembler.Pending.{lookup}
use n_backup.Assembler.Defs.{
  eager, Entered, returned, failed, spilling, new_chunk_assembler, commit_spill, write_chunk,
}
use n_backup.Assembler.Stream.{Has, chunks}
use n_backup.Assembler.System.{
  System, Event, enter, commit, seq_of, contains, remove_one, leave, step, run, start,
}
use n_backup.Assembler.Calls.{
  IsEager, compare_cases, Outcome, write_chunk-Outcome, commit_spill-Outcome,
}

-- The assembler is good, and has every chunk whose call returned nil.
pub record IsWhole (c : ℕ → List ℕ) (n : ℕ) (sys : System) : Type 0 where
  pub good : IsEager c n sys.assembler
  pub kept : (s : ℕ) → contains s sys.stored ≡ true → Has sys.assembler s

module _ (c : ℕ → List ℕ) (n : ℕ) (small : n < 2 ^ 32) where
  leave-IsWhole :
      (sys : System) (s : ℕ) (o : Entered)
      → IsWhole c n sys
      → Outcome c n sys.assembler s o
      → IsWhole c n (leave s o sys)
  unfolding leave Outcome contains
  leave-IsWhole sys s (returned ca) w (good, has, keeps) = record {
    good = good;
    kept = λ t m. stored t m (s == t) refl;
  }
    where
      stored : (t : ℕ) → contains t (s ∷ sys.stored) ≡ true → (b : Bool) → (s == t) ≡ b → Has ca t
      stored t m true e = let same : s ≡ t = ground arith in rw (← same) has
      stored t m false e = keeps t (w.kept t (ground arith))
  leave-IsWhole sys s (failed ca) w e = same_assembler e
    where
      same_assembler : ca ≡ sys.assembler → IsWhole c n (record sys { assembler = ca })
      same_assembler e = rw e (record { good = w.good; kept = w.kept })
  leave-IsWhole sys s (spilling ca) w e = same_assembler e
    where
      same_assembler :
          ca ≡ sys.assembler
          → IsWhole c n (record sys { assembler = ca; writing = s ∷ sys.writing })
      same_assembler e = rw e (record { good = w.good; kept = w.kept })

  step-IsWhole :
      (sys : System) (e : Event) → seq_of e < n → IsWhole c n sys → IsWhole c n (step c e sys)
  unfolding step
  step-IsWhole sys (enter s disk) lt w =
      leave-IsWhole sys s (write_chunk sys.assembler s (c s) disk) w
        (write_chunk-Outcome c n small sys.assembler s disk w.good lt)
  step-IsWhole sys (commit s written renamed) lt w = elim (Bool-cases (contains s sys.writing)) [
    | inl busy ↦ rw (busy) (
        leave-IsWhole (record sys { writing = remove_one s sys.writing }) s
          (commit_spill sys.assembler s (c s) written renamed)
          (record { good = w.good; kept = w.kept })
          (commit_spill-Outcome c n small sys.assembler s written renamed w.good lt))
    | inr not_writing ↦ rw not_writing w
  ]

  run-IsWhole :
      (sys : System) (es : List Event)
      → All (λ e. seq_of e < n) es
      → IsWhole c n sys
      → IsWhole c n (run c es sys)
  unfolding run
  run-IsWhole sys [] lt w = w
  run-IsWhole sys (e ∷ es) (lt, lts) w = run-IsWhole (step c e sys) es lts (step-IsWhole sys e lt w)

  start-IsWhole : (limit : ℕ) → IsWhole c n (start eager limit)
  unfolding start new_chunk_assembler contains lookup
  start-IsWhole limit = record {
    good = record {
      stream = record {
        written = refl;
        counted = refl;
        below = omega arith;
        waiting = λ s p found. absurd (ground arith);
      };
      settled = refl;
      is_eager = refl;
    };
    kept = λ s m. absurd (ground arith);
  }

  -- In eager mode, for a stream of `n` < 2^32 chunks and runs of calls with its chunks, in any order and
  -- with any spills and failed writes of files: if for each of the `n` chunks a call has returned nil,
  -- the output is the whole stream, `next_expected_seq` is `n` and no chunk waits.
  pub run_complete :
      (limit : ℕ) (es : List Event)
      → All (λ e. seq_of e < n) es
      → ((s : ℕ) → s < n → contains s (run c es (start eager limit)).stored ≡ true)
      → let ca = (run c es (start eager limit)).assembler in
        (ca.next_expected_seq ≡ n) × (ca.out ≡ chunks c n) × ((s : ℕ) → lookup s ca.pending ≡ none)
  run_complete limit es lts all =
      let w = run-IsWhole (start eager limit) es lts (start-IsWhole limit) in
      let reached : (run c es (start eager limit)).assembler.next_expected_seq ≡ n =
        whole_lem (run c es (start eager limit)) w all in
      (
        reached,
        w.good.stream.written ∙ ap (chunks c) reached,
        nothing (run c es (start eager limit)) w reached,
      )
    where
      whole_lem :
          (sys : System)
          → IsWhole c n sys
          → ((s : ℕ) → s < n → contains s sys.stored ≡ true)
          → sys.assembler.next_expected_seq ≡ n
      whole_lem sys w all = elim (compare_cases sys.assembler.next_expected_seq n) [
        | inl (inl short) ↦
            elim (w.kept sys.assembler.next_expected_seq
              (all sys.assembler.next_expected_seq short)) [
                | inl lt ↦ absurd (omega arith)
                | inr (p, found) ↦ let settled = w.good.settled in absurd cc
              ]
        | inl (inr e) ↦ e
        | inr past ↦ let below = w.good.stream.below in absurd (omega arith)
      ]

      nothing :
          (sys : System)
          → IsWhole c n sys
          → sys.assembler.next_expected_seq ≡ n
          → (s : ℕ) → lookup s sys.assembler.pending ≡ none
      nothing sys w reached s = elim (Option-cases (lookup s sys.assembler.pending)) [
        | inl absent ↦ absent
        | inr (p, found) ↦
            let (bytes, le, lt) = w.good.stream.waiting s p found in absurd (omega arith)
      ]
