-- ===== src/Assembler/Lazily.antt =====
-- Lazy mode from the first `WriteChunk` to `Finalize`, over every order of the calls.
use n_backup.Prelude.{
  ℕ, suc, ◌∙◌, ◌+◌, ◌-◌, ◌^◌, ◌≤◌, ◌<◌, ◌≡◌, refl, arith, Bool, true, false, List, [], ◌∷◌, length,
  none, some, ◌==◌, inl, inr, All, Bool-cases,
}
use n_backup.Assembler.Pending.{lookup, lookup_empty}
use n_backup.Assembler.Defs.{
  Assembler, lazy, new_chunk_assembler, Entered, returned, failed, spilling, write_chunk,
}
use n_backup.Assembler.Stream.{chunks}
use n_backup.Assembler.System.{
  System, Event, enter, commit, seq_of, contains, leave, step, run, start,
}
use n_backup.Assembler.Finish.{
  Assembly, assembled, missing, no_fuel, assemble_loop, finalize_lazy, finalize, output, missing_of,
}
use n_backup.Assembler.Assembly.{Waits, IsAssembling, loop_whole, loop_gap}
use n_backup.Assembler.Staged.{IsStaged, Staging, write_chunk-Staging}

-- A run in lazy mode: no call is at a temporary file, and every chunk whose call returned nil waits.
pub record IsStaging (c : ℕ → List ℕ) (n : ℕ) (sys : System) : Type 0 where
  pub staged : IsStaged c n sys.assembler
  pub idle : sys.writing ≡ []
  pub kept : (s : ℕ) → contains s sys.stored ≡ true → Waits sys.assembler s

module _ (c : ℕ → List ℕ) (n : ℕ) where
  leave-IsStaging :
      (sys : System) (s : ℕ) (o : Entered)
      → IsStaging c n sys
      → Staging c n sys.assembler s o
      → IsStaging c n (leave s o sys)
  unfolding leave Staging contains
  leave-IsStaging sys s (returned ca) w (staged, has, keeps) = record {
    staged = staged;
    idle = w.idle;
    kept = λ t m. stored t m (s == t) refl;
  }
    where
      stored : (t : ℕ) → contains t (s ∷ sys.stored) ≡ true → (b : Bool) → (s == t) ≡ b → Waits ca t
      stored t m true e = let same : s ≡ t = ground arith in rw (← same) has
      stored t m false e = keeps t (w.kept t (ground arith))
  leave-IsStaging sys s (failed ca) w e = same_assembler e
    where
      same_assembler : ca ≡ sys.assembler → IsStaging c n (record sys { assembler = ca })
      same_assembler e = rw e (record { staged = w.staged; idle = w.idle; kept = w.kept })
  leave-IsStaging sys s (spilling ca) w e = absurd e

  run-IsStaging :
      (es : List Event) (sys : System)
      → All (λ e. seq_of e < n) es
      → IsStaging c n sys
      → IsStaging c n (run c es sys)
  unfolding run step contains
  run-IsStaging [] sys lts w = w
  run-IsStaging (enter s disk ∷ es) sys (lt, lts) w =
      run-IsStaging es (leave s (write_chunk sys.assembler s (c s) disk) sys) lts (
        leave-IsStaging sys s (write_chunk sys.assembler s (c s) disk) w
          (write_chunk-Staging c n sys.assembler s disk w.staged lt))
  run-IsStaging (commit s written renamed ∷ es) sys (lt, lts) w =
      rw (no_commit w.idle) (run-IsStaging es sys lts w)
    where
      no_commit : sys.writing ≡ [] → contains s sys.writing ≡ false
      no_commit e = rw e refl

  start-IsStaging : (limit : ℕ) → IsStaging c n (start lazy limit)
  unfolding start new_chunk_assembler contains lookup
  start-IsStaging limit = record {
    staged = record {
      unwritten = refl;
      is_lazy = refl;
      waiting = λ s p found. absurd (ground arith);
      top = inl refl;
    };
    idle = refl;
    kept = λ s m. absurd (ground arith);
  }

-- Finalize on a map with a chunk in it is the loop from chunk 0 on.
finalize_lazy_lem :
    (ca : Assembler) (s : ℕ)
    → Waits ca s
    → finalize_lazy ca ≡ assemble_loop (length ca.pending + 1) 0 ca
unfolding finalize_lazy
finalize_lazy_lem ca s (p, found) = elim (Bool-cases (length ca.pending == 0)) [
  | inl empty ↦
      let absent : lookup s ca.pending ≡ none = lookup_empty ca.pending (ground arith) s in
      absurd cc
  | inr more ↦ ground arith
]

finalize_lem :
    (ca : Assembler) (a : Assembly)
    → ca.mode ≡ lazy
    → finalize_lazy ca ≡ a
    → (output (finalize ca) ≡ output a) × (missing_of (finalize ca) ≡ missing_of a)
unfolding finalize
finalize_lem ca (assembled done) m e = ground arith
finalize_lem ca (missing seq left) m e = ground arith
finalize_lem ca (no_fuel left) m e = ground arith

-- A staged chunk makes the maximum a staged chunk.
staged_top :
    (c : ℕ → List ℕ) (n s : ℕ) (ca : Assembler)
    → IsStaged c n ca
    → Waits ca s
    → (s ≤ ca.lazy_max_seq) × (ca.lazy_max_seq < n)
staged_top c n s ca v (p, found) = (
  (v.waiting s p found).1,
  elim v.top [
    | inl empty ↦
        let absent : lookup s ca.pending ≡ none = lookup_empty ca.pending (omega arith) s in
        absurd cc
    | inr (q, at_top) ↦ (v.waiting ca.lazy_max_seq q at_top).2
  ],
)

first_round :
    (c : ℕ → List ℕ) (n : ℕ) (ca : Assembler)
    → IsStaged c n ca
    → IsAssembling c (suc ca.lazy_max_seq) 0 ca
first_round c n ca v = record {
  written = v.unwritten;
  last = refl;
  waiting = λ s p found. (v.waiting s p found).0;
}

module _ (c : ℕ → List ℕ) (n : ℕ) (small : n < 2 ^ 32) where
  -- In lazy mode, for a stream of `n` chunks, 0 < `n` < 2^32, and runs of calls with its chunks, in any
  -- order, with repetitions and failed writes: if for each of the `n` chunks a call has returned nil,
  -- Finalize returns nil and has written the whole stream.
  pub run-finalize_lazy :
      (limit : ℕ) (es : List Event)
      → All (λ e. seq_of e < n) es
      → 0 < n
      → ((s : ℕ) → s < n → contains s (run c es (start lazy limit)).stored ≡ true)
      → output (finalize (run c es (start lazy limit)).assembler) ≡ some (chunks c n)
  run-finalize_lazy limit es lts some_chunk all =
      whole (run c es (start lazy limit))
        (run-IsStaging c n es (start lazy limit) lts (start-IsStaging c n limit)) all
    where
      whole :
          (sys : System)
          → IsStaging c n sys
          → ((s : ℕ) → s < n → contains s sys.stored ≡ true)
          → output (finalize sys.assembler) ≡ some (chunks c n)
      whole sys w all =
          let ca = sys.assembler in
          let waits : (s : ℕ) → s < n → Waits ca s = λ s lt. w.kept s (all s lt) in
          let (le, lt) = staged_top c n (n - 1) ca w.staged (waits (n - 1) (omega arith)) in
          let last : suc ca.lazy_max_seq ≡ n = omega arith in
          (finalize_lem ca (assemble_loop (length ca.pending + 1) 0 ca) w.staged.is_lazy
            (finalize_lazy_lem ca 0 (waits 0 some_chunk))).0
          ∙ loop_whole c n small (length ca.pending + 1) 0 ca
              (rw (← last) (first_round c n ca w.staged)) (omega arith) (omega arith)
              (λ s le lt. waits s lt)

  -- In lazy mode, for a stream of `n` < 2^32 chunks and runs of calls with its chunks: when a chunk is
  -- not in the map although the calls for all before it and for one behind it have returned nil,
  -- Finalize fails and names it.
  pub run-finalize_gap :
      (limit : ℕ) (es : List Event) (g t : ℕ)
      → All (λ e. seq_of e < n) es
      → let sys = run c es (start lazy limit) in
        ((s : ℕ) → s < g → contains s sys.stored ≡ true)
        → lookup g sys.assembler.pending ≡ none
        → g < t
        → contains t sys.stored ≡ true
        → missing_of (finalize sys.assembler) ≡ some g
  run-finalize_gap limit es g t lts below gap lt behind =
      broken (run c es (start lazy limit))
        (run-IsStaging c n es (start lazy limit) lts (start-IsStaging c n limit)) below gap behind
    where
      broken :
          (sys : System)
          → IsStaging c n sys
          → ((s : ℕ) → s < g → contains s sys.stored ≡ true)
          → lookup g sys.assembler.pending ≡ none
          → contains t sys.stored ≡ true
          → missing_of (finalize sys.assembler) ≡ some g
      broken sys w below gap behind =
          let ca = sys.assembler in
          let (le, max_lt) = staged_top c n t ca w.staged (w.kept t behind) in
          (finalize_lem ca (assemble_loop (length ca.pending + 1) 0 ca) w.staged.is_lazy
            (finalize_lazy_lem ca t (w.kept t behind))).1
          ∙ loop_gap c (suc ca.lazy_max_seq) (omega arith) (length ca.pending + 1) 0 g ca refl
              (omega arith) (omega arith) (omega arith) gap (λ s le lt. w.kept s (below s lt))
