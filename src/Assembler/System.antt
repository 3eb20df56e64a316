-- ===== src/Assembler/System.antt =====
-- The streams of a parallel session that call `WriteChunk` on one assembler. A call gives up the mutex
-- only to write a temporary file, so a run is a sequence of steps: a call enters, or a call that was
-- writing its file comes back.
use n_backup.Prelude.{ℕ, Bool, true, false, List, [], ◌∷◌, ◌==◌, if◌then◌else◌}
use n_backup.Assembler.Defs.{
  Mode, Assembler, new_chunk_assembler, Entered, returned, failed, spilling, write_chunk,
  commit_spill,
}

-- `writing` holds the chunks whose call is at its temporary file, `stored` those whose call has
-- returned nil.
pub record System : Type 0 where
  pub assembler : Assembler
  pub writing : List ℕ
  pub stored : List ℕ

pub data Event : Type 0 where
  enter : ℕ → Bool → Event
  commit : ℕ → Bool → Bool → Event

abbrev pub seq_of : Event → ℕ
seq_of (enter s disk) = s
seq_of (commit s written renamed) = s

unfoldable pub contains : ℕ → List ℕ → Bool
contains s [] = false
contains s (t ∷ ts) = let rest = contains s ts in if t == s then true else rest

unfoldable pub remove_one : ℕ → List ℕ → List ℕ
remove_one s [] = []
remove_one s (t ∷ ts) = let rest = remove_one s ts in if t == s then ts else t ∷ rest

-- What a call leaves behind.
unfoldable pub leave : ℕ → Entered → System → System
leave s (returned ca) sys = record sys { assembler = ca; stored = s ∷ sys.stored }
leave s (failed ca) sys = record sys { assembler = ca }
leave s (spilling ca) sys = record sys { assembler = ca; writing = s ∷ sys.writing }

-- A step in a session whose stream has the chunks `c`. The Booleans of an event are what the file
-- system answers; that of `enter` is for lazy mode only.
unfoldable pub step : (ℕ → List ℕ) → Event → System → System
step c (enter s disk) sys = leave s (write_chunk sys.assembler s (c s) disk) sys
step c (commit s written renamed) sys =
    if contains s sys.writing
    then leave s (commit_spill sys.assembler s (c s) written renamed)
        (record sys { writing = remove_one s sys.writing })
    else sys

unfoldable pub run : (ℕ → List ℕ) → List Event → System → System
run c [] sys = sys
run c (e ∷ es) sys = run c es (step c e sys)

unfoldable pub start : Mode → ℕ → System
start mode limit = record { assembler = new_chunk_assembler mode limit; writing = []; stored = [] }
