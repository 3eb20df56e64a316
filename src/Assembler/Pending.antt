-- ===== src/Assembler/Pending.antt =====
-- The map `pendingChunks` from sequence numbers to chunks that wait, in memory or in a staging file.
-- A file is given by its bytes: its path is the chunk's own, and nothing else writes it.
use n_backup.Prelude.{
  ℕ, ◌+◌, ◌≤◌, ◌<◌, ◌≡◌, refl, arith, List, [], ◌∷◌, length, Option, none, some, ◌==◌,
  if◌then◌else◌,
}

pub data Pending : Type 0 where
  in_memory : List ℕ → Pending
  on_disk : List ℕ → Pending

abbrev pub bytes_of : Pending → List ℕ
bytes_of (in_memory bytes) = bytes
bytes_of (on_disk bytes) = bytes

-- What a pending chunk takes of the memory limit.
abbrev pub memory_of : Pending → ℕ
memory_of (in_memory bytes) = length bytes
memory_of (on_disk bytes) = 0

abbrev pub PendingMap : Type 0
PendingMap = List (ℕ × Pending)

unfoldable pub lookup : ℕ → PendingMap → Option Pending
lookup k [] = none
lookup k ((j, p) ∷ m) = if j == k then some p else lookup k m

unfoldable pub delete : ℕ → PendingMap → PendingMap
delete k [] = []
delete k ((j, p) ∷ m) = let rest = delete k m in if j == k then rest else (j, p) ∷ rest

unfoldable pub insert : ℕ → Pending → PendingMap → PendingMap
insert k p m = (k, p) ∷ delete k m

-- The bytes that pending chunks hold in memory.
unfoldable pub memory_sum : PendingMap → ℕ
memory_sum [] = 0
memory_sum ((j, p) ∷ m) = memory_of p + memory_sum m

pub lookup-delete :
    (k j : ℕ) (m : PendingMap) → lookup j (delete k m) ≡ (if k == j then none else lookup j m)
unfolding lookup delete
lookup-delete k j [] = ground arith
lookup-delete k j ((i, p) ∷ m) = ground (arith, lookup-delete k j m)

pub lookup-insert :
    (k j : ℕ) (p : Pending) (m : PendingMap)
    → lookup j (insert k p m) ≡ (if k == j then some p else lookup j m)
unfolding lookup insert
lookup-insert k j p m = ground (arith, lookup-delete k j m)

pub length-delete-le : (k : ℕ) (m : PendingMap) → length (delete k m) ≤ length m
unfolding delete
length-delete-le k [] = omega arith
length-delete-le k ((j, p) ∷ m) = ground (arith, length-delete-le k m)

pub memory_sum-delete-le : (k : ℕ) (m : PendingMap) → memory_sum (delete k m) ≤ memory_sum m
unfolding delete memory_sum
memory_sum-delete-le k [] = omega arith
memory_sum-delete-le k ((j, p) ∷ m) = ground (arith, memory_sum-delete-le k m)

pub length-insert-le : (k : ℕ) (p : Pending) (m : PendingMap) → length (insert k p m) ≤ length m + 1
unfolding insert
length-insert-le k p m = omega (arith, length-delete-le k m)

pub memory_sum-insert-le :
    (k : ℕ) (p : Pending) (m : PendingMap) → memory_sum (insert k p m) ≤ memory_of p + memory_sum m
unfolding insert memory_sum
memory_sum-insert-le k p m = omega (arith, memory_sum-delete-le k m)

-- Deleting an entry makes the map shorter, and gives back its memory.
pub delete_found :
    (k : ℕ) (p : Pending) (m : PendingMap)
    → lookup k m ≡ some p
    → (length (delete k m) < length m) × (memory_sum (delete k m) + memory_of p ≤ memory_sum m)
unfolding lookup delete memory_sum
delete_found k p [] h = cc
delete_found k p ((j, q) ∷ m) h =
    ground (arith, length-delete-le k m, memory_sum-delete-le k m, delete_found k p m)

pub lookup_empty : (m : PendingMap) → length m ≤ 0 → (k : ℕ) → lookup k m ≡ none
unfolding lookup
lookup_empty [] h k = refl
lookup_empty (e ∷ m) h k = absurd (omega arith)
