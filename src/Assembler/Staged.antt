-- ===== src/Assembler/Staged.antt =====
-- What a call of `WriteChunk` in lazy mode does to the staged chunks.
use n_backup.Prelude.{
  ℕ, ◌+◌, ◌≤◌, ◌<◌, ◌≡◌, refl, arith, Bool, true, false, List, [], length, none, some, ◌==◌, ltb,
  ◌⊎◌, inl, inr, ◌||◌, Option-cases, Bool-cases, if◌then◌else◌,
}
use n_backup.Assembler.Pending.{
  Pending, PendingMap, on_disk, bytes_of, lookup, insert, lookup-insert, delete, lookup-delete,
  length-delete-le, lookup_empty,
}
use n_backup.Assembler.Defs.{
  Assembler, lazy, Entered, returned, failed, spilling, write_chunk, write_chunk_lazy,
}
use n_backup.Assembler.Branches.{is_refused, write_chunk_refused}
use n_backup.Assembler.Assembly.{Waits}

-- Nothing is written, and the map holds chunks of the stream up to `lazy_max_seq`, which is there.
pub record IsStaged (c : ℕ → List ℕ) (n : ℕ) (ca : Assembler) : Type 0 where
  pub unwritten : ca.out ≡ []
  pub is_lazy : ca.mode ≡ lazy
  pub waiting :
      (s : ℕ) (p : Pending)
      → lookup s ca.pending ≡ some p
      → (bytes_of p ≡ c s) × (s ≤ ca.lazy_max_seq) × (s < n)
  pub top : (length ca.pending ≡ 0) ⊎ Waits ca ca.lazy_max_seq

-- What `writeChunkLazy` leaves when the chunk is new and its file written.
abbrev staged_chunk : Assembler → ℕ → List ℕ → Assembler
staged_chunk ca s buf = record ca {
  pending = insert s (on_disk buf) ca.pending;
  lazy_max_seq =
      if (length (insert s (on_disk buf) ca.pending) == 1) || ltb ca.lazy_max_seq s
      then s
      else ca.lazy_max_seq;
  pending_count = ca.pending_count + 1;
  total_bytes = ca.total_bytes + length buf;
}

lazy_known :
    (ca : Assembler) (s : ℕ) (buf : List ℕ) (disk : Bool) (p : Pending)
    → lookup s ca.pending ≡ some p
    → write_chunk_lazy ca s buf disk ≡ returned ca
unfolding write_chunk_lazy
lazy_known ca s buf disk p found = ground arith

lazy_new :
    (ca : Assembler) (s : ℕ) (buf : List ℕ)
    → lookup s ca.pending ≡ none
    → write_chunk_lazy ca s buf true ≡ returned (staged_chunk ca s buf)
unfolding write_chunk_lazy
lazy_new ca s buf absent = ground arith

lazy_no_file :
    (ca : Assembler) (s : ℕ) (buf : List ℕ)
    → lookup s ca.pending ≡ none
    → write_chunk_lazy ca s buf false ≡ failed ca
unfolding write_chunk_lazy
lazy_no_file ca s buf absent = ground arith

accepted_lazily :
    (ca : Assembler) (s : ℕ) (buf : List ℕ) (disk : Bool)
    → is_refused buf ≡ false
    → ca.mode ≡ lazy
    → write_chunk ca s buf disk ≡ write_chunk_lazy ca s buf disk
unfolding write_chunk
accepted_lazily ca s buf disk e m = ground arith

-- A map of one entry has that entry only.
insert_alone :
    (s t : ℕ) (p q : Pending) (m : PendingMap)
    → length (insert s p m) ≡ 1
    → lookup t m ≡ some q
    → s ≡ t
unfolding insert
insert_alone s t p q m one found = elim (Bool-cases (s == t)) [
  | inl same ↦ ground arith
  | inr other ↦
      let empty : lookup t (delete s m) ≡ none = lookup_empty (delete s m) (omega arith) t in
      absurd (ground (arith, lookup-delete s t m))
]

length-insert : (s : ℕ) (p : Pending) (m : PendingMap) → length m ≡ 0 → length (insert s p m) ≡ 1
unfolding insert
length-insert s p m empty = omega (arith, length-delete-le s m)

insert-Waits :
    (ca : Assembler) (s t : ℕ) (p : Pending)
    → Waits ca t
    → (q : Pending) × (lookup t (insert s p ca.pending) ≡ some q)
insert-Waits ca s t p (q, found) = elim (Bool-cases (s == t)) [
  | inl same ↦ (p, ground (arith, lookup-insert s t p ca.pending))
  | inr other ↦ (q, ground (arith, lookup-insert s t p ca.pending))
]

-- The new maximum is the chunk's number or, for a chunk below it in a map of several, the old one.
max_cases :
    (a b : Bool) (s old : ℕ)
    → (((a ≡ true) ⊎ (b ≡ true)) × ((if a || b then s else old) ≡ s))
      ⊎ ((a ≡ false) × (b ≡ false) × ((if a || b then s else old) ≡ old))
max_cases true b s old = inl (inl refl, refl)
max_cases false true s old = inl (inr refl, refl)
max_cases false false s old = inr (refl, refl, refl)

module _ (c : ℕ → List ℕ) (n : ℕ) where
  insert-IsStaged :
      (ca : Assembler) (s top count total : ℕ)
      → IsStaged c n ca
      → s < n
      → s ≤ top
      → ((t : ℕ) (p : Pending) → lookup t ca.pending ≡ some p → (s ≡ t) ⊎ (t ≤ top))
      → (s ≡ top) ⊎ Waits ca top
      → IsStaged c n (record ca {
        pending = insert s (on_disk (c s)) ca.pending;
        lazy_max_seq = top;
        pending_count = count;
        total_bytes = total;
      })
  insert-IsStaged ca s top count total v lt le within has = record {
    unwritten = v.unwritten;
    is_lazy = v.is_lazy;
    waiting = λ t p found.
        ground (arith, lookup-insert s t (on_disk (c s)) ca.pending, v.waiting t p, within t p);
    top = inr (elim has [
      | inl e ↦ (on_disk (c s), ground (arith, lookup-insert s top (on_disk (c s)) ca.pending))
      | inr w ↦ insert-Waits ca s top (on_disk (c s)) w
    ]);
  }

  staged_chunk-IsStaged :
      (ca : Assembler) (s : ℕ) → IsStaged c n ca → s < n → IsStaged c n (staged_chunk ca s (c s))
  staged_chunk-IsStaged ca s v lt =
      let p = on_disk (c s) in
      elim (max_cases (length (insert s p ca.pending) == 1) (ltb ca.lazy_max_seq s) s
        ca.lazy_max_seq) [
          | inl (inl one, e) ↦ rw e (
              insert-IsStaged ca s s (ca.pending_count + 1) (ca.total_bytes + length (c s)) v lt
                (omega arith)
                (λ t q found. inl (insert_alone s t p q ca.pending (ground arith) found))
                (inl refl))
          | inl (inr above, e) ↦ rw e (
              insert-IsStaged ca s s (ca.pending_count + 1) (ca.total_bytes + length (c s)) v lt
                (omega arith)
                (λ t q found. inr (let (b, le, lt') = v.waiting t q found in ground arith))
                (inl refl))
          | inr (many, below, e) ↦ rw e (
              insert-IsStaged ca s ca.lazy_max_seq (ca.pending_count + 1)
                (ca.total_bytes + length (c s)) v lt (ground arith)
                (λ t q found. inr (v.waiting t q found).1) (inr (old_top many)))
        ]
    where
      old_top :
          (length (insert s (on_disk (c s)) ca.pending) == 1) ≡ false → Waits ca ca.lazy_max_seq
      old_top many = elim v.top [
        | inl empty ↦ absurd (ground (arith, length-insert s (on_disk (c s)) ca.pending empty))
        | inr w ↦ w
      ]

  -- WriteChunk in lazy mode keeps the invariant, and leaves a chunk whose call returns nil waiting.
  unfoldable pub Staging : Assembler → ℕ → Entered → Type 0
  Staging ca s (returned ca') =
      IsStaged c n ca' × Waits ca' s × ((t : ℕ) → Waits ca t → Waits ca' t)
  Staging ca s (failed ca') = ca' ≡ ca
  Staging ca s (spilling ca') = ⊥

  pub write_chunk-Staging :
      (ca : Assembler) (s : ℕ) (disk : Bool)
      → IsStaged c n ca
      → s < n
      → Staging ca s (write_chunk ca s (c s) disk)
  unfolding Staging
  write_chunk-Staging ca s disk v lt = elim (Bool-cases (is_refused (c s))) [
    | inl bad ↦ rw (write_chunk_refused ca s (c s) disk bad) refl
    | inr good ↦
        rw (accepted_lazily ca s (c s) disk good v.is_lazy)
          (elim (Option-cases (lookup s ca.pending)) [
            | inr (p, found) ↦ rw (lazy_known ca s (c s) disk p found) (v, (p, found), λ t w. w)
            | inl absent ↦ new disk absent
          ])
  ]
    where
      new :
          (disk : Bool)
          → lookup s ca.pending ≡ none
          → Staging ca s (write_chunk_lazy ca s (c s) disk)
      new true absent = rw (lazy_new ca s (c s) absent) (
        staged_chunk-IsStaged ca s v lt,
        (on_disk (c s), ground (arith, lookup-insert s s (on_disk (c s)) ca.pending)),
        λ t w. insert-Waits ca s t (on_disk (c s)) w,
      )
      new false absent = rw (lazy_no_file ca s (c s) absent) refl
