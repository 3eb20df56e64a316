-- ===== src/Assembler/Alone.antt =====
-- A call of `WriteChunk` that no other call comes between, on a file system that does not fail.
use n_backup.Prelude.{
  ℕ, ◌<◌, ◌^◌, ◌≡◌, refl, sym, ap, ◌∙◌, arith, Bool, true, false, List, ◌⊎◌, inl, inr,
}
use n_backup.Assembler.Pending.{lookup}
use n_backup.Assembler.Defs.{
  eager, Assembler, Entered, returned, failed, spilling, new_chunk_assembler, save_out_of_order,
  commit_spill, write_chunk_eager, write_chunk,
}
use n_backup.Assembler.Branches.{is_refused, write_chunk_accepted}
use n_backup.Assembler.Stream.{Has, chunks}
use n_backup.Assembler.Calls.{
  IsEager, compare_cases, Outcome, write_chunk-Outcome, commit_spill-Outcome,
}

unfoldable pub committed : Entered → Bool × Assembler
committed (returned ca) = (true, ca)
committed (failed ca) = (false, ca)
committed (spilling ca) = (false, ca)

-- Whether the call returns nil, and what it leaves.
unfoldable pub write_chunk_alone : Assembler → ℕ → List ℕ → Bool × Assembler
write_chunk_alone ca s buf = elim (write_chunk ca s buf true) [
  | returned ca' ↦ (true, ca')
  | failed ca' ↦ (false, ca')
  | spilling ca' ↦ committed (commit_spill ca' s buf true true)
]

Entered-cases :
    (o : Entered)
    → (((ca : Assembler) × (o ≡ returned ca)) ⊎ ((ca : Assembler) × (o ≡ failed ca)))
      ⊎ ((ca : Assembler) × (o ≡ spilling ca))
Entered-cases (returned ca) = inl (inl (ca, refl))
Entered-cases (failed ca) = inl (inr (ca, refl))
Entered-cases (spilling ca) = inr (ca, refl)

alone_returned :
    (ca ca' : Assembler) (s : ℕ) (buf : List ℕ)
    → write_chunk ca s buf true ≡ returned ca'
    → write_chunk_alone ca s buf ≡ (true, ca')
unfolding write_chunk_alone
alone_returned ca ca' s buf e = ground arith

alone_spilled :
    (ca ca' : Assembler) (s : ℕ) (buf : List ℕ)
    → write_chunk ca s buf true ≡ spilling ca'
    → write_chunk_alone ca s buf ≡ committed (commit_spill ca' s buf true true)
unfolding write_chunk_alone
alone_spilled ca ca' s buf e = ground arith

write_chunk_eager-failed :
    (ca ca' : Assembler) (s : ℕ) (buf : List ℕ) → write_chunk_eager ca s buf ≡ failed ca' → ⊥
unfolding write_chunk_eager save_out_of_order
write_chunk_eager-failed ca ca' s buf e = ground arith

commit_spill-failed :
    (ca ca' : Assembler) (s : ℕ) (buf : List ℕ) → commit_spill ca s buf true true ≡ failed ca' → ⊥
unfolding commit_spill
commit_spill-failed ca ca' s buf e = ground arith

commit_spill-spilling :
    (ca ca' : Assembler) (s : ℕ) (buf : List ℕ) → commit_spill ca s buf true true ≡ spilling ca' → ⊥
unfolding commit_spill
commit_spill-spilling ca ca' s buf e = ground arith

-- The call accepts a chunk of the stream.
abbrev pub IsAccepted : (ℕ → List ℕ) → ℕ → Assembler → ℕ → Bool × Assembler → Type 0
IsAccepted c n ca s out =
    (out.0 ≡ true) × IsEager c n out.1 × Has out.1 s × ((t : ℕ) → Has ca t → Has out.1 t)

module _ (c : ℕ → List ℕ) (n : ℕ) (small : n < 2 ^ 32) where
  accepted :
      (ca ca' : Assembler) (s : ℕ) (o : Entered)
      → Outcome c n ca s o
      → o ≡ returned ca'
      → IsAccepted c n ca s (true, ca')
  accepted ca ca' s o h e = opened (rw (← e) h)
    where
      opened : Outcome c n ca s (returned ca') → IsAccepted c n ca s (true, ca')
      opened h = unfold Outcome in (refl, h.0, h.1, h.2)

  unchanged :
      (ca ca' : Assembler) (s : ℕ) (o : Entered) → Outcome c n ca s o → o ≡ spilling ca' → ca' ≡ ca
  unchanged ca ca' s o h e = opened (rw (← e) h)
    where
      opened : Outcome c n ca s (spilling ca') → ca' ≡ ca
      opened h = unfold Outcome in h

  pub write_chunk_alone-IsAccepted :
      (ca : Assembler) (s : ℕ)
      → IsEager c n ca
      → s < n
      → is_refused (c s) ≡ false
      → IsAccepted c n ca s (write_chunk_alone ca s (c s))
  write_chunk_alone-IsAccepted ca s v lt good =
      let first = write_chunk-Outcome c n small ca s true v lt in
      elim (Entered-cases (write_chunk ca s (c s) true)) [
        | inl (inl (ca', e)) ↦
            rw (alone_returned ca ca' s (c s) e)
              (accepted ca ca' s (write_chunk ca s (c s) true) first e)
        | inl (inr (ca', e)) ↦ absurd (
            write_chunk_eager-failed ca ca' s (c s)
              (sym (write_chunk_accepted ca s (c s) true good v.is_eager) ∙ e))
        | inr (ca', e) ↦
            let same = unchanged ca ca' s (write_chunk ca s (c s) true) first e in
            rw (alone_spilled ca ca' s (c s) e, same)
              (second (commit_spill-Outcome c n small ca s true true v lt))
      ]
    where
      second :
          Outcome c n ca s (commit_spill ca s (c s) true true)
          → IsAccepted c n ca s (committed (commit_spill ca s (c s) true true))
      second h = elim (Entered-cases (commit_spill ca s (c s) true true)) [
        | inl (inl (ca', e)) ↦
            rw e (unfold committed in (accepted ca ca' s (commit_spill ca s (c s) true true) h e))
        | inl (inr (ca', e)) ↦ absurd (commit_spill-failed ca ca' s (c s) e)
        | inr (ca', e) ↦ absurd (commit_spill-spilling ca ca' s (c s) e)
      ]

  -- An assembler that has every chunk has written all of them.
  pub IsEager-complete :
      (ca : Assembler)
      → IsEager c n ca
      → ((s : ℕ) → s < n → Has ca s)
      → (ca.next_expected_seq ≡ n) × (ca.out ≡ chunks c n)
  IsEager-complete ca v all =
      let reached : ca.next_expected_seq ≡ n = elim (compare_cases ca.next_expected_seq n) [
        | inl (inl short) ↦ elim (all ca.next_expected_seq short) [
          | inl lt ↦ absurd (omega arith)
          | inr (p, found) ↦ let settled = v.settled in absurd cc
        ]
        | inl (inr e) ↦ e
        | inr past ↦ let below = v.stream.below in absurd (omega arith)
      ] in
      (reached, v.stream.written ∙ ap (chunks c) reached)

  pub new_chunk_assembler-IsEager : (limit : ℕ) → IsEager c n (new_chunk_assembler eager limit)
  unfolding new_chunk_assembler lookup
  new_chunk_assembler-IsEager limit = record {
    stream = record {
      written = refl;
      counted = refl;
      below = omega arith;
      waiting = λ s p found. absurd (ground arith);
    };
    settled = refl;
    is_eager = refl;
  }
