-- ===== src/Assembler/Assembly.antt =====
-- The loop of finalizeLazy over staged chunks.
use n_backup.Prelude.{
  ℕ, zero, suc, ap, ◌^◌, ◌≤◌, ◌<◌, ◌≡◌, arith, List, length, none, some, ltb, inl, inr, Bool-cases,
}
use n_backup.Assembler.Pending.{Pending, bytes_of, lookup, lookup-delete, delete_found}
use n_backup.Assembler.Defs.{Assembler, next_seq}
use n_backup.Assembler.Stream.{chunks}
use n_backup.Assembler.Finish.{assembled, missing, assemble_one, assemble_loop, output, missing_of}

-- A chunk is in the map.
abbrev pub Waits : Assembler → ℕ → Type 0
Waits ca s = (p : Pending) × (lookup s ca.pending ≡ some p)

-- The rounds from `k` on: the chunks below `k` are in the output, and the map holds chunks of `c`.
pub record IsAssembling (c : ℕ → List ℕ) (n k : ℕ) (ca : Assembler) : Type 0 where
  pub written : ca.out ≡ chunks c k
  pub last : suc ca.lazy_max_seq ≡ n
  pub waiting : (s : ℕ) (p : Pending) → lookup s ca.pending ≡ some p → bytes_of p ≡ c s

loop_round :
    (fuel k : ℕ) (ca : Assembler) (p : Pending)
    → k ≤ ca.lazy_max_seq
    → lookup k ca.pending ≡ some p
    → assemble_loop (suc fuel) k ca ≡ assemble_loop fuel (next_seq k) (assemble_one ca k p)
unfolding assemble_loop
loop_round fuel k ca p le found = ground arith

loop_missing :
    (fuel k : ℕ) (ca : Assembler)
    → k ≤ ca.lazy_max_seq
    → lookup k ca.pending ≡ none
    → assemble_loop (suc fuel) k ca ≡ missing k ca
unfolding assemble_loop
loop_missing fuel k ca le found = ground arith

loop_done :
    (fuel k : ℕ) (ca : Assembler)
    → ca.lazy_max_seq < k
    → assemble_loop (suc fuel) k ca ≡ assembled ca
unfolding assemble_loop
loop_done fuel k ca lt = ground arith

assemble_one-Waits :
    (ca : Assembler) (k s : ℕ) (p : Pending) → k < s → Waits ca s → Waits (assemble_one ca k p) s
unfolding assemble_one
assemble_one-Waits ca k s p lt (q, found) = (q, ground (arith, lookup-delete k s ca.pending))

assemble_one-shorter :
    (ca : Assembler) (k : ℕ) (p : Pending)
    → lookup k ca.pending ≡ some p
    → length (assemble_one ca k p).pending < length ca.pending
unfolding assemble_one
assemble_one-shorter ca k p found = (delete_found k p ca.pending found).0

module _ (c : ℕ → List ℕ) (n : ℕ) (small : n < 2 ^ 32) where
  assemble_one-IsAssembling :
      (ca : Assembler) (k : ℕ) (p : Pending)
      → IsAssembling c n k ca
      → lookup k ca.pending ≡ some p
      → IsAssembling c n (suc k) (assemble_one ca k p)
  unfolding assemble_one
  assemble_one-IsAssembling ca k p v found = record {
    written = let bytes = v.waiting k p found in cc (v.written, bytes);
    last = v.last;
    waiting = λ s q h. ground (arith, lookup-delete k s ca.pending, v.waiting s q);
  }

  -- With every chunk there, the loop writes them all.
  pub loop_whole :
      (fuel k : ℕ) (ca : Assembler)
      → IsAssembling c n k ca
      → k ≤ n
      → length ca.pending < fuel
      → ((s : ℕ) → k ≤ s → s < n → Waits ca s)
      → output (assemble_loop fuel k ca) ≡ some (chunks c n)
  loop_whole zero k ca v le room all = absurd (omega arith)
  loop_whole (suc fuel) k ca v le room all =
      let last = v.last in
      elim (Bool-cases (ltb k n)) [
        | inl more ↦
            let lt : k < n = ground arith in
            let (p, found) = all k (omega arith) lt in
            let next : next_seq k ≡ suc k = omega arith in
            rw (loop_round fuel k ca p (omega arith) found, next)
              (loop_whole fuel (suc k) (assemble_one ca k p)
                (assemble_one-IsAssembling ca k p v found) lt
                (omega (arith, assemble_one-shorter ca k p found))
                (λ s ge lt'. assemble_one-Waits ca k s p ge (all s (omega arith) lt')))
        | inr done ↦
            let e : k ≡ n = ground arith in
            rw (loop_done fuel k ca (omega arith)) (cc (v.written, e))
      ]

  -- The loop stops at the first chunk that is not there, and names it.
  pub loop_gap :
      (fuel k g : ℕ) (ca : Assembler)
      → suc ca.lazy_max_seq ≡ n
      → k ≤ g
      → g < n
      → length ca.pending < fuel
      → lookup g ca.pending ≡ none
      → ((s : ℕ) → k ≤ s → s < g → Waits ca s)
      → missing_of (assemble_loop fuel k ca) ≡ some g
  loop_gap zero k g ca last le lt room gap below = absurd (omega arith)
  loop_gap (suc fuel) k g ca last le lt room gap below = elim (Bool-cases (ltb k g)) [
    | inl more ↦
        let before : k < g = ground arith in
        let (p, found) = below k (omega arith) before in
        let next : next_seq k ≡ suc k = omega arith in
        rw (loop_round fuel k ca p (omega arith) found, next)
          (loop_gap fuel (suc k) g (assemble_one ca k p) (unfold assemble_one in last) before lt
            (omega (arith, assemble_one-shorter ca k p found))
            (unfold assemble_one in ground (arith, lookup-delete k g ca.pending))
            (λ s ge lt'. assemble_one-Waits ca k s p ge (below s (omega arith) lt')))
    | inr at_gap ↦
        let e : k ≡ g = ground arith in
        rw (loop_missing fuel k ca (omega arith) (rw e gap)) (ap some e)
  ]
