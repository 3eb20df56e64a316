-- ===== src/Dispatcher/Numbers.antt =====
-- The chunks of all streams are the log: each number once, on the stream that the log names.
use n_backup.Prelude.{
  ℕ, zero, suc, ◌+◌, ◌%◌, ◌^◌, ◌≤◌, ◌<◌, ◌≡◌, refl, sym, ap, ◌∙◌, arith, Bool, true, false, List,
  [], ◌∷◌, ◌++◌, length, append_assoc, append-nil, ◌==◌, ==_self, if◌then◌else◌, inl, inr, All,
  Bool-cases,
}
use n_backup.Frame.{Chunk}
use n_backup.Assembler.System.{contains}
use n_backup.Assembler.Stream.{chunks}
use n_backup.Dispatcher.Log.{Log, payloads, chunks_of, payload_of}

abbrev pub seqs : List Chunk → List ℕ
seqs [] = []
seqs (ch ∷ chs) = ch.seq ∷ seqs chs

-- Chunks of a stream that has the payloads `c`.
abbrev pub AreOf : (ℕ → List ℕ) → ℕ → List Chunk → Type 0
AreOf c n chs = All (λ ch. (ch.seq < n) × (ch.payload ≡ c ch.seq)) chs

pub chunks_of-AreOf :
    (c : ℕ → List ℕ) (n i k : ℕ) (log : Log)
    → n < 2 ^ 32
    → k + length log ≤ n
    → ((t : ℕ) → t < length log → c (k + t) ≡ payload_of log t)
    → AreOf c n (chunks_of i k log)
unfolding chunks_of payload_of
chunks_of-AreOf c n i k [] small le h = tt
chunks_of-AreOf c n i k ((j, p) ∷ log) small le h =
    let rest =
      chunks_of-AreOf c n i (k + 1) log small (omega arith)
        (λ t lt. ap c (omega arith) ∙ h (suc t) (omega arith)) in
    elim (Bool-cases (i == j)) [
      | inl same ↦
          let number : k % 2 ^ 32 ≡ k = omega arith in
          rw (same, number) ((omega arith, sym (ap c (plus_zero k) ∙ h 0 (omega arith))), rest)
      | inr other ↦ rw other rest
    ]
  where
    plus_zero : (k : ℕ) → k ≡ k + 0
    plus_zero k = omega arith

pub chunks_of_has :
    (k t : ℕ) (log : Log)
    → t < length log
    → k + length log ≤ 2 ^ 32
    → (i : ℕ) × (contains (k + t) (seqs (chunks_of i k log)) ≡ true)
unfolding chunks_of contains
chunks_of_has k t [] lt le = absurd (omega arith)
chunks_of_has k zero ((j, p) ∷ log) lt le =
    let number : (k % 2 ^ 32 == k + 0) ≡ true = ground arith in (j, rw (==_self j) (rw number refl))
chunks_of_has k (suc t) ((j, p) ∷ log) lt le =
    let (i, found) = chunks_of_has (k + 1) t log (omega arith) (omega arith) in
    let at : k + 1 + t ≡ k + suc t = omega arith in
    let found' : contains (k + suc t) (seqs (chunks_of i (k + 1) log)) ≡ true =
      ap (λ (x : ℕ). contains x (seqs (chunks_of i (k + 1) log))) (sym at) ∙ found in
    (
      i,
      elim (Bool-cases (i == j)) [
        | inl same ↦ rw same (rw found' (either (k % 2 ^ 32 == k + suc t)))
        | inr other ↦ rw other found'
      ],
    )
  where
    either : (b : Bool) → (if b then true else true) ≡ true
    either true = refl
    either false = refl

chunks-suc : (c : ℕ → List ℕ) (n : ℕ) → chunks c (suc n) ≡ c 0 ++ chunks (λ t. c (suc t)) n
chunks-suc c zero = sym (append-nil (c 0))
chunks-suc c (suc n) =
    ap (λ l. l ++ c (suc n)) (chunks-suc c n)
    ∙ append_assoc (c 0) (chunks (λ t. c (suc t)) n) (c (suc n))

pub chunks-payloads : (log : Log) → chunks (payload_of log) (length log) ≡ payloads log
unfolding payload_of payloads
chunks-payloads [] = refl
chunks-payloads ((i, p) ∷ log) =
    chunks-suc (payload_of ((i, p) ∷ log)) (length log) ∙ ap (λ l. p ++ l) (chunks-payloads log)
