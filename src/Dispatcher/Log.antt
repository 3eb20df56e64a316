-- ===== src/Dispatcher/Log.antt =====
-- The chunks that were emitted, as a list of streams and payloads: a chunk's number is its place.
use n_backup.Prelude.{
  ℕ, zero, suc, ◌+◌, ◌%◌, ◌^◌, ◌≡◌, refl, sym, ap, ◌∙◌, arith, List, [], ◌∷◌, ◌++◌, length,
  append_assoc, ◌==◌, if◌then◌else◌, inl, inr, Bool-cases,
}
use n_backup.Frame.{Chunk}
use n_backup.Dispatcher.{Call, writes, activates, deactivates}

abbrev pub Log : Type 0
Log = List (ℕ × List ℕ)

-- All bytes of the log.
unfoldable pub payloads : Log → List ℕ
payloads [] = []
payloads ((i, p) ∷ log) = p ++ payloads log

-- The chunks of one stream, where the log starts at number `k`. Numbers are uint32.
unfoldable pub chunks_of : ℕ → ℕ → Log → List Chunk
chunks_of i k [] = []
chunks_of i k ((j, p) ∷ log) =
    let rest = chunks_of i (k + 1) log in
    if i == j then record { seq = k % 2 ^ 32; payload = p } ∷ rest else rest

-- The payload of a chunk.
unfoldable pub payload_of : Log → ℕ → List ℕ
payload_of [] s = []
payload_of ((i, p) ∷ log) zero = p
payload_of ((i, p) ∷ log) (suc s) = payload_of log s

-- The bytes of several calls.
unfoldable pub written_by : List Call → List ℕ
written_by [] = []
written_by (writes p ∷ calls) = p ++ written_by calls
written_by (activates i ∷ calls) = written_by calls
written_by (deactivates i ∷ calls) = written_by calls

pub payloads-append : (xs ys : Log) → payloads (xs ++ ys) ≡ payloads xs ++ payloads ys
unfolding payloads
payloads-append [] ys = refl
payloads-append ((i, p) ∷ xs) ys =
    ap (λ t. p ++ t) (payloads-append xs ys) ∙ sym (append_assoc p (payloads xs) (payloads ys))

-- A chunk at the end.
pub chunks_of-append :
    (i k j : ℕ) (p : List ℕ) (log : Log)
    → chunks_of i k (log ++ ((j, p) ∷ []))
      ≡ chunks_of i k log
        ++ (if i == j then record { seq = (k + length log) % 2 ^ 32; payload = p } ∷ [] else [])
unfolding chunks_of
chunks_of-append i k j p [] =
    let e : k ≡ k + 0 = omega arith in
    rw (← e) (elim (Bool-cases (i == j)) [ inl same ↦ rw same refl | inr other ↦ rw other refl ])
chunks_of-append i k j p ((h, q) ∷ log) =
    let e : k + 1 + length log ≡ k + suc (length log) = omega arith in
    elim (Bool-cases (i == h)) [
      | inl same ↦ rw same (
          ap (λ l. record { seq = k % 2 ^ 32; payload = q } ∷ l)
            (rw (← e) (chunks_of-append i (k + 1) j p log)))
      | inr other ↦ rw other (rw (← e) (chunks_of-append i (k + 1) j p log))
    ]
