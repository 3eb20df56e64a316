-- ===== src/Dispatcher/Flush.antt =====
-- Flush, and how many chunks there are then.
use n_backup.Prelude.{
  ℕ, suc, ◌+◌, ◌*◌, ◌≤◌, ◌<◌, ◌≡◌, refl, sym, ap, ◌∙◌, arith, true, false, List, [], ◌∷◌, ◌++◌,
  length, append-nil, length-append, none, ltb, inl, inr, All, Bool-cases,
}
use n_backup.Dispatcher.{Dispatcher, emit_pending, flush}
use n_backup.Dispatcher.Log.{Log, payloads}
use n_backup.Dispatcher.Written.{IsDispatched, emit_pending-IsDispatched}
use n_backup.Dispatcher.Write.{IsWriting}

-- When all bytes of the input are in chunks of at most `n` bytes, only the last of which may be short.
pub record IsFlushed (crc : List ℕ → ℕ) (n : ℕ) (input : List ℕ) (d : Dispatcher) : Type 0 where
  pub log : Log
  pub dispatched : IsDispatched crc input log d
  pub content : payloads log ≡ input
  pub lengths : All (λ e. (0 < length e.1) × (length e.1 ≤ n)) log
  pub few : length log * n < length input + n

length-payloads :
    (n : ℕ) (log : Log) → All (λ e. length e.1 ≡ n) log → length (payloads log) ≡ length log * n
unfolding payloads
length-payloads n [] h = omega arith
length-payloads n ((i, p) ∷ log) (e, h) =
    omega (arith, length-append p (payloads log), length-payloads n log h)

lengths_lem :
    (n : ℕ) (log : Log) (i : ℕ) (p : List ℕ)
    → All (λ e. length e.1 ≡ n) log
    → 0 < n
    → 0 < length p
    → length p ≤ n
    → All (λ e. (0 < length e.1) × (length e.1 ≤ n)) (log ++ ((i, p) ∷ []))
lengths_lem n [] i p h pos more le = ((more, le), tt)
lengths_lem n (x ∷ log) i p (e, h) pos more le =
    ((omega arith, omega arith), lengths_lem n log i p h pos more le)

lengths_full :
    (n : ℕ) (log : Log)
    → All (λ e. length e.1 ≡ n) log
    → 0 < n
    → All (λ e. (0 < length e.1) × (length e.1 ≤ n)) log
lengths_full n [] h pos = tt
lengths_full n (x ∷ log) (e, h) pos = ((omega arith, omega arith), lengths_full n log h pos)

flush-some :
    (crc : List ℕ → ℕ) (d : Dispatcher)
    → ltb 0 (length d.pending) ≡ true
    → flush crc d ≡ emit_pending crc d
unfolding flush
flush-some crc d h = rw h refl

flush-none :
    (crc : List ℕ → ℕ) (d : Dispatcher) → ltb 0 (length d.pending) ≡ false → flush crc d ≡ (none, d)
unfolding flush
flush-none crc d h = rw h refl

no_bytes : (p : List ℕ) → ltb 0 (length p) ≡ false → p ≡ []
no_bytes [] h = refl
no_bytes (b ∷ p) h = absurd (ground arith)

module _ (crc : List ℕ → ℕ) (n : ℕ) where
  -- A Flush that returns nil leaves no byte pending.
  pub flush-IsFlushed :
      (input : List ℕ) (d : Dispatcher)
      → IsWriting crc n input d
      → (flush crc d).0 ≡ none
      → IsFlushed crc n input (flush crc d).1
  flush-IsFlushed input d w e =
      let room = w.room in
      let total : length (payloads w.log) + length d.pending ≡ length input =
        sym (length-append (payloads w.log) d.pending) ∙ ap (λ l. length l) w.dispatched.content in
      let times = length-payloads n w.log w.full in
      elim (Bool-cases (ltb 0 (length d.pending))) [
        | inl some_left ↦
            let step = flush-some crc d some_left in
            let (i, after, empty, same) =
              emit_pending-IsDispatched crc input w.log d w.dispatched
                (sym (ap (λ r. r.0) step) ∙ e) in
            let log = w.log ++ ((i, d.pending) ∷ []) in
            record {
              log = log;
              dispatched = rw step after;
              content =
                  sym (append-nil (payloads log))
                  ∙ (ap (λ t. payloads log ++ t) (sym empty) ∙ after.content);
              lengths =
                  lengths_lem n w.log i d.pending w.full (omega arith) (ground arith) (omega arith);
              few =
                  count w.log (i, d.pending)
                    (omega (arith, total, times, ltb_pos (length d.pending) some_left));
            }
        | inr nothing ↦ record {
          log = w.log;
          dispatched = rw (flush-none crc d nothing) w.dispatched;
          content =
              sym (append-nil (payloads w.log))
              ∙ (ap (λ t. payloads w.log ++ t) (sym (no_bytes d.pending nothing))
                  ∙ w.dispatched.content);
          lengths = lengths_full n w.log w.full (omega arith);
          few = omega (arith, total, times);
        }
      ]
    where
      ltb_pos : (k : ℕ) → ltb 0 k ≡ true → 0 < k
      ltb_pos k h = ground arith

      count :
          (log : Log) (e : ℕ × List ℕ)
          → length log * n < length input
          → length (log ++ (e ∷ [])) * n < length input + n
      count log e h =
          let l : length (log ++ (e ∷ [])) ≡ suc (length log) =
            omega (arith, length-append log (e ∷ [])) in
          rw l (omega arith)
