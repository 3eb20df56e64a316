-- ===== src/Dispatcher/Write.antt =====
-- Calls of Write and Flush.
use n_backup.Prelude.{
  ℕ, zero, suc, ◌-◌, ◌≤◌, ◌<◌, ◌≡◌, ◌≢◌, refl, sym, ap, ◌∙◌, arith, min, true, false, List, [], ◌∷◌,
  ◌++◌, length, take, drop, append_assoc, append-nil, length-append, length-take, length-drop,
  take-append-drop, none, some, ◌==◌, inl, inr, All, Bool-cases, Option-cases,
}
use n_backup.Dispatcher.{
  Dispatcher, Failure, no_rounds, emit_chunk, emit_pending, write_round, write_loop, write,
}
use n_backup.Dispatcher.Log.{Log, payloads}
use n_backup.Dispatcher.Emit.{emit_chunk-failure}
use n_backup.Dispatcher.Written.{IsDispatched, emit_pending-IsDispatched}

-- Between two calls: every chunk has `n` bytes, the chunk size, and fewer are pending.
pub record IsWriting (crc : List ℕ → ℕ) (n : ℕ) (input : List ℕ) (d : Dispatcher) : Type 0 where
  pub log : Log
  pub dispatched : IsDispatched crc input log d
  pub size : d.chunk_size ≡ n
  pub full : All (λ e. length e.1 ≡ n) log
  pub room : length d.pending < n

abbrev to_copy : Dispatcher → List ℕ → ℕ
to_copy d p = min (length p) (d.chunk_size - length d.pending)

abbrev filled : Dispatcher → List ℕ → Dispatcher
filled d p = record d { pending = d.pending ++ take (to_copy d p) p }

round_full :
    (crc : List ℕ → ℕ) (d : Dispatcher) (p : List ℕ)
    → (length (filled d p).pending == d.chunk_size) ≡ true
    → write_round crc d p ≡ emit_pending crc (filled d p)
unfolding write_round
round_full crc d p e = rw e refl

round_part :
    (crc : List ℕ → ℕ) (d : Dispatcher) (p : List ℕ)
    → (length (filled d p).pending == d.chunk_size) ≡ false
    → write_round crc d p ≡ (none, filled d p)
unfolding write_round
round_part crc d p e = rw e refl

All-append :
    (n : ℕ) (log : Log) (e : ℕ × List ℕ)
    → All (λ e. length e.1 ≡ n) log
    → length e.1 ≡ n
    → All (λ e. length e.1 ≡ n) (log ++ (e ∷ []))
All-append n [] e a h = (h, a)
All-append n (x ∷ log) e (b, a) h = (b, All-append n log e a h)

emit_pending-failure : (crc : List ℕ → ℕ) (d : Dispatcher) → (emit_pending crc d).0 ≢ some no_rounds
emit_pending-failure crc d e = emit_chunk-failure crc d d.pending (emit_pending_failed d e)
  where
    emit_pending_failed :
        (d : Dispatcher)
        → (emit_pending crc d).0 ≡ some no_rounds
        → (emit_chunk crc d d.pending).0 ≡ some no_rounds
    emit_pending_failed d e = unfold emit_pending in ground arith

module _ (crc : List ℕ → ℕ) (n : ℕ) where
  write_round-IsWriting :
      (input : List ℕ) (d : Dispatcher) (p : List ℕ)
      → IsWriting crc n input d
      → (write_round crc d p).0 ≡ none
      → IsWriting crc n (input ++ take (to_copy d p) p) (write_round crc d p).1
  write_round-IsWriting input d p w e =
      let k = to_copy d p in
      let size = w.size in
      let room = w.room in
      let grown : IsDispatched crc (input ++ take k p) w.log (filled d p) = record {
        seqs = w.dispatched.seqs;
        content =
            sym (append_assoc (payloads w.log) d.pending (take k p))
            ∙ ap (λ t. t ++ take k p) w.dispatched.content;
        rings = w.dispatched.rings;
        unused = w.dispatched.unused;
      } in
      elim (Bool-cases (length (filled d p).pending == d.chunk_size)) [
        | inl whole ↦
            let step = round_full crc d p whole in
            let (i, after, empty, same) =
              emit_pending-IsDispatched crc (input ++ take k p) w.log (filled d p) grown
                (sym (ap (λ r. r.0) step) ∙ e) in
            rw step (record {
              log = w.log ++ ((i, (filled d p).pending) ∷ []);
              dispatched = after;
              size = same ∙ size;
              full = All-append n w.log (i, (filled d p).pending) w.full (ground arith);
              room = rw empty (omega arith);
            })
        | inr part ↦ rw (round_part crc d p part) (record {
          log = w.log;
          dispatched = grown;
          size = size;
          full = w.full;
          room = ground (arith, length-append d.pending (take k p), length-take k p);
        })
      ]

  loop_next :
      (rounds b : ℕ) (p : List ℕ) (d : Dispatcher)
      → (write_loop crc (suc rounds) d (b ∷ p)).0 ≡ none
      → ((write_round crc d (b ∷ p)).0 ≡ none)
        × (write_loop crc (suc rounds) d (b ∷ p)
            ≡ write_loop crc rounds
                (write_round crc d (b ∷ p)).1
                (drop (to_copy d (b ∷ p)) (b ∷ p)))
  unfolding write_loop
  loop_next rounds b p d e = ground arith

  pub write_loop-IsWriting :
      (rounds : ℕ) (input : List ℕ) (d : Dispatcher) (p : List ℕ)
      → IsWriting crc n input d
      → (write_loop crc rounds d p).0 ≡ none
      → IsWriting crc n (input ++ p) (write_loop crc rounds d p).1
  write_loop-IsWriting rounds input d [] w e = unfold write_loop in (rw (append-nil input) w)
  write_loop-IsWriting zero input d (b ∷ p) w e = absurd (unfold write_loop in ground arith)
  write_loop-IsWriting (suc rounds) input d (b ∷ p) w e =
      let (ok, step) = loop_next rounds b p d e in
      let k = to_copy d (b ∷ p) in
      let after =
        write_loop-IsWriting rounds (input ++ take k (b ∷ p)) (write_round crc d (b ∷ p)).1
          (drop k (b ∷ p)) (write_round-IsWriting input d (b ∷ p) w ok)
          (sym (ap (λ r. r.0) step) ∙ e) in
      let same : (input ++ take k (b ∷ p)) ++ drop k (b ∷ p) ≡ input ++ (b ∷ p) =
        append_assoc input (take k (b ∷ p)) (drop k (b ∷ p))
        ∙ ap (λ t. input ++ t) (take-append-drop k (b ∷ p)) in
      rw (step, ← same) after

  -- A round fails as emitChunk does.
  round_failure : (d : Dispatcher) (p : List ℕ) → (write_round crc d p).0 ≢ some no_rounds
  round_failure d p e = elim (Bool-cases (length (filled d p).pending == d.chunk_size)) [
    | inl whole ↦
        emit_pending-failure crc (filled d p) (sym (ap (λ r. r.0) (round_full crc d p whole)) ∙ e)
    | inr part ↦ absurd (none≢some (sym (ap (λ r. r.0) (round_part crc d p part)) ∙ e))
  ]
    where
      none≢some : none ≡ some no_rounds → ⊥
      none≢some h = ground arith

  loop_failed :
      (rounds b : ℕ) (p : List ℕ) (d : Dispatcher) (f : Failure)
      → (write_round crc d (b ∷ p)).0 ≡ some f
      → (write_loop crc (suc rounds) d (b ∷ p)).0 ≡ some f
  unfolding write_loop
  loop_failed rounds b p d f e = ground arith

  loop_passed :
      (rounds b : ℕ) (p : List ℕ) (d : Dispatcher)
      → (write_round crc d (b ∷ p)).0 ≡ none
      → write_loop crc (suc rounds) d (b ∷ p)
        ≡ write_loop crc rounds (write_round crc d (b ∷ p)).1 (drop (to_copy d (b ∷ p)) (b ∷ p))
  unfolding write_loop
  loop_passed rounds b p d e = ground arith

  -- The loop of Write ends: each round takes a byte at least.
  write_loop_enough :
      (rounds : ℕ) (input : List ℕ) (d : Dispatcher) (p : List ℕ)
      → IsWriting crc n input d
      → length p ≤ rounds
      → (write_loop crc rounds d p).0 ≢ some no_rounds
  write_loop_enough rounds input d [] w enough e = unfold write_loop in absurd (ground arith)
  write_loop_enough zero input d (b ∷ p) w enough e = absurd (omega arith)
  write_loop_enough (suc rounds) input d (b ∷ p) w enough e =
      elim (Option-cases (write_round crc d (b ∷ p)).0) [
        | inr (f, failed) ↦
            round_failure d (b ∷ p) (failed ∙ (sym (loop_failed rounds b p d f failed) ∙ e))
        | inl ok ↦
            let size = w.size in
            let room = w.room in
            write_loop_enough rounds _ (write_round crc d (b ∷ p)).1
              (drop (to_copy d (b ∷ p)) (b ∷ p)) (write_round-IsWriting input d (b ∷ p) w ok)
              (omega (arith, length-drop (to_copy d (b ∷ p)) (b ∷ p)))
              (sym (ap (λ r. r.0) (loop_passed rounds b p d ok)) ∙ e)
      ]

  -- The rounds of the loop are enough. Whether a ring buffer has room is not asked here.
  pub write_returns :
      (input : List ℕ) (d : Dispatcher) (p : List ℕ)
      → IsWriting crc n input d
      → (write crc d p).0 ≢ some no_rounds
  unfolding write
  write_returns input d p w = write_loop_enough (length p) input d p w (omega arith)
