-- ===== src/ChunkBuffer/Flush.antt =====
-- What holds of every run, and what a Flush that returns nil adds to it.
use n_backup.Prelude.{ℕ, ◌≡◌, true, List, ◌++◌, length, All}
use n_backup.ChunkBuffer.Defs.{Slot, ChunkBuffer}
use n_backup.ChunkBuffer.System.{System}
use n_backup.ChunkBuffer.Queue.{undone, slots_of}

-- No bytes of a session.
abbrev pub IsEmptyFor : ℕ → List Slot → Type 0
IsEmptyFor s slots = All (λ slot. slot.session ≡ s → length slot.chunk ≡ 0) slots

-- What a Flush of a session promises: all that the session had put into the channel is written, but
-- for chunks without bytes, and none of it is on its way.
pub record IsComplete {ℓ} {A : Type ℓ} (s : ℕ) (sys : System A) : Type 0 where
  pub split : sys.queued ≡ slots_of sys.done ++ undone sys.buffer
  pub written : All (λ e. e.0.session ≡ s → e.1 ≡ true) sys.done
  pub none_left : IsEmptyFor s (undone sys.buffer)
  pub none_waits : IsEmptyFor s sys.buffer.waiting
