-- ===== src/Sender/Retries.antt =====
-- How often the sender of a stream tries again.
use n_backup.Prelude.{
  ℕ, ◌+◌, ◌≤◌, ◌<◌, ◌≡◌, refl, ap, ◌∙◌, ◌⊎◌, inl, inr, arith, true, false, List, [], ◌∷◌, ◌++◌,
  length, All, none, some, lt_or_ge, leb,
}
use n_backup.RingBuffer.{RingBuffer, read_closed}
use n_backup.RingBuffer.System.{partial}
use n_backup.Sender.{frame_read, not_read, read_chunk_frame, Wrote, write_failed, write_frame}
use n_backup.Sender.Loop.{
  max_retries_per_stream, SenderEnd, max_retries_exceeded, Sending, Turn, die_with, retry_turn,
  wait_for_final_drain, write_turn, sender_turn, sender_turns,
}

-- A turn whose write fails at its first call, whose connection cannot be made again, and in which no
-- acknowledgement comes.
pub record IsFailing (t : Turn) : Type 0 where
  pub call : Wrote
  pub calls : List Wrote
  pub wrote : t.wrote ≡ call ∷ calls
  pub failed : call.failed ≡ true
  pub not_drained : t.drained ≡ false
  pub not_aborted : t.aborted ≡ false
  pub not_reconnected : t.reconnected ≡ none

-- `n` more failures.
pub record IsRetried (n : ℕ) (s s' : Sending) : Type 0 where
  pub goes_on : s'.ended ≡ none
  pub counted : s'.retries ≡ s.retries + n
  pub rb : s'.rb ≡ s.rb
  pub ledger : s'.ledger ≡ s.ledger
  pub dead : s'.dead ≡ s.dead

pub record IsGivenUp (s' : Sending) : Type 0 where
  pub ended : s'.ended ≡ some max_retries_exceeded
  pub dead : s'.dead ≡ true
  pub inactive : s'.active ≡ false

module _ (chunk_size chunks_per_cycle : ℕ) where
  -- The sender has a frame to send, or waits for the last acknowledgement.
  abbrev pub IsBusy : RingBuffer → ℕ → Type 0
  IsBusy rb offset =
      ((b : ℕ) × (frame : List ℕ) × (read_chunk_frame chunk_size (rb ∷ []) (rb ∷ []) offset
          ≡ frame_read (b ∷ frame)))
      ⊎ ((bytes : List ℕ) × (read_chunk_frame chunk_size (rb ∷ []) (rb ∷ []) offset
            ≡ not_read (partial bytes read_closed))
          × (rb.tail < rb.head))

  retried :
      (t : Turn) (s : Sending)
      → IsFailing t
      → s.retries < 5
      → retry_turn chunk_size chunks_per_cycle t s ≡ record s { retries = s.retries + 1 }
  unfolding retry_turn
  retried t s v lt = simp (lt→leb s.retries lt, v.not_aborted, v.not_reconnected) refl
    where
      lt→leb : (n : ℕ) → n < 5 → leb 5 n ≡ false
      lt→leb n h = ground arith

  given_up :
      (t : Turn) (s : Sending)
      → 5 ≤ s.retries
      → retry_turn chunk_size chunks_per_cycle t s ≡ die_with max_retries_exceeded s
  unfolding retry_turn
  given_up t s le = simp (ge→leb s.retries le) refl
    where
      ge→leb : (n : ℕ) → 5 ≤ n → leb 5 n ≡ true
      ge→leb n h = ground arith

  waited :
      (t : Turn) (s : Sending)
      → IsFailing t
      → s.ended ≡ none
      → s.rb.tail < s.rb.head
      → wait_for_final_drain chunk_size chunks_per_cycle t s
        ≡ retry_turn chunk_size chunks_per_cycle t s
  unfolding wait_for_final_drain
  waited t s v e lt = elim (lt_or_ge s.retries 5) [
    | inl few ↦ ground (arith, retried t s v few, v.not_drained, v.not_aborted)
    | inr many ↦ unfold die_with in ground (arith, given_up t s many, v.not_drained, v.not_aborted)
  ]

  failing :
      (t : Turn) (b : ℕ) (frame : List ℕ)
      → IsFailing t
      → (write_frame t.wrote (b ∷ frame)).0 ≡ write_failed
  failing t b frame v =
      ap (λ ws. (write_frame ws (b ∷ frame)).0) v.wrote ∙ first v.call v.calls v.failed
    where
      first :
          (w : Wrote) (ws : List Wrote)
          → w.failed ≡ true
          → (write_frame (w ∷ ws) (b ∷ frame)).0 ≡ write_failed
      first w ws h = unfold write_frame in ground arith

  write_failing :
      (t : Turn) (frame : List ℕ) (s : Sending)
      → (write_frame t.wrote frame).0 ≡ write_failed
      → write_turn chunk_size chunks_per_cycle t frame s
        ≡ retry_turn chunk_size chunks_per_cycle t
            (record s { sent = s.sent ++ (write_frame t.wrote frame).1 })
  unfolding write_turn
  write_failing t frame s e = rw (e, write_turn) refl

  pub turn_frame :
      (t : Turn) (frame : List ℕ) (s : Sending)
      → s.ended ≡ none
      → read_chunk_frame chunk_size (s.rb ∷ []) (s.rb ∷ []) s.ledger.send_offset ≡ frame_read frame
      → sender_turn chunk_size chunks_per_cycle t s
        ≡ write_turn chunk_size chunks_per_cycle t frame s
  unfolding sender_turn
  turn_frame t frame s e ready = ground arith

  pub turn_closed :
      (t : Turn) (bytes : List ℕ) (s : Sending)
      → s.ended ≡ none
      → read_chunk_frame chunk_size (s.rb ∷ []) (s.rb ∷ []) s.ledger.send_offset
        ≡ not_read (partial bytes read_closed)
      → sender_turn chunk_size chunks_per_cycle t s
        ≡ wait_for_final_drain chunk_size chunks_per_cycle t s
  unfolding sender_turn
  turn_closed t bytes s e ready = ground arith

  turn_lem :
      (t : Turn) (s : Sending)
      → IsFailing t
      → s.ended ≡ none
      → IsBusy s.rb s.ledger.send_offset
      → (out : List ℕ) × (sender_turn chunk_size chunks_per_cycle t s
          ≡ retry_turn chunk_size chunks_per_cycle t (record s { sent = out }))
  turn_lem t s v e (inl (b, frame, ready)) = (
    s.sent ++ (write_frame t.wrote (b ∷ frame)).1,
    turn_frame t (b ∷ frame) s e ready ∙ write_failing t (b ∷ frame) s (failing t b frame v),
  )
  turn_lem t s v e (inr (bytes, ready, lt)) =
      (s.sent, turn_closed t bytes s e ready ∙ waited t s v e lt)

  pub ended_stays :
      (ts : List Turn) (s : Sending) (why : SenderEnd)
      → s.ended ≡ some why
      → sender_turns chunk_size chunks_per_cycle ts s ≡ s
  unfolding sender_turns
  ended_stays [] s why e = refl
  ended_stays (t ∷ ts) s why e = rw (turn_ended t s e) (ended_stays ts s why e)
    where
      turn_ended :
          (t : Turn) (s : Sending)
          → s.ended ≡ some why
          → sender_turn chunk_size chunks_per_cycle t s ≡ s
      turn_ended t s e = unfold sender_turn in ground arith

  -- The sender has something to send or to wait for, and turns follow in which the write fails, the
  -- connection cannot be made again and no acknowledgement comes. While the failures in a row are at most
  -- five, the sender goes on, with nothing given up or skipped; with the sixth it ends with an error, and
  -- its stream is dead and not active, whatever comes behind.
  pub sender_turns-IsRetried :
      (ts : List Turn) (s : Sending)
      → All IsFailing ts
      → s.ended ≡ none
      → s.retries ≤ max_retries_per_stream
      → IsBusy s.rb s.ledger.send_offset
      → let s' = sender_turns chunk_size chunks_per_cycle ts s in
        (s.retries + length ts ≤ max_retries_per_stream → IsRetried (length ts) s s')
        × (max_retries_per_stream < s.retries + length ts → IsGivenUp s')
  unfolding sender_turns
  sender_turns-IsRetried [] s v e le busy = (
    λ h. record { goes_on = e; counted = omega arith; rb = refl; ledger = refl; dead = refl },
    λ h. absurd (omega arith),
  )
  sender_turns-IsRetried (t ∷ ts) s (v, vs) e le busy =
      let (out, step) = turn_lem t s v e busy in
      elim (lt_or_ge s.retries 5) [
        | inl few ↦
            let next = record s { sent = out; retries = s.retries + 1 } in
            let (more, last) = sender_turns-IsRetried ts next vs e (omega arith) busy in
            rw (step ∙ retried t (record s { sent = out }) v few) (
              λ h.
                  let r = more (omega arith) in
                  record {
                    goes_on = r.goes_on;
                    counted = omega (arith, r.counted);
                    rb = r.rb;
                    ledger = r.ledger;
                    dead = r.dead;
                  },
              λ h. last (omega arith),
            )
        | inr many ↦ rw (step ∙ given_up t (record s { sent = out }) many) (
          λ h. absurd (omega arith),
          λ h.
              unfold die_with in
              rw
                (ended_stays ts (die_with max_retries_exceeded (record s { sent = out }))
                  max_retries_exceeded refl)
                (record { ended = refl; dead = refl; inactive = refl }),
        )
      ]
