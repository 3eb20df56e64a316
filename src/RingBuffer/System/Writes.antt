-- ===== src/RingBuffer/System/Writes.antt =====
-- What the loop of `Write` achieves over every interleaving.
use n_backup.Prelude.{
  ℕ, ◌+◌, ◌≤◌, ◌<◌, ◌≡◌, refl, arith, false, ◌||◌, List, [], ◌∷◌, ◌++◌, length, take, drop, leb,
  ltb, if◌then◌else◌, append_assoc, length-drop, take-append_take, Bool-cases, ◌⊎◌, inl, inr,
}
use n_backup.RingBuffer.{
  RingBuffer, WriteStep, wait, write_closed, wrote, write_step, advance, close,
}
use n_backup.RingBuffer.Content.{Holds, advance-Holds, close-Holds}
use n_backup.RingBuffer.Write.{WriteOutcome, write_step_lem}
use n_backup.RingBuffer.System.{Turn, writer, ack, shut, Call, write_round, turn, run}

-- A call of `Write(p)` has put exactly the first `written` bytes of `p` behind what was there.
pub record IsPrefixWritten (before p : List ℕ) (c : Call) : Type 0 where
  pub bounded : c.written ≤ length p
  pub content : Holds (before ++ take c.written p) c.ring

-- The greatest offset that is acknowledged, or `b`.
unfoldable pub acked : ℕ → List Turn → ℕ
acked b [] = b
acked b (writer ∷ ts) = acked b ts
acked b (ack offset ∷ ts) = acked (if ltb b offset then offset else b) ts
acked b (shut ∷ ts) = acked b ts

write_step-tail :
    (rb : RingBuffer) (p : List ℕ) (n : ℕ) (rb' : RingBuffer)
    → write_step rb p ≡ wrote n rb'
    → rb'.tail ≡ rb.tail
unfolding write_step
write_step-tail rb p n rb' e = ground arith

turn-tail : (p : List ℕ) (c : Call) → (turn p c writer).ring.tail ≡ c.ring.tail
unfolding turn
turn-tail p c = elim (Bool-cases (leb (length p) c.written || c.failed)) [
  | inl over ↦ rw over refl
  | inr more ↦
      rw more
        (by_step (write_step c.ring (drop c.written p)) (write_step-tail c.ring (drop c.written p)))
]
  where
    by_step :
        (s : WriteStep)
        → ((n : ℕ) (rb : RingBuffer) → s ≡ wrote n rb → rb.tail ≡ c.ring.tail)
        → (write_round c s).ring.tail ≡ c.ring.tail
    by_step wait h = unfold write_round in refl
    by_step write_closed h = unfold write_round in refl
    by_step (wrote n rb) h = unfold write_round in h n rb refl

advance-tail :
    (rb : RingBuffer) (offset b : ℕ)
    → rb.tail ≤ b
    → (advance rb offset).tail ≤ (if ltb b offset then offset else b)
unfolding advance
advance-tail rb offset b le = ground arith

run-tail :
    (p : List ℕ) (ts : List Turn) (c : Call) (b : ℕ)
    → c.ring.tail ≤ b
    → (run p c ts).ring.tail ≤ acked b ts
unfolding run acked
run-tail p [] c b le = le
run-tail p (writer ∷ ts) c b le =
    run-tail p ts (turn p c writer) b (omega (arith, le, turn-tail p c))
run-tail p (ack offset ∷ ts) c b le =
    run-tail p ts (turn p c (ack offset)) (if ltb b offset then offset else b)
      (unfold turn in advance-tail c.ring offset b le)
run-tail p (shut ∷ ts) c b le =
    run-tail p ts (turn p c shut) b (unfold turn in shut_tail c.ring b le)
  where
    shut_tail : (rb : RingBuffer) (b : ℕ) → rb.tail ≤ b → (close rb).tail ≤ b
    shut_tail rb b le = unfold close in le

module _ (before p : List ℕ) where
  write_round-IsPrefixWritten :
      (c : Call) (s : WriteStep)
      → IsPrefixWritten before p c
      → WriteOutcome (before ++ take c.written p) c.ring (drop c.written p) s
      → IsPrefixWritten before p (write_round c s)
  unfolding write_round
  write_round-IsPrefixWritten c wait v o = v
  write_round-IsPrefixWritten c write_closed v o = record {
    bounded = v.bounded;
    content = v.content;
  }
  write_round-IsPrefixWritten c (wrote n rb) v o = record {
    bounded = omega (arith, length-drop c.written p);
    content =
        let e : take c.written p ++ take n (drop c.written p) ≡ take (c.written + n) p =
          take-append_take c.written n (c.written + n) p refl in
        rw (append_assoc, e) at o.5;
  }

  turn-IsPrefixWritten :
      (c : Call) (t : Turn) → IsPrefixWritten before p c → IsPrefixWritten before p (turn p c t)
  unfolding turn
  turn-IsPrefixWritten c writer v = elim (Bool-cases (leb (length p) c.written || c.failed)) [
    | inl over ↦ rw over v
    | inr more ↦
        let left : 0 < length (drop c.written p) = ground (arith, length-drop c.written p) in
        rw more (
          write_round-IsPrefixWritten c (write_step c.ring (drop c.written p)) v
            (write_step_lem _ c.ring (drop c.written p) v.content left))
  ]
  turn-IsPrefixWritten c (ack offset) v = record {
    bounded = v.bounded;
    content = advance-Holds _ c.ring offset v.content;
  }
  turn-IsPrefixWritten c shut v = record {
    bounded = v.bounded;
    content = close-Holds _ c.ring v.content;
  }

  content_kept :
      (ts : List Turn) (c : Call)
      → IsPrefixWritten before p c
      → IsPrefixWritten before p (run p c ts)
  unfolding run
  content_kept [] c v = v
  content_kept (t ∷ ts) c v = content_kept ts (turn p c t) (turn-IsPrefixWritten c t v)

  -- However the turns fall, a call of `Write` appends a prefix of its bytes, in order, and the
  -- buffer still holds every byte at or past the greatest offset that was acknowledged or, if that is
  -- greater, the tail at the start.
  pub run-IsPrefixWritten :
      (ts : List Turn) (c : Call)
      → IsPrefixWritten before p c
      → IsPrefixWritten before p (run p c ts) × ((run p c ts).ring.tail ≤ acked c.ring.tail ts)
  run-IsPrefixWritten ts c v = (content_kept ts c v, run-tail p ts c c.ring.tail (omega arith))

-- A turn of the writer over an open buffer with room, and what is left of the call.
record Moves (p : List ℕ) (c d : Call) : Type 0 where
  still_open : d.ring.closed ≡ false
  unfailed : d.failed ≡ false
  onward : (c.written < d.written) ⊎ (length p ≤ d.written)

-- Each acknowledgement is past the one before.
abbrev pub IsIncreasing : ℕ → List ℕ → Type 0
IsIncreasing b [] = Unit {0}
IsIncreasing b (offset ∷ offsets) = (b < offset) × IsIncreasing offset offsets

-- The server acknowledges an offset, then the writer has its turn; for each of the offsets.
unfoldable pub rounds : List ℕ → List Turn
rounds [] = []
rounds (offset ∷ offsets) = ack offset ∷ writer ∷ rounds offsets
