-- ===== src/RingBuffer/System.antt =====
-- The loops of `Write` and `ReadFullAt` under the interleavings that the mutex allows: between two
-- critical sections of the writer the server may acknowledge and another goroutine may close.
pub mod Writes
pub mod Reads
use n_backup.Prelude.{
  ℕ, ◌+◌, ◌-◌, Bool, true, false, ◌||◌, List, [], ◌∷◌, ◌++◌, length, drop, leb, if◌then◌else◌,
}
use n_backup.RingBuffer.{
  RingBuffer, WriteStep, wait, write_closed, wrote, write_step, ReadStep, read_wait, offset_expired,
  read_closed, read, read_at, read_woken, advance, close,
}

-- Who gets the mutex next.
pub data Turn : Type 0 where
  writer : Turn
  ack : ℕ → Turn
  shut : Turn

-- A call of `Write(p)` on its way: `written` as in the source, and whether it has returned
-- ErrBufferClosed.
pub record Call : Type 0 where
  pub ring : RingBuffer
  pub written : ℕ
  pub failed : Bool

-- One round of `for written < len(p)`, for the critical section that it runs.
unfoldable pub write_round : Call → WriteStep → Call
write_round c wait = c
write_round c write_closed = record c { failed = true }
write_round c (wrote n rb) = record c { ring = rb; written = c.written + n }

unfoldable pub turn : List ℕ → Call → Turn → Call
turn p c writer =
    if leb (length p) c.written || c.failed
    then c
    else write_round c (write_step c.ring (drop c.written p))
turn p c (ack offset) = record c { ring = advance c.ring offset }
turn p c shut = record c { ring = close c.ring }

unfoldable pub run : List ℕ → Call → List Turn → Call
run p c [] = c
run p c (t ∷ ts) = run p (turn p c t) ts

-- What `ReadFullAt` returns: all the bytes, an error with those read before it, or nothing yet.
pub data ReadFull : Type 0 where
  full : List ℕ → ReadFull
  partial : List ℕ → ReadStep → ReadFull
  waiting : List ℕ → ReadFull

-- `ReadFullAt(offset, p)` with len(p) = n. The list holds the buffer as each critical section of the
-- loop finds it; `total` is what is read so far; `woken` is true inside a `ReadAt` that has waited.
pub read_full_at : List RingBuffer → ℕ → ℕ → List ℕ → Bool → ReadFull
read_full_at [] offset n total woken = if leb n (length total) then full total else waiting total
read_full_at (rb ∷ rbs) offset n total woken =
    if leb n (length total)
    then full total
    else elim (if woken
        then read_woken rb (offset + length total) (n - length total)
        else read_at rb (offset + length total) (n - length total)) [
          | read bytes ↦ read_full_at rbs offset n (total ++ bytes) false
          | read_wait ↦ read_full_at rbs offset n total true
          | offset_expired ↦ partial total offset_expired
          | read_closed ↦ partial total read_closed
        ]
