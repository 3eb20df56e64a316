-- ===== src/RingBuffer/Content.antt =====
-- The representation invariant: the window [tail, head) of the stream lies in the buffer, each byte
-- at its offset modulo the size.
use n_backup.Prelude.{ℕ, ◌+◌, ◌%◌, ◌≤◌, ◌<◌, ◌≡◌, arith, List, length, get_elem?}
use n_backup.Prelude.{ltb, Bool-cases, inl, inr}
use n_backup.RingBuffer.{RingBuffer, advance, close}

-- `stream` is all that was ever written, oldest first.
pub record Holds (stream : List ℕ) (rb : RingBuffer) : Type 0 where
  pub pos : 0 < rb.size
  pub room : length rb.buf ≡ rb.size
  pub written : length stream ≡ rb.head
  pub ordered : rb.tail ≤ rb.head
  pub fits : rb.head ≤ rb.tail + rb.size
  pub bytes :
      (k : ℕ) → rb.tail ≤ k → k < rb.head → get_elem? rb.buf (k % rb.size) ≡ get_elem? stream k

-- `Advance` only gives up a prefix of the window, whatever offset the server acknowledges.
pub advance-Holds :
    (stream : List ℕ) (rb : RingBuffer) (offset : ℕ)
    → Holds stream rb
    → Holds stream (advance rb offset)
unfolding advance
advance-Holds stream rb offset v = elim (Bool-cases (ltb rb.tail offset)) [
  | inl e ↦ rw e (record {
    pos = v.pos;
    room = v.room;
    written = v.written;
    ordered = ground arith;
    fits = ground arith;
    bytes = λ k lo hi. v.bytes k (ground arith) hi;
  })
  | inr e ↦ rw e v
]

pub close-Holds : (stream : List ℕ) (rb : RingBuffer) → Holds stream rb → Holds stream (close rb)
unfolding close
close-Holds stream rb v = record {
  pos = v.pos;
  room = v.room;
  written = v.written;
  ordered = v.ordered;
  fits = v.fits;
  bytes = v.bytes;
}
