-- ===== src/RingBuffer.antt =====
-- internal/agent/ringbuffer.go: the circular buffer between the producer of a backup stream and
-- its sender. Offsets are absolute positions in the stream (int64 counts of bytes, never negative).
-- A method that mutates the buffer returns the new one. `Write` and `ReadAt` hold the mutex for a
-- critical section and wait on a condition variable; one critical section is one function here,
-- which says when it would wait, and the modules below interleave them.
mod Mod
pub mod Content
pub mod Write
pub mod Read
pub mod System
mod Tests
use n_backup.Prelude.{ℕ, zero, suc, ◌+◌, ◌-◌, ◌%◌, Bool, true, false, not, ◌&&◌, ◌||◌}
use n_backup.Prelude.{List, [], ◌∷◌, ◌++◌, length, take, drop, replicate, copy_at}
use n_backup.Prelude.{ltb, leb, ◌==◌, if◌then◌else◌}

-- A byte is only moved, never computed with, so a byte is any number.
pub record RingBuffer : Type 0 where
  pub buf : List ℕ
  pub size : ℕ
  pub head : ℕ
  pub tail : ℕ
  pub closed : Bool

pub new_ring_buffer : ℕ → RingBuffer
new_ring_buffer size = record {
  buf = replicate size 0;
  size = size;
  head = 0;
  tail = 0;
  closed = false;
}

abbrev pub available : RingBuffer → ℕ
available rb = rb.size - (rb.head - rb.tail)

-- The two `copy` calls of `Write`, without and with a wrap.
pub put_chunk : RingBuffer → List ℕ → List ℕ
put_chunk rb chunk =
    let start = rb.head % rb.size in
    if leb (start + length chunk) rb.size
    then copy_at rb.buf start chunk
    else copy_at (copy_at rb.buf start (take (rb.size - start) chunk)) 0
        (drop (rb.size - start) chunk)

-- What one critical section of `Write` does with the bytes that are left: waits on `notFull`,
-- fails with ErrBufferClosed, or takes a number of them.
pub data WriteStep : Type 0 where
  wait : WriteStep
  write_closed : WriteStep
  wrote : ℕ → RingBuffer → WriteStep

-- How many of the bytes `p` fit.
pub chunk_size : RingBuffer → List ℕ → ℕ
chunk_size rb p = if ltb (available rb) (length p) then available rb else length p

pub write_step : RingBuffer → List ℕ → WriteStep
write_step rb p =
    if (available rb == 0) && not rb.closed
    then wait
    else if rb.closed
    then write_closed
    else let chunk = chunk_size rb p in
      wrote chunk (record rb { buf = put_chunk rb (take chunk p); head = rb.head + chunk })

-- What one critical section of `ReadAt` gives.
pub data ReadStep : Type 0 where
  read_wait : ReadStep
  offset_expired : ReadStep
  read_closed : ReadStep
  read : List ℕ → ReadStep

-- The two `copy` calls of `ReadAt`: the bytes that land in `p[:readable]`.
pub get_chunk : RingBuffer → ℕ → ℕ → List ℕ
get_chunk rb offset readable =
    let start = offset % rb.size in
    if leb (start + readable) rb.size
    then take readable (drop start rb.buf)
    else drop start rb.buf ++ take (readable - (rb.size - start)) rb.buf

-- `ReadAt` from its waiting loop on, where it also goes on when `notEmpty` wakes it: the check
-- against the tail is behind it. `n` is len(p).
pub read_woken : RingBuffer → ℕ → ℕ → ReadStep
read_woken rb offset n =
    if leb rb.head offset
    then (if rb.closed then read_closed else read_wait)
    else let readable = rb.head - offset in
      read (get_chunk rb offset (if ltb n readable then n else readable))

-- `ReadAt` from its entry on.
pub read_at : RingBuffer → ℕ → ℕ → ReadStep
read_at rb offset n = if ltb offset rb.tail then offset_expired else read_woken rb offset n

unfoldable pub advance : RingBuffer → ℕ → RingBuffer
advance rb offset =
    if ltb rb.tail offset
    then record rb { tail = if ltb rb.head offset then rb.head else offset }
    else rb

pub contains : RingBuffer → ℕ → Bool
contains rb offset = leb rb.tail offset && ltb offset rb.head

unfoldable pub contains_range : RingBuffer → ℕ → ℕ → Bool
contains_range rb offset len = leb rb.tail offset && leb (offset + len) rb.head

pub close : RingBuffer → RingBuffer
close rb = record rb { closed = true }
