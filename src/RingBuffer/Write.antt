-- ===== src/RingBuffer/Write.antt =====
-- One critical section of `Write`: what lands in the buffer, and that nothing unread is lost.
use n_backup.Prelude.{
  ℕ, ◌+◌, ◌-◌, ◌%◌, ◌≤◌, ◌<◌, ◌≡◌, ◌≢◌, inl, inr, arith, List, ◌++◌, length, take, drop, get_elem?,
  Bool-cases, copy_at, length-copy_at, get_elem?-copy_at_in, get_elem?-copy_at_out, length-take,
  length-drop, get_elem?-take, get_elem?-drop, get_elem?-append_left, get_elem?-append_right,
  length-append, ap, sym, refl, ◌∙◌, min, true, false,
}
use native.Mathlib.Nat.{mod-lt}
use native.Mathlib.Decide.{dec_lt, ℕ_discrete}
use n_backup.RingBuffer.{
  RingBuffer, WriteStep, wait, write_closed, wrote, write_step, chunk_size, put_chunk, available,
}
use n_backup.RingBuffer.Mod.{mod-add_cases, mod-sub_cases}
use n_backup.RingBuffer.Content.{Holds}

pub length-put_chunk :
    (rb : RingBuffer) (chunk : List ℕ) → length (put_chunk rb chunk) ≡ length rb.buf
unfolding put_chunk
length-put_chunk rb chunk =
    let n = rb.size - rb.head % rb.size in
    ground (
      arith,
      length-copy_at rb.buf (rb.head % rb.size) chunk,
      length-copy_at rb.buf (rb.head % rb.size) (take n chunk),
      length-copy_at (copy_at rb.buf (rb.head % rb.size) (take n chunk)) 0 (drop n chunk),
    )

-- The buffer with the chunk behind all that it holds.
abbrev append_chunk : RingBuffer → List ℕ → ℕ → RingBuffer
append_chunk rb chunk n = record rb { buf = put_chunk rb chunk; head = rb.head + n }

module _ (stream : List ℕ) (rb : RingBuffer) (chunk : List ℕ) (v : Holds stream rb)
    (small : length chunk ≤ available rb) where
  -- The new bytes are where their offsets say.
  pub put_chunk_new :
      (i : ℕ)
      → i < length chunk
      → get_elem? (put_chunk rb chunk) ((rb.head + i) % rb.size) ≡ get_elem? chunk i
  unfolding put_chunk
  put_chunk_new i hi =
      let x = rb.head % rb.size in
      let n = rb.size - x in
      let first : List ℕ = take n chunk in
      let once : List ℕ = copy_at rb.buf x first in
      ground (
        arith,
        mod-lt rb.head v.pos,
        mod-add_cases rb.size rb.head i v.pos,
        get_elem?-copy_at_in rb.buf x chunk i (x + i),
        get_elem?-copy_at_out once 0 (drop n chunk) (x + i),
        get_elem?-copy_at_in rb.buf x first i (x + i),
        get_elem?-take n chunk i,
        get_elem?-copy_at_in once 0 (drop n chunk) (i - n) (i - n),
        get_elem?-drop n chunk (i - n) i,
        length-copy_at rb.buf x first,
        length-take n chunk,
        length-drop n chunk,
      )

  -- No byte between the tail and the head is touched.
  pub put_chunk_old :
      (k : ℕ)
      → rb.tail ≤ k
      → k < rb.head
      → get_elem? (put_chunk rb chunk) (k % rb.size) ≡ get_elem? rb.buf (k % rb.size)
  unfolding put_chunk
  put_chunk_old k lo hi =
      let x = rb.head % rb.size in
      let n = rb.size - x in
      let y = k % rb.size in
      let first : List ℕ = take n chunk in
      ground (
        arith,
        mod-lt rb.head v.pos,
        mod-sub_cases rb.size k rb.head v.pos,
        get_elem?-copy_at_out rb.buf x chunk y,
        get_elem?-copy_at_out rb.buf x first y,
        get_elem?-copy_at_out (copy_at rb.buf x first) 0 (drop n chunk) y,
        length-take n chunk,
        length-drop n chunk,
      )

  append_chunk-Holds :
      (n : ℕ) → n ≡ length chunk → Holds (stream ++ chunk) (append_chunk rb chunk n)
  append_chunk-Holds n e = record {
    pos = v.pos;
    room = length-put_chunk rb chunk ∙ v.room;
    written = omega (arith, length-append stream chunk, v.written);
    ordered = omega (arith, v.ordered);
    fits = omega (arith, v.fits, v.ordered);
    bytes = λ k lo hi. elim (dec_lt k rb.head) [
      | yes old ↦
          put_chunk_old k lo old
          ∙ v.bytes k lo old
          ∙ sym (get_elem?-append_left stream chunk k (omega (arith, v.written)))
      | no new ↦
          let i = k - rb.head in
          let at : rb.head + i ≡ k = omega arith in
          ap (λ (j : ℕ). get_elem? (put_chunk rb chunk) (j % rb.size)) (sym at)
          ∙ put_chunk_new i (omega arith)
          ∙ sym (get_elem?-append_right stream chunk k i (omega (arith, v.written)))
    ];
  }

-- What one critical section of `Write` may do with the bytes `p` that are left.
abbrev pub WriteOutcome : List ℕ → RingBuffer → List ℕ → WriteStep → Type 0
WriteOutcome stream rb p wait = (available rb ≡ 0) × (rb.closed ≡ false)
WriteOutcome stream rb p write_closed = rb.closed ≡ true
WriteOutcome stream rb p (wrote n rb') =
    (n ≡ min (length p) (available rb))
    × (0 < n)
    × (rb.closed ≡ false)
    × (rb'.tail ≡ rb.tail)
    × (rb'.closed ≡ false)
    × Holds (stream ++ take n p) rb'

chunk_size-min : (rb : RingBuffer) (p : List ℕ) → chunk_size rb p ≡ min (length p) (available rb)
unfolding chunk_size
chunk_size-min rb p = ground arith

write_step_shut : (rb : RingBuffer) (p : List ℕ) → rb.closed ≡ true → write_step rb p ≡ write_closed
unfolding write_step
write_step_shut rb p shut = ground arith

write_step_full :
    (rb : RingBuffer) (p : List ℕ) → rb.closed ≡ false → available rb ≡ 0 → write_step rb p ≡ wait
unfolding write_step
write_step_full rb p open_ full = ground arith

write_step_open :
    (rb : RingBuffer) (p : List ℕ)
    → rb.closed ≡ false
    → available rb ≢ 0
    → write_step rb p
      ≡ wrote (chunk_size rb p) (append_chunk rb (take (chunk_size rb p) p) (chunk_size rb p))
unfolding write_step
write_step_open rb p open_ free = ground arith

-- A critical section of `Write` with bytes left to write waits exactly when the buffer is full and
-- open, fails exactly when it is closed, and otherwise appends as many of the bytes as fit, at least
-- one, behind all that is held.
pub write_step_lem :
    (stream : List ℕ) (rb : RingBuffer) (p : List ℕ)
    → Holds stream rb
    → 0 < length p
    → WriteOutcome stream rb p (write_step rb p)
write_step_lem stream rb p v pos = elim (Bool-cases rb.closed) [
  | inl shut ↦ rw (write_step_shut rb p shut) shut
  | inr open_ ↦ elim (ℕ_discrete (available rb) 0) [
    | yes full ↦ rw (write_step_full rb p open_ full) (full, open_)
    | no free ↦
        let n = chunk_size rb p in
        let fit : n ≡ min (length p) (available rb) = chunk_size-min rb p in
        let size : n ≡ length (take n p) = omega (arith, length-take n p) in
        rw (write_step_open rb p open_ free) (
          fit,
          omega arith,
          open_,
          refl,
          open_,
          append_chunk-Holds stream rb (take n p) v (omega (arith, length-take n p)) n size,
        )
  ]
]
