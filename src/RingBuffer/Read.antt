-- ===== src/RingBuffer/Read.antt =====
-- One critical section of `ReadAt`: the bytes that it returns are those of the stream.
use n_backup.Prelude.{
  ℕ, ◌+◌, ◌-◌, ◌%◌, ◌≤◌, ◌<◌, ◌≡◌, arith, List, length, take, drop, get_elem?, length-take,
  length-drop, length-append, get_elem?-take, get_elem?-drop, get_elem?-append_left,
  get_elem?-append_right, list_ext, ◌∙◌, sym, min, refl, lt→ltb, ge→ltb, true, false,
}
use native.Mathlib.Nat.{mod-lt}
use native.Mathlib.Decide.{dec_lt}
use n_backup.RingBuffer.{
  RingBuffer, ReadStep, read_wait, offset_expired, read_closed, read, read_woken, read_at,
  get_chunk,
}
use n_backup.RingBuffer.Mod.{mod-add_cases}
use n_backup.RingBuffer.Content.{Holds}

module _ (stream : List ℕ) (rb : RingBuffer) (offset n : ℕ) (v : Holds stream rb)
    (kept : rb.tail ≤ offset) (ready : offset + n ≤ rb.head) where
  length-get_chunk : length (get_chunk rb offset n) ≡ n
  unfolding get_chunk
  length-get_chunk =
      let x = offset % rb.size in
      ground (
        arith,
        mod-lt offset v.pos,
        length-take n (drop x rb.buf),
        length-drop x rb.buf,
        length-append (drop x rb.buf) (take (n - (rb.size - x)) rb.buf),
        length-take (n - (rb.size - x)) rb.buf,
      )

  get_elem?-get_chunk :
      (i : ℕ)
      → i < n
      → get_elem? (get_chunk rb offset n) i ≡ get_elem? rb.buf ((offset + i) % rb.size)
  unfolding get_chunk
  get_elem?-get_chunk i hi =
      let x = offset % rb.size in
      let m = rb.size - x in
      ground (
        arith,
        mod-lt offset v.pos,
        mod-add_cases rb.size offset i v.pos,
        get_elem?-take n (drop x rb.buf) i hi,
        get_elem?-drop x rb.buf i (x + i),
        length-drop x rb.buf,
        get_elem?-append_left (drop x rb.buf) (take (n - m) rb.buf) i,
        get_elem?-append_right (drop x rb.buf) (take (n - m) rb.buf) i (i - m),
        get_elem?-take (n - m) rb.buf (i - m),
      )

  -- The two copies give a piece of the stream.
  pub get_chunk_lem : get_chunk rb offset n ≡ take n (drop offset stream)
  get_chunk_lem =
      list_ext (get_chunk rb offset n) (take n (drop offset stream))
        (omega (
          arith,
          length-get_chunk,
          length-take n (drop offset stream),
          length-drop offset stream,
          v.written,
        ))
        (λ i hi.
          let hn : i < n = omega (arith, length-get_chunk) in
          get_elem?-get_chunk i hn
          ∙ v.bytes (offset + i) (omega arith) (omega arith)
          ∙ sym (get_elem?-drop offset stream i (offset + i) refl)
          ∙ sym (get_elem?-take n (drop offset stream) i hn))

min_left : (a b : ℕ) → a ≤ b → min a b ≡ a
min_left a b h = omega arith

min_right : (a b : ℕ) → b ≤ a → min a b ≡ b
min_right a b h = omega arith

-- What `ReadAt(offset, p)` with len(p) = n gives over a buffer that holds a stream: which of its
-- answers, and for bytes which.
abbrev pub ReadOutcome : List ℕ → RingBuffer → ℕ → ℕ → ReadStep → Type 0
ReadOutcome stream rb offset n offset_expired = offset < rb.tail
ReadOutcome stream rb offset n read_wait = (rb.head ≤ offset) × (rb.closed ≡ false)
ReadOutcome stream rb offset n read_closed = (rb.head ≤ offset) × (rb.closed ≡ true)
ReadOutcome stream rb offset n (read bytes) =
    (rb.tail ≤ offset)
    × (offset < rb.head)
    × (bytes ≡ take (min n (rb.head - offset)) (drop offset stream))

-- After a wait `ReadAt` gives the stream's bytes, if the tail has not passed the offset meanwhile.
pub read_woken_lem :
    (stream : List ℕ) (rb : RingBuffer) (offset n : ℕ)
    → Holds stream rb
    → rb.tail ≤ offset
    → ReadOutcome stream rb offset n (read_woken rb offset n)
unfolding read_woken
read_woken_lem stream rb offset n v kept = ground (
  arith,
  get_chunk_lem stream rb offset n v,
  get_chunk_lem stream rb offset (rb.head - offset) v,
  min_left n (rb.head - offset),
  min_right n (rb.head - offset),
)

-- `ReadAt` reports an expired offset exactly below the tail, waits or reports the closed buffer
-- only at or past the head, and else returns the stream's bytes from the offset on: as many as asked
-- for or, if fewer are written, all of those, also where the window wraps round the end.
pub read_at_lem :
    (stream : List ℕ) (rb : RingBuffer) (offset n : ℕ)
    → Holds stream rb
    → ReadOutcome stream rb offset n (read_at rb offset n)
unfolding read_at
read_at_lem stream rb offset n v = elim (dec_lt offset rb.tail) [
  | yes p ↦ rw (lt→ltb offset rb.tail p) p
  | no p ↦
      rw (ge→ltb offset rb.tail (omega arith)) (read_woken_lem stream rb offset n v (omega arith))
]
