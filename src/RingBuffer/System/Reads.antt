-- ===== src/RingBuffer/System/Reads.antt =====
-- What the loop of `ReadFullAt` returns, whatever happens between its critical sections.
use n_backup.Prelude.{
  ℕ, ◌+◌, ◌-◌, ◌≤◌, ◌<◌, ◌≡◌, refl, sym, ap, ◌∙◌, arith, Bool, true, false, List, [], ◌∷◌, ◌++◌,
  length, take, drop, leb, min, length-drop, length-append, length-take, take-append_take,
  take-drop_of_take, drop-drop, All, if◌then◌else◌, leb→le, Bool-cases, inl, inr,
}
use n_backup.RingBuffer.{
  RingBuffer, ReadStep, read_wait, offset_expired, read_closed, read, read_at, read_woken,
}
use n_backup.RingBuffer.Content.{Holds}
use n_backup.RingBuffer.Read.{ReadOutcome, read_at_lem, read_woken_lem}
use n_backup.RingBuffer.System.{ReadFull, full, partial, waiting, read_full_at}

-- A buffer as the reader may find it while `stream` is being written: it holds a prefix, and what
-- the reader still wants is not given up.
pub record IsSnapshot (stream : List ℕ) (offset : ℕ) (rb : RingBuffer) : Type 0 where
  pub holds : Holds (take rb.head stream) rb
  pub kept : rb.tail ≤ offset

-- The bytes of a result are the stream's, and a complete one has all that was asked for.
abbrev pub FullOutcome : List ℕ → ℕ → ℕ → ReadFull → Type 0
FullOutcome stream offset n (full total) = total ≡ take n (drop offset stream)
FullOutcome stream offset n (partial total why) =
    (total ≡ take (length total) (drop offset stream)) × (why ≡ read_closed)
FullOutcome stream offset n (waiting total) = total ≡ take (length total) (drop offset stream)

module _ (stream : List ℕ) (offset n : ℕ) where
  -- `total` is a prefix of what is wanted.
  abbrev IsTotal : List ℕ → Type 0
  IsTotal total = (total ≡ take (length total) (drop offset stream)) × (length total ≤ n)

  add_bytes :
      (rb : RingBuffer) (total bytes : List ℕ)
      → IsSnapshot stream offset rb
      → IsTotal total
      → ReadOutcome (take rb.head stream) rb (offset + length total) (n - length total) (read bytes)
      → IsTotal (total ++ bytes)
  add_bytes rb total bytes s t o = (whole, omega (arith, size, length-append total bytes, t.1))
    where
      from : ℕ
      from = offset + length total

      m : ℕ
      m = min (n - length total) (rb.head - from)

      size : length bytes ≡ m
      size = omega (
        arith,
        ap length o.2,
        length-take m (drop from (take rb.head stream)),
        length-drop from (take rb.head stream),
        s.holds.written,
      )

      piece : bytes ≡ take m (drop (length total) (drop offset stream))
      piece =
          o.2
          ∙ take-drop_of_take m from rb.head stream (omega (arith, o.1))
          ∙ ap (take m) (sym (drop-drop offset (length total) from stream refl))

      whole : total ++ bytes ≡ take (length (total ++ bytes)) (drop offset stream)
      whole = cc (
        t.0,
        piece,
        take-append_take (length total) m (length (total ++ bytes)) (drop offset stream)
            (omega (arith, size, length-append total bytes)),
      )

  -- One critical section, on entry or after a wait.
  abbrev section : RingBuffer → List ℕ → Bool → ReadStep
  section rb total woken =
      if woken
      then read_woken rb (offset + length total) (n - length total)
      else read_at rb (offset + length total) (n - length total)

  section_lem :
      (rb : RingBuffer) (total : List ℕ) (woken : Bool)
      → IsSnapshot stream offset rb
      → ReadOutcome
          (take rb.head stream)
          rb
          (offset + length total)
          (n - length total)
          (section rb total woken)
  section_lem rb total true s = read_woken_lem _ rb _ _ s.holds (omega (arith, s.kept))
  section_lem rb total false s = read_at_lem _ rb _ _ s.holds

  FullOutcome-full :
      (total : List ℕ)
      → IsTotal total
      → leb n (length total) ≡ true
      → total ≡ take n (drop offset stream)
  FullOutcome-full total t e =
      t.0 ∙ ap (λ (k : ℕ). take k (drop offset stream)) (omega (arith, leb→le _ _ e, t.1))

  -- Over every sequence of buffers that a `ReadFullAt` finds while a stream is written and its
  -- range kept, a result is full exactly of the range's bytes, and a partial or waiting one has a
  -- prefix of them; the only error is that of a closed buffer.
  pub read_full_at_lem :
      (rbs : List RingBuffer) (total : List ℕ) (woken : Bool)
      → All (IsSnapshot stream offset) rbs
      → IsTotal total
      → FullOutcome stream offset n (read_full_at rbs offset n total woken)
  unfolding read_full_at
  read_full_at_lem [] total woken a t = elim (Bool-cases (leb n (length total))) [
    | inl e ↦ rw e (FullOutcome-full total t e)
    | inr e ↦ rw e t.0
  ]
  read_full_at_lem (rb ∷ rbs) total woken a t = elim (Bool-cases (leb n (length total))) [
    | inl e ↦ rw e (FullOutcome-full total t e)
    | inr e ↦ rw e (
        after (λ more w t'. read_full_at_lem rbs more w a.1 t') (section rb total woken)
          (section_lem rb total woken a.0))
  ]
    where
      after :
          ((more : List ℕ) (w : Bool)
            → IsTotal more
            → FullOutcome stream offset n (read_full_at rbs offset n more w))
          → (s : ReadStep)
          → ReadOutcome (take rb.head stream) rb (offset + length total) (n - length total) s
          → FullOutcome stream offset n (elim s [
            | read bytes ↦ read_full_at rbs offset n (total ++ bytes) false
            | read_wait ↦ read_full_at rbs offset n total true
            | offset_expired ↦ partial total offset_expired
            | read_closed ↦ partial total read_closed
          ])
      after ih (read bytes) o = ih (total ++ bytes) false (add_bytes rb total bytes a.0 t o)
      after ih read_wait o = ih total true t
      after ih offset_expired o = absurd (omega (arith, a.0.kept))
      after ih read_closed o = (t.0, refl)

  read_full_at-done :
      (rbs : List RingBuffer) (total : List ℕ) (woken : Bool)
      → leb n (length total) ≡ true
      → read_full_at rbs offset n total woken ≡ full total
  unfolding read_full_at
  read_full_at-done [] total woken e = rw e
  read_full_at-done (rb ∷ rbs) total woken e = rw e

  -- `ReadFullAt` returns at once with all its bytes when they are written and kept.
  pub read_full_at-ready :
      (rb : RingBuffer) (rbs : List RingBuffer)
      → IsSnapshot stream offset rb
      → 0 < n
      → offset + n ≤ rb.head
      → read_full_at (rb ∷ rbs) offset n [] false ≡ full (take n (drop offset stream))
  unfolding read_full_at
  read_full_at-ready rb rbs s pos ready =
      rw (ge→leb n pos)
        (after (read_at rb (offset + 0) (n - 0)) (read_at_lem _ rb (offset + 0) (n - 0) s.holds))
    where
      ge→leb : (n : ℕ) → 0 < n → leb n 0 ≡ false
      ge→leb n h = ground arith

      after :
          (s : ReadStep)
          → ReadOutcome (take rb.head stream) rb (offset + 0) (n - 0) s
          → (elim s [
            | read bytes ↦ read_full_at rbs offset n bytes false
            | read_wait ↦ read_full_at rbs offset n [] true
            | offset_expired ↦ partial [] offset_expired
            | read_closed ↦ partial [] read_closed
          ])
            ≡ full (take n (drop offset stream))
      after (read bytes) o =
          let size : n ≤ length bytes = omega (
            arith,
            ap length o.2,
            length-take (min (n - 0) (rb.head - (offset + 0)))
                (drop (offset + 0) (take rb.head stream)),
            length-drop (offset + 0) (take rb.head stream),
            s.holds.written,
          ) in
          let e : leb n (length bytes) ≡ true = ground arith in
          read_full_at-done rbs bytes false e
          ∙ ap full (FullOutcome-full bytes (add_bytes rb [] bytes s (refl, omega arith) o) e)
      after read_wait o = absurd (omega arith)
      after offset_expired o = absurd (omega (arith, s.kept))
      after read_closed o = absurd (omega arith)

-- At the end of a closed ring buffer there is nothing to read.
pub read_full_at-closed :
    (rb : RingBuffer) (offset n : ℕ)
    → rb.closed ≡ true
    → rb.tail ≤ offset
    → rb.head ≤ offset
    → 0 < n
    → read_full_at (rb ∷ []) offset n [] false ≡ partial [] read_closed
unfolding read_full_at read_at read_woken
read_full_at-closed rb offset n closed kept done pos = ground arith
