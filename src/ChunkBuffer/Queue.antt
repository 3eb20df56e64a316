-- ===== src/ChunkBuffer/Queue.antt =====
-- Runs of the buffer: what became of every chunk that went into it.
use n_backup.Prelude.{
  ℕ, ◌≡◌, refl, sym, ap, ◌∙◌, arith, Bool, true, false, List, [], ◌∷◌, ◌++◌, append_assoc, none,
  some, ◌⊎◌, inl, inr, All,
}
use n_backup.Assembler.System.{contains}
use n_backup.ChunkBuffer.Defs.{Slot, ChunkBuffer, Tried, stored, session_aborted, gave_up, drained}
use n_backup.ChunkBuffer.System.{System, settle}
use n_backup.ChunkBuffer.Counts.{IsCounted, drained-IsCounted}

-- What the drainer and the channel still have, the oldest first.
abbrev pub undone : ChunkBuffer → List Slot
undone cb = elim cb.draining [ none ↦ cb.slots | some slot ↦ slot ∷ cb.slots ]

-- A slot that the drainer is done with was written, or its session is marked.
abbrev pub IsSettled : ChunkBuffer → Slot × Bool → Type 0
IsSettled cb e =
    (e.1 ≡ true)
    ⊎ ((contains e.0.session cb.failed_sessions ≡ true)
        ⊎ (contains e.0.session cb.aborted_sessions ≡ true))

abbrev pub slots_of : List (Slot × Bool) → List Slot
slots_of [] = []
slots_of (e ∷ es) = e.0 ∷ slots_of es

-- The counters are exact and bounded, the slots leave in the order in which they came, and none of them
-- is lost silently.
pub record IsSound {ℓ} {A : Type ℓ} (sys : System A) : Type 0 where
  pub counted : IsCounted sys.buffer
  pub fifo : sys.queued ≡ slots_of sys.done ++ undone sys.buffer
  pub settled : All (IsSettled sys.buffer) sys.done

slots_of-append :
    (xs : List (Slot × Bool)) (e : Slot × Bool)
    → slots_of (xs ++ (e ∷ [])) ≡ slots_of xs ++ (e.0 ∷ [])
slots_of-append [] e = refl
slots_of-append (x ∷ xs) e = ap (λ l. x.0 ∷ l) (slots_of-append xs e)

-- Marks are not taken back.
pub All-IsSettled :
    (cb cb' : ChunkBuffer) (es : List (Slot × Bool))
    → ((s : ℕ) → contains s cb.failed_sessions ≡ true → contains s cb'.failed_sessions ≡ true)
    → ((s : ℕ) → contains s cb.aborted_sessions ≡ true → contains s cb'.aborted_sessions ≡ true)
    → All (IsSettled cb) es
    → All (IsSettled cb') es
All-IsSettled cb cb' [] f a h = tt
All-IsSettled cb cb' (e ∷ es) f a (h, hs) = (
  elim h [
    | inl written ↦ inl written
    | inr (inl failed) ↦ inr (inl (f e.0.session failed))
    | inr (inr aborted) ↦ inr (inr (a e.0.session aborted))
  ],
  All-IsSettled cb cb' es f a hs,
)

All-IsSettled-append :
    (cb : ChunkBuffer) (es : List (Slot × Bool)) (e : Slot × Bool)
    → All (IsSettled cb) es
    → IsSettled cb e
    → All (IsSettled cb) (es ++ (e ∷ []))
All-IsSettled-append cb [] e hs h = (h, tt)
All-IsSettled-append cb (x ∷ es) e (hx, hs) h = (hx, All-IsSettled-append cb es e hs h)

pub contains-cons : (s t : ℕ) (l : List ℕ) → contains s l ≡ true → contains s (t ∷ l) ≡ true
unfolding contains
contains-cons s t l h = ground arith

contains_head : (s : ℕ) (l : List ℕ) → contains s (s ∷ l) ≡ true
unfolding contains
contains_head s l = ground arith

module _ {ℓ} {A : Type ℓ} (write : A → ℕ → List ℕ → Bool → Bool × A) (due : ℕ → ℕ → Bool) where
  -- The drainer is done with its slot, and what it leaves marks the session if it did not write.
  pub done-IsSound :
      (sys : System A) (slot : Slot) (w : Bool) (cb : ChunkBuffer) (store : ℕ → A)
      → IsSound sys
      → sys.buffer.draining ≡ some slot
      → IsCounted cb
      → cb.draining ≡ some slot
      → cb.slots ≡ sys.buffer.slots
      → ((s : ℕ)
          → contains s sys.buffer.failed_sessions ≡ true
          → contains s cb.failed_sessions ≡ true)
      → ((s : ℕ)
          → contains s sys.buffer.aborted_sessions ≡ true
          → contains s cb.aborted_sessions ≡ true)
      → IsSettled cb (slot, w)
      → IsSound (record sys {
        buffer = drained cb slot;
        store = store;
        done = sys.done ++ ((slot, w) ∷ []);
      })
  done-IsSound sys slot w cb store v busy counted busy' same f a it = record {
    counted = drained-IsCounted cb slot counted busy';
    fifo =
        v.fifo
        ∙ (ap
              (λ d.
                slots_of sys.done
                ++ (elim d [ none ↦ sys.buffer.slots | some x ↦ x ∷ sys.buffer.slots ]))
              busy
            ∙ (sym (append_assoc (slots_of sys.done) (slot ∷ []) sys.buffer.slots)
                ∙ (ap (λ l. l ++ sys.buffer.slots) (sym (slots_of-append sys.done (slot, w)))
                    ∙ ap (λ l. slots_of (sys.done ++ ((slot, w) ∷ [])) ++ l)
                        (sym same ∙ (unfold drained in refl)))));
    settled =
        (unfold drained in
          All-IsSettled-append cb sys.done (slot, w)
            (All-IsSettled sys.buffer cb sys.done f a v.settled) it);
  }

  pub settle-IsSound :
      (sys : System A) (slot : Slot) (end : Tried) (a : A)
      → IsSound sys
      → sys.buffer.draining ≡ some slot
      → IsSound (settle write due sys slot end a)
  unfolding settle
  settle-IsSound sys slot stored a v busy =
      done-IsSound sys slot true sys.buffer _ v busy v.counted busy refl (λ s h. h) (λ s h. h)
        (inl refl)
  settle-IsSound sys slot session_aborted a v busy =
      done-IsSound sys slot false
        (record sys.buffer { aborted_sessions = slot.session ∷ sys.buffer.aborted_sessions }) _ v
        busy
        (record {
          total = v.counted.total;
          sessions = v.counted.sessions;
          fits = v.counted.fits;
          room = v.counted.room;
          one_slot = v.counted.one_slot;
        })
        busy refl (λ s h. h) (λ s h. contains-cons s slot.session sys.buffer.aborted_sessions h)
        (inr (inr (contains_head slot.session sys.buffer.aborted_sessions)))
  settle-IsSound sys slot gave_up a v busy =
      done-IsSound sys slot false
        (record sys.buffer { failed_sessions = slot.session ∷ sys.buffer.failed_sessions }) _ v busy
        (record {
          total = v.counted.total;
          sessions = v.counted.sessions;
          fits = v.counted.fits;
          room = v.counted.room;
          one_slot = v.counted.one_slot;
        })
        busy refl (λ s h. contains-cons s slot.session sys.buffer.failed_sessions h) (λ s h. h)
        (inr (inl (contains_head slot.session sys.buffer.failed_sessions)))
