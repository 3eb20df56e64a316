-- ===== src/ChunkBuffer/Runs.antt =====
-- Every run of the buffer, and what a Flush that returns nil says of one.
use n_backup.Prelude.{
  ◌≢◌, All, ℕ, ◌+◌, ◌≡◌, refl, sym, ap, ◌∙◌, arith, Bool, true, false, List, [], ◌∷◌, ◌++◌,
  append_assoc, length, get_elem?, Option, none, some, leb, ◌==◌, inl, inr, Bool-cases,
  Option-cases,
}
use n_backup.Assembler.System.{contains}
use n_backup.ChunkBuffer.Defs.{
  Slot, ChunkBuffer, new_chunk_buffer, channel_capacity, reserve, count, enqueue, time_out, give_up,
  take_slot, drained, count_drained, delete_counter, drain_slot_max_retries,
}
use n_backup.ChunkBuffer.System.{
  System, Event, pushes, counts, enqueues, times_out, gives_up, takes, finishes, settles, aborts,
  deletes, try_write, settle, drain_slot, push, enqueue_waiting, step, run, set_store,
}
use n_backup.ChunkBuffer.Counts.{
  bytes_of, IsCounted, reserve-some, reserve-IsCounted, count-IsCounted, enqueue-IsCounted,
  time_out-IsCounted, give_up-IsCounted, delete_counter-IsCounted, take_slot_lem,
  take_slot-IsCounted, count_drained-IsCounted,
}
use n_backup.ChunkBuffer.Queue.{
  undone, slots_of, IsSound, contains-cons, All-IsSettled, done-IsSound, settle-IsSound,
}

module _ {ℓ} {A : Type ℓ} (write : A → ℕ → List ℕ → Bool → Bool × A) (due : ℕ → ℕ → Bool) where
  push_reserved :
      (sys : System A) (slot : Slot) (disk : Bool) (cb : ChunkBuffer)
      → reserve sys.buffer slot ≡ some cb
      → push write due sys slot disk ≡ record sys { buffer = cb }
  unfolding push
  push_reserved sys slot disk cb e = ground arith

  push_fallback :
      (sys : System A) (slot : Slot) (disk : Bool)
      → reserve sys.buffer slot ≡ none
      → push write due sys slot disk ≡ record sys {
        buffer = record sys.buffer { total_fallbacks = sys.buffer.total_fallbacks + 1 };
        store =
            set_store write due slot.session
              (write (sys.store slot.session) slot.seq slot.chunk disk).1
              sys.store;
      }
  unfolding push
  push_fallback sys slot disk e = ground arith

  enqueue_full :
      (sys : System A) (i : ℕ) (slot : Slot)
      → leb sys.buffer.capacity (length sys.buffer.slots) ≡ true
      → enqueue_waiting write due sys i slot ≡ sys
  unfolding enqueue_waiting
  enqueue_full sys i slot e = ground arith

  enqueue_free :
      (sys : System A) (i : ℕ) (slot : Slot)
      → leb sys.buffer.capacity (length sys.buffer.slots) ≡ false
      → enqueue_waiting write due sys i slot
        ≡ record sys { buffer = enqueue due sys.buffer i slot; queued = sys.queued ++ (slot ∷ []) }
  unfolding enqueue_waiting
  enqueue_free sys i slot e = ground arith

  drain_marked :
      (sys : System A) (slot : Slot) (env : ℕ → Bool × Bool)
      → contains slot.session sys.buffer.aborted_sessions ≡ true
      → drain_slot write due sys slot env
        ≡ record sys { buffer = drained sys.buffer slot; done = sys.done ++ ((slot, false) ∷ []) }
  unfolding drain_slot
  drain_marked sys slot env e = ground arith

  drain_wanted :
      (sys : System A) (slot : Slot) (env : ℕ → Bool × Bool)
      → contains slot.session sys.buffer.aborted_sessions ≡ false
      → drain_slot write due sys slot env
        ≡ settle write due sys slot
            (try_write write due drain_slot_max_retries env slot (sys.store slot.session)).0
            (try_write write due drain_slot_max_retries env slot (sys.store slot.session)).1
  unfolding drain_slot
  drain_wanted sys slot env e = ground arith

  step-none :
      (i : ℕ) (sys : System A)
      → get_elem? sys.buffer.waiting i ≡ none
      → (step write due (enqueues i) sys ≡ sys) × (step write due (times_out i) sys ≡ sys)
  unfolding step
  step-none i sys e = (ground arith, ground arith)

  step-some :
      (i : ℕ) (sys : System A) (slot : Slot)
      → get_elem? sys.buffer.waiting i ≡ some slot
      → (step write due (enqueues i) sys ≡ enqueue_waiting write due sys i slot)
        × (step write due (times_out i) sys ≡ record sys { buffer = time_out sys.buffer i slot })
  unfolding step
  step-some i sys slot e = (ground arith, ground arith)

  finish_idle :
      (env : ℕ → Bool × Bool) (sys : System A)
      → sys.buffer.draining ≡ none
      → step write due (finishes env) sys ≡ sys
  unfolding step
  finish_idle env sys e = ground arith

  finish_busy :
      (env : ℕ → Bool × Bool) (sys : System A) (slot : Slot)
      → sys.buffer.draining ≡ some slot
      → step write due (finishes env) sys ≡ drain_slot write due sys slot env
  unfolding step
  finish_busy env sys slot e = ground arith

  push-IsSound :
      (sys : System A) (slot : Slot) (disk : Bool)
      → IsSound sys
      → IsSound (push write due sys slot disk)
  push-IsSound sys slot disk v = elim (Option-cases (reserve sys.buffer slot)) [
    | inr (cb, e) ↦
        let (fits, same) = reserve-some sys.buffer cb slot e in
        rw (push_reserved sys slot disk cb e) (record {
          counted = reserve-IsCounted sys.buffer cb slot v.counted e;
          fifo = v.fifo ∙ ap (λ b. slots_of sys.done ++ undone b) same;
          settled =
              All-IsSettled sys.buffer cb sys.done
                (λ s h. ap (λ b. contains s b.failed_sessions) (sym same) ∙ h)
                (λ s h. ap (λ b. contains s b.aborted_sessions) (sym same) ∙ h) v.settled;
        })
    | inl full ↦ rw (push_fallback sys slot disk full) (record {
      counted = record {
        total = v.counted.total;
        sessions = v.counted.sessions;
        fits = v.counted.fits;
        room = v.counted.room;
        one_slot = v.counted.one_slot;
      };
      fifo = v.fifo;
      settled = v.settled;
    })
  ]

  enqueue-IsSound :
      (sys : System A) (i : ℕ) (slot : Slot)
      → IsSound sys
      → get_elem? sys.buffer.waiting i ≡ some slot
      → IsSound (enqueue_waiting write due sys i slot)
  enqueue-IsSound sys i slot v found =
      elim (Bool-cases (leb sys.buffer.capacity (length sys.buffer.slots))) [
        | inl full ↦ rw (enqueue_full sys i slot full) v
        | inr free ↦ rw (enqueue_free sys i slot free) (record {
          counted = enqueue-IsCounted due sys.buffer i slot v.counted found (ground arith);
          fifo = joined v.fifo;
          settled = (unfold enqueue in v.settled);
        })
      ]
    where
      behind :
          (d : Option Slot)
          → (elim d [ none ↦ sys.buffer.slots | some x ↦ x ∷ sys.buffer.slots ]) ++ (slot ∷ [])
            ≡ (elim d [
              | none ↦ sys.buffer.slots ++ (slot ∷ [])
              | some x ↦ x ∷ (sys.buffer.slots ++ (slot ∷ []))
            ])
      behind none = refl
      behind (some x) = refl

      joined :
          sys.queued ≡ slots_of sys.done ++ undone sys.buffer
          → sys.queued ++ (slot ∷ []) ≡ slots_of sys.done ++ undone (enqueue due sys.buffer i slot)
      joined e =
          ap (λ l. l ++ (slot ∷ [])) e
          ∙ (append_assoc (slots_of sys.done) (undone sys.buffer) (slot ∷ [])
              ∙ ap (λ l. slots_of sys.done ++ l)
                  (behind sys.buffer.draining ∙ (unfold enqueue in refl)))

  take-IsSound :
      (sys : System A) → IsSound sys → IsSound (record sys { buffer = take_slot sys.buffer })
  take-IsSound sys v = record {
    counted = take_slot-IsCounted sys.buffer v.counted;
    fifo = v.fifo ∙ ap (λ l. slots_of sys.done ++ l) (same sys.buffer);
    settled =
        All-IsSettled sys.buffer (take_slot sys.buffer) sys.done
          (λ s h. ap (contains s) (marks sys.buffer).0 ∙ h)
          (λ s h. ap (contains s) (marks sys.buffer).1 ∙ h) v.settled;
  }
    where
      same : (cb : ChunkBuffer) → undone cb ≡ undone (take_slot cb)
      same cb = elim (take_slot_lem cb) [
        | inl e ↦ ap undone (sym e)
        | inr (slot, slots, idle, idle', e, taken) ↦
            ap (λ d. elim d [ none ↦ cb.slots | some x ↦ x ∷ cb.slots ]) idle
            ∙ (e ∙ ap undone (sym taken))
      ]

      marks :
          (cb : ChunkBuffer)
          → ((take_slot cb).failed_sessions ≡ cb.failed_sessions)
            × ((take_slot cb).aborted_sessions ≡ cb.aborted_sessions)
      marks cb = unfold take_slot in ground arith

  drain_slot-IsSound :
      (sys : System A) (slot : Slot) (env : ℕ → Bool × Bool)
      → IsSound sys
      → sys.buffer.draining ≡ some slot
      → IsSound (drain_slot write due sys slot env)
  drain_slot-IsSound sys slot env v busy =
      elim (Bool-cases (contains slot.session sys.buffer.aborted_sessions)) [
        | inl gone ↦ rw (drain_marked sys slot env gone) (
            done-IsSound write due sys slot false sys.buffer sys.store v busy v.counted busy refl
              (λ s h. h) (λ s h. h) (inr (inr gone)))
        | inr wanted ↦
            rw (drain_wanted sys slot env wanted) (settle-IsSound write due sys slot _ _ v busy)
      ]

  count-none :
      (i : ℕ) (sys : System A)
      → get_elem? sys.buffer.reserved i ≡ none
      → step write due (counts i) sys ≡ sys
  unfolding step
  count-none i sys e = ground arith

  count-some :
      (i : ℕ) (sys : System A) (slot : Slot)
      → get_elem? sys.buffer.reserved i ≡ some slot
      → step write due (counts i) sys ≡ record sys { buffer = count sys.buffer i slot }
  unfolding step
  count-some i sys slot e = ground arith

  give_up-none :
      (i : ℕ) (sys : System A)
      → get_elem? sys.buffer.timed_out i ≡ none
      → step write due (gives_up i) sys ≡ sys
  unfolding step
  give_up-none i sys e = ground arith

  give_up-some :
      (i : ℕ) (sys : System A) (slot : Slot)
      → get_elem? sys.buffer.timed_out i ≡ some slot
      → step write due (gives_up i) sys ≡ record sys { buffer = give_up sys.buffer i slot }
  unfolding step
  give_up-some i sys slot e = ground arith

  settle_idle : (sys : System A) → sys.buffer.released ≡ none → step write due settles sys ≡ sys
  unfolding step
  settle_idle sys e = ground arith

  settle_busy :
      (sys : System A) (slot : Slot)
      → sys.buffer.released ≡ some slot
      → step write due settles sys ≡ record sys { buffer = count_drained sys.buffer slot }
  unfolding step
  settle_busy sys slot e = ground arith

  -- A Delete finds the counter of its session at 0, and no call of Push that has reserved bytes for the
  -- session but not counted them.
  unfoldable pub IsLone : Event → System A → Type 0
  IsLone (deletes s) sys =
      (sys.buffer.session_bytes s ≡ 0) × All (λ slot. slot.session ≢ s) sys.buffer.reserved
  IsLone other sys = Unit {0}

  unfoldable pub AreLone : List Event → System A → Type 0
  AreLone [] sys = Unit {0}
  AreLone (e ∷ es) sys = IsLone e sys × AreLone es (step write due e sys)

  -- The counters change, the queue does not.
  recount :
      (sys : System A) (cb : ChunkBuffer)
      → IsSound sys
      → IsCounted cb
      → undone sys.buffer ≡ undone cb
      → cb.failed_sessions ≡ sys.buffer.failed_sessions
      → cb.aborted_sessions ≡ sys.buffer.aborted_sessions
      → IsSound (record sys { buffer = cb })
  recount sys cb v counted same f a = record {
    counted = counted;
    fifo = v.fifo ∙ ap (λ l. slots_of sys.done ++ l) same;
    settled =
        All-IsSettled sys.buffer cb sys.done (λ s h. ap (contains s) f ∙ h)
          (λ s h. ap (contains s) a ∙ h) v.settled;
  }

  step-IsSound :
      (e : Event) (sys : System A) → IsLone e sys → IsSound sys → IsSound (step write due e sys)
  unfolding IsLone
  step-IsSound (pushes slot disk) sys lone v = unfold step in push-IsSound sys slot disk v
  step-IsSound (counts i) sys lone v = elim (Option-cases (get_elem? sys.buffer.reserved i)) [
    | inl absent ↦ rw (count-none i sys absent) v
    | inr (slot, found) ↦ rw (count-some i sys slot found) (
        recount sys (count sys.buffer i slot) v (count-IsCounted sys.buffer i slot v.counted found)
          (unfold count in refl) (unfold count in refl) (unfold count in refl))
  ]
  step-IsSound (enqueues i) sys lone v = elim (Option-cases (get_elem? sys.buffer.waiting i)) [
    | inl absent ↦ rw (step-none i sys absent).0 v
    | inr (slot, found) ↦ rw (step-some i sys slot found).0 (enqueue-IsSound sys i slot v found)
  ]
  step-IsSound (times_out i) sys lone v = elim (Option-cases (get_elem? sys.buffer.waiting i)) [
    | inl absent ↦ rw (step-none i sys absent).1 v
    | inr (slot, found) ↦ rw (step-some i sys slot found).1 (
        recount sys (time_out sys.buffer i slot) v
          (time_out-IsCounted sys.buffer i slot v.counted found) (unfold time_out in refl)
          (unfold time_out in refl) (unfold time_out in refl))
  ]
  step-IsSound (gives_up i) sys lone v = elim (Option-cases (get_elem? sys.buffer.timed_out i)) [
    | inl absent ↦ rw (give_up-none i sys absent) v
    | inr (slot, found) ↦ rw (give_up-some i sys slot found) (
        recount sys (give_up sys.buffer i slot) v
          (give_up-IsCounted sys.buffer i slot v.counted found) (unfold give_up in refl)
          (unfold give_up in refl) (unfold give_up in refl))
  ]
  step-IsSound takes sys lone v = unfold step in take-IsSound sys v
  step-IsSound (finishes env) sys lone v = elim (Option-cases sys.buffer.draining) [
    | inl idle ↦ rw (finish_idle env sys idle) v
    | inr (slot, busy) ↦ rw (finish_busy env sys slot busy) (drain_slot-IsSound sys slot env v busy)
  ]
  step-IsSound settles sys lone v = elim (Option-cases sys.buffer.released) [
    | inl idle ↦ rw (settle_idle sys idle) v
    | inr (slot, busy) ↦ rw (settle_busy sys slot busy) (
        recount sys (count_drained sys.buffer slot) v
          (count_drained-IsCounted sys.buffer slot v.counted busy) (unfold count_drained in refl)
          (unfold count_drained in refl) (unfold count_drained in refl))
  ]
  step-IsSound (aborts s) sys lone v =
      unfold step in
      record {
        counted = record {
          total = v.counted.total;
          sessions = v.counted.sessions;
          fits = v.counted.fits;
          room = v.counted.room;
          one_slot = v.counted.one_slot;
        };
        fifo = v.fifo;
        settled =
            All-IsSettled sys.buffer
              (record sys.buffer { aborted_sessions = s ∷ sys.buffer.aborted_sessions }) sys.done
              (λ t h. h) (λ t h. contains-cons t s sys.buffer.aborted_sessions h) v.settled;
      }
  step-IsSound (deletes s) sys lone v =
      unfold step in
      recount sys (delete_counter sys.buffer s) v
        (delete_counter-IsCounted sys.buffer s v.counted lone.0) (unfold delete_counter in refl)
        (unfold delete_counter in refl) (unfold delete_counter in refl)

  pub run-IsSound :
      (es : List Event) (sys : System A)
      → AreLone es sys
      → IsSound sys
      → IsSound (run write due es sys)
  unfolding run AreLone
  run-IsSound [] sys lone v = v
  run-IsSound (e ∷ es) sys (lone, more) v =
      run-IsSound es (step write due e sys) more (step-IsSound e sys lone v)

  abbrev pub started : ChunkBuffer → (ℕ → A) → System A
  started cb store = record { buffer = cb; store = store; queued = []; done = [] }

  pub new-IsSound :
      (size slots : ℕ) (through : Bool) (cb : ChunkBuffer) (store : ℕ → A)
      → new_chunk_buffer size slots through ≡ some cb
      → IsSound (started cb store)
  new-IsSound size slots through cb store e = elim (Bool-cases (size == 0)) [
    | inl off ↦ absurd (disabled off e)
    | inr on ↦
        let same = enabled on e in
        rw (← same) (record {
          counted = record {
            total = (unfold bytes_of in omega arith);
            sessions = λ s. unfold bytes_of in omega arith;
            fits = omega arith;
            room = omega arith;
            one_slot = inl refl;
          };
          fifo = refl;
          settled = tt;
        })
  ]
    where
      disabled : (size == 0) ≡ true → new_chunk_buffer size slots through ≡ some cb → ⊥
      disabled off e = unfold new_chunk_buffer in ground arith

      enabled :
          (size == 0) ≡ false
          → new_chunk_buffer size slots through ≡ some cb
          → record {
            size_raw = size;
            capacity = channel_capacity size slots;
            write_through = through;
            slots = [];
            reserved = [];
            waiting = [];
            timed_out = [];
            draining = none;
            released = none;
            drain_signal = false;
            in_flight_bytes = 0;
            session_bytes = λ s. 0;
            failed_sessions = [];
            aborted_sessions = [];
            total_pushed = 0;
            total_drained = 0;
            total_fallbacks = 0;
            backpressure_events = 0;
          }
            ≡ cb
      enabled on e = unfold new_chunk_buffer in ground arith
