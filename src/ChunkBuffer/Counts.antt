-- ===== src/ChunkBuffer/Counts.antt =====
-- The counters of bytes: what they count, and their bounds.
use n_backup.Prelude.{
  ℕ, zero, suc, ◌+◌, ◌-◌, ◌≤◌, ◌<◌, ◌≡◌, refl, sym, ap, ◌∙◌, arith, Bool, true, List, [], ◌∷◌, ◌++◌,
  length, length-append, get_elem?, Option, none, some, ltb, ◌==◌, if◌then◌else◌, inl, inr,
  Bool-cases, Option-cases, ◌⊎◌,
}
use n_backup.ChunkBuffer.Defs.{
  Slot, ChunkBuffer, reserve, count, add_at, subtract_at, remove_at, enqueue, time_out, give_up,
  take_slot, drained, count_drained, delete_counter,
}

-- The bytes of a slot if its session is asked for.
abbrev pub weight : (ℕ → Bool) → Slot → ℕ
weight of slot = if of slot.session then length slot.chunk else 0

unfoldable pub bytes_of : (ℕ → Bool) → List Slot → ℕ
bytes_of of [] = 0
bytes_of of (slot ∷ slots) = weight of slot + bytes_of of slots

abbrev pub bytes_draining : (ℕ → Bool) → Option Slot → ℕ
bytes_draining of none = 0
bytes_draining of (some slot) = weight of slot

-- The bytes that in_flight_bytes counts: in the channel, on their way into it, or with the drainer.
abbrev pub bytes_within : ChunkBuffer → (ℕ → Bool) → ℕ
bytes_within cb of =
    bytes_of of cb.slots
    + (bytes_of of cb.waiting + (bytes_of of cb.reserved + bytes_draining of cb.draining))

-- Those that the counters of the sessions count: a Push that has only reserved is not counted yet, and
-- what was given up or drained is counted until its last Add.
abbrev pub bytes_counted : ChunkBuffer → (ℕ → Bool) → ℕ
bytes_counted cb of =
    bytes_of of cb.slots
    + (bytes_of of cb.waiting
        + (bytes_of of cb.timed_out
            + (bytes_draining of cb.draining + bytes_draining of cb.released)))

abbrev pub all : ℕ → Bool
all t = true

abbrev pub only : ℕ → ℕ → Bool
only s t = t == s

-- The counters are exact, and the buffer is within its two limits.
pub record IsCounted (cb : ChunkBuffer) : Type 0 where
  pub total : cb.in_flight_bytes ≡ bytes_within cb all
  pub sessions : (s : ℕ) → cb.session_bytes s ≡ bytes_counted cb (only s)
  pub fits : cb.in_flight_bytes ≤ cb.size_raw
  pub room : length cb.slots ≤ cb.capacity
  pub one_slot : (cb.draining ≡ none) ⊎ (cb.released ≡ none)

bytes_of-append :
    (of : ℕ → Bool) (xs ys : List Slot) → bytes_of of (xs ++ ys) ≡ bytes_of of xs + bytes_of of ys
unfolding bytes_of
bytes_of-append of [] ys = omega arith
bytes_of-append of (x ∷ xs) ys = omega (arith, bytes_of-append of xs ys)

bytes_of_cons :
    (of : ℕ → Bool) (x : Slot) (xs : List Slot)
    → bytes_of of (x ∷ xs) ≡ weight of x + bytes_of of xs
unfolding bytes_of
bytes_of_cons of x xs = refl

bytes_of_one : (of : ℕ → Bool) (x : Slot) → bytes_of of (x ∷ []) ≡ weight of x
unfolding bytes_of
bytes_of_one of x = omega arith

bytes_of-remove_at :
    (of : ℕ → Bool) (i : ℕ) (x : Slot) (xs : List Slot)
    → get_elem? xs i ≡ some x
    → bytes_of of xs ≡ weight of x + bytes_of of (remove_at i xs)
unfolding bytes_of remove_at
bytes_of-remove_at of i x [] e = absurd (ground arith)
bytes_of-remove_at of zero x (y ∷ ys) e = let same : y ≡ x = cc in rw same refl
bytes_of-remove_at of (suc i) x (y ∷ ys) e = omega (arith, bytes_of-remove_at of i x ys e)

-- A reservation that fits.
pub reserve-some :
    (cb cb' : ChunkBuffer) (slot : Slot)
    → reserve cb slot ≡ some cb'
    → (length slot.chunk ≤ cb.size_raw - cb.in_flight_bytes)
      × (record cb {
        in_flight_bytes = cb.in_flight_bytes + length slot.chunk;
        reserved = slot ∷ cb.reserved;
      }
          ≡ cb')
unfolding reserve
reserve-some cb cb' slot e =
    elim (Bool-cases (ltb (cb.size_raw - cb.in_flight_bytes) (length slot.chunk))) [
      | inl big ↦ absurd (ground arith)
      | inr fits ↦ (ground arith, ground arith)
    ]

pub reserve-IsCounted :
    (cb cb' : ChunkBuffer) (slot : Slot) → IsCounted cb → reserve cb slot ≡ some cb' → IsCounted cb'
reserve-IsCounted cb cb' slot v e =
    let (fits, same) = reserve-some cb cb' slot e in
    rw (← same) (record {
      total = unfold bytes_of in omega (arith, v.total);
      sessions = v.sessions;
      fits = omega (arith, v.fits);
      room = v.room;
      one_slot = v.one_slot;
    })

add_at-weight :
    (s : ℕ) (slot : Slot) (counters : ℕ → ℕ)
    → add_at slot.session (length slot.chunk) counters s ≡ counters s + weight (only s) slot
unfolding add_at
add_at-weight s slot counters = ground arith

pub count-IsCounted :
    (cb : ChunkBuffer) (i : ℕ) (slot : Slot)
    → IsCounted cb
    → get_elem? cb.reserved i ≡ some slot
    → IsCounted (count cb i slot)
unfolding count
count-IsCounted cb i slot v found = record {
  total = omega (
    arith,
    v.total,
    bytes_of-remove_at all i slot cb.reserved found,
    bytes_of_cons all slot cb.waiting,
  );
  sessions = λ s.
      add_at-weight s slot cb.session_bytes
      ∙ omega (arith, v.sessions s, bytes_of_cons (only s) slot cb.waiting);
  fits = v.fits;
  room = v.room;
  one_slot = v.one_slot;
}

pub enqueue-IsCounted :
    (due : ℕ → ℕ → Bool) (cb : ChunkBuffer) (i : ℕ) (slot : Slot)
    → IsCounted cb
    → get_elem? cb.waiting i ≡ some slot
    → length cb.slots < cb.capacity
    → IsCounted (enqueue due cb i slot)
unfolding enqueue
enqueue-IsCounted due cb i slot v found lt = record {
  total = omega (arith, v.total, moved all);
  sessions = λ s. omega (arith, v.sessions s, moved (only s));
  fits = v.fits;
  room = omega (arith, length-append cb.slots (slot ∷ []));
  one_slot = v.one_slot;
}
  where
    moved :
        (of : ℕ → Bool)
        → bytes_of of cb.slots + bytes_of of cb.waiting
          ≡ bytes_of of (cb.slots ++ (slot ∷ [])) + bytes_of of (remove_at i cb.waiting)
    moved of = omega (
      arith,
      bytes_of-append of cb.slots (slot ∷ []),
      bytes_of_one of slot,
      bytes_of-remove_at of i slot cb.waiting found,
    )

subtract_at-weight :
    (s : ℕ) (slot : Slot) (counters : ℕ → ℕ)
    → subtract_at slot.session (length slot.chunk) counters s ≡ counters s - weight (only s) slot
unfolding subtract_at
subtract_at-weight s slot counters = ground arith

pub time_out-IsCounted :
    (cb : ChunkBuffer) (i : ℕ) (slot : Slot)
    → IsCounted cb
    → get_elem? cb.waiting i ≡ some slot
    → IsCounted (time_out cb i slot)
unfolding time_out
time_out-IsCounted cb i slot v found = record {
  total = omega (arith, v.total, bytes_of-remove_at all i slot cb.waiting found);
  sessions = λ s. omega (
    arith,
    v.sessions s,
    bytes_of-remove_at (only s) i slot cb.waiting found,
    bytes_of_cons (only s) slot cb.timed_out,
  );
  fits = omega (arith, v.fits);
  room = v.room;
  one_slot = v.one_slot;
}

pub give_up-IsCounted :
    (cb : ChunkBuffer) (i : ℕ) (slot : Slot)
    → IsCounted cb
    → get_elem? cb.timed_out i ≡ some slot
    → IsCounted (give_up cb i slot)
unfolding give_up
give_up-IsCounted cb i slot v found = record {
  total = v.total;
  sessions = λ s.
      subtract_at-weight s slot cb.session_bytes
      ∙ omega (arith, v.sessions s, bytes_of-remove_at (only s) i slot cb.timed_out found);
  fits = v.fits;
  room = v.room;
  one_slot = v.one_slot;
}

-- Deleting a counter that is 0.
pub delete_counter-IsCounted :
    (cb : ChunkBuffer) (s : ℕ)
    → IsCounted cb
    → cb.session_bytes s ≡ 0
    → IsCounted (delete_counter cb s)
unfolding delete_counter
delete_counter-IsCounted cb s v nil = record {
  total = v.total;
  sessions = λ t. same t ∙ v.sessions t;
  fits = v.fits;
  room = v.room;
  one_slot = v.one_slot;
}
  where
    same : (t : ℕ) → (if s == t then 0 else cb.session_bytes t) ≡ cb.session_bytes t
    same t = elim (Bool-cases (s == t)) [
      | inl e ↦ let it : s ≡ t = ground arith in rw e (sym (ap cb.session_bytes (sym it) ∙ nil))
      | inr e ↦ rw e refl
    ]

pub take_busy : (cb : ChunkBuffer) (slot : Slot) → cb.draining ≡ some slot → take_slot cb ≡ cb
unfolding take_slot
take_busy cb slot e = ground arith

pub take_busy' : (cb : ChunkBuffer) (slot : Slot) → cb.released ≡ some slot → take_slot cb ≡ cb
unfolding take_slot
take_busy' cb slot e = ground arith

pub take_empty : (cb : ChunkBuffer) → cb.draining ≡ none → cb.slots ≡ [] → take_slot cb ≡ cb
unfolding take_slot
take_empty cb e e' = ground arith

pub take_next :
    (cb : ChunkBuffer) (slot : Slot) (slots : List Slot)
    → cb.draining ≡ none
    → cb.released ≡ none
    → cb.slots ≡ slot ∷ slots
    → take_slot cb ≡ record cb { slots = slots; draining = some slot }
unfolding take_slot
take_next cb slot slots e r e' = ground arith

pub List-cases :
    (l : List Slot) → (l ≡ []) ⊎ ((slot : Slot) × (slots : List Slot) × (l ≡ slot ∷ slots))
List-cases [] = inl refl
List-cases (slot ∷ slots) = inr (slot, slots, refl)

-- The drainer goes on with what it has, or there is nothing for it, or it takes a slot.
pub take_slot_lem :
    (cb : ChunkBuffer)
    → (take_slot cb ≡ cb)
      ⊎ ((slot : Slot) × (slots : List Slot) × (cb.draining ≡ none)
          × (cb.released ≡ none)
          × (cb.slots ≡ slot ∷ slots)
          × (take_slot cb ≡ record cb { slots = slots; draining = some slot }))
take_slot_lem cb = elim (Option-cases cb.draining) [
  | inr (busy, e) ↦ inl (take_busy cb busy e)
  | inl idle ↦ elim (Option-cases cb.released) [
    | inr (busy, e) ↦ inl (take_busy' cb busy e)
    | inl idle' ↦ elim (List-cases cb.slots) [
      | inl empty ↦ inl (take_empty cb idle empty)
      | inr (slot, slots, e) ↦
          inr (slot, slots, idle, idle', e, take_next cb slot slots idle idle' e)
    ]
  ]
]

pub take_slot-IsCounted : (cb : ChunkBuffer) → IsCounted cb → IsCounted (take_slot cb)
take_slot-IsCounted cb v = elim (take_slot_lem cb) [
  | inl same ↦ rw same v
  | inr (slot, slots, idle, idle', e, taken) ↦ rw taken (record {
    total = omega (arith, v.total, moved slot slots idle e all);
    sessions = λ s. omega (arith, v.sessions s, moved slot slots idle e (only s));
    fits = v.fits;
    room = omega (arith, v.room, ap length e);
    one_slot = inr idle';
  })
]
  where
    moved :
        (slot : Slot) (slots : List Slot)
        → cb.draining ≡ none
        → cb.slots ≡ slot ∷ slots
        → (of : ℕ → Bool)
        → bytes_of of cb.slots + bytes_draining of cb.draining ≡ bytes_of of slots + weight of slot
    moved slot slots idle e of =
        omega (arith, ap (bytes_of of) e, ap (bytes_draining of) idle, bytes_of_cons of slot slots)

pub drained-IsCounted :
    (cb : ChunkBuffer) (slot : Slot)
    → IsCounted cb
    → cb.draining ≡ some slot
    → IsCounted (drained cb slot)
unfolding drained
drained-IsCounted cb slot v busy = record {
  total = omega (arith, v.total, held all);
  sessions = λ s. omega (arith, v.sessions s, held (only s), idle (only s));
  fits = omega (arith, v.fits);
  room = v.room;
  one_slot = inl refl;
}
  where
    held : (of : ℕ → Bool) → bytes_draining of cb.draining ≡ weight of slot
    held of = ap (bytes_draining of) busy

    idle : (of : ℕ → Bool) → bytes_draining of cb.released ≡ 0
    idle of = elim v.one_slot [ inl e ↦ absurd (cc) | inr e ↦ ap (bytes_draining of) e ]

pub count_drained-IsCounted :
    (cb : ChunkBuffer) (slot : Slot)
    → IsCounted cb
    → cb.released ≡ some slot
    → IsCounted (count_drained cb slot)
unfolding count_drained
count_drained-IsCounted cb slot v busy = record {
  total = v.total;
  sessions = λ s.
      subtract_at-weight s slot cb.session_bytes
      ∙ omega (arith, v.sessions s, ap (bytes_draining (only s)) busy);
  fits = v.fits;
  room = v.room;
  one_slot = inr refl;
}
