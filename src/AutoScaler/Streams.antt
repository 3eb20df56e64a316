-- ===== src/AutoScaler/Streams.antt =====
-- How many streams are active after a change of one.
use n_backup.Prelude.{
  ℕ, zero, suc, ◌+◌, ◌≤◌, ◌≡◌, refl, ap, ◌∙◌, arith, Bool, true, false, List, [], ◌∷◌, length,
  get_elem?, none, some, if◌then◌else◌, inl, inr, Bool-cases, Option-cases,
}
use n_backup.Dispatcher.{Stream, Dispatcher, set_stream, activate_stream, deactivate_stream}
use n_backup.AutoScaler.{active_streams, next_activatable}

active_streams-set_stream :
    (i : ℕ) (s s' : Stream) (ss : List Stream)
    → get_elem? ss i ≡ some s
    → active_streams (set_stream i s' ss) + (if s.active then 1 else 0)
      ≡ active_streams ss + (if s'.active then 1 else 0)
unfolding active_streams set_stream
active_streams-set_stream i s s' [] e = absurd (ground arith)
active_streams-set_stream zero s s' (t ∷ ss) e = let same : t ≡ s = cc in rw same (omega arith)
active_streams-set_stream (suc i) s s' (t ∷ ss) e =
    omega (arith, active_streams-set_stream i s s' ss e)

pub active_streams-length : (ss : List Stream) → active_streams ss ≤ length ss
unfolding active_streams
active_streams-length [] = omega arith
active_streams-length (s ∷ ss) = ground (arith, active_streams-length ss)

pub length-set_stream :
    (i : ℕ) (s : Stream) (ss : List Stream) → length (set_stream i s ss) ≡ length ss
unfolding set_stream
length-set_stream i s [] = refl
length-set_stream zero s (t ∷ ss) = refl
length-set_stream (suc i) s (t ∷ ss) = ap suc (length-set_stream i s ss)

-- The stream that NextActivatableStream finds.
next_activatable_lem :
    (k j : ℕ) (ss : List Stream)
    → next_activatable k ss ≡ some j
    → (i : ℕ) × (s : Stream) × (j ≡ k + i)
      × (get_elem? ss i ≡ some s)
      × (s.active ≡ false)
      × (s.dead ≡ false)
unfolding next_activatable
next_activatable_lem k j [] e = absurd (ground arith)
next_activatable_lem k j (s ∷ ss) e = elim (Bool-cases s.active) [
  | inl busy ↦
      let (i, t, at, found, off, alive) = next_activatable_lem (k + 1) j ss (ground arith) in
      (suc i, t, omega arith, found, off, alive)
  | inr off ↦ elim (Bool-cases s.dead) [
    | inl dead ↦
        let (i, t, at, found, off', alive) = next_activatable_lem (k + 1) j ss (ground arith) in
        (suc i, t, omega arith, found, off', alive)
    | inr alive ↦ (0, s, ground arith, refl, off, alive)
  ]
]

activate_found :
    (i : ℕ) (s : Stream) (d : Dispatcher)
    → get_elem? d.streams i ≡ some s
    → s.dead ≡ false
    → (activate_stream i d).streams ≡ set_stream i (record s { active = true }) d.streams
unfolding activate_stream
activate_found i s d e alive = ground arith

deactivate_found :
    (i : ℕ) (s : Stream) (d : Dispatcher)
    → get_elem? d.streams i ≡ some s
    → (deactivate_stream i d).streams ≡ set_stream i (record s { active = false }) d.streams
unfolding deactivate_stream
deactivate_found i s d e = ground arith

deactivate_absent :
    (i : ℕ) (d : Dispatcher) → get_elem? d.streams i ≡ none → deactivate_stream i d ≡ d
unfolding deactivate_stream
deactivate_absent i d e = ground arith

pub activate_stream-active :
    (d : Dispatcher) (j : ℕ)
    → next_activatable 0 d.streams ≡ some j
    → (active_streams (activate_stream j d).streams ≡ active_streams d.streams + 1)
      × (length (activate_stream j d).streams ≡ length d.streams)
activate_stream-active d j e =
    let (i, s, at, found, off, alive) = next_activatable_lem 0 j d.streams e in
    let found' : get_elem? d.streams j ≡ some s = ap (get_elem? d.streams) (omega arith) ∙ found in
    let step = activate_found j s d found' alive in
    (
      ap active_streams step
          ∙ omega (
            arith,
            active_streams-set_stream j s (record s { active = true }) d.streams found',
            none_counted s.active off,
          ),
      ap length step ∙ length-set_stream j (record s { active = true }) d.streams,
    )
  where
    none_counted : (b : Bool) → b ≡ false → (if b then 1 else zero) ≡ zero
    none_counted b e = ground arith

pub deactivate_stream-active :
    (d : Dispatcher) (j : ℕ)
    → (active_streams (deactivate_stream j d).streams ≤ active_streams d.streams)
      × (active_streams d.streams ≤ active_streams (deactivate_stream j d).streams + 1)
      × (length (deactivate_stream j d).streams ≡ length d.streams)
deactivate_stream-active d j = elim (Option-cases (get_elem? d.streams j)) [
  | inl absent ↦ rw (deactivate_absent j d absent) (omega arith, omega arith, refl)
  | inr (s, found) ↦
      let step = deactivate_found j s d found in
      let count = active_streams-set_stream j s (record s { active = false }) d.streams found in
      let few = at_most_one s.active in
      rw step (
        omega (arith, count, few),
        omega (arith, count, few),
        length-set_stream j (record s { active = false }) d.streams,
      )
]
  where
    at_most_one : (b : Bool) → (if b then 1 else zero) ≤ 1
    at_most_one b = ground arith

pub deactivate_stream-one :
    (d : Dispatcher) (j : ℕ) (s : Stream)
    → get_elem? d.streams j ≡ some s
    → s.active ≡ true
    → active_streams (deactivate_stream j d).streams + 1 ≡ active_streams d.streams
deactivate_stream-one d j s found on =
    let count = active_streams-set_stream j s (record s { active = false }) d.streams found in
    omega (arith, ap active_streams (deactivate_found j s d found), count, one_counted s.active on)
  where
    one_counted : (b : Bool) → b ≡ true → (if b then 1 else zero) ≡ 1
    one_counted b e = ground arith
