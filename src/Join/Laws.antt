-- ===== src/Join/Laws.antt =====
-- A join, and a change of one slot.
use mathlib.Core.Path.{subst}
use n_backup.Prelude.{
  ◌++◌, ℕ, zero, suc, ◌+◌, ◌≤◌, ◌<◌, ◌≡◌, refl, sym, ap, ◌∙◌, arith, Bool, true, List, [], ◌∷◌,
  length, get_elem?, some, ◌==◌, if◌then◌else◌, ◌⊎◌, inl, inr, Bool-cases, lt_or_ge,
}
use n_backup.Protocol.Frames.{ParallelJoin}
use n_backup.Join.{
  Slot, Session, set_slot, join_slot, refused, unanswered, joined, handle_parallel_join,
  parallel_status_full, parallel_status_not_found,
}

-- How many of the flags of requests say that the port is rotated, and how many do not.
unfoldable pub rotating : List ℕ → ℕ
rotating [] = 0
rotating (flags ∷ fs) = (if flags == 1 then 1 else 0) + rotating fs

unfoldable pub reconnecting : List ℕ → ℕ
reconnecting [] = 0
reconnecting (flags ∷ fs) = (if flags == 1 then 0 else 1) + reconnecting fs

-- `next` has counted, behind `slot`, connections that were accepted with these flags: each as a rotation
-- or as a reconnect, but for the first one of the slot, which is neither.
abbrev pub HasCounted : List ℕ → Slot → Slot → Type 0
HasCounted [] slot next =
    (next.connected ≡ slot.connected)
    × (next.reconnects ≡ slot.reconnects)
    × (next.rotations ≡ slot.rotations)
HasCounted (flags ∷ fs) slot next =
    let behind = if slot.connected then flags ∷ fs else fs in
    (next.connected ≡ true)
    × (next.reconnects ≡ slot.reconnects + reconnecting behind)
    × (next.rotations ≡ slot.rotations + rotating behind)

-- At most one connection, and then more.
HasCounted-one :
    (flags : ℕ) (fs : List ℕ) (slot next last : Slot)
    → HasCounted (flags ∷ []) slot next
    → HasCounted fs next last
    → HasCounted (flags ∷ fs) slot last
unfolding rotating reconnecting
HasCounted-one flags [] slot next last (c, r, o) (c', r', o') = (c' ∙ c, r' ∙ r, o' ∙ o)
HasCounted-one flags (f ∷ fs) slot next last (c, r, o) (c', r', o') =
    elim (Bool-cases slot.connected) [
      | inl again ↦ (c', ground (arith, c, again), ground (arith, c, again))
      | inr first ↦ (c', ground (arith, c, first), ground (arith, c, first))
    ]

HasCounted-none :
    (fs : List ℕ) (slot next last : Slot)
    → HasCounted [] slot next
    → HasCounted fs next last
    → HasCounted fs slot last
HasCounted-none [] slot next last (c, r, o) (c', r', o') = (c' ∙ c, r' ∙ r, o' ∙ o)
HasCounted-none (f ∷ fs) slot next last (c, r, o) (c', r', o') =
    (c', ground (arith, c, r), ground (arith, c, o))

get_elem?-set_slot :
    (i j : ℕ) (s t : Slot) (l : List Slot)
    → get_elem? l i ≡ some t
    → get_elem? (set_slot i s l) j ≡ (if i == j then some s else get_elem? l j)
unfolding set_slot
get_elem?-set_slot i j s t [] e = absurd (ground arith)
get_elem?-set_slot zero zero s t (x ∷ l) e = ground arith
get_elem?-set_slot zero (suc j) s t (x ∷ l) e = ground arith
get_elem?-set_slot (suc i) zero s t (x ∷ l) e = ground arith
get_elem?-set_slot (suc i) (suc j) s t (x ∷ l) e = get_elem?-set_slot i j s t l e ∙ ground arith

length-set_slot : (i : ℕ) (s : Slot) (l : List Slot) → length (set_slot i s l) ≡ length l
unfolding set_slot
length-set_slot i s [] = refl
length-set_slot zero s (t ∷ l) = refl
length-set_slot (suc i) s (t ∷ l) = ap suc (length-set_slot i s l)

pub join_slot-HasCounted :
    (flags : ℕ) (slot : Slot) → HasCounted (flags ∷ []) slot (join_slot flags slot)
unfolding join_slot rotating reconnecting
join_slot-HasCounted flags slot = (ground arith, ground arith, ground arith)

pub get_elem?-lt : (l : List Slot) (i : ℕ) → i < length l → (s : Slot) × (get_elem? l i ≡ some s)
get_elem?-lt [] i lt = absurd (omega arith)
get_elem?-lt (s ∷ l) zero lt = (s, refl)
get_elem?-lt (s ∷ l) (suc i) lt = get_elem?-lt l i (omega arith)

-- The session when a stream is joined.
abbrev pub joined_by : Session → ParallelJoin → Slot → Session
joined_by s pj slot = record s {
  slots = set_slot pj.stream_index (join_slot pj.flags slot) s.slots;
  stream_wg = s.stream_wg + 1;
  stream_ready = true;
}

-- What handleParallelJoin decides for a session that has a slot for each stream.
pub handle_parallel_join_lem :
    (s : Session) (pj : ParallelJoin) (written : Bool)
    → length s.slots ≡ s.max_streams
    → ((s.max_streams ≤ pj.stream_index)
        × (handle_parallel_join (some s) pj written ≡ refused parallel_status_full))
      ⊎ (((s.closing ≡ true)
            × (handle_parallel_join (some s) pj written ≡ refused parallel_status_not_found))
          ⊎ ((slot : Slot) × (get_elem? s.slots pj.stream_index ≡ some slot)
              × (handle_parallel_join (some s) pj written
                  ≡ (if written then joined slot.offset (joined_by s pj slot) else unanswered))))
unfolding handle_parallel_join
handle_parallel_join_lem s pj written all = elim (lt_or_ge pj.stream_index s.max_streams) [
  | inr beyond ↦ inl (beyond, ground arith)
  | inl lt ↦ elim (Bool-cases s.closing) [
    | inl closing_now ↦ inr (inl (closing_now, ground arith))
    | inr live ↦
        let (slot, found) = get_elem?-lt s.slots pj.stream_index (omega arith) in
        inr (inr (slot, found, ground arith))
  ]
]

-- A slot for each stream.
abbrev pub IsWhole : Session → Type 0
IsWhole s = length s.slots ≡ s.max_streams

-- What an event leaves of a slot, where requests with the flags `fs` were accepted for its stream.
pub record IsNext (i : ℕ) (fs : List ℕ) (slot : Slot) (s' : Session) : Type 0 where
  pub whole : IsWhole s'
  pub next : Slot
  pub found : get_elem? s'.slots i ≡ some next
  pub counted : HasCounted fs slot next

-- A slot is replaced, of this stream or of another.
pub set_slot-IsNext :
    (i j : ℕ) (fs : List ℕ) (slot old new : Slot) (s s' : Session)
    → IsWhole s
    → get_elem? s.slots i ≡ some slot
    → get_elem? s.slots j ≡ some old
    → HasCounted fs old new
    → s'.slots ≡ set_slot j new s.slots
    → s'.max_streams ≡ s.max_streams
    → IsNext i (if j == i then fs else []) slot s'
set_slot-IsNext i j fs slot old new s s' all found at count same size =
    let there : get_elem? s'.slots i ≡ (if j == i then some new else get_elem? s.slots i) =
      ap (λ l. get_elem? l i) same ∙ get_elem?-set_slot j i new old s.slots at in
    let len : IsWhole s' = ap length same ∙ (length-set_slot j new s.slots ∙ (all ∙ sym size)) in
    elim (Bool-cases (j == i)) [
      | inl here ↦
          let place : j ≡ i = ground arith in
          let it : some old ≡ some slot = sym at ∙ (ap (get_elem? s.slots) place ∙ found) in
          let it' : old ≡ slot = cc in
          rw here (record {
            whole = len;
            next = new;
            found = there ∙ ap (λ b. if b then some new else get_elem? s.slots i) here;
            counted = subst (λ o. HasCounted fs o new) it' count;
          })
      | inr other ↦ rw other (record {
        whole = len;
        next = slot;
        found = there ∙ (ap (λ b. if b then some new else get_elem? s.slots i) other ∙ found);
        counted = (refl, refl, refl);
      })
    ]

pub same-IsNext :
    (i : ℕ) (slot : Slot) (s : Session)
    → IsWhole s
    → get_elem? s.slots i ≡ some slot
    → IsNext i [] slot s
same-IsNext i slot s all found = record {
  whole = all;
  next = slot;
  found = found;
  counted = (refl, refl, refl);
}

-- An event and those behind it.
pub HasCounted-append :
    (fs gs : List ℕ) (slot next last : Slot)
    → length fs ≤ 1
    → HasCounted fs slot next
    → HasCounted gs next last
    → HasCounted (fs ++ gs) slot last
HasCounted-append [] gs slot next last le v w = HasCounted-none gs slot next last v w
HasCounted-append (f ∷ []) gs slot next last le v w = HasCounted-one f gs slot next last v w
HasCounted-append (f ∷ (g ∷ fs)) gs slot next last le v w = absurd (omega arith)
