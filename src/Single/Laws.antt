-- ===== src/Single/Laws.antt =====
-- What receiveWithSACK keeps of the bytes that it reads, and what it acknowledges.
use n_backup.Prelude.{
  ◌⊎◌, ◌||◌, ℕ, ◌+◌, ◌-◌, ◌≤◌, ◌<◌, ◌≡◌, refl, sym, ap, ◌∙◌, inl, inr, arith, Bool, true, false,
  not, List, [], ◌∷◌, ◌++◌, append-nil, append_assoc, length, take, drop, All, Option, none, some,
  leb, ◌==◌, if◌then◌else◌, length-append, take-append-drop, Bool-cases, Option-cases,
}
use n_backup.Single.{
  ReadEnd, at_eof, broken, Read, SackLoop, Received, goes_on, returned, start_receiving, flush_file,
  write_file, end_read, send_sack, sack_read, read_once, receive_with_sack,
}

-- What the reads deliver up to the first that has an error.
unfoldable pub delivered : List Read → List ℕ
delivered [] = []
delivered (r ∷ rs) = elim r.ended [ none ↦ r.bytes ++ delivered rs | some e ↦ r.bytes ]

-- The first read that has an error has io.EOF.
unfoldable pub sees_eof : List Read → Bool
sees_eof [] = false
sees_eof (r ∷ rs) = elim r.ended [ none ↦ sees_eof rs | some at_eof ↦ true | some broken ↦ false ]

unfoldable pub has : ℕ → List ℕ → Bool
has o [] = false
has o (x ∷ xs) = (x == o) || has o xs

-- No SACK was due yet, or the last one that was due names the offset that was reached then: it was
-- written, or WriteSACK failed.
abbrev pub IsTried : ℕ → SackLoop → Type 0
IsTried start r =
    (r.last_sack ≡ 0)
    ⊎ ((has (start + r.last_sack) r.sacks ≡ true)
        ⊎ (has (start + r.last_sack) r.failed_sacks ≡ true))

-- `all` is the file as it was at the start, `start` bytes, with the bytes that were read behind it. All of
-- it is in the file or in front of it, and what was acknowledged is in the file.
pub record IsKept (start : ℕ) (all : List ℕ) (r : SackLoop) : Type 0 where
  pub content : r.file ++ r.buffered ≡ all
  pub counted : r.bytes_written ≡ length all
  pub received : r.bytes_written ≡ start + r.bytes_received
  pub tried : IsTried start r
  pub acknowledged : All (λ o. o ≤ length r.file) r.sacks

-- All of it is in the file.
pub record IsStored (start : ℕ) (all : List ℕ) (r : SackLoop) : Type 0 where
  pub content : r.file ≡ all
  pub received : length all ≡ start + r.bytes_received
  pub acknowledged : All (λ o. o ≤ length r.file) r.sacks

-- An end of it may be lost.
pub record IsCut (all : List ℕ) (r : SackLoop) : Type 0 where
  pub rest : List ℕ
  pub content : r.file ++ rest ≡ all
  pub acknowledged : All (λ o. o ≤ length r.file) r.sacks

All_le : (ss : List ℕ) (a b : ℕ) → a ≤ b → All (λ o. o ≤ a) ss → All (λ o. o ≤ b) ss
All_le [] a b h v = tt
All_le (s ∷ ss) a b h (v, vs) = (omega arith, All_le ss a b h vs)

All_snoc : (ss : List ℕ) (s b : ℕ) → s ≤ b → All (λ o. o ≤ b) ss → All (λ o. o ≤ b) (ss ++ s ∷ [])
All_snoc [] s b h v = (h, tt)
All_snoc (x ∷ ss) s b h (v, vs) = (v, All_snoc ss s b h vs)

-- The variables that the writes to the file leave alone.
abbrev IsSame : SackLoop → SackLoop → Type 0
IsSame f r =
    (f.sacks ≡ r.sacks)
    × (f.bytes_received ≡ r.bytes_received)
    × (f.bytes_written ≡ r.bytes_written)
    × (f.last_sack ≡ r.last_sack)
    × (f.failed_sacks ≡ r.failed_sacks)
    × (length r.file ≤ length f.file)

-- A flush that succeeds leaves nothing behind.
abbrev IsFlushed : SackLoop → Bool × SackLoop → Type 0
IsFlushed r (true, f) = (f.file ≡ r.file ++ r.buffered) × (f.buffered ≡ []) × IsSame f r
IsFlushed r (false, f) =
    (rest : List ℕ) × (f.file ++ rest ≡ r.file ++ r.buffered)
    × (f.sacks ≡ r.sacks)
    × (length r.file ≤ length f.file)

abbrev IsWritten : SackLoop → List ℕ → Bool × SackLoop → Type 0
IsWritten r p (true, w) = (w.file ++ w.buffered ≡ (r.file ++ r.buffered) ++ p) × IsSame w r
IsWritten r p (false, w) =
    (rest : List ℕ) × (w.file ++ rest ≡ (r.file ++ r.buffered) ++ p)
    × (w.sacks ≡ r.sacks)
    × (length r.file ≤ length w.file)

has_last : (o : ℕ) (xs : List ℕ) → has o (xs ++ (o ∷ [])) ≡ true
unfolding has
has_last o [] = ground arith
has_last o (x ∷ xs) = ground (arith, has_last o xs)

IsTried-same :
    (start : ℕ) (f r : SackLoop)
    → f.sacks ≡ r.sacks
    → f.failed_sacks ≡ r.failed_sacks
    → f.last_sack ≡ r.last_sack
    → IsTried start r
    → IsTried start f
IsTried-same start f r s q l v = rw (s, q, l) v

nil_of_zero : (xs : List ℕ) → (length xs == 0) ≡ true → xs ≡ []
nil_of_zero [] e = refl
nil_of_zero (x ∷ xs) e = absurd (ground arith)

flush_file-IsFlushed : (fault : Option ℕ) (r : SackLoop) → IsFlushed r (flush_file fault r)
unfolding flush_file
flush_file-IsFlushed none r =
    (refl, refl, (refl, refl, refl, refl, refl, omega (arith, length-append r.file r.buffered)))
flush_file-IsFlushed (some k) r = elim (Bool-cases (length r.buffered == 0)) [
  | inl e ↦ rw e (
    sym (rw (nil_of_zero r.buffered e) (append-nil r.file)),
    nil_of_zero r.buffered e,
    (refl, refl, refl, refl, refl, omega arith),
  )
  | inr e ↦ rw e (
    drop k r.buffered,
    append_assoc r.file (take k r.buffered) (drop k r.buffered)
        ∙ ap (λ b. r.file ++ b) (take-append-drop k r.buffered),
    refl,
    omega (arith, length-append r.file (take k r.buffered)),
  )
]

pieces : (xs b p : List ℕ) (room : ℕ) → (xs ++ (b ++ take room p)) ++ drop room p ≡ (xs ++ b) ++ p
pieces xs b p room = simp append_assoc (ap (λ t. xs ++ (b ++ t)) (take-append-drop room p))

flush_behind :
    (r : SackLoop) (p : List ℕ) (room : ℕ) (fits : Bool) (o : Bool × SackLoop)
    → IsFlushed (record r { buffered = r.buffered ++ take room p }) o
    → IsWritten r p (
        if fits
        then (true, record r { buffered = r.buffered ++ p })
        else if o.0
        then (true, record o.1 { buffered = drop room p })
        else (false, o.1))
flush_behind r p room true o v =
    (sym (append_assoc r.file r.buffered p), (refl, refl, refl, refl, refl, omega arith))
flush_behind r p room false (true, f) (e, empty, same) =
    (ap (λ x. x ++ drop room p) e ∙ pieces r.file r.buffered p room, same)
flush_behind r p room false (false, f) (rest, e, sacks, le) = (
  rest ++ drop room p,
  sym (append_assoc f.file rest (drop room p))
      ∙ ap (λ x. x ++ drop room p) e
      ∙ pieces r.file r.buffered p room,
  sacks,
  le,
)

module _ (io_buffer_size sack_interval : ℕ) where
  write_file-IsWritten :
      (fault : Option ℕ) (p : List ℕ) (r : SackLoop)
      → IsWritten r p (write_file io_buffer_size sack_interval fault p r)
  unfolding write_file
  write_file-IsWritten fault p r =
      let room = io_buffer_size - length r.buffered in
      flush_behind r p room (leb (length p) room) _
        (flush_file-IsFlushed fault (record r { buffered = r.buffered ++ take room p }))

  -- While it goes on, less than sackInterval bytes are not acknowledged.
  abbrev IsOneRead : ℕ → List ℕ → Read → Received → Type 0
  IsOneRead start all read (goes_on r) =
      (read.ended ≡ none) × IsKept start all r × (r.bytes_received < r.last_sack + sack_interval)
  IsOneRead start all read (returned true r) = (read.ended ≡ some at_eof) × IsStored start all r
  IsOneRead start all read (returned false r) = IsCut all r

  stored :
      (start : ℕ) (all : List ℕ) (r : SackLoop) (o : Bool × SackLoop)
      → IsKept start all r
      → IsFlushed r o
      → (o.0 ≡ true → IsStored start all o.1) × (o.0 ≡ false → IsCut all o.1)
  stored start all r (true, f) v (e, empty, (s, b, w, l, q, le)) = (
    λ _. record {
      content = e ∙ v.content;
      received = omega (arith, v.counted, v.received, b);
      acknowledged = rw s (All_le r.sacks _ _ le v.acknowledged);
    },
    λ h. absurd (cc),
  )
  stored start all r (false, f) v (rest, e, s, le) = (
    λ h. absurd (cc),
    λ _. record {
      rest = rest;
      content = e ∙ v.content;
      acknowledged = rw s (All_le r.sacks _ _ le v.acknowledged);
    },
  )

  stored_cut : (start : ℕ) (all : List ℕ) (r : SackLoop) → IsStored start all r → IsCut all r
  stored_cut start all r v = record {
    rest = [];
    content = append-nil r.file ∙ v.content;
    acknowledged = v.acknowledged;
  }

  end_read-IsOneRead :
      (start : ℕ) (all : List ℕ) (read : Read) (r : SackLoop)
      → IsKept start all r
      → r.bytes_received < r.last_sack + sack_interval
      → IsOneRead start all read (end_read io_buffer_size sack_interval read r)
  unfolding end_read
  end_read-IsOneRead start all read r v late = by_end read.ended refl
    where
      o : Bool × SackLoop
      o = flush_file read.on_end r

      both : (o.0 ≡ true → IsStored start all o.1) × (o.0 ≡ false → IsCut all o.1)
      both = stored start all r (flush_file read.on_end r) v (flush_file-IsFlushed read.on_end r)

      settled :
          (b : Bool) (f : SackLoop)
          → read.ended ≡ some at_eof
          → (b ≡ true → IsStored start all f)
          → (b ≡ false → IsCut all f)
          → IsOneRead start all read (returned b f)
      settled true f e h k = (e, h refl)
      settled false f e h k = k refl

      any_cut :
          (b : Bool) (f : SackLoop)
          → (b ≡ true → IsStored start all f)
          → (b ≡ false → IsCut all f)
          → IsCut all f
      any_cut true f h k = stored_cut start all f (h refl)
      any_cut false f h k = k refl

      by_end :
          (e : Option ReadEnd)
          → read.ended ≡ e
          → IsOneRead start all read (elim e [
            | none ↦ goes_on r
            | some at_eof ↦ returned (flush_file read.on_end r).0 (flush_file read.on_end r).1
            | some broken ↦ returned false (flush_file read.on_end r).1
          ])
      by_end none e = (e, v, late)
      by_end (some at_eof) e =
          settled (flush_file read.on_end r).0 (flush_file read.on_end r).1 e both.0 both.1
      by_end (some broken) e =
          any_cut (flush_file read.on_end r).0 (flush_file read.on_end r).1 both.0 both.1

  send_sack-IsKept :
      (start : ℕ) (all : List ℕ) (sent : Bool) (r : SackLoop)
      → IsKept start all r
      → r.buffered ≡ []
      → IsKept start all (send_sack io_buffer_size sack_interval sent r)
        × ((send_sack io_buffer_size sack_interval sent r).bytes_received
            ≡ (send_sack io_buffer_size sack_interval sent r).last_sack)
  unfolding send_sack
  send_sack-IsKept start all true r v empty = (
    record {
      content = v.content;
      counted = v.counted;
      received = v.received;
      tried = inr (inl (rw (sym v.received) (has_last r.bytes_written r.sacks)));
      acknowledged =
          All_snoc r.sacks r.bytes_written (length r.file)
            (omega (
              arith,
              v.counted,
              length-append r.file r.buffered,
              ap length empty,
              ap length v.content,
            ))
            v.acknowledged;
    },
    refl,
  )
  send_sack-IsKept start all false r v empty = (
    record {
      content = v.content;
      counted = v.counted;
      received = v.received;
      tried = inr (inr (rw (sym v.received) (has_last r.bytes_written r.failed_sacks)));
      acknowledged = v.acknowledged;
    },
    refl,
  )

  flushed-IsKept :
      (start : ℕ) (all : List ℕ) (f r : SackLoop)
      → IsKept start all r
      → IsFlushed r (true, f)
      → IsKept start all f
  flushed-IsKept start all f r v (e, empty, (s, b, w, l, q, le)) = record {
    content = ap (λ x. f.file ++ x) empty ∙ append-nil f.file ∙ e ∙ v.content;
    counted = w ∙ v.counted;
    received = omega (arith, v.received, w, b);
    tried = IsTried-same start f r s q l v.tried;
    acknowledged = rw s (All_le r.sacks _ _ le v.acknowledged);
  }

  sack_read-IsOneRead :
      (start : ℕ) (all : List ℕ) (read : Read) (r : SackLoop)
      → 0 < sack_interval
      → IsKept start all r
      → IsOneRead start all read (sack_read io_buffer_size sack_interval read r)
  unfolding sack_read
  sack_read-IsOneRead start all read r pos v =
      by_flush (flush_file read.on_sack r) (flush_file-IsFlushed read.on_sack r)
    where
      by_flush :
          (o : Bool × SackLoop)
          → IsFlushed r o
          → IsOneRead start all read (
              if leb sack_interval (r.bytes_received - r.last_sack)
              then if o.0
                then end_read io_buffer_size sack_interval read
                    (send_sack io_buffer_size sack_interval read.sack_sent o.1)
                else returned false o.1
              else end_read io_buffer_size sack_interval read r)
      by_flush o h = elim (Bool-cases (leb sack_interval (r.bytes_received - r.last_sack))) [
        | inr e ↦ rw e (end_read-IsOneRead start all read r v (ground arith))
        | inl e ↦ rw e (sent o h)
      ]
        where
          sent :
              (o : Bool × SackLoop)
              → IsFlushed r o
              → IsOneRead start all read (
                  if o.0
                  then end_read io_buffer_size sack_interval read
                      (send_sack io_buffer_size sack_interval read.sack_sent o.1)
                  else returned false o.1)
          sent (false, f) h = (stored start all r (false, f) v h).1 refl
          sent (true, f) h =
              let (kept, now) =
                send_sack-IsKept start all read.sack_sent f (flushed-IsKept start all f r v h)
                  h.1 in
              end_read-IsOneRead start all read _ kept (omega (arith, now, pos))

  read_once-IsOneRead :
      (start : ℕ) (all : List ℕ) (read : Read) (r : SackLoop)
      → 0 < sack_interval
      → IsKept start all r
      → r.bytes_received < r.last_sack + sack_interval
      → IsOneRead start (all ++ read.bytes) read (read_once io_buffer_size sack_interval read r)
  unfolding read_once end_read
  read_once-IsOneRead start all read r pos v late = elim (Bool-cases (length read.bytes == 0)) [
    | inl e ↦
        rw (e, nil_of_zero read.bytes e, append-nil all)
          (end_read-IsOneRead start all read r v late)
    | inr e ↦ rw e (
        by_write (write_file io_buffer_size sack_interval read.on_write read.bytes r)
          (write_file-IsWritten read.on_write read.bytes r))
  ]
    where
      by_write :
          (o : Bool × SackLoop)
          → IsWritten r read.bytes o
          → IsOneRead start (all ++ read.bytes) read (
              if not o.0
              then returned false o.1
              else sack_read io_buffer_size sack_interval read (record o.1 {
                bytes_received = o.1.bytes_received + length read.bytes;
                bytes_written = o.1.bytes_written + length read.bytes;
              }))
      by_write (false, w) (rest, e, s, le) = record {
        rest = rest;
        content = e ∙ ap (λ x. x ++ read.bytes) v.content;
        acknowledged = rw s (All_le r.sacks _ _ le v.acknowledged);
      }
      by_write (true, w) (e, (s, b, n, l, q, le)) =
          sack_read-IsOneRead start (all ++ read.bytes) read _ pos (record {
            content = e ∙ ap (λ x. x ++ read.bytes) v.content;
            counted = omega (arith, v.counted, n, length-append all read.bytes);
            received = omega (arith, v.received, n, b);
            tried =
                IsTried-same start
                  (record w {
                    bytes_received = w.bytes_received + length read.bytes;
                    bytes_written = w.bytes_written + length read.bytes;
                  })
                  r s q l v.tried;
            acknowledged = rw s (All_le r.sacks _ _ le v.acknowledged);
          })

  delivered_more :
      (read : Read) (reads : List Read)
      → read.ended ≡ none
      → delivered (read ∷ reads) ≡ read.bytes ++ delivered reads
  unfolding delivered
  delivered_more read reads e = ground arith

  delivered_last :
      (read : Read) (reads : List Read) (x : ReadEnd)
      → read.ended ≡ some x
      → delivered (read ∷ reads) ≡ read.bytes
  unfolding delivered
  delivered_last read reads x e = ground arith

  sees_eof_last :
      (read : Read) (reads : List Read) → read.ended ≡ some at_eof → sees_eof (read ∷ reads) ≡ true
  unfolding sees_eof
  sees_eof_last read reads e = ground arith

  sees_eof_more :
      (read : Read) (reads : List Read)
      → read.ended ≡ none
      → sees_eof (read ∷ reads) ≡ sees_eof reads
  unfolding sees_eof
  sees_eof_more read reads e = ground arith

  delivered_begins :
      (read : Read) (reads : List Read)
      → (more : List ℕ) × (delivered (read ∷ reads) ≡ read.bytes ++ more)
  delivered_begins read reads = elim (Option-cases read.ended) [
    | inl e ↦ (delivered reads, delivered_more read reads e)
    | inr (x, e) ↦ ([], delivered_last read reads x e ∙ sym (append-nil read.bytes))
  ]

  -- What a call leaves behind: while it waits, when it returns without an error, and when it fails.
  abbrev pub IsReceived : ℕ → List ℕ → Bool → Received → Type 0
  IsReceived start all eof (goes_on r) =
      IsKept start all r × (r.bytes_received < r.last_sack + sack_interval)
  IsReceived start all eof (returned true r) = (eof ≡ true) × IsStored start all r
  IsReceived start all eof (returned false r) = IsCut all r

  receive-IsReceived :
      (start : ℕ) (all : List ℕ) (reads : List Read) (r : SackLoop)
      → 0 < sack_interval
      → IsKept start all r
      → r.bytes_received < r.last_sack + sack_interval
      → IsReceived start
          (all ++ delivered reads)
          (sees_eof reads)
          (receive_with_sack io_buffer_size sack_interval reads r)
  unfolding receive_with_sack
  receive-IsReceived start all [] r pos v late = unfold delivered in rw (append-nil all) (v, late)
  receive-IsReceived start all (read ∷ reads) r pos v late =
      by_read (receive-IsReceived start (all ++ read.bytes) reads)
        (read_once io_buffer_size sack_interval read r)
        (read_once-IsOneRead start all read r pos v late)
    where
      by_read :
          ((r' : SackLoop)
            → 0 < sack_interval
            → IsKept start (all ++ read.bytes) r'
            → r'.bytes_received < r'.last_sack + sack_interval
            → IsReceived start
                ((all ++ read.bytes) ++ delivered reads)
                (sees_eof reads)
                (receive_with_sack io_buffer_size sack_interval reads r'))
          → (o : Received) → IsOneRead start (all ++ read.bytes) read o
          → IsReceived start (all ++ delivered (read ∷ reads)) (sees_eof (read ∷ reads)) (elim o [
            | goes_on r' ↦ receive_with_sack io_buffer_size sack_interval reads r'
            | returned ok r' ↦ returned ok r'
          ])
      by_read rec (goes_on r') (e, w, l) =
          rw
            (
              delivered_more read reads e,
              sees_eof_more read reads e,
              sym (append_assoc all read.bytes (delivered reads)),
            )
            (rec r' pos w l)
      by_read rec (returned true r') (e, w) =
          rw (delivered_last read reads at_eof e, sees_eof_last read reads e) (refl, w)
      by_read rec (returned false r') w =
          let (more, e) = delivered_begins read reads in
          record {
            rest = w.rest ++ more;
            content =
                sym (append_assoc r'.file w.rest more)
                ∙ ap (λ x. x ++ more) w.content
                ∙ append_assoc all read.bytes more
                ∙ ap (λ x. all ++ x) (sym e);
            acknowledged = w.acknowledged;
          }

  pub receive_with_sack-IsReceived :
      (file : List ℕ) (reads : List Read)
      → 0 < sack_interval
      → IsReceived (length file) (file ++ delivered reads) (sees_eof reads) (
          receive_with_sack io_buffer_size sack_interval reads (start_receiving file (length file)))
  unfolding start_receiving
  receive_with_sack-IsReceived file reads pos =
      receive-IsReceived (length file) file reads _ pos
        (record {
          content = append-nil file;
          counted = refl;
          received = omega arith;
          tried = inl refl;
          acknowledged = tt;
        })
        (omega arith)
