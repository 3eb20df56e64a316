-- ===== src/Receive/Whole.antt =====
-- Which chunks a connection passes on.
use n_backup.Prelude.{
  ℕ, zero, suc, ◌+◌, ◌<◌, ◌≡◌, refl, sym, ap, ◌∙◌, arith, Bool, true, List, [], ◌∷◌, ◌++◌, length,
  drop, append_assoc, length-append, All, if◌then◌else◌, inl, inr, ge→ltb, lt→ltb, lt_or_ge,
  append-split, ==_self, take-length-append, drop-length-append,
}
use n_backup.Protocol.Wire.{ok, err, Error, read_full, read_uint}
use n_backup.Protocol.Frames.{ChunkHeader}
use n_backup.Protocol.Reader.{read_chunk_header}
use n_backup.Frame.{Chunk, frame, frames, Fits}
use n_backup.Frame.Laws.{
  header, length-header, frame-header, header_fields, read_chunk_header-header, length-frame,
  read_chunk_header-cut,
}
use n_backup.Receive.{
  Receiving, Ended, finished, header_failed, payload_failed, next, stop, is_end, acknowledge,
  receive_payload, receive_round, receive_loop,
}

module _ {ℓ} {S : Type ℓ} (deliver : S → ℕ → List ℕ → Bool × S) (crc : List ℕ → ℕ) (index : ℕ) where
  -- The session behind a list of chunks.
  unfoldable pub deliver_all : List Chunk → S → S
  deliver_all [] s = s
  deliver_all (ch ∷ chs) s = deliver_all chs (deliver s ch.seq ch.payload).1

  -- None of the chunks is refused.
  abbrev pub Accepts : List Chunk → S → Type 0
  Accepts [] s = Unit
  Accepts (ch ∷ chs) s =
      ((deliver s ch.seq ch.payload).0 ≡ true) × Accepts chs (deliver s ch.seq ch.payload).1

  -- What the loop has kept when it has passed these chunks on.
  unfoldable pub after : List Chunk → Receiving S → Receiving S
  after [] r = r
  after (ch ∷ chs) r = after chs (
      acknowledge deliver crc index (header_fields crc index ch)
        (deliver r.session ch.seq ch.payload).1 r)

  pub session-after :
      (chs : List Chunk) (r : Receiving S) → (after chs r).session ≡ deliver_all chs r.session
  unfolding after deliver_all acknowledge
  session-after [] r = refl
  session-after (ch ∷ chs) r = session-after chs _

  pub offset-after :
      (chs : List Chunk) (r : Receiving S)
      → (after chs r).offset ≡ r.offset + length (frames crc index chs)
  unfolding after acknowledge frames
  offset-after [] r = omega arith
  offset-after (ch ∷ chs) r =
      offset-after chs _
      ∙ omega (
        arith,
        length-append (frame crc index ch) (frames crc index chs),
        length-frame crc index ch,
      )

  payload_frame :
      (ch : Chunk) (rest : List ℕ) (r : Receiving S)
      → (deliver r.session ch.seq ch.payload).0 ≡ true
      → receive_payload deliver crc index (header_fields crc index ch) (ch.payload ++ rest) r
        ≡ next
            (acknowledge deliver crc index
              (header_fields crc index ch)
              (deliver r.session ch.seq ch.payload).1
              r)
            rest
  unfolding receive_payload
  payload_frame ch rest r accepted = rw (
    ge→ltb (length (ch.payload ++ rest)) (length ch.payload)
        (omega (arith, length-append ch.payload rest)),
    take-length-append ch.payload rest,
    drop-length-append ch.payload rest,
    ==_self (crc ch.payload),
    accepted,
  )

  -- The equations of a round and of the loop.
  round_ok :
      (s rest : List ℕ) (hdr : ChunkHeader) (r : Receiving S)
      → read_chunk_header s ≡ ok (hdr, rest)
      → receive_round deliver crc index s r ≡ receive_payload deliver crc index hdr rest r
  unfolding receive_round
  round_ok s rest hdr r e = ground arith

  round_err :
      (s : List ℕ) (e : Error) (r : Receiving S)
      → read_chunk_header s ≡ err e
      → receive_round deliver crc index s r
        ≡ stop (if is_end e then finished else header_failed e) r
  unfolding receive_round
  round_err s e r h = ground arith

  pub loop_next :
      (rounds : ℕ) (s rest : List ℕ) (r r' : Receiving S)
      → receive_round deliver crc index s r ≡ next r' rest
      → receive_loop deliver crc index (suc rounds) s r
        ≡ receive_loop deliver crc index rounds rest r'
  unfolding receive_loop
  loop_next rounds s rest r r' e = ground arith

  pub loop_stop :
      (rounds : ℕ) (s : List ℕ) (e : Ended) (r r' : Receiving S)
      → receive_round deliver crc index s r ≡ stop e r'
      → receive_loop deliver crc index (suc rounds) s r ≡ (e, r')
  unfolding receive_loop
  loop_stop rounds s e r r' h = ground arith

  -- A round over a whole frame.
  pub round_frame :
      (ch : Chunk) (rest : List ℕ) (r : Receiving S)
      → Fits crc ch
      → (deliver r.session ch.seq ch.payload).0 ≡ true
      → receive_round deliver crc index (frame crc index ch ++ rest) r
        ≡ next
            (acknowledge deliver crc index
              (header_fields crc index ch)
              (deliver r.session ch.seq ch.payload).1
              r)
            rest
  round_frame ch rest r fits accepted =
      ap (λ s. receive_round deliver crc index s r)
        (ap (λ f. f ++ rest) (frame-header crc index ch)
          ∙ append_assoc (header crc index ch) ch.payload rest)
      ∙ (round_ok _ (ch.payload ++ rest) (header_fields crc index ch) r
            (read_chunk_header-header crc index ch (ch.payload ++ rest) fits)
          ∙ payload_frame ch rest r accepted)

  -- A round at the end of the input.
  pub round_end : (r : Receiving S) → receive_round deliver crc index [] r ≡ stop finished r
  unfolding receive_round read_chunk_header is_end read_full read_uint
  round_end r = refl

  payload_short :
      (ch : Chunk) (part : List ℕ) (r : Receiving S)
      → length part < length ch.payload
      → receive_payload deliver crc index (header_fields crc index ch) part r
        ≡ stop payload_failed r
  unfolding receive_payload
  payload_short ch part r few = rw (lt→ltb (length part) (length ch.payload) few) refl

  -- A round over a piece of a frame keeps all as it was; at the end of the input it is no error.
  pub round_cut :
      (ch : Chunk) (front back : List ℕ) (r : Receiving S)
      → Fits crc ch
      → frame crc index ch ≡ front ++ back
      → length front < length (frame crc index ch)
      → (e : Ended) × (receive_round deliver crc index front r ≡ stop e r)
  round_cut ch front back r fits e short = elim (lt_or_ge (length front) 13) [
    | inl lt ↦
        let (whole, _) =
          append-split front back (header crc index ch) ch.payload
            (sym e ∙ frame-header crc index ch) (omega (arith, length-header crc index ch)) in
        let (why, bad) = read_chunk_header-cut crc index ch front _ fits whole lt in
        (_, round_err front why r bad)
    | inr ge ↦
        let (split, left) =
          append-split (header crc index ch) ch.payload front back
            (sym (frame-header crc index ch) ∙ e) (omega (arith, length-header crc index ch)) in
        let part = drop (length (header crc index ch)) front in
        let few : length part < length ch.payload = omega (
          arith,
          ap length split,
          length-append (header crc index ch) part,
          length-header crc index ch,
          length-frame crc index ch,
        ) in
        (
          payload_failed,
          ap (λ s. receive_round deliver crc index s r) split
              ∙ (round_ok _ part (header_fields crc index ch) r
                    (read_chunk_header-header crc index ch part fits)
                  ∙ payload_short ch part r few),
        )
  ]

  -- A connection that delivers the whole frames of chunks, whose fields fit the header and all of which
  -- the session accepts, and that is not cancelled for more rounds than there are chunks, passes them on
  -- in order and acknowledges each; then the loop ends without an error.
  pub receive_all :
      (rounds : ℕ) (chs : List Chunk) (r : Receiving S)
      → All (Fits crc) chs
      → Accepts chs r.session
      → length chs < rounds
      → receive_loop deliver crc index rounds (frames crc index chs) r ≡ (finished, after chs r)
  unfolding frames after acknowledge
  receive_all zero chs r fits accepted enough = absurd (omega arith)
  receive_all (suc rounds) [] r fits accepted enough =
      loop_stop rounds [] finished r r (round_end r)
  receive_all (suc rounds) (ch ∷ chs) r (fit, fits) (accepted, rest) enough =
      loop_next rounds _ (frames crc index chs) r _
        (round_frame ch (frames crc index chs) r fit accepted)
      ∙ receive_all rounds chs _ fits rest (omega arith)
