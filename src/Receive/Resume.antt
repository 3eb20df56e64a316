-- ===== src/Receive/Resume.antt =====
-- A connection that breaks off anywhere, and the one that goes on after it.
use n_backup.Prelude.{
  ℕ, zero, suc, ◌+◌, ◌-◌, ◌<◌, ◌≡◌, refl, sym, ap, ◌∙◌, arith, Bool, List, [], ◌∷◌, ◌++◌, length,
  drop, length-append, drop-length-append, append-split, All, inl, inr, lt_or_ge,
}
use n_backup.Frame.{Chunk, frame, frames, Fits}
use n_backup.Frame.Laws.{header_fields, frames-append}
use n_backup.Receive.{Receiving, finished, acknowledge, receive_loop, receive_parallel_stream}
use n_backup.Receive.Whole.{
  deliver_all, Accepts, after, session-after, offset-after, loop_next, loop_stop, round_frame,
  round_end, round_cut, receive_all,
}

module _ {ℓ} {S : Type ℓ} (deliver : S → ℕ → List ℕ → Bool × S) (crc : List ℕ → ℕ) (index : ℕ) where
  -- A connection on which the first part of some frames arrives, and whose context may be cancelled,
  -- has passed on the chunks of the first frames and keeps exactly their length.
  pub record IsCut (rounds : ℕ) (front : List ℕ) (chs : List Chunk) (r : Receiving S) : Type ℓ where
    pub passed : List Chunk
    pub left : List Chunk
    pub all : chs ≡ passed ++ left
    pub kept : (receive_loop deliver crc index rounds front r).1 ≡ after deliver crc index passed r

  pub receive-IsCut :
      (rounds : ℕ) (front back : List ℕ) (chs : List Chunk) (r : Receiving S)
      → All (Fits crc) chs
      → Accepts deliver crc index chs r.session
      → frames crc index chs ≡ front ++ back
      → IsCut rounds front chs r
  unfolding after frames acknowledge
  receive-IsCut zero front back chs r fits accepted e = record {
    passed = [];
    left = chs;
    all = refl;
    kept = unfold receive_loop in refl;
  }
  receive-IsCut (suc rounds) [] back [] r fits accepted e = record {
    passed = [];
    left = [];
    all = refl;
    kept =
        ap (λ p. p.1)
          (loop_stop deliver crc index rounds [] finished r r (round_end deliver crc index r));
  }
  receive-IsCut (suc rounds) (x ∷ front) back [] r fits accepted e =
      absurd (omega (arith, ap length e))
  receive-IsCut (suc rounds) front back (ch ∷ chs) r (fit, fits) (ok, oks) e =
      elim (lt_or_ge (length front) (length (frame crc index ch))) [
        | inl short ↦
            let (split, _) =
              append-split front back (frame crc index ch) (frames crc index chs) (sym e)
                (omega arith) in
            let (why, stopped) = round_cut deliver crc index ch front _ r fit split short in
            record {
              passed = [];
              left = ch ∷ chs;
              all = refl;
              kept = ap (λ p. p.1) (loop_stop deliver crc index rounds front why r r stopped);
            }
        | inr whole ↦
            let (split, back_split) =
              append-split (frame crc index ch) (frames crc index chs) front back e whole in
            let part = drop (length (frame crc index ch)) front in
            let r' =
              acknowledge deliver crc index (header_fields crc index ch)
                (deliver r.session ch.seq ch.payload).1 r in
            let rest = receive-IsCut rounds part back chs r' fits oks back_split in
            record {
              passed = ch ∷ rest.passed;
              left = rest.left;
              all = ap (λ l. ch ∷ l) rest.all;
              kept =
                  ap (λ p. p.1)
                    (ap (λ s. receive_loop deliver crc index (suc rounds) s r) split
                      ∙ loop_next deliver crc index rounds _ part r r'
                          (round_frame deliver crc index ch part r fit ok))
                  ∙ rest.kept;
            }
      ]

  deliver_all-append :
      (xs ys : List Chunk) (s : S)
      → deliver_all deliver crc index (xs ++ ys) s
        ≡ deliver_all deliver crc index ys (deliver_all deliver crc index xs s)
  unfolding deliver_all
  deliver_all-append [] ys s = refl
  deliver_all-append (ch ∷ xs) ys s = deliver_all-append xs ys _

  Accepts-append :
      (xs ys : List Chunk) (s : S)
      → Accepts deliver crc index (xs ++ ys) s
      → Accepts deliver crc index ys (deliver_all deliver crc index xs s)
  unfolding deliver_all
  Accepts-append [] ys s a = a
  Accepts-append (ch ∷ xs) ys s (ok, a) = Accepts-append xs ys _ a

  All-append_right : (xs ys : List Chunk) → All (Fits crc) (xs ++ ys) → All (Fits crc) ys
  All-append_right [] ys a = a
  All-append_right (ch ∷ xs) ys (_, a) = All-append_right xs ys a

  -- The second connection, from where the first stopped.
  continued :
      (rounds : ℕ) (passed left : List Chunk) (r broken : Receiving S)
      → All (Fits crc) (passed ++ left)
      → Accepts deliver crc index (passed ++ left) r.session
      → length (passed ++ left) < rounds
      → broken ≡ after deliver crc index passed r
      → receive_parallel_stream deliver crc index rounds
          (drop (broken.offset - r.offset) (frames crc index (passed ++ left)))
          broken
        ≡ (finished, after deliver crc index left (record broken { local_chunk_seq = 0 }))
  unfolding receive_parallel_stream
  continued rounds passed left r broken fits accepted enough e =
      let session : broken.session ≡ deliver_all deliver crc index passed r.session =
        ap (λ b. b.session) e ∙ session-after deliver crc index passed r in
      let offset : broken.offset - r.offset ≡ length (frames crc index passed) =
        omega (arith, ap (λ b. b.offset) e, offset-after deliver crc index passed r) in
      let rest : drop (broken.offset - r.offset) (frames crc index (passed ++ left))
          ≡ frames crc index left =
        ap (λ k. drop k (frames crc index (passed ++ left))) offset
        ∙ (ap (drop (length (frames crc index passed))) (frames-append crc index passed left)
            ∙ drop-length-append (frames crc index passed) (frames crc index left)) in
      ap (λ s. receive_loop deliver crc index rounds s (record broken { local_chunk_seq = 0 })) rest
      ∙ receive_all deliver crc index rounds left (record broken { local_chunk_seq = 0 })
          (All-append_right passed left fits)
          (rw session (Accepts-append passed left r.session accepted))
          (omega (arith, length-append passed left))

  -- Chunks whose fields fit the header, and all of which the session accepts, are sent as frames. The
  -- connection breaks off anywhere, or is cancelled after any round; the next one starts at the offset
  -- that the slot then has, delivers the rest and is not cancelled for more rounds than there are
  -- chunks. Then its loop ends without an error, the session has got every chunk once and in order, as
  -- over one whole connection, and the slot's offset counts all bytes.
  pub receive_resumed :
      (rounds rounds' : ℕ) (front back : List ℕ) (chs : List Chunk) (r : Receiving S)
      → All (Fits crc) chs
      → Accepts deliver crc index chs r.session
      → frames crc index chs ≡ front ++ back
      → length chs < rounds'
      → let broken = (receive_parallel_stream deliver crc index rounds front r).1 in
        let rest = drop (broken.offset - r.offset) (frames crc index chs) in
        let (end, r') = receive_parallel_stream deliver crc index rounds' rest broken in
        (end ≡ finished)
        × (r'.session ≡ deliver_all deliver crc index chs r.session)
        × (r'.offset ≡ r.offset + length (frames crc index chs))
  receive_resumed rounds rounds' front back chs r fits accepted e enough =
      let r0 = record r { local_chunk_seq = 0 } in
      let cut = receive-IsCut rounds front back chs r0 fits accepted e in
      let broken = (receive_parallel_stream deliver crc index rounds front r).1 in
      let kept : broken ≡ after deliver crc index cut.passed r0 =
        (unfold receive_parallel_stream in cut.kept) in
      let res =
        continued rounds' cut.passed cut.left r0 broken (rw (← cut.all) fits)
          (rw (← cut.all) accepted) (rw (← cut.all) enough) kept in
      let whole =
        ap
          (λ l.
            receive_parallel_stream deliver crc index rounds'
              (drop (broken.offset - r.offset) (frames crc index l)) broken)
          cut.all
        ∙ res in
      let b0 = record broken { local_chunk_seq = 0 } in
      (
        ap (λ p. p.0) whole,
        ap (λ p. p.1.session) whole
            ∙ (session-after deliver crc index cut.left b0
                ∙ (ap (deliver_all deliver crc index cut.left)
                      (ap (λ b. b.session) kept ∙ session-after deliver crc index cut.passed r0)
                    ∙ (sym (deliver_all-append cut.passed cut.left r.session)
                        ∙ ap (λ l. deliver_all deliver crc index l r.session) (sym cut.all)))),
        ap (λ p. p.1.offset) whole
            ∙ omega (
              arith,
              offset-after deliver crc index cut.left b0,
              ap (λ b. b.offset) kept,
              offset-after deliver crc index cut.passed r0,
              ap (λ l. length (frames crc index l)) cut.all,
              ap length (frames-append crc index cut.passed cut.left),
              length-append (frames crc index cut.passed) (frames crc index cut.left),
            ),
      )
