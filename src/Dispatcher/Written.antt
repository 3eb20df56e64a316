-- ===== src/Dispatcher/Written.antt =====
-- What the ring buffers hold after calls of Write and Flush.
use n_backup.Prelude.{
  ℕ, ◌+◌, ◌%◌, ◌^◌, ◌≡◌, sym, ap, ◌∙◌, arith, false, List, [], ◌∷◌, ◌++◌, length, append-nil,
  length-append, get_elem?, none, some, ◌==◌, ==_self, if◌then◌else◌, inl, inr, Bool-cases,
}
use n_backup.Frame.{Chunk, frame, frames}
use n_backup.Frame.Laws.{frames-append}
use n_backup.Dispatcher.{Stream, Dispatcher, set_stream, emit_chunk, emit_pending}
use n_backup.Dispatcher.Log.{Log, payloads, chunks_of, payloads-append, chunks_of-append}
use n_backup.Dispatcher.Emit.{IsEmitted, emit_chunk-IsEmitted, get_elem?-set_stream}

-- The log and the pending bytes make up the input, and each ring buffer has the frames of its chunks.
pub record IsDispatched (crc : List ℕ → ℕ) (input : List ℕ) (log : Log) (d : Dispatcher)
    : Type 0 where
  pub seqs : d.global_seq ≡ length log % 2 ^ 32
  pub content : payloads log ++ d.pending ≡ input
  pub rings :
      (i : ℕ) (s : Stream)
      → get_elem? d.streams i ≡ some s
      → (s.index ≡ i) × (s.written ≡ frames crc i (chunks_of i 0 log))
  pub unused : (i : ℕ) → get_elem? d.streams i ≡ none → chunks_of i 0 log ≡ []

emit_pending_lem :
    (crc : List ℕ → ℕ) (d : Dispatcher)
    → (emit_pending crc d).0 ≡ none
    → ((emit_chunk crc d d.pending).0 ≡ none)
      × ((emit_pending crc d).1 ≡ record (emit_chunk crc d d.pending).1 { pending = [] })
unfolding emit_pending
emit_pending_lem crc d e = ground arith

module _ (crc : List ℕ → ℕ) where
  -- The chunk at the end of the log, for its stream and for the others.
  its_ring :
      (i : ℕ) (log : Log) (payload : List ℕ)
      → frames crc i (chunks_of i 0 log)
          ++ frame crc i (record { seq = length log % 2 ^ 32; payload = payload })
        ≡ frames crc i (chunks_of i 0 (log ++ ((i, payload) ∷ [])))
  unfolding frames
  its_ring i log payload =
      let ch : Chunk = record { seq = length log % 2 ^ 32; payload = payload } in
      ap (λ f. frames crc i (chunks_of i 0 log) ++ f) (sym (append-nil (frame crc i ch)))
      ∙ (sym (frames-append crc i (chunks_of i 0 log) (ch ∷ []))
          ∙ ap (frames crc i) (
              sym (
                chunks_of-append i 0 i payload log
                ∙ ap
                    (λ b.
                      chunks_of i 0 log
                      ++ (if b
                          then record { seq = (0 + length log) % 2 ^ 32; payload = payload } ∷ []
                          else []))
                    (==_self i)
                ∙ ap
                    (λ (k : ℕ).
                      chunks_of i 0 log ++ (record { seq = k % 2 ^ 32; payload = payload } ∷ []))
                    (omega arith))))

  other_ring :
      (i j : ℕ) (log : Log) (payload : List ℕ)
      → (i == j) ≡ false
      → frames crc i (chunks_of i 0 log) ≡ frames crc i (chunks_of i 0 (log ++ ((j, payload) ∷ [])))
  other_ring i j log payload other =
      ap (frames crc i)
        (sym (chunks_of-append i 0 j payload log ∙ (rw other (append-nil (chunks_of i 0 log)))))

  -- The ring buffers when a chunk was emitted.
  emitted_rings :
      (input : List ℕ) (log : Log) (d d' : Dispatcher) (payload : List ℕ)
      → IsDispatched crc input log d
      → (em : IsEmitted crc d d' payload) → (i : ℕ) (s : Stream) → get_elem? d'.streams i ≡ some s
      → (s.index ≡ i)
        × (s.written ≡ frames crc i (chunks_of i 0 (log ++ ((em.picked.place, payload) ∷ []))))
  emitted_rings input log d d' payload v em i s e =
      let j = em.picked.place in
      let (place, bytes) = v.rings j em.target em.picked.found in
      let here : (if j == i then some em.new else get_elem? d.streams i) ≡ some s =
        sym (get_elem?-set_stream j i em.new em.target d.streams em.picked.found)
        ∙ (ap (λ k. get_elem? (set_stream k em.new d.streams) i) (sym place)
            ∙ (ap (λ l. get_elem? l i) (sym em.replaced) ∙ e)) in
      elim (Bool-cases (j == i)) [
        | inl same ↦
            let at : j ≡ i = ground arith in
            let it : some em.new ≡ some s =
              ap (λ b. if b then some em.new else get_elem? d.streams i) (sym same) ∙ here in
            let it' : em.new ≡ s = cc in
            let ch : Chunk = record { seq = d.global_seq; payload = payload } in
            (
              ap (λ s. s.index) (sym it') ∙ (em.same_index ∙ (place ∙ at)),
              ap (λ s. s.written) (sym it')
                  ∙ (em.frame_written
                      ∙ (ap (λ w. w ++ frame crc em.target.index ch) bytes
                          ∙ (ap (λ k. frames crc j (chunks_of j 0 log) ++ frame crc k ch) place
                              ∙ (ap
                                    (λ q.
                                      frames crc j (chunks_of j 0 log)
                                      ++ frame crc j (record { seq = q; payload = payload }))
                                    v.seqs
                                  ∙ (its_ring j log payload
                                      ∙ ap
                                          (λ k.
                                            frames crc k
                                              (chunks_of k 0 (log ++ ((j, payload) ∷ []))))
                                          at))))),
            )
        | inr other ↦
            let old : get_elem? d.streams i ≡ some s =
              ap (λ b. if b then some em.new else get_elem? d.streams i) (sym other) ∙ here in
            let (index, written) = v.rings i s old in
            (index, written ∙ other_ring i j log payload (ground arith))
      ]

  -- A stream that there is not gets no chunk.
  emitted_unused :
      (input : List ℕ) (log : Log) (d d' : Dispatcher) (payload : List ℕ)
      → IsDispatched crc input log d
      → (em : IsEmitted crc d d' payload) → (i : ℕ) → get_elem? d'.streams i ≡ none
      → chunks_of i 0 (log ++ ((em.picked.place, payload) ∷ [])) ≡ []
  emitted_unused input log d d' payload v em i e =
      let j = em.picked.place in
      let place = (v.rings j em.target em.picked.found).0 in
      let here : (if j == i then some em.new else get_elem? d.streams i) ≡ none =
        sym (get_elem?-set_stream j i em.new em.target d.streams em.picked.found)
        ∙ (ap (λ k. get_elem? (set_stream k em.new d.streams) i) (sym place)
            ∙ (ap (λ l. get_elem? l i) (sym em.replaced) ∙ e)) in
      elim (Bool-cases (j == i)) [
        | inl same ↦ absurd (ground arith)
        | inr other ↦
            let old : get_elem? d.streams i ≡ none =
              ap (λ b. if b then some em.new else get_elem? d.streams i) (sym other) ∙ here in
            let apart : (i == j) ≡ false = ground arith in
            chunks_of-append i 0 j payload log
            ∙ (rw apart (append-nil (chunks_of i 0 log)) ∙ v.unused i old)
      ]

  -- emitChunk of the pending bytes puts them behind the log.
  pub emit_pending-IsDispatched :
      (input : List ℕ) (log : Log) (d : Dispatcher)
      → IsDispatched crc input log d
      → (emit_pending crc d).0 ≡ none
      → (i : ℕ) × IsDispatched crc input (log ++ ((i, d.pending) ∷ [])) (emit_pending crc d).1
        × ((emit_pending crc d).1.pending ≡ [])
        × ((emit_pending crc d).1.chunk_size ≡ d.chunk_size)
  unfolding payloads
  emit_pending-IsDispatched input log d v e =
      let (ok, out) = emit_pending_lem crc d e in
      let em = emit_chunk-IsEmitted crc d d.pending ok in
      (
        em.picked.place,
        record {
          seqs =
              ap (λ x. x.global_seq) out
              ∙ (em.next_seq
                  ∙ omega (arith, v.seqs, length-append log ((em.picked.place, d.pending) ∷ [])));
          content =
              ap (λ x. payloads (log ++ ((em.picked.place, d.pending) ∷ [])) ++ x.pending) out
              ∙ (append-nil (payloads (log ++ ((em.picked.place, d.pending) ∷ [])))
                  ∙ (payloads-append log ((em.picked.place, d.pending) ∷ [])
                      ∙ (ap (λ t. payloads log ++ t) (append-nil d.pending) ∙ v.content)));
          rings = λ i s h.
              emitted_rings input log d (emit_chunk crc d d.pending).1 d.pending v em i s
                (ap (λ x. get_elem? x.streams i) (sym out) ∙ h);
          unused = λ i h.
              emitted_unused input log d (emit_chunk crc d d.pending).1 d.pending v em i
                (ap (λ x. get_elem? x.streams i) (sym out) ∙ h);
        },
        ap (λ x. x.pending) out,
        ap (λ x. x.chunk_size) out ∙ em.same_size,
      )
