-- ===== src/Transfer/Whole.antt =====
-- The whole way, from the producer's calls to the file.
use native.Mathlib.Nat.{mul-le-mul_right}
use n_backup.Prelude.{
  ℕ, ◌+◌, ◌*◌, ◌^◌, ◌≤◌, ◌<◌, ◌≡◌, refl, sym, ap, ◌∙◌, arith, true, false, List, [], length,
  get_elem?, none, some, All, inl, inr, lt_or_ge, Option-cases,
}
use n_backup.Frame.{frames}
use n_backup.Assembler.Defs.{eager, max_chunk_length, new_chunk_assembler}
use n_backup.Assembler.Branches.{is_refused}
use n_backup.Assembler.System.{contains}
use n_backup.Assembler.Alone.{IsEager-complete, new_chunk_assembler-IsEager}
use n_backup.Receive.{finished}
use n_backup.Dispatcher.{Dispatcher, new_dispatcher, Call, produce, flush}
use n_backup.Dispatcher.Log.{Log, chunks_of, payload_of, written_by}
use n_backup.Dispatcher.Numbers.{seqs, chunks_of-AreOf, chunks_of_has, chunks-payloads}
use n_backup.Dispatcher.Whole.{flush-produce}
use n_backup.Dispatcher.Written.{IsDispatched}
use n_backup.Transfer.{ring_of, receive_streams}
use n_backup.Transfer.Laws.{payload_lengths, receive_streams-IsReceived}

ring_of-frames :
    (crc : List ℕ → ℕ) (input : List ℕ) (log : Log) (d : Dispatcher) (i : ℕ)
    → IsDispatched crc input log d
    → ring_of d i ≡ frames crc i (chunks_of i 0 log)
ring_of-frames crc input log d i v = elim (Option-cases (get_elem? d.streams i)) [
  | inl absent ↦ ring_absent absent ∙ ap (frames crc i) (sym (v.unused i absent))
  | inr (s, found) ↦ ring_found s found ∙ (v.rings i s found).1
]
  where
    ring_absent : get_elem? d.streams i ≡ none → ring_of d i ≡ frames crc i []
    ring_absent e = unfold ring_of frames in ground arith

    ring_found :
        (s : n_backup.Dispatcher.Stream) → get_elem? d.streams i ≡ some s → ring_of d i ≡ s.written
    ring_found s e = unfold ring_of in ground arith

few_chunks : (k len size : ℕ) → k * size < len + size → len + size ≤ 2 ^ 32 * size → k < 2 ^ 32
few_chunks k len size few le = elim (lt_or_ge k (2 ^ 32)) [
  | inl lt ↦ lt
  | inr ge ↦ let more = mul-le-mul_right size ge in absurd (omega (arith, more))
]

-- The stream that has a chunk is one of the dispatcher's.
used :
    (crc : List ℕ → ℕ) (input : List ℕ) (log : Log) (d : Dispatcher) (i s : ℕ)
    → IsDispatched crc input log d
    → contains s (seqs (chunks_of i 0 log)) ≡ true
    → i < length d.streams
used crc input log d i s v has = elim (lt_or_ge i (length d.streams)) [
  | inl lt ↦ lt
  | inr ge ↦ absurd (nothing (ap (λ l. contains s (seqs l)) (sym (v.unused i (beyond ge))) ∙ has))
]
  where
    beyond : length d.streams ≤ i → get_elem? d.streams i ≡ none
    beyond ge = n_backup.Prelude.get_elem?-ge d.streams i ge

    nothing : contains s (seqs []) ≡ true → ⊥
    nothing h = unfold contains in ground arith

-- For at most 256 streams, a chunk size from 1 to the assembler's limit, an archive of at most 2^32 - 1 chunks, eager mode
-- and any checksum of 32 bits: when the producer's Writes and its Flush return nil, and then every
-- stream's connection delivers what its ring buffer was given, the connections in any order and any of
-- them more than once, then each receive loop ends without an error and the server's file is the
-- archive, byte for byte.
pub receive_streams-produce :
    (crc : List ℕ → ℕ) (limit size max_streams : ℕ) (calls : List Call) (order : List ℕ)
    (d d' : Dispatcher)
    → ((l : List ℕ) → crc l < 2 ^ 32)
    → max_streams ≤ 256
    → 0 < size
    → size ≤ max_chunk_length
    → length (written_by calls) + size ≤ 2 ^ 32 * size
    → produce crc (new_dispatcher max_streams size) calls ≡ (none, d)
    → flush crc d ≡ (none, d')
    → ((i : ℕ) → i < length d'.streams → contains i order ≡ true)
    → let (ends, ca) = receive_streams crc d' order (new_chunk_assembler eager limit) in
      All (λ e. e ≡ finished) ends × (ca.out ≡ written_by calls)
receive_streams-produce crc limit size max_streams calls order d d' crc_fits byte pos le total
      produced flushed every =
    let f = flush-produce crc size pos max_streams calls d d' byte produced flushed in
    let log = f.log in
    let c = payload_of log in
    let small : length log < 2 ^ 32 =
      few_chunks (length log) (length (written_by calls)) size f.few total in
    let lengths = λ (s : ℕ) (lt : s < length log). payload_lengths size s log f.lengths lt in
    let (ended, good, kept, new) =
      receive_streams-IsReceived c (length log) small
        (λ s lt. fine (c s) (lengths s lt).0 (lengths s lt).1) crc crc_fits d'
        (λ i. chunks_of i 0 log) order (new_chunk_assembler eager limit)
        (λ i. ring_of-frames crc (written_by calls) log d' i f.dispatched)
        (λ i.
          chunks_of-AreOf c (length log) i 0 log small (omega arith) (λ t lt. ap c (omega arith)))
        (λ s lt. below (c s) (lengths s lt).1)
        (new_chunk_assembler-IsEager c (length log) small limit) in
    let (reached, whole) =
      IsEager-complete c (length log) small
        (receive_streams crc d' order (new_chunk_assembler eager limit)).1 good
        (λ s lt.
          let (i, has) = chunks_of_has 0 s log lt (omega arith) in
          let has' : contains s (seqs (chunks_of i 0 log)) ≡ true =
            ap (λ (t : ℕ). contains t (seqs (chunks_of i 0 log))) (omega arith) ∙ has in
          new i s (every i (used crc (written_by calls) log d' i s f.dispatched has')) has') in
    (ended, whole ∙ (chunks-payloads log ∙ f.content))
  where
    fine : (p : List ℕ) → 0 < length p → length p ≤ size → is_refused p ≡ false
    fine p more le' = ground arith

    below : (p : List ℕ) → length p ≤ size → length p < 2 ^ 32
    below p le' = omega arith
