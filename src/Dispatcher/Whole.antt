-- ===== src/Dispatcher/Whole.antt =====
-- A new dispatcher, the producer's calls and the Flush at the end.
use n_backup.Prelude.{
  ℕ, zero, suc, ◌+◌, ◌<◌, ◌≤◌, ◌≡◌, refl, sym, ap, ◌∙◌, arith, List, [], get_elem?, none, some,
}
use n_backup.Frame.{frames}
use n_backup.Dispatcher.{
  Stream, Dispatcher, new_stream, new_streams, new_dispatcher, Call, produce, flush,
}
use n_backup.Dispatcher.Log.{payloads, chunks_of, written_by}
use n_backup.Dispatcher.Write.{IsWriting}
use n_backup.Dispatcher.Flush.{IsFlushed, flush-IsFlushed}
use n_backup.Dispatcher.Produce.{produce-IsWriting}

get_elem?-new_streams :
    (k m i : ℕ) (s : Stream)
    → get_elem? (new_streams k m) i ≡ some s
    → (s ≡ new_stream (k + i)) × (i < m)
unfolding new_streams
get_elem?-new_streams k zero i s e = absurd (ground arith)
get_elem?-new_streams k (suc m) zero s e =
    let at : k ≡ k + 0 = omega arith in
    let first : new_stream k ≡ s = cc in (sym first ∙ ap new_stream at, omega arith)
get_elem?-new_streams k (suc m) (suc i) s e =
    let (same, lt) = get_elem?-new_streams (k + 1) m i s e in
    (same ∙ ap new_stream (omega arith), omega arith)

module _ (crc : List ℕ → ℕ) (size : ℕ) (pos : 0 < size) where
  pub new_dispatcher-IsWriting :
      (max_streams : ℕ)
      → max_streams ≤ 256
      → IsWriting crc size [] (new_dispatcher max_streams size)
  unfolding new_dispatcher payloads chunks_of frames
  new_dispatcher-IsWriting max_streams byte = record {
    log = [];
    dispatched = record {
      seqs = omega arith;
      content = refl;
      rings = λ i s e.
          let (same, lt) = get_elem?-new_streams 0 max_streams i s e in
          (
            ap (λ s. s.index) same ∙ new_index i (omega arith),
            ap (λ s. s.written) same ∙ new_written i,
          );
      unused = λ i e. refl;
    };
    size = refl;
    full = tt;
    room = pos;
  }
    where
      new_index : (i : ℕ) → i < 256 → (new_stream (0 + i)).index ≡ i
      new_index i lt = unfold new_stream in omega arith

      new_written : (i : ℕ) → (new_stream (0 + i)).written ≡ []
      new_written i = unfold new_stream in refl

  -- For a chunk size above 0 and at most 256 streams: when the Writes of a producer on a new dispatcher, with streams that are
  -- activated and deactivated between, and the Flush after them all return nil, the ring buffers
  -- together hold every byte that was written, as the frames of a list of chunks, numbered in order
  -- from 0 (modulo 2^32), each on one stream; no chunk is empty or above the chunk size, and there
  -- are as few as that size allows.
  pub flush-produce :
      (max_streams : ℕ) (calls : List Call) (d d' : Dispatcher)
      → max_streams ≤ 256
      → produce crc (new_dispatcher max_streams size) calls ≡ (none, d)
      → flush crc d ≡ (none, d')
      → IsFlushed crc size (written_by calls) d'
  flush-produce max_streams calls d d' byte produced flushed =
      let writing : IsWriting crc size (written_by calls) d = rw (← ap (λ r. r.1) produced) (
        produce-IsWriting crc size calls [] (new_dispatcher max_streams size)
          (new_dispatcher-IsWriting max_streams byte) (ap (λ r. r.0) produced)) in
      rw (← ap (λ r. r.1) flushed)
        (flush-IsFlushed crc size (written_by calls) d writing (ap (λ r. r.0) flushed))
