-- ===== src/Dispatcher/Emit.antt =====
-- What emitChunk does to the streams.
use n_backup.Prelude.{
  ℕ, zero, suc, ◌+◌, ◌/◌, ◌%◌, ◌^◌, ◌≡◌, ◌≢◌, refl, sym, ap, ◌∙◌, arith, Bool, true, false, not,
  ◌&&◌, List, [], ◌∷◌, ◌++◌, length, append_assoc, append-nil, get_elem?, none, some, ◌==◌,
  if◌then◌else◌, inl, inr, Bool-cases, Option-cases,
}
use n_backup.Protocol.Wire.{stream, put_be}
use n_backup.Protocol.Writer.{write_chunk_header}
use n_backup.Frame.{Chunk, frame}
use n_backup.Frame.Laws.{header, frame-header}
use n_backup.Dispatcher.{
  Stream, Dispatcher, Failure, all_streams_dead, no_rounds, set_stream, ring_write, pick_stream,
  bytes_of_uint32, chunk_header_bytes, emit_to, emit_chunk,
}

uint32-put_be : (v : ℕ) → bytes_of_uint32 v ≡ put_be 4 v
unfolding put_be
uint32-put_be v =
    let a : v / 2 ^ 24 ≡ v / 256 / 256 / 256 = omega arith in
    let b : v / 2 ^ 16 ≡ v / 256 / 256 = omega arith in
    let c : v / 2 ^ 8 ≡ v / 256 = omega arith in rw (a, b, c) refl

-- The 13 bytes that emitChunk sets one by one are those of WriteChunkHeader.
pub chunk_header_bytes-write_chunk_header :
    (crc : List ℕ → ℕ) (seq index : ℕ) (payload : List ℕ)
    → chunk_header_bytes crc seq index payload
      ≡ stream (write_chunk_header seq (length payload) index (crc payload)) []
unfolding chunk_header_bytes write_chunk_header
chunk_header_bytes-write_chunk_header crc seq index payload =
    ap (λ s. s ++ (bytes_of_uint32 (length payload) ++ (index ∷ bytes_of_uint32 (crc payload))))
      (uint32-put_be seq)
    ∙ (ap (λ l. put_be 4 seq ++ (l ++ (index ∷ bytes_of_uint32 (crc payload))))
          (uint32-put_be (length payload))
        ∙ ap (λ k. put_be 4 seq ++ (put_be 4 (length payload) ++ (index ∷ k)))
            (uint32-put_be (crc payload) ∙ sym (append-nil (put_be 4 (crc payload)))))

pub get_elem?-set_stream :
    (i j : ℕ) (s t : Stream) (ts : List Stream)
    → get_elem? ts i ≡ some t
    → get_elem? (set_stream i s ts) j ≡ (if i == j then some s else get_elem? ts j)
unfolding set_stream
get_elem?-set_stream i j s t [] e = absurd cc
get_elem?-set_stream zero zero s t (u ∷ ts) e = refl
get_elem?-set_stream zero (suc j) s t (u ∷ ts) e = ground arith
get_elem?-set_stream (suc i) zero s t (u ∷ ts) e = ground arith
get_elem?-set_stream (suc i) (suc j) s t (u ∷ ts) e =
    get_elem?-set_stream i j s t ts e ∙ ground arith

ring_write-written :
    (s : Stream) (p : List ℕ)
    → (ring_write s p).0 ≡ none
    → ((ring_write s p).1.written ≡ s.written ++ p) × ((ring_write s p).1.index ≡ s.index)
unfolding ring_write
ring_write-written s p e = ground arith

pick_here :
    (k next : ℕ) (streams : List Stream) (t : Stream)
    → get_elem? streams (next % length streams) ≡ some t
    → (t.active && not t.dead) ≡ true
    → pick_stream (suc k) next streams ≡ (some t, next + 1)
unfolding pick_stream
pick_here k next streams t found usable = ground arith

pick_unusable :
    (k next : ℕ) (streams : List Stream) (t : Stream)
    → get_elem? streams (next % length streams) ≡ some t
    → (t.active && not t.dead) ≡ false
    → pick_stream (suc k) next streams ≡ pick_stream k (next + 1) streams
unfolding pick_stream
pick_unusable k next streams t found usable = ground arith

pick_absent :
    (k next : ℕ) (streams : List Stream)
    → get_elem? streams (next % length streams) ≡ none
    → pick_stream (suc k) next streams ≡ pick_stream k (next + 1) streams
unfolding pick_stream
pick_absent k next streams found = ground arith

usable_lem : (a b : Bool) → (a && not b) ≡ true → (a ≡ true) × (b ≡ false)
usable_lem true false e = (refl, refl)
usable_lem true true e = absurd (ground arith)
usable_lem false b e = absurd (ground arith)

-- The stream that is picked is one of them, alive and active.
pub record IsPicked (streams : List Stream) (s : Stream) : Type 0 where
  pub place : ℕ
  pub found : get_elem? streams place ≡ some s
  pub is_active : s.active ≡ true
  pub is_alive : s.dead ≡ false

pub pick_stream-IsPicked :
    (attempts next : ℕ) (streams : List Stream) (s : Stream)
    → (pick_stream attempts next streams).0 ≡ some s
    → IsPicked streams s
pick_stream-IsPicked zero next streams s e = unfold pick_stream in absurd (ground arith)
pick_stream-IsPicked (suc k) next streams s e =
    elim (Option-cases (get_elem? streams (next % length streams))) [
      | inl absent ↦
          pick_stream-IsPicked k (next + 1) streams s
            (sym (ap (λ p. p.0) (pick_absent k next streams absent)) ∙ e)
      | inr (t, found) ↦ elim (Bool-cases (t.active && not t.dead)) [
        | inl usable ↦
            let same : t ≡ s = cc (ap (λ p. p.0) (pick_here k next streams t found usable), e) in
            let (live, well) = usable_lem t.active t.dead usable in
            record {
              place = next % length streams;
              found = found ∙ ap some same;
              is_active = ap (λ s. s.active) (sym same) ∙ live;
              is_alive = ap (λ s. s.dead) (sym same) ∙ well;
            }
        | inr unusable ↦
            pick_stream-IsPicked k (next + 1) streams s
              (sym (ap (λ p. p.0) (pick_unusable k next streams t found unusable)) ∙ e)
      ]
    ]

-- What a chunk that was emitted changes: one stream has its frame behind what it had.
pub record IsEmitted (crc : List ℕ → ℕ) (d d' : Dispatcher) (payload : List ℕ) : Type 0 where
  pub target : Stream
  pub picked : IsPicked d.streams target
  pub new : Stream
  pub same_index : new.index ≡ target.index
  pub frame_written :
      new.written
      ≡ target.written ++ frame crc target.index (record { seq = d.global_seq; payload = payload })
  pub replaced : d'.streams ≡ set_stream target.index new d.streams
  pub next_seq : d'.global_seq ≡ (d.global_seq + 1) % 2 ^ 32
  pub same_pending : d'.pending ≡ d.pending
  pub same_size : d'.chunk_size ≡ d.chunk_size

emit_chunk-none :
    (crc : List ℕ → ℕ) (d : Dispatcher) (payload : List ℕ)
    → (pick_stream (length d.streams) d.next_stream d.streams).0 ≡ none
    → (emit_chunk crc d payload).0 ≡ some all_streams_dead
unfolding emit_chunk
emit_chunk-none crc d payload e = ground arith

-- The dispatcher when a chunk's number and stream are taken.
abbrev counted : Dispatcher → Dispatcher
counted d = record d {
  global_seq = (d.global_seq + 1) % 2 ^ 32;
  next_stream = (pick_stream (length d.streams) d.next_stream d.streams).1;
}

emit_chunk-some :
    (crc : List ℕ → ℕ) (d : Dispatcher) (payload : List ℕ) (s : Stream)
    → (pick_stream (length d.streams) d.next_stream d.streams).0 ≡ some s
    → emit_chunk crc d payload ≡ emit_to crc d.global_seq (counted d) s payload
unfolding emit_chunk
emit_chunk-some crc d payload s e = ground arith

abbrev with_header : (List ℕ → ℕ) → ℕ → Stream → List ℕ → Stream
with_header crc seq s payload = (ring_write s (chunk_header_bytes crc seq s.index payload)).1

emit_to_lem :
    (crc : List ℕ → ℕ) (seq : ℕ) (d : Dispatcher) (s : Stream) (payload : List ℕ)
    → (emit_to crc seq d s payload).0 ≡ none
    → ((ring_write s (chunk_header_bytes crc seq s.index payload)).0 ≡ none)
      × ((ring_write (with_header crc seq s payload) payload).0 ≡ none)
      × ((emit_to crc seq d s payload).1.streams
          ≡ set_stream s.index (ring_write (with_header crc seq s payload) payload).1 d.streams)
      × ((emit_to crc seq d s payload).1.global_seq ≡ d.global_seq)
      × ((emit_to crc seq d s payload).1.pending ≡ d.pending)
      × ((emit_to crc seq d s payload).1.chunk_size ≡ d.chunk_size)
unfolding emit_to
emit_to_lem crc seq d s payload e = ground arith

pub emit_chunk-IsEmitted :
    (crc : List ℕ → ℕ) (d : Dispatcher) (payload : List ℕ)
    → (emit_chunk crc d payload).0 ≡ none
    → IsEmitted crc d (emit_chunk crc d payload).1 payload
emit_chunk-IsEmitted crc d payload e =
    elim (Option-cases (pick_stream (length d.streams) d.next_stream d.streams).0) [
      | inl dead ↦ absurd (none≢some _ (sym e ∙ emit_chunk-none crc d payload dead))
      | inr (s, found) ↦ emitted s found
    ]
  where
    none≢some : (f : Failure) → none ≡ some f → ⊥
    none≢some f h = ground arith

    emitted :
        (s : Stream)
        → (pick_stream (length d.streams) d.next_stream d.streams).0 ≡ some s
        → IsEmitted crc d (emit_chunk crc d payload).1 payload
    emitted s found =
        let step = emit_chunk-some crc d payload s found in
        let (wrote, wrote', streams, seq, pending, size) =
          emit_to_lem crc d.global_seq (counted d) s payload (sym (ap (λ p. p.0) step) ∙ e) in
        let (header_bytes, header_index) =
          ring_write-written s (chunk_header_bytes crc d.global_seq s.index payload) wrote in
        let (payload_bytes, payload_index) =
          ring_write-written (with_header crc d.global_seq s payload) payload wrote' in
        let ch : Chunk = record { seq = d.global_seq; payload = payload } in
        record {
          target = s;
          picked = pick_stream-IsPicked (length d.streams) d.next_stream d.streams s found;
          new = (ring_write (with_header crc d.global_seq s payload) payload).1;
          same_index = payload_index ∙ header_index;
          frame_written =
              payload_bytes
              ∙ (ap (λ w. w ++ payload)
                    (header_bytes
                      ∙ ap (λ h. s.written ++ h)
                          (chunk_header_bytes-write_chunk_header crc d.global_seq s.index payload))
                  ∙ (append_assoc s.written (header crc s.index ch) payload
                      ∙ ap (λ f. s.written ++ f) (sym (frame-header crc s.index ch))));
          replaced = ap (λ p. p.1.streams) step ∙ streams;
          next_seq = ap (λ p. p.1.global_seq) step ∙ seq;
          same_pending = ap (λ p. p.1.pending) step ∙ pending;
          same_size = ap (λ p. p.1.chunk_size) step ∙ size;
        }

-- A failure of emitChunk is one of its own.
ring_write-failure : (s : Stream) (p : List ℕ) → (ring_write s p).0 ≢ some no_rounds
unfolding ring_write
ring_write-failure s p e = ground arith

emit_to-failure :
    (crc : List ℕ → ℕ) (seq : ℕ) (d : Dispatcher) (s : Stream) (payload : List ℕ)
    → (emit_to crc seq d s payload).0 ≢ some no_rounds
unfolding emit_to
emit_to-failure crc seq d s payload e = ground (
  arith,
  ring_write-failure s (chunk_header_bytes crc seq s.index payload),
  ring_write-failure (with_header crc seq s payload) payload,
)

pub emit_chunk-failure :
    (crc : List ℕ → ℕ) (d : Dispatcher) (payload : List ℕ)
    → (emit_chunk crc d payload).0 ≢ some no_rounds
emit_chunk-failure crc d payload e =
    elim (Option-cases (pick_stream (length d.streams) d.next_stream d.streams).0) [
      | inl dead ↦ absurd (dead≢ (sym (emit_chunk-none crc d payload dead) ∙ e))
      | inr (s, found) ↦
          emit_to-failure crc d.global_seq (counted d) s payload
            (sym (ap (λ p. p.0) (emit_chunk-some crc d payload s found)) ∙ e)
    ]
  where
    dead≢ : some all_streams_dead ≡ some no_rounds → ⊥
    dead≢ h = ground arith
