-- ===== src/Dispatcher/Produce.antt =====
-- A sequence of calls: Write of the producer, with streams that are activated and deactivated between.
use n_backup.Prelude.{
  ℕ, ◌≡◌, refl, sym, ap, ◌∙◌, arith, true, false, List, [], ◌∷◌, ◌++◌, length, append_assoc,
  append-nil, get_elem?, none, some, ◌==◌, if◌then◌else◌, inl, inr, Bool-cases, Option-cases,
}
use n_backup.Dispatcher.{
  Stream, Dispatcher, write, set_stream, activate_stream, deactivate_stream, Call, writes,
  activates, deactivates, produce,
}
use n_backup.Dispatcher.Log.{chunks_of, written_by}
use n_backup.Dispatcher.Emit.{get_elem?-set_stream}
use n_backup.Frame.{frames}
use n_backup.Dispatcher.Write.{IsWriting, write_loop-IsWriting}

module _ (crc : List ℕ → ℕ) (n : ℕ) where
  -- A change of a stream's flags leaves its ring buffer.
  flags-IsWriting :
      (input : List ℕ) (d : Dispatcher) (i : ℕ) (s s' : Stream)
      → IsWriting crc n input d
      → get_elem? d.streams i ≡ some s
      → s'.index ≡ s.index
      → s'.written ≡ s.written
      → IsWriting crc n input (record d { streams = set_stream i s' d.streams })
  flags-IsWriting input d i s s' w found index written = record {
    log = w.log;
    dispatched = record {
      seqs = w.dispatched.seqs;
      content = w.dispatched.content;
      rings = λ j t e. ring j t (sym (get_elem?-set_stream i j s' s d.streams found) ∙ e);
      unused = λ j e. absent j (sym (get_elem?-set_stream i j s' s d.streams found) ∙ e);
    };
    size = w.size;
    full = w.full;
    room = w.room;
  }
    where
      absent :
          (j : ℕ)
          → (if i == j then some s' else get_elem? d.streams j) ≡ none
          → chunks_of j 0 w.log ≡ []
      absent j e = elim (Bool-cases (i == j)) [
        | inl same ↦ absurd (ground arith)
        | inr other ↦
            w.dispatched.unused j
              (ap (λ b. if b then some s' else get_elem? d.streams j) (sym other) ∙ e)
      ]

      ring :
          (j : ℕ) (t : Stream)
          → (if i == j then some s' else get_elem? d.streams j) ≡ some t
          → (t.index ≡ j) × (t.written ≡ frames crc j (chunks_of j 0 w.log))
      ring j t e = elim (Bool-cases (i == j)) [
        | inl same ↦
            let at : i ≡ j = ground arith in
            let it : some s' ≡ some t =
              ap (λ b. if b then some s' else get_elem? d.streams j) (sym same) ∙ e in
            let it' : s' ≡ t = cc in
            let (place, bytes) = w.dispatched.rings i s found in
            (
              ap (λ s. s.index) (sym it') ∙ (index ∙ (place ∙ at)),
              ap (λ s. s.written) (sym it')
                  ∙ (written ∙ (bytes ∙ ap (λ k. frames crc k (chunks_of k 0 w.log)) at)),
            )
        | inr other ↦
            w.dispatched.rings j t
              (ap (λ b. if b then some s' else get_elem? d.streams j) (sym other) ∙ e)
      ]

  activate_stream-IsWriting :
      (input : List ℕ) (i : ℕ) (d : Dispatcher)
      → IsWriting crc n input d
      → IsWriting crc n input (activate_stream i d)
  activate_stream-IsWriting input i d w = elim (Option-cases (get_elem? d.streams i)) [
    | inl absent ↦ rw (unknown d absent) w
    | inr (s, found) ↦ elim (Bool-cases s.dead) [
      | inl dead ↦ rw (dead_stream d s found dead) w
      | inr alive ↦
          rw (live_stream d s found alive)
            (flags-IsWriting input d i s (record s { active = true }) w found refl refl)
    ]
  ]
    where
      unknown : (d : Dispatcher) → get_elem? d.streams i ≡ none → activate_stream i d ≡ d
      unknown d e = unfold activate_stream in ground arith

      dead_stream :
          (d : Dispatcher) (s : Stream)
          → get_elem? d.streams i ≡ some s
          → s.dead ≡ true
          → activate_stream i d ≡ d
      dead_stream d s e h = unfold activate_stream in ground arith

      live_stream :
          (d : Dispatcher) (s : Stream)
          → get_elem? d.streams i ≡ some s
          → s.dead ≡ false
          → activate_stream i d
            ≡ record d { streams = set_stream i (record s { active = true }) d.streams }
      live_stream d s e h = unfold activate_stream in ground arith

  deactivate_stream-IsWriting :
      (input : List ℕ) (i : ℕ) (d : Dispatcher)
      → IsWriting crc n input d
      → IsWriting crc n input (deactivate_stream i d)
  deactivate_stream-IsWriting input i d w = elim (Option-cases (get_elem? d.streams i)) [
    | inl absent ↦ rw (unknown d absent) w
    | inr (s, found) ↦
        rw (known d s found)
          (flags-IsWriting input d i s (record s { active = false }) w found refl refl)
  ]
    where
      unknown : (d : Dispatcher) → get_elem? d.streams i ≡ none → deactivate_stream i d ≡ d
      unknown d e = unfold deactivate_stream in ground arith

      known :
          (d : Dispatcher) (s : Stream)
          → get_elem? d.streams i ≡ some s
          → deactivate_stream i d
            ≡ record d { streams = set_stream i (record s { active = false }) d.streams }
      known d s e = unfold deactivate_stream in ground arith

  pub produce-IsWriting :
      (calls : List Call) (input : List ℕ) (d : Dispatcher)
      → IsWriting crc n input d
      → (produce crc d calls).0 ≡ none
      → IsWriting crc n (input ++ written_by calls) (produce crc d calls).1
  unfolding produce written_by
  produce-IsWriting [] input d w e = rw (append-nil input) w
  produce-IsWriting (writes p ∷ calls) input d w e =
      let (ok, step) = write_next p calls d e in
      let after =
        produce-IsWriting calls (input ++ p) (write crc d p).1
          (unfold write in write_loop-IsWriting crc n (length p) input d p w ok)
          (sym (ap (λ r. r.0) step) ∙ e) in
      rw (step, ← append_assoc input p (written_by calls)) after
    where
      write_next :
          (p : List ℕ) (calls : List Call) (d : Dispatcher)
          → (produce crc d (writes p ∷ calls)).0 ≡ none
          → ((write crc d p).0 ≡ none)
            × (produce crc d (writes p ∷ calls) ≡ produce crc (write crc d p).1 calls)
      write_next p calls d e = ground arith
  produce-IsWriting (activates i ∷ calls) input d w e =
      produce-IsWriting calls input (activate_stream i d) (activate_stream-IsWriting input i d w) e
  produce-IsWriting (deactivates i ∷ calls) input d w e =
      produce-IsWriting calls input (deactivate_stream i d)
        (deactivate_stream-IsWriting input i d w) e
