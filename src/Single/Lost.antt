-- ===== src/Single/Lost.antt =====
-- What keeps a single-stream backup from its end.
use n_backup.Prelude.{
  ℕ, ◌<◌, ◌≡◌, refl, arith, Bool, true, false, not, ◌&&◌, List, [], ◌∷◌, ◌++◌, length, Option, none,
  some, if◌then◌else◌,
}
use n_backup.Protocol.Wire.{bytes_eq}
use n_backup.Protocol.Frames.{Resume}
use n_backup.Storage.{Name}
use n_backup.Single.{Received, goes_on, returned, start_receiving, receive_with_sack}
use n_backup.Single.Laws.{sees_eof, delivered, IsReceived, receive_with_sack-IsReceived}
use n_backup.Single.Sessions.{
  resume_status_not_found, lock_key, Partial, Registered, partial, parallel, Server, Chances,
  Handled, answer_only, expire, fire, transfer, resume_file, handle_resume, handle_single,
}
use n_backup.Single.Resume.{interrupted, resume, session_of, set_at_self}
use n_backup.Single.Upload.{Attempt, retry, retry_kept, handle_single-IsResumable}
use n_backup.Single.Delivery.{broken_cut}

abbrev pub IsUnanswered : Handled → Type 0
IsUnanswered h = (h.effects ≡ []) × (h.committed ≡ none)

module _ (io_buffer_size sack_interval : ℕ) (sha256 : List ℕ → List ℕ) where
  transfer-IsUnanswered :
      (removed : Bool) (id : Name) (p : Partial) (c : Chances) (file : List ℕ) (acks : List (ℕ × ℕ))
      (s : Server)
      → 0 < sack_interval
      → sees_eof (c.reads (length file)) ≡ false
      → let h = transfer io_buffer_size sack_interval sha256 removed id p c file acks s in
        (h.effects ≡ []) × (h.committed ≡ none)
  unfolding transfer
  transfer-IsUnanswered removed id p c file acks s pos e =
      by_result
        (receive_with_sack io_buffer_size sack_interval (c.reads (length file))
          (start_receiving file (length file)))
        refl
        (receive_with_sack-IsReceived io_buffer_size sack_interval file (c.reads (length file)) pos)
    where
      by_result :
          (o : Received)
          → receive_with_sack io_buffer_size sack_interval
              (c.reads (length file))
              (start_receiving file (length file))
            ≡ o
          → IsReceived io_buffer_size sack_interval
              (length file)
              (file ++ delivered (c.reads (length file)))
              (sees_eof (c.reads (length file)))
              o
          → let h = transfer io_buffer_size sack_interval sha256 removed id p c file acks s in
            (h.effects ≡ []) × (h.committed ≡ none)
      by_result (goes_on r) eq v = rw (eq, transfer) (refl, refl)
      by_result (returned true r) eq (eof, v) = absurd (cc)
      by_result (returned false r) eq v = rw (eq, transfer) (refl, refl)

  if-IsUnanswered :
      (b : Bool) (x y : Handled)
      → (b ≡ true → IsUnanswered x)
      → (b ≡ false → IsUnanswered y)
      → IsUnanswered (if b then x else y)
  if-IsUnanswered true x y h k = h refl
  if-IsUnanswered false x y h k = k refl

  single-IsUnanswered :
      (id : Name) (p : Partial) (c : Chances) (s : Server)
      → 0 < sack_interval
      → ((offset : ℕ) → sees_eof (c.reads offset) ≡ false)
      → c.opened ≡ true
      → IsUnanswered (handle_single io_buffer_size sack_interval sha256 id p c s)
  unfolding handle_single answer_only
  single-IsUnanswered id p c s pos e opened =
      if-IsUnanswered (not c.writer_created) _ _ (λ h. (refl, refl))
        (λ h.
          if-IsUnanswered (not c.opened) _ _ (λ k. absurd (ground arith))
            (λ k. transfer-IsUnanswered false id p c [] [] s pos (e 0)))

  file-IsUnanswered :
      (id : Name) (p : Partial) (c : Chances) (file : List ℕ) (s : Server)
      → 0 < sack_interval
      → ((offset : ℕ) → sees_eof (c.reads offset) ≡ false)
      → IsUnanswered (resume_file io_buffer_size sack_interval sha256 id p c file s)
  unfolding resume_file answer_only
  file-IsUnanswered id p c file s pos e =
      if-IsUnanswered (not c.answered) _ _ (λ h. (refl, refl))
        (λ h.
          if-IsUnanswered (s.locks (lock_key p.agent_name p.storage_name p.backup_name)) _ _
            (λ k. (refl, refl))
            (λ k.
              if-IsUnanswered (not (c.opened && c.storage_known)) _ _ (λ l. (refl, refl))
                (λ l. transfer-IsUnanswered true id p c file _ _ pos (e (length file)))))

  resume-IsUnanswered :
      (rq : Resume) (c : Chances) (s : Server)
      → 0 < sack_interval
      → ((offset : ℕ) → sees_eof (c.reads offset) ≡ false)
      → IsUnanswered (resume io_buffer_size sack_interval sha256 rq c s)
  unfolding handle_resume answer_only
  resume-IsUnanswered rq c s pos e = by_session (s.sessions rq.session_id)
    where
      refused : Handled
      refused = answer_only ((resume_status_not_found, 0) ∷ []) s

      by_file :
          (p : Partial) (o : Option (List ℕ))
          → IsUnanswered (elim o [
            | none ↦ answer_only ((resume_status_not_found, 0) ∷ []) (expire rq.session_id s)
            | some file ↦ resume_file io_buffer_size sack_interval sha256 rq.session_id p c file s
          ])
      by_file p none = (refl, refl)
      by_file p (some file) = file-IsUnanswered rq.session_id p c file s pos e

      by_session :
          (o : Option Registered)
          → IsUnanswered (elim o [
            | none ↦ refused
            | some parallel ↦ refused
            | some (partial p) ↦
                if not
                  (bytes_eq p.agent_name rq.agent_name && bytes_eq p.storage_name rq.storage_name)
                then refused
                else elim (s.files p.tmp_path) [
                  | none ↦ answer_only ((resume_status_not_found, 0) ∷ []) (expire rq.session_id s)
                  | some file ↦
                      resume_file io_buffer_size sack_interval sha256 rq.session_id p c file s
                ]
          ])
      by_session none = (refl, refl)
      by_session (some parallel) = (refl, refl)
      by_session (some (partial p)) =
          if-IsUnanswered
            (not (bytes_eq p.agent_name rq.agent_name && bytes_eq p.storage_name rq.storage_name)) _
            _ (λ h. (refl, refl)) (λ h. by_file p (s.files p.tmp_path))

  -- The reads of the connection do not end with io.EOF, be it that they wait or that they time out, as
  -- when the agent has sent all of its data and the trailer and waits for the answer with the connection
  -- open. Then a call of the handler of a resume or of a new backup commits nothing and, unless it
  -- cannot create its files, sends no final status.
  pub transfer_without_eof :
      (rq : Resume) (p : Partial) (c : Chances) (s : Server)
      → 0 < sack_interval
      → ((offset : ℕ) → sees_eof (c.reads offset) ≡ false)
      → c.opened ≡ true
      → IsUnanswered (handle_single io_buffer_size sack_interval sha256 rq.session_id p c s)
        × IsUnanswered (resume io_buffer_size sack_interval sha256 rq c s)
  transfer_without_eof rq p c s pos e opened =
      (single-IsUnanswered rq.session_id p c s pos e opened, resume-IsUnanswered rq c s pos e)

  refused_lem :
      (rq : Resume) (c : Chances) (s : Server)
      → s.sessions rq.session_id ≡ none
      → resume io_buffer_size sack_interval sha256 rq c s
        ≡ answer_only ((resume_status_not_found, 0) ∷ []) s
  unfolding handle_resume answer_only
  refused_lem rq c s e = rw (e, handle_resume) refl

  retry_refused :
      (rq : Resume) (all : List ℕ) (attempts : List Attempt) (s : Server)
      → s.sessions rq.session_id ≡ none
      → retry io_buffer_size sack_interval sha256 rq all attempts s ≡ s
  unfolding retry answer_only
  retry_refused rq all [] s e = refl
  retry_refused rq all (a ∷ more) s e =
      rw (refused_lem rq (interrupted all a.pieces a.fault a.chances) s e)
        (retry_refused rq all more s e)

  single_timers :
      (rq : Resume) (p : Partial) (all : List ℕ) (a : Attempt) (s : Server)
      → 0 < sack_interval
      → a.chances.writer_created ≡ true
      → a.chances.opened ≡ true
      → (handle_single io_buffer_size sack_interval sha256 rq.session_id p
          (interrupted all a.pieces a.fault a.chances)
          s).timers
        ≡ rq.session_id ∷ []
  unfolding handle_single transfer interrupted
  single_timers rq p all a s pos created opened =
      let (r, result, cut) = broken_cut io_buffer_size sack_interval [] all a.pieces a.fault pos in
      rw (created, opened, result, transfer) refl

  -- A backup whose connection breaks, then any number of resumes that are refused or break in the same
  -- way. When the timer that the first call starts as it returns goes off, every resume is refused, however
  -- often the agent tries, although the temporary file is still there with a first part of the data.
  pub handle_resume-expire :
      (rq : Resume) (backup path : Name) (all : List ℕ) (n : ℕ) (first : Attempt)
      (early late : List Attempt) (c : Chances) (s : Server)
      → 0 < sack_interval
      → first.chances.writer_created ≡ true
      → first.chances.opened ≡ true
      → let broken_off =
          handle_single io_buffer_size sack_interval sha256 rq.session_id
            (session_of io_buffer_size sack_interval sha256 rq backup path n)
            (interrupted all first.pieces first.fault first.chances)
            s in
        let resumed = retry io_buffer_size sack_interval sha256 rq all early broken_off.server in
        let t =
          retry io_buffer_size sack_interval sha256 rq all late (fire broken_off.timers resumed) in
        let h = resume io_buffer_size sack_interval sha256 rq c t in
        (h.resume_acks ≡ (resume_status_not_found, 0) ∷ [])
        × (h.committed ≡ none)
        × ((file : List ℕ) × (rest : List ℕ) × (t.files path ≡ some file) × (file ++ rest ≡ all))
  handle_resume-expire rq backup path all n first early late c s pos created opened =
      let p = session_of io_buffer_size sack_interval sha256 rq backup path n in
      let broken_off =
        handle_single io_buffer_size sack_interval sha256 rq.session_id p
          (interrupted all first.pieces first.fault first.chances) s in
      let resumed = retry io_buffer_size sack_interval sha256 rq all early broken_off.server in
      let v =
        retry_kept io_buffer_size sack_interval sha256 rq backup path all early broken_off.server
          pos
          (handle_single-IsResumable io_buffer_size sack_interval sha256 rq backup path all n first
            s pos created opened) in
      rw (single_timers rq p all first s pos created opened)
        (refused_late resumed v.file v.rest v.stored v.whole)
    where
      refused_late :
          (r : Server) (file rest : List ℕ)
          → r.files path ≡ some file
          → file ++ rest ≡ all
          → let t =
              retry io_buffer_size sack_interval sha256 rq all late (fire (rq.session_id ∷ []) r) in
            let h = resume io_buffer_size sack_interval sha256 rq c t in
            (h.resume_acks ≡ (resume_status_not_found, 0) ∷ [])
            × (h.committed ≡ none)
            × ((file : List ℕ) × (rest : List ℕ) × (t.files path ≡ some file)
                × (file ++ rest ≡ all))
      refused_late r file rest stored whole =
          let e : (expire rq.session_id r).sessions rq.session_id ≡ none =
            unfold expire in set_at_self rq.session_id none r.sessions in
          unfold fire in
          unfold answer_only in
          rw
            (
              retry_refused rq all late (expire rq.session_id r) e,
              refused_lem rq c (expire rq.session_id r) e,
            )
            (refl, refl, (file, rest, (unfold expire in stored), whole))
