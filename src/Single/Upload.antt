-- ===== src/Single/Upload.antt =====
-- Backups whose connection breaks any number of times and is resumed.
use n_backup.Prelude.{
  ℕ, ◌+◌, ◌≤◌, ◌<◌, ◌^◌, ◌≡◌, refl, sym, ap, ◌∙◌, inl, inr, arith, Bool, true, false, not, ◌&&◌,
  List, [], ◌∷◌, ◌++◌, append_assoc, length, drop, All, Option, none, some, length-append,
  Bool-cases, drop-length-append,
}
use n_backup.Protocol.Frames.{Resume}
use n_backup.Storage.{Name, Closing, final_status_ok, rotate_and_upload}
use n_backup.Storage.Commit.{answered, rotate_and_upload_lem}
use n_backup.Single.{at_eof, SackLoop, returned, start_receiving}
use n_backup.Single.Delivery.{Piece, deliver, sizes, IsClean, receive, clean_stored}
use n_backup.Single.Sessions.{
  trailer_size, commit_data, resume_status_ok, handle_single, Partial, partial, Server, set_at,
  lock_key, Chances, transfer, resume_file, validate_and_commit_single,
}
use n_backup.Single.Trailer.{trailer_of, length-trailer_of, commit_lem}
use n_backup.Single.Resume.{
  IsResumable, interrupted, transfer_broken, resume, session_of, resume_lem, resume_broken,
}

-- What the agent sends, on a connection that delivers all that is missing and the trailer, and then ends.
unfoldable pub finished : (List ℕ → List ℕ) → List ℕ → List Piece → Chances → Chances
finished sha256 all ps c = record c {
  reads = λ o. deliver (drop o all ++ trailer_of sha256 all) ps at_eof none;
}

-- A connection that breaks.
pub record Attempt : Type 0 where
  pub pieces : List Piece
  pub fault : Option ℕ
  pub chances : Chances

-- Nothing but the transfers of earlier connections goes wrong.
pub record IsFavourable (c : Chances) : Type 0 where
  pub answers : c.answered ≡ true
  pub opens : c.opened ≡ true
  pub knows : c.storage_known ≡ true
  pub creates : c.writer_created ≡ true
  pub reads_trailer : c.disk.opens ≡ true
  pub truncates : c.disk.truncates ≡ true
  pub hashes : c.disk.hashes ≡ true
  pub renames : c.closing.renamed ≡ true

module _ (io_buffer_size sack_interval : ℕ) (sha256 : List ℕ → List ℕ) where
  unfoldable pub retry : Resume → List ℕ → List Attempt → Server → Server
  retry rq all [] s = s
  retry rq all (a ∷ more) s =
      retry rq all more
        (resume io_buffer_size sack_interval sha256 rq (interrupted all a.pieces a.fault a.chances)
          s).server

  pub retry_kept :
      (rq : Resume) (backup path : Name) (all : List ℕ) (attempts : List Attempt) (s : Server)
      → 0 < sack_interval
      → IsResumable rq backup path all s
      → IsResumable rq backup path all (retry rq all attempts s)
  unfolding retry
  retry_kept rq backup path all [] s pos v = v
  retry_kept rq backup path all (a ∷ more) s pos v = retry_kept rq backup path all more _ pos (
      resume_broken io_buffer_size sack_interval sha256 rq backup path all a.pieces a.fault
        a.chances s pos v)

  commit_good :
      (c : Closing) (all : List ℕ)
      → c.renamed ≡ true
      → let (es, kept) = commit_data io_buffer_size sack_interval sha256 c all in
        (kept ≡ some all) × (answered es ≡ final_status_ok ∷ [])
  unfolding commit_data answered rotate_and_upload
  commit_good c all e = elim (Bool-cases (c.verify_integrity && not c.archive_valid)) [
    | inl f ↦ rw (e, f) (refl, refl)
    | inr f ↦ rw (e, f) (refl, rotate_and_upload_lem c)
  ]

  transfer_done :
      (removed : Bool) (id : Name) (p : Partial) (c : Chances) (file : List ℕ) (acks : List (ℕ × ℕ))
      (s : Server) (r : SackLoop)
      → c.writer_created ≡ true
      → receive io_buffer_size sack_interval
          (c.reads (length file))
          (start_receiving file (length file))
        ≡ returned true r
      → let h = transfer io_buffer_size sack_interval sha256 removed id p c file acks s in
        let (es, kept) =
          validate_and_commit_single io_buffer_size sack_interval sha256 c.disk c.closing
            (length file + r.bytes_received)
            r.file in
        (h.committed ≡ kept) × (h.effects ≡ es) × (h.resume_acks ≡ acks)
  unfolding transfer validate_and_commit_single
  transfer_done removed id p c file acks s r created e =
      rw (e, transfer, created) (refl, refl, refl)

  resume_file_lem :
      (id : Name) (p : Partial) (c : Chances) (file : List ℕ) (s : Server)
      → IsFavourable c
      → s.locks (lock_key p.agent_name p.storage_name p.backup_name) ≡ false
      → resume_file io_buffer_size sack_interval sha256 id p c file s
        ≡ transfer io_buffer_size sack_interval sha256 true id p c file
            ((resume_status_ok, length file) ∷ [])
            (record s {
              sessions =
                  set_at id (some (partial (record p { bytes_written = length file }))) s.sessions;
            })
  unfolding resume_file
  resume_file_lem id p c file s favour unlocked =
      simp (favour.answers, unlocked, favour.opens, favour.knows) refl

  finished-IsFavourable :
      (ps : List Piece) (all : List ℕ) (c : Chances)
      → IsFavourable c
      → IsFavourable (finished sha256 all ps c)
  unfolding finished
  finished-IsFavourable ps all c v = record {
    answers = v.answers;
    opens = v.opens;
    knows = v.knows;
    creates = v.creates;
    reads_trailer = v.reads_trailer;
    truncates = v.truncates;
    hashes = v.hashes;
    renames = v.renames;
  }

  finished_lem :
      (rq : Resume) (backup path : Name) (all : List ℕ) (ps : List Piece) (c : Chances) (s : Server)
      → 0 < sack_interval
      → IsResumable rq backup path all s
      → IsFavourable c
      → length (sha256 all) ≡ 32
      → length all < 2 ^ 64
      → All IsClean ps
      → length all + trailer_size ≤ sizes ps
      → let h = resume io_buffer_size sack_interval sha256 rq (finished sha256 all ps c) s in
        (h.committed ≡ some all) × (answered h.effects ≡ final_status_ok ∷ [])
  unfolding finished
  finished_lem rq backup path all ps c s pos v favour h fits clean enough =
      let f = finished sha256 all ps c in
      let p = session_of io_buffer_size sack_interval sha256 rq backup path v.written in
      let sent = drop (length v.file) all ++ trailer_of sha256 all in
      let whole : v.file ++ sent ≡ all ++ trailer_of sha256 all =
        rw⁻¹ v.whole (rw (drop-length-append v.file v.rest) (sym (append_assoc v.file v.rest _))) in
      let long : length (all ++ trailer_of sha256 all) ≡ length all + trailer_size =
        omega (arith, length-append all (trailer_of sha256 all), length-trailer_of sha256 all h) in
      let (r, result, kept) =
        clean_stored io_buffer_size sack_interval v.file sent ps pos clean
          (omega (arith, enough, long, ap length whole, length-append v.file sent)) in
      let on =
        resume_file_lem rq.session_id p f v.file s (finished-IsFavourable ps all c favour)
          v.unlocked in
      let (committed, effects, acks) =
        transfer_done true rq.session_id p f v.file ((resume_status_ok, length v.file) ∷ [])
          (record s {
            sessions =
                set_at rq.session_id (some (partial (record p { bytes_written = length v.file })))
                  s.sessions;
          })
          r favour.creates result in
      let stored =
        ap
          (λ file.
            validate_and_commit_single io_buffer_size sack_interval sha256 c.disk c.closing
              (length v.file + r.bytes_received) file)
          (kept.content ∙ whole)
        ∙ commit_lem io_buffer_size sack_interval sha256 c.disk c.closing all
            (length v.file + r.bytes_received) h fits favour.reads_trailer favour.truncates
            favour.hashes (omega (arith, kept.received, long, ap length whole)) in
      let (good, told) = commit_good c.closing all favour.renames in
      rw (resume_lem io_buffer_size sack_interval sha256 rq backup path all f s v, on)
        (
          committed ∙ ap (λ x. x.1) stored ∙ good,
          ap answered (effects ∙ ap (λ x. x.0) stored) ∙ told,
        )

  pub handle_single-IsResumable :
      (rq : Resume) (backup path : Name) (all : List ℕ) (n : ℕ) (first : Attempt) (s : Server)
      → 0 < sack_interval
      → first.chances.writer_created ≡ true
      → first.chances.opened ≡ true
      → IsResumable rq backup path all
          (handle_single io_buffer_size sack_interval sha256 rq.session_id
            (session_of io_buffer_size sack_interval sha256 rq backup path n)
            (interrupted all first.pieces first.fault first.chances)
            s).server
  handle_single-IsResumable rq backup path all n first s pos created opened =
      rw
        (single_lem rq.session_id (session_of io_buffer_size sack_interval sha256 rq backup path n)
          (interrupted all first.pieces first.fault first.chances) s (unfold interrupted in created)
          (unfold interrupted in opened))
        (transfer_broken io_buffer_size sack_interval sha256 false rq backup path n all [] all []
          first.pieces first.fault first.chances s pos refl)
    where
      single_lem :
          (id : Name) (p : Partial) (c : Chances) (s : Server)
          → c.writer_created ≡ true
          → c.opened ≡ true
          → handle_single io_buffer_size sack_interval sha256 id p c s
            ≡ transfer io_buffer_size sack_interval sha256 false id p c [] [] s
      single_lem id p c s created opened = unfold handle_single in simp (created, opened) refl

  -- A backup whose connection breaks, after any part of the data and with any failures of the writes to
  -- the temporary file, then any number of resumes that are refused or break in the same way, then one
  -- that delivers the rest and the trailer, on which no write fails and which the client closes behind
  -- the trailer, so that the server reads io.EOF there (an agent that keeps the connection open does not
  -- meet this). All of it while the session stays registered and for any checksum function of 32 bytes:
  -- the last connection commits exactly the data of the client and is answered with FinalStatusOK alone.
  pub handle_resume-retry :
      (rq : Resume) (backup path : Name) (all : List ℕ) (n : ℕ) (first : Attempt)
      (attempts : List Attempt) (ps : List Piece) (c : Chances) (s : Server)
      → 0 < sack_interval
      → first.chances.writer_created ≡ true
      → first.chances.opened ≡ true
      → IsFavourable c
      → length (sha256 all) ≡ 32
      → length all < 2 ^ 64
      → All IsClean ps
      → length all + trailer_size ≤ sizes ps
      → let broken_off =
          handle_single io_buffer_size sack_interval sha256 rq.session_id
            (session_of io_buffer_size sack_interval sha256 rq backup path n)
            (interrupted all first.pieces first.fault first.chances)
            s in
        let h =
          resume io_buffer_size sack_interval sha256 rq
            (finished sha256 all ps c)
            (retry rq all attempts broken_off.server) in
        (h.committed ≡ some all) × (answered h.effects ≡ final_status_ok ∷ [])
  handle_resume-retry rq backup path all n first attempts ps c s pos created opened favour h fits
        clean enough =
      finished_lem rq backup path all ps c _ pos
        (retry_kept rq backup path all attempts _ pos
          (handle_single-IsResumable rq backup path all n first s pos created opened))
        favour h fits clean enough
