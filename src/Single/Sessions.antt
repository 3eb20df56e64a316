-- ===== src/Single/Sessions.antt =====
-- internal/server/handler_single.go: validateAndCommitSingle, the single-stream part of handleBackup
-- behind its ACK, and handleResume. SHA-256 is a section parameter. A call of a handler is one step;
-- that another call is under way shows in the locks.
use n_backup.Prelude.{
  ℕ, ◌+◌, ◌-◌, Bool, true, false, not, ◌&&◌, List, [], ◌∷◌, ◌++◌, length, take, drop, replicate,
  Option, none, some, ltb, if◌then◌else◌,
}
use n_backup.Protocol.Wire.{ok, err, bytes_eq}
use n_backup.Protocol.Frames.{Trailer, Resume}
use n_backup.Protocol.Reader.{read_trailer}
use n_backup.Storage.{
  Name, Closing, Effect, aborts, commits, answers, final_status_ok, final_status_checksum_mismatch,
  final_status_write_error, rotate_and_upload,
}
use n_backup.Single.{Read, goes_on, returned, start_receiving, receive_with_sack}

-- `const trailerSize int64 = 4 + 32 + 8`
abbrev pub trailer_size : ℕ
trailer_size = 44

-- ResumeStatusOK, ResumeStatusNotFound
abbrev pub resume_status_ok : ℕ
resume_status_ok = 0

abbrev pub resume_status_not_found : ℕ
resume_status_not_found = 1

-- Whether the calls on the temporary file succeed behind the transfer.
pub record Disk : Type 0 where
  pub opens : Bool
  pub truncates : Bool
  pub hashes : Bool

-- os.Truncate
unfoldable pub truncate : ℕ → List ℕ → List ℕ
truncate n file = take n file ++ replicate (n - length file) 0

-- readTrailerFromFile; an offset below 0 is an error of Seek.
unfoldable pub read_trailer_from_file : Bool → List ℕ → Option Trailer
read_trailer_from_file opens file =
    let trailer : Option Trailer = elim (read_trailer (drop (length file - trailer_size) file)) [
      | ok (t, rest) ↦ some t
      | err e ↦ none
    ] in
    if not opens then none else if ltb (length file) trailer_size then none else trailer

-- PartialSession
pub record Partial : Type 0 where
  pub tmp_path : Name
  pub agent_name : Name
  pub storage_name : Name
  pub backup_name : Name
  pub bytes_written : ℕ

-- What the map of sessions holds: a PartialSession or a ParallelSession.
pub data Registered : Type 0 where
  partial : Partial → Registered
  parallel : Registered

-- The maps of the Handler, and the temporary files by their paths.
pub record Server : Type 0 where
  pub sessions : Name → Option Registered
  pub locks : Name → Bool
  pub files : Name → Option (List ℕ)

-- Store and Delete of a map.
unfoldable pub set_at {ℓ} : {A : Type ℓ} → Name → A → (Name → A) → Name → A
set_at k v m x = if bytes_eq x k then v else m x

-- agentName + ":" + storageName + ":" + backupName
unfoldable pub lock_key : Name → Name → Name → Name
lock_key agent storage backup = agent ++ (58 ∷ (storage ++ (58 ∷ backup)))

-- What a call depends on: whether its answer is written, whether the storage is known, whether the
-- temporary file can be created or opened again and the AtomicWriter be created, the reads that the
-- connection answers once the agent knows the offset, and the commit.
pub record Chances : Type 0 where
  pub answered : Bool
  pub opened : Bool
  pub storage_known : Bool
  pub writer_created : Bool
  pub reads : ℕ → List Read
  pub disk : Disk
  pub closing : Closing

-- What a call leaves behind: the server, the answers to the resume with their offsets, the SACKs, the
-- effects of the commit, the backup that was committed, and the sessions that a timer is to delete.
pub record Handled : Type 0 where
  pub server : Server
  pub resume_acks : List (ℕ × ℕ)
  pub sacks : List ℕ
  pub effects : List Effect
  pub committed : Option (List ℕ)
  pub timers : List Name

unfoldable pub answer_only : List (ℕ × ℕ) → Server → Handled
answer_only acks s = record {
  server = s;
  resume_acks = acks;
  sacks = [];
  effects = [];
  committed = none;
  timers = [];
}

-- sessions.Delete
unfoldable pub expire : Name → Server → Server
expire id s = record s { sessions = set_at id none s.sessions }

-- The timers of time.AfterFunc(3*time.Second, ...) go off.
unfoldable pub fire : List Name → Server → Server
fire [] s = s
fire (id ∷ ids) s = fire ids (expire id s)

module _ (io_buffer_size sack_interval : ℕ) (sha256 : List ℕ → List ℕ) where
  -- validateAndCommitSingle behind the checks: the rename, the check of the archive, the rotation.
  unfoldable pub commit_data : Closing → List ℕ → List Effect × Option (List ℕ)
  commit_data c stored =
      if not c.renamed
      then (answers final_status_write_error ∷ [], none)
      else if c.verify_integrity && not c.archive_valid
      then (commits ∷ answers final_status_ok ∷ [], some stored)
      else (commits ∷ rotate_and_upload c, some stored)

  -- validateAndCommitSingle
  unfoldable pub validate_and_commit_single :
      Disk → Closing → ℕ → List ℕ → List Effect × Option (List ℕ)
  validate_and_commit_single disk c total file =
      let refused = aborts ∷ answers final_status_write_error ∷ [] in
      let stored = truncate (total - trailer_size) file in
      if ltb total trailer_size
      then (refused, none)
      else elim (read_trailer_from_file disk.opens file) [
        | none ↦ (refused, none)
        | some trailer ↦
            if not disk.truncates
            then (refused, none)
            else if not disk.hashes
            then (refused, none)
            else if not (bytes_eq (sha256 stored) trailer.checksum)
            then (aborts ∷ answers final_status_checksum_mismatch ∷ [], none)
            else commit_data c stored
      ]

  -- The temporary file behind it: removed or renamed, or left over by a failed rename.
  unfoldable pub left_over : ℕ → List ℕ → List Effect → Option (List ℕ)
  left_over total file (answers status ∷ es) = some (truncate (total - trailer_size) file)
  left_over total file es = none

  -- The transfer to the temporary file and what follows it, with the lock taken. `removed` says whether
  -- the session is removed behind a complete transfer, as in a resume; a new backup starts a timer instead when
  -- the call returns.
  unfoldable pub transfer :
      Bool → Name → Partial → Chances → List ℕ → List (ℕ × ℕ) → Server → Handled
  transfer removed id p chances file acks s =
      let key = lock_key p.agent_name p.storage_name p.backup_name in
      let reads = chances.reads (length file) in
      let store = λ (content : Option (List ℕ)) (written : ℕ) (locked : Bool) (t : Server).
        record t {
          files = set_at p.tmp_path content s.files;
          sessions = set_at id (some (partial (record p { bytes_written = written }))) s.sessions;
          locks = set_at key locked s.locks;
        } in
      let ended = λ (t : Server). if removed then expire id t else t in
      let started = if removed then [] else id ∷ [] in
      elim (receive_with_sack io_buffer_size sack_interval reads
        (start_receiving file (length file))) [
          | goes_on r ↦ record {
            server = store (some r.file) r.bytes_written true s;
            resume_acks = acks;
            sacks = r.sacks;
            effects = [];
            committed = none;
            timers = [];
          }
          | returned false r ↦ record {
            server = store (some r.file) r.bytes_written false s;
            resume_acks = acks;
            sacks = r.sacks;
            effects = [];
            committed = none;
            timers = started;
          }
          | returned true r ↦
              let total = length file + r.bytes_received in
              let (es, kept) =
                validate_and_commit_single chances.disk chances.closing total r.file in
              if not chances.writer_created
              then record {
                server = ended (store (some r.file) r.bytes_written false s);
                resume_acks = acks;
                sacks = r.sacks;
                effects = [];
                committed = none;
                timers = started;
              }
              else record {
                server = ended (store (left_over total r.file es) r.bytes_written false s);
                resume_acks = acks;
                sacks = r.sacks;
                effects = es;
                committed = kept;
                timers = started;
              }
        ]

  -- handleBackup from the mode byte 0 on, with the lock taken: the AtomicWriter and the temporary file,
  -- the registration of the session, the transfer.
  unfoldable pub handle_single : Name → Partial → Chances → Server → Handled
  handle_single id p chances s =
      let unlocked = record s {
        locks = set_at (lock_key p.agent_name p.storage_name p.backup_name) false s.locks;
      } in
      if not chances.writer_created
      then answer_only [] unlocked
      else if not chances.opened
      then record (answer_only [] unlocked) { effects = answers final_status_write_error ∷ [] }
      else transfer false id p chances [] [] s

  -- handleResume behind its test of the temporary file.
  unfoldable pub resume_file : Name → Partial → Chances → List ℕ → Server → Handled
  resume_file id p chances file s =
      let acks = (resume_status_ok, length file) ∷ [] in
      let t = record s {
        sessions = set_at id (some (partial (record p { bytes_written = length file }))) s.sessions;
      } in
      if not chances.answered
      then answer_only acks t
      else if s.locks (lock_key p.agent_name p.storage_name p.backup_name)
      then answer_only acks t
      else if not (chances.opened && chances.storage_known)
      then answer_only acks t
      else transfer true id p chances file acks t

  -- handleResume
  unfoldable pub handle_resume : Resume → Chances → Server → Handled
  handle_resume resume chances s =
      let refused = answer_only ((resume_status_not_found, 0) ∷ []) s in
      elim (s.sessions resume.session_id) [
        | none ↦ refused
        | some parallel ↦ refused
        | some (partial p) ↦
            if not (
              bytes_eq p.agent_name resume.agent_name
              && bytes_eq p.storage_name resume.storage_name)
            then refused
            else elim (s.files p.tmp_path) [
              | none ↦ answer_only ((resume_status_not_found, 0) ∷ []) (expire resume.session_id s)
              | some file ↦ resume_file resume.session_id p chances file s
            ]
      ]
