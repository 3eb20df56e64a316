-- ===== src/Single/Resume.antt =====
-- Connections that break and are resumed.
use n_backup.Prelude.{
  ℕ, ◌<◌, ◌≡◌, refl, ap, ◌∙◌, arith, Bool, true, false, not, ◌&&◌, List, ◌++◌, length, drop, Option,
  some, if◌then◌else◌, drop-length-append,
}
use n_backup.Protocol.Wire.Laws.{bytes_eq_self}
use n_backup.Protocol.Frames.{Resume}
use n_backup.Storage.{Name}
use n_backup.Single.{broken}
use n_backup.Single.Delivery.{Piece, deliver, broken_cut}
use n_backup.Single.Sessions.{
  Partial, partial, Server, set_at, lock_key, Chances, Handled, answer_only, transfer, resume_file,
  handle_resume,
}

pub set_at_self {ℓ} : {A : Type ℓ} (k : Name) (v : A) (m : Name → A) → set_at k v m k ≡ v
unfolding set_at
set_at_self k v m = rw (bytes_eq_self k) refl

-- The session is registered under the names of the agent, no call holds its lock, and its temporary file
-- is the first part of the data.
pub record IsResumable (rq : Resume) (backup path : Name) (all : List ℕ) (s : Server) : Type 0 where
  pub written : ℕ
  pub registered :
      s.sessions rq.session_id
      ≡ some (
          partial (record {
            tmp_path = path;
            agent_name = rq.agent_name;
            storage_name = rq.storage_name;
            backup_name = backup;
            bytes_written = written;
          }))
  pub unlocked : s.locks (lock_key rq.agent_name rq.storage_name backup) ≡ false
  pub file : List ℕ
  pub stored : s.files path ≡ some file
  pub rest : List ℕ
  pub whole : file ++ rest ≡ all

-- What the agent sends once it knows the offset of the server, on a connection that breaks.
unfoldable pub interrupted : List ℕ → List Piece → Option ℕ → Chances → Chances
interrupted all ps fault c = record c { reads = λ o. deliver (drop o all) ps broken fault }

module _ (io_buffer_size sack_interval : ℕ) (sha256 : List ℕ → List ℕ) where
  pub transfer_broken :
      (removed : Bool) (rq : Resume) (backup path : Name) (written : ℕ) (all file rest : List ℕ)
      (acks : List (ℕ × ℕ)) (ps : List Piece) (fault : Option ℕ) (c : Chances) (s : Server)
      → 0 < sack_interval
      → file ++ rest ≡ all
      → IsResumable rq backup path all
          (transfer io_buffer_size sack_interval sha256 removed rq.session_id
            (record {
              tmp_path = path;
              agent_name = rq.agent_name;
              storage_name = rq.storage_name;
              backup_name = backup;
              bytes_written = written;
            })
            (interrupted all ps fault c)
            file
            acks
            s).server
  unfolding transfer interrupted
  transfer_broken removed rq backup path written all file rest acks ps fault c s pos e =
      let sent : drop (length file) all ≡ rest = rw⁻¹ e (drop-length-append file rest) in
      let (r, result, cut) =
        broken_cut io_buffer_size sack_interval file (drop (length file) all) ps fault pos in
      rw (result, transfer)
        (record {
          written = r.bytes_written;
          registered = set_at_self rq.session_id _ s.sessions;
          unlocked = set_at_self (lock_key rq.agent_name rq.storage_name backup) false s.locks;
          file = r.file;
          stored = set_at_self path (some r.file) s.files;
          rest = cut.rest;
          whole = cut.content ∙ ap (λ x. file ++ x) sent ∙ e;
        })

  abbrev pub resume : Resume → Chances → Server → Handled
  resume = handle_resume io_buffer_size sack_interval sha256

  abbrev pub session_of : Resume → Name → Name → ℕ → Partial
  session_of rq backup path written = record {
    tmp_path = path;
    agent_name = rq.agent_name;
    storage_name = rq.storage_name;
    backup_name = backup;
    bytes_written = written;
  }

  -- handleResume goes on with the file.
  pub resume_lem :
      (rq : Resume) (backup path : Name) (all : List ℕ) (c : Chances) (s : Server)
      (v : IsResumable rq backup path all s)
      → resume rq c s
        ≡ resume_file io_buffer_size sack_interval sha256 rq.session_id
            (session_of rq backup path v.written)
            c
            v.file
            s
  unfolding handle_resume
  resume_lem rq backup path all c s v =
      ground (arith, bytes_eq_self rq.agent_name, bytes_eq_self rq.storage_name)

  if-IsResumable :
      (rq : Resume) (backup path : Name) (all : List ℕ) (b : Bool) (x y : Handled)
      → IsResumable rq backup path all x.server
      → IsResumable rq backup path all y.server
      → IsResumable rq backup path all (if b then x else y).server
  if-IsResumable rq backup path all true x y h k = h
  if-IsResumable rq backup path all false x y h k = k

  -- The answer to a resume raises no byte and drops none.
  noted :
      (rq : Resume) (backup path : Name) (all : List ℕ) (n : ℕ) (s : Server)
      → IsResumable rq backup path all s
      → IsResumable rq backup path all (record s {
        sessions = set_at rq.session_id (some (partial (session_of rq backup path n))) s.sessions;
      })
  noted rq backup path all n s v = record {
    written = n;
    registered = set_at_self rq.session_id _ s.sessions;
    unlocked = v.unlocked;
    file = v.file;
    stored = v.stored;
    rest = v.rest;
    whole = v.whole;
  }

  pub resume_broken :
      (rq : Resume) (backup path : Name) (all : List ℕ) (ps : List Piece) (fault : Option ℕ)
      (c : Chances) (s : Server)
      → 0 < sack_interval
      → IsResumable rq backup path all s
      → IsResumable rq backup path all (resume rq (interrupted all ps fault c) s).server
  unfolding resume_file answer_only
  resume_broken rq backup path all ps fault c s pos v =
      let n = length v.file in
      let kept = noted rq backup path all n s v in
      rw (resume_lem rq backup path all (interrupted all ps fault c) s v) (
        if-IsResumable rq backup path all (not (interrupted all ps fault c).answered) _ _ kept (
          if-IsResumable rq backup path all
            (s.locks (lock_key rq.agent_name rq.storage_name backup)) _ _ kept
            (if-IsResumable rq backup path all
              (not
                ((interrupted all ps fault c).opened && (interrupted all ps fault c).storage_known))
              _ _ kept
              (transfer_broken true rq backup path v.written all v.file v.rest _ ps fault c _ pos
                v.whole))))
