-- ===== src/Storage/Commit.antt =====
-- When a backup is committed, what the agent is told, and when older backups go.
use n_backup.Prelude.{
  ℕ, ◌<◌, ◌≡◌, ◌↔◌, arith, Bool, true, false, not, ◌&&◌, List, [], ◌∷◌, ◌++◌, ◌==◌, if◌then◌else◌,
}
use n_backup.Protocol.Wire.{bytes_eq}
use n_backup.Storage.{
  Name, Closing, Effect, aborts, commits, archives, removes, uploads, unlocks, answers,
  final_status_ok, final_status_write_error, final_status_checksum_mismatch, rotate_and_upload,
  validate_and_commit_with_trailer,
}

-- The statuses that the agent is sent, whether the backup is committed, and the backups that are removed
-- ahead of and behind the commit.
unfoldable pub answered : List Effect → List ℕ
answered [] = []
answered (answers s ∷ es) = s ∷ answered es
answered (aborts ∷ es) = answered es
answered (commits ∷ es) = answered es
answered (archives ns ∷ es) = answered es
answered (removes ns ∷ es) = answered es
answered (uploads ∷ es) = answered es
answered (unlocks ∷ es) = answered es

unfoldable pub has_commit : List Effect → Bool
has_commit [] = false
has_commit (commits ∷ es) = true
has_commit (answers s ∷ es) = has_commit es
has_commit (aborts ∷ es) = has_commit es
has_commit (archives ns ∷ es) = has_commit es
has_commit (removes ns ∷ es) = has_commit es
has_commit (uploads ∷ es) = has_commit es
has_commit (unlocks ∷ es) = has_commit es

unfoldable pub removed_before : List Effect → List Name
removed_before [] = []
removed_before (commits ∷ es) = []
removed_before (removes ns ∷ es) = ns ++ removed_before es
removed_before (answers s ∷ es) = removed_before es
removed_before (aborts ∷ es) = removed_before es
removed_before (archives ns ∷ es) = removed_before es
removed_before (uploads ∷ es) = removed_before es
removed_before (unlocks ∷ es) = removed_before es

unfoldable pub removed_by : List Effect → List Name
removed_by [] = []
removed_by (removes ns ∷ es) = ns ++ removed_by es
removed_by (commits ∷ es) = removed_by es
removed_by (answers s ∷ es) = removed_by es
removed_by (aborts ∷ es) = removed_by es
removed_by (archives ns ∷ es) = removed_by es
removed_by (uploads ∷ es) = removed_by es
removed_by (unlocks ∷ es) = removed_by es

-- The data are complete and the rename succeeds.
abbrev pub IsGood : Closing → Type 0
IsGood c =
    (0 < c.total_bytes)
    × (bytes_eq c.server_checksum c.trailer_checksum ≡ true)
    × (c.total_bytes ≡ c.trailer_size)
    × (c.renamed ≡ true)

-- What the agent is told of a backup that is not committed.
abbrev pub refused_with : Closing → ℕ
refused_with c =
    if not (c.total_bytes == 0) && not (bytes_eq c.server_checksum c.trailer_checksum)
    then final_status_checksum_mismatch
    else final_status_write_error

pub record IsClosed (c : Closing) (es : List Effect) : Type 0 where
  pub one_answer : answered es ≡ (if has_commit es then final_status_ok else refused_with c) ∷ []
  pub committed : (has_commit es ≡ true) ↔ IsGood c
  pub commit_first : removed_before es ≡ []
  pub only_then : has_commit es ≡ false → removed_by es ≡ []
  pub fail_safe : c.verify_integrity ≡ true → c.archive_valid ≡ false → removed_by es ≡ []

pub rotate_and_upload_lem : (c : Closing) → answered (rotate_and_upload c) ≡ final_status_ok ∷ []
unfolding rotate_and_upload answered
rotate_and_upload_lem c = ground arith

-- The agent is sent exactly one status: OK when the backup is committed, else that the checksum differs if
-- there are data whose checksum is not the trailer's, else a write error. It is committed exactly when
-- there are data, their checksum and their size are those of the trailer and the rename succeeds. No
-- older backup is removed before the commit or without one, nor when the check of the archive is on and
-- fails.
pub validate_and_commit-IsClosed : (c : Closing) → IsClosed c (validate_and_commit_with_trailer c)
unfolding validate_and_commit_with_trailer answered has_commit removed_before removed_by
validate_and_commit-IsClosed c = record {
  one_answer = ground (arith, rotate_and_upload_lem c);
  committed =
      (λ h. (ground arith, ground arith, ground arith, ground arith), λ g. ground (arith, g));
  commit_first = ground arith;
  only_then = λ e. ground arith;
  fail_safe = λ v a. ground arith;
}
