-- ===== src/Storage.antt =====
-- internal/server/storage.go, and validateAndCommitWithTrailer of internal/server/handler_parallel.go:
-- which backups a rotation removes, and when a backup is committed. A name is the list of its bytes; a
-- directory is the list of its entries.
pub mod Sorting
pub mod Rotation
pub mod Commit
mod Tests
use n_backup.Prelude.{
  ℕ, zero, suc, ◌+◌, ◌-◌, Bool, true, false, not, ◌&&◌, ◌||◌, List, [], ◌∷◌, ◌++◌, length, take,
  drop, Option, none, some, ltb, leb, ◌==◌, if◌then◌else◌,
}
use n_backup.Protocol.Wire.{bytes_eq}

abbrev pub Name : Type 0
Name = List ℕ

-- The order of sort.Strings: bytes from the left.
unfoldable pub name_leb : Name → Name → Bool
name_leb [] ys = true
name_leb (x ∷ xs) [] = false
name_leb (x ∷ xs) (y ∷ ys) =
    let rest = name_leb xs ys in if ltb x y then true else if x == y then rest else false

unfoldable pub insert_name : Name → List Name → List Name
insert_name n [] = n ∷ []
insert_name n (m ∷ ms) =
    let rest = insert_name n ms in if name_leb n m then n ∷ (m ∷ ms) else m ∷ rest

unfoldable pub sort_names : List Name → List Name
sort_names [] = []
sort_names (n ∷ ns) = insert_name n (sort_names ns)

-- strings.HasSuffix
unfoldable pub has_suffix : Name → Name → Bool
has_suffix suffix name =
    leb (length suffix) (length name) && bytes_eq (drop (length name - length suffix) name) suffix

-- ".tar.gz" and ".tar.zst"
abbrev pub tar_gz : Name
tar_gz = 46 ∷ 116 ∷ 97 ∷ 114 ∷ 46 ∷ 103 ∷ 122 ∷ []

abbrev pub tar_zst : Name
tar_zst = 46 ∷ 116 ∷ 97 ∷ 114 ∷ 46 ∷ 122 ∷ 115 ∷ 116 ∷ []

-- isBackupFile
unfoldable pub is_backup_file : Name → Bool
is_backup_file name = has_suffix tar_gz name || has_suffix tar_zst name

-- os.DirEntry
pub record Entry : Type 0 where
  pub name : Name
  pub is_dir : Bool

-- The loop of ListRotationCandidates over the entries.
unfoldable pub backups_of : List Entry → List Name
backups_of [] = []
backups_of (e ∷ es) =
    let rest = backups_of es in
    if not e.is_dir && is_backup_file e.name then e.name ∷ rest else rest

-- ListRotationCandidates on a directory that can be read; 0 stands for a limit that is not positive.
unfoldable pub list_rotation_candidates : List Entry → ℕ → List Name
list_rotation_candidates es max_backups =
    let backups = sort_names (backups_of es) in
    if max_backups == 0
    then []
    else if ltb max_backups (length backups)
    then take (length backups - max_backups) backups
    else []

-- The loop of Rotate: what it removes, and whether os.Remove fails; `removable` is what os.Remove does.
unfoldable pub remove_loop : (Name → Bool) → List Name → List Name × Bool
remove_loop removable [] = ([], false)
remove_loop removable (n ∷ ns) =
    let (removed, failed) = remove_loop removable ns in
    if removable n then (n ∷ removed, failed) else ([], true)

-- Rotate
unfoldable pub rotate : (Name → Bool) → List Entry → ℕ → List Name × Bool
rotate removable es max_backups = remove_loop removable (list_rotation_candidates es max_backups)

-- FinalStatusOK, FinalStatusChecksumMismatch, FinalStatusWriteError
abbrev pub final_status_ok : ℕ
final_status_ok = 0

abbrev pub final_status_checksum_mismatch : ℕ
final_status_checksum_mismatch = 1

abbrev pub final_status_write_error : ℕ
final_status_write_error = 2

-- What validateAndCommitWithTrailer depends on: its arguments, the settings of the storage, what the
-- rename and the check of the archive return, and the directory after the rename.
pub record Closing : Type 0 where
  pub total_bytes : ℕ
  pub trailer_size : ℕ
  pub trailer_checksum : List ℕ
  pub server_checksum : List ℕ
  pub renamed : Bool
  pub verify_integrity : Bool
  pub archive_valid : Bool
  pub archive_buckets : Bool
  pub async_upload : Bool
  pub max_backups : ℕ
  pub entries : List Entry
  pub removable : Name → Bool

-- What it does, in order.
pub data Effect : Type 0 where
  aborts : Effect
  commits : Effect
  archives : List Name → Effect
  removes : List Name → Effect
  uploads : Effect
  unlocks : Effect
  answers : ℕ → Effect

-- From the archive upload ahead of the rotation on.
unfoldable pub rotate_and_upload : Closing → List Effect
rotate_and_upload c =
    (if c.archive_buckets
      then archives (list_rotation_candidates c.entries c.max_backups) ∷ []
      else [])
    ++ (removes (rotate c.removable c.entries c.max_backups).0
        ∷ (if c.async_upload
            then answers final_status_ok ∷ unlocks ∷ uploads ∷ []
            else uploads ∷ answers final_status_ok ∷ []))

-- validateAndCommitWithTrailer. A removal that fails is only logged.
unfoldable pub validate_and_commit_with_trailer : Closing → List Effect
validate_and_commit_with_trailer c =
    if c.total_bytes == 0
    then aborts ∷ answers final_status_write_error ∷ []
    else if not (bytes_eq c.server_checksum c.trailer_checksum)
    then aborts ∷ answers final_status_checksum_mismatch ∷ []
    else if not (c.total_bytes == c.trailer_size)
    then aborts ∷ answers final_status_write_error ∷ []
    else if not c.renamed
    then answers final_status_write_error ∷ []
    else if c.verify_integrity && not c.archive_valid
    then commits ∷ answers final_status_ok ∷ []
    else commits ∷ rotate_and_upload c
