-- ===== src/Storage/Tests.antt =====
-- A directory with three backups, and a backup that is committed.
use n_backup.Prelude.{◌≡◌, refl, true, false, List, [], ◌∷◌, Bool}
use n_backup.Protocol.Wire.{bytes_eq}
use n_backup.Storage.{
  Name, name_leb, insert_name, sort_names, has_suffix, tar_gz, tar_zst, is_backup_file, Entry,
  backups_of, list_rotation_candidates, remove_loop, rotate, Closing,
  validate_and_commit_with_trailer, aborts, answers,
}
use n_backup.Storage.Commit.{IsClosed, validate_and_commit-IsClosed}

-- "1.tar.gz", "3.tar.zst", "2.tar.gz" and a file "x".
abbrev directory : List Entry
directory =
    record { name = 49 ∷ tar_gz; is_dir = false }
    ∷ record { name = 51 ∷ tar_zst; is_dir = false }
    ∷ record { name = 50 ∷ tar_gz; is_dir = false }
    ∷ record { name = 120 ∷ []; is_dir = false }
    ∷ []

abbrev always : Name → Bool
always n = true

-- With two to keep, the oldest goes.
rotate_lem : rotate always directory 2 ≡ ((49 ∷ tar_gz) ∷ [], false)
unfolding rotate remove_loop list_rotation_candidates backups_of is_backup_file has_suffix
    sort_names insert_name name_leb bytes_eq
rotate_lem = refl

-- The size of the trailer is another one.
abbrev short : Closing
short = record {
  total_bytes = 10;
  trailer_size = 11;
  trailer_checksum = 1 ∷ 2 ∷ [];
  server_checksum = 1 ∷ 2 ∷ [];
  renamed = true;
  verify_integrity = true;
  archive_valid = true;
  archive_buckets = false;
  async_upload = false;
  max_backups = 2;
  entries = directory;
  removable = always;
}

short_lem : validate_and_commit_with_trailer short ≡ aborts ∷ answers 2 ∷ []
unfolding validate_and_commit_with_trailer bytes_eq
short_lem = refl

validate_and_commit-IsClosed_example : IsClosed short (validate_and_commit_with_trailer short)
validate_and_commit-IsClosed_example = validate_and_commit-IsClosed short
