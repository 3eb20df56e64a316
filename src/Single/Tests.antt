-- ===== src/Single/Tests.antt =====
-- A backup of five bytes that breaks behind the third, with reads of a few bytes.
use n_backup.Prelude.{
  ℕ, ◌+◌, ◌≤◌, ◌≡◌, refl, arith, true, false, List, [], ◌∷◌, ◌++◌, length, replicate, none, some,
}
use n_backup.Protocol.Frames.{Resume}
use n_backup.Storage.{final_status_ok}
use n_backup.Storage.Commit.{answered}
use n_backup.Single.{
  at_eof, broken, Read, start_receiving, flush_file, write_file, end_read, sack_read, send_sack,
  read_once, receive_with_sack, returned,
}
use n_backup.Single.Laws.{sees_eof}
use n_backup.Single.Delivery.{Piece, sizes}
use n_backup.Single.Sessions.{resume_status_not_found, Server, Chances, fire, handle_single}
use n_backup.Single.Resume.{interrupted, resume, session_of}
use n_backup.Single.Upload.{Attempt, retry, IsFavourable, finished, handle_resume-retry}
use n_backup.Single.Lost.{IsUnanswered, transfer_without_eof, handle_resume-expire}

abbrev sum : List ℕ → List ℕ
sum xs = replicate 32 (length xs)

abbrev rq : Resume
rq = record { session_id = 1 ∷ []; agent_name = 97 ∷ []; storage_name = 98 ∷ [] }

abbrev five : List ℕ
five = 10 ∷ 20 ∷ 30 ∷ 40 ∷ 50 ∷ []

abbrev piece : ℕ → Piece
piece n = record { size = n; on_write = none; on_sack = none; sack_sent = true }

abbrev silent : ℕ → List Read
silent o =
    record {
      bytes = five;
      ended = some broken;
      on_write = none;
      on_sack = none;
      sack_sent = true;
      on_end = none;
    }
    ∷ []

abbrev lucky : Chances
lucky = record {
  answered = true;
  opened = true;
  storage_known = true;
  writer_created = true;
  reads = silent;
  disk = record { opens = true; truncates = true; hashes = true };
  closing = record {
    total_bytes = 0;
    trailer_size = 0;
    trailer_checksum = [];
    server_checksum = [];
    renamed = true;
    verify_integrity = false;
    archive_valid = true;
    archive_buckets = false;
    async_upload = true;
    max_backups = 1;
    entries = [];
    removable = λ n. true;
  };
}

abbrev first : Attempt
first = record { pieces = piece 3 ∷ []; fault = none; chances = lucky }

abbrev second : Attempt
second = record {
  pieces = record { size = 1; on_write = some 0; on_sack = some 0; sack_sent = true } ∷ [];
  fault = some 0;
  chances = lucky;
}

abbrev empty_server : Server
empty_server = record { sessions = λ x. none; locks = λ x. false; files = λ x. none }

-- Seven bytes behind a file of two, in reads of three and four: a SACK at the fifth byte.
receive_lem :
    receive_with_sack 4 3
      (record {
        bytes = 1 ∷ 2 ∷ 3 ∷ [];
        ended = none;
        on_write = none;
        on_sack = none;
        sack_sent = true;
        on_end = none;
      }
        ∷ record {
          bytes = 4 ∷ 5 ∷ [];
          ended = some at_eof;
          on_write = none;
          on_sack = none;
          sack_sent = true;
          on_end = none;
        }
        ∷ [])
      (start_receiving (8 ∷ 9 ∷ []) 2)
    ≡ returned true (record {
      file = 8 ∷ 9 ∷ 1 ∷ 2 ∷ 3 ∷ 4 ∷ 5 ∷ [];
      buffered = [];
      bytes_received = 5;
      last_sack = 3;
      bytes_written = 7;
      sacks = 5 ∷ [];
      failed_sacks = [];
    })
unfolding receive_with_sack read_once sack_read send_sack end_read write_file flush_file
    start_receiving
receive_lem = refl

enough_lem : length five + 44 ≤ sizes (piece 30 ∷ piece 30 ∷ [])
unfolding sizes
enough_lem = omega arith

lucky-IsFavourable : IsFavourable lucky
lucky-IsFavourable = record {
  answers = refl;
  opens = refl;
  knows = refl;
  creates = refl;
  reads_trailer = refl;
  truncates = refl;
  hashes = refl;
  renames = refl;
}

handle_resume-retry_example :
    let broken_off =
      handle_single 4 2 sum
        (1 ∷ [])
        (session_of 4 2 sum rq (99 ∷ []) (100 ∷ []) 0)
        (interrupted five (piece 3 ∷ []) none lucky)
        empty_server in
    let h =
      resume 4 2 sum rq
        (finished sum five (piece 30 ∷ piece 30 ∷ []) lucky)
        (retry 4 2 sum rq five (second ∷ []) broken_off.server) in
    (h.committed ≡ some five) × (answered h.effects ≡ final_status_ok ∷ [])
handle_resume-retry_example =
    handle_resume-retry 4 2 sum rq (99 ∷ []) (100 ∷ []) five 0 first (second ∷ [])
      (piece 30 ∷ piece 30 ∷ []) lucky empty_server (omega arith) refl refl lucky-IsFavourable refl
      (omega arith) ((refl, refl), ((refl, refl), tt)) enough_lem

silent_lem : (offset : ℕ) → sees_eof (silent offset) ≡ false
unfolding sees_eof
silent_lem offset = refl

transfer_without_eof_example :
    IsUnanswered (
      handle_single 4 2 sum
        (1 ∷ [])
        (session_of 4 2 sum rq (99 ∷ []) (100 ∷ []) 0)
        lucky
        empty_server)
    × IsUnanswered (resume 4 2 sum rq lucky empty_server)
transfer_without_eof_example =
    transfer_without_eof 4 2 sum rq (session_of 4 2 sum rq (99 ∷ []) (100 ∷ []) 0) lucky
      empty_server (omega arith) silent_lem refl

-- The connection breaks behind three of five bytes, a resume breaks as well, and the timer goes off.
handle_resume-expire_example :
    let broken_off =
      handle_single 4 2 sum
        (1 ∷ [])
        (session_of 4 2 sum rq (99 ∷ []) (100 ∷ []) 0)
        (interrupted five (piece 3 ∷ []) none lucky)
        empty_server in
    let resumed = retry 4 2 sum rq five (second ∷ []) broken_off.server in
    let t = retry 4 2 sum rq five (first ∷ []) (fire broken_off.timers resumed) in
    let h = resume 4 2 sum rq lucky t in
    (h.resume_acks ≡ (resume_status_not_found, 0) ∷ [])
    × (h.committed ≡ none)
    × ((file : List ℕ) × (rest : List ℕ) × (t.files (100 ∷ []) ≡ some file) × (file ++ rest ≡ five))
handle_resume-expire_example =
    handle_resume-expire 4 2 sum rq (99 ∷ []) (100 ∷ []) five 0 first (second ∷ []) (first ∷ [])
      lucky empty_server (omega arith) refl refl
