-- ===== src/Receive/Tests.antt =====
-- Two chunks on a connection, into a session that lists what it gets.
use n_backup.Prelude.{
  ℕ, ◌+◌, ◌-◌, ◌%◌, ◌^◌, ◌≡◌, refl, arith, Bool, true, List, [], ◌∷◌, length, take, drop, All, sym,
  take-append-drop,
}
use n_backup.Frame.{Chunk, frames, Fits}
use n_backup.Receive.{Receiving, finished, receive_parallel_stream}
use n_backup.Receive.Whole.{deliver_all}
use n_backup.Receive.Resume.{receive_resumed}

abbrev checksum : List ℕ → ℕ
checksum l = length l % 2 ^ 32

abbrev listed : List (ℕ × List ℕ) → ℕ → List ℕ → Bool × List (ℕ × List ℕ)
listed s n p = (true, (n, p) ∷ s)

abbrev two_chunks : List Chunk
two_chunks = record { seq = 4; payload = 10 ∷ 20 ∷ [] } ∷ record { seq = 6; payload = 30 ∷ [] } ∷ []

abbrev slot : Receiving (List (ℕ × List ℕ))
slot = record {
  session = [];
  offset = 100;
  local_chunk_seq = 0;
  chunks_received = 0;
  last_chunk_seq = 0;
  sacks = [];
}

abbrev two_fit : All (Fits checksum) two_chunks
two_fit = (
  record { seq_fits = omega arith; length_fits = omega arith; crc_fits = omega arith },
  (record { seq_fits = omega arith; length_fits = omega arith; crc_fits = omega arith }, tt),
)

-- The connection breaks off within the payload of the second chunk.
receive_resumed_example :
    let broken =
      (receive_parallel_stream listed checksum 1 9
        (take 28 (frames checksum 1 two_chunks))
        slot).1 in
    let rest = drop (broken.offset - 100) (frames checksum 1 two_chunks) in
    let (end, r') = receive_parallel_stream listed checksum 1 5 rest broken in
    (end ≡ finished)
    × (r'.session ≡ deliver_all listed checksum 1 two_chunks [])
    × (r'.offset ≡ 100 + length (frames checksum 1 two_chunks))
receive_resumed_example =
    receive_resumed listed checksum 1 9 5 (take 28 (frames checksum 1 two_chunks))
      (drop 28 (frames checksum 1 two_chunks)) two_chunks slot two_fit (refl, (refl, tt))
      (sym (take-append-drop 28 (frames checksum 1 two_chunks))) (omega arith)
