-- ===== src/Single/Trailer.antt =====
-- The trailer at the end of the temporary file, and the commit of what stands in front of it.
use n_backup.Prelude.{
  ℕ, ◌+◌, ◌-◌, ◌<◌, ◌^◌, ◌≡◌, refl, arith, true, List, [], ◌++◌, append-nil, length, some,
  length-append, ge→ltb, take-length-append, drop-length-append,
}
use n_backup.Protocol.Wire.{stream, put_be}
use n_backup.Protocol.Wire.Laws.{length-put_be, bytes_eq_self}
use n_backup.Protocol.Writer.{write_trailer}
use n_backup.Protocol.RoundTrip.{read_trailer-write_trailer}
use n_backup.Storage.{Closing}
use n_backup.Single.Sessions.{
  trailer_size, Disk, truncate, read_trailer_from_file, commit_data, validate_and_commit_single,
}

-- The trailer of the agent: the checksum and the size of its data.
abbrev pub trailer_of : (List ℕ → List ℕ) → List ℕ → List ℕ
trailer_of sha256 all = stream (write_trailer (sha256 all) (length all)) []

pub length-trailer_of :
    (sha256 : List ℕ → List ℕ) (all : List ℕ)
    → length (sha256 all) ≡ 32
    → length (trailer_of sha256 all) ≡ trailer_size
unfolding write_trailer
length-trailer_of sha256 all h = omega (
  arith,
  h,
  length-append (sha256 all) (put_be 8 (length all) ++ []),
  length-append (put_be 8 (length all)) [],
  length-put_be 8 (length all),
)

read_trailer_from_file-trailer :
    (sha256 : List ℕ → List ℕ) (all : List ℕ)
    → length (sha256 all) ≡ 32
    → length all < 2 ^ 64
    → read_trailer_from_file true (all ++ trailer_of sha256 all)
      ≡ some (record { checksum = sha256 all; size = length all })
unfolding read_trailer_from_file
read_trailer_from_file-trailer sha256 all h fits =
    let long : length (all ++ trailer_of sha256 all) ≡ length all + trailer_size =
      omega (arith, length-append all (trailer_of sha256 all), length-trailer_of sha256 all h) in
    let start : length (all ++ trailer_of sha256 all) - trailer_size ≡ length all =
      omega (arith, long) in
    rw
      (
        start,
        drop-length-append all (trailer_of sha256 all),
        read_trailer-write_trailer (sha256 all) (length all) [] h fits,
      )
      (rw (ge→ltb (length (all ++ trailer_of sha256 all)) trailer_size (omega (arith, long))) refl)

truncate-append : (all rest : List ℕ) (n : ℕ) → n ≡ length all → truncate n (all ++ rest) ≡ all
unfolding truncate
truncate-append all rest n e = rw (e, take-length-append all rest) (rw (no_pad) (append-nil all))
  where
    no_pad : length all - length (all ++ rest) ≡ 0
    no_pad = omega (arith, length-append all rest)

module _ (io_buffer_size sack_interval : ℕ) (sha256 : List ℕ → List ℕ) where
  pub commit_lem :
      (disk : Disk) (c : Closing) (all : List ℕ) (n : ℕ)
      → length (sha256 all) ≡ 32
      → length all < 2 ^ 64
      → disk.opens ≡ true
      → disk.truncates ≡ true
      → disk.hashes ≡ true
      → n ≡ length all + trailer_size
      → validate_and_commit_single io_buffer_size sack_interval sha256 disk c n
          (all ++ trailer_of sha256 all)
        ≡ commit_data io_buffer_size sack_interval sha256 c all
  unfolding validate_and_commit_single
  commit_lem disk c all n h fits opens truncates hashes e =
      rw
        (
          ge→ltb n trailer_size (omega (arith, e)),
          opens,
          read_trailer_from_file-trailer sha256 all h fits,
          truncates,
          hashes,
          truncate-append all (trailer_of sha256 all) (n - trailer_size) (omega (arith, e)),
          bytes_eq_self (sha256 all),
        )
        refl
