-- ===== src/Assembler/Again.antt =====
-- A chunk that is sent again.
use n_backup.Prelude.{
  ℕ, ◌+◌, ◌<◌, ◌≡◌, refl, arith, Bool, true, false, List, length, some, leb, ◌∙◌,
}
use n_backup.Assembler.Pending.{in_memory, lookup, insert, lookup-insert}
use n_backup.Assembler.Defs.{eager, Assembler, returned, write_chunk}
use n_backup.Assembler.Branches.{is_refused, write_chunk_accepted, eager_fits}

-- In eager mode a chunk that waits in memory and comes again, with room for it, is counted again: the
-- map has the same entry for every number, but `pending_count` grows by one and `pending_mem_bytes` by
-- the chunk's length.
pub write_chunk_repeated :
    (ca : Assembler) (s : ℕ) (buf : List ℕ) (disk : Bool)
    → ca.mode ≡ eager
    → is_refused buf ≡ false
    → ca.next_expected_seq < s
    → lookup s ca.pending ≡ some (in_memory buf)
    → leb (ca.pending_mem_bytes + length buf) ca.pending_mem_limit ≡ true
    → (ca' : Assembler) × (write_chunk ca s buf disk ≡ returned ca')
      × ((k : ℕ) → lookup k ca'.pending ≡ lookup k ca.pending)
      × (ca'.pending_count ≡ ca.pending_count + 1)
      × (ca'.pending_mem_bytes ≡ ca.pending_mem_bytes + length buf)
write_chunk_repeated ca s buf disk m good lt found fits = (
  record ca {
    pending = insert s (in_memory buf) ca.pending;
    pending_count = ca.pending_count + 1;
    pending_mem_bytes = ca.pending_mem_bytes + length buf;
  },
  write_chunk_accepted ca s buf disk good m ∙ eager_fits ca s buf lt fits,
  λ k. ground (arith, lookup-insert s k (in_memory buf) ca.pending),
  refl,
  refl,
)
