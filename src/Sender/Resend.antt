-- ===== src/Sender/Resend.antt =====
-- What RetransmitChunk sends.
use n_backup.Prelude.{ℕ, ◌≡◌, List, ◌++◌, length, take}
use n_backup.RingBuffer.{RingBuffer}
use n_backup.Ledger.{record_retransmit}
use n_backup.Sender.Loop.{Sending, Retransmitted, resent, unrecoverable, set_sending}

-- A frame that went out whole with its bytes recorded, or one that did not and is not recorded.
pub record IsResent (s : Sending) (i : ℕ) (frame : List ℕ) (ss : List Sending)
    (r : Retransmitted × List Sending) : Type 0 where
  pub whole :
      r.0 ≡ resent
      → r.1
        ≡ set_sending i
            (record s {
              sent = s.sent ++ frame;
              ledger = record_retransmit s.ledger (length frame);
            })
            ss
  pub partly :
      ¬ (r.0 ≡ resent)
      → (n : ℕ) × (r.1 ≡ set_sending i (record s { sent = s.sent ++ take n frame }) ss)
  pub kept : ¬ (r.0 ≡ unrecoverable)
