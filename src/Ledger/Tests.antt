-- ===== src/Ledger/Tests.antt =====
-- A history of a stream, and the theorems at it.
use n_backup.Prelude.{◌≡◌, ◌+◌, refl, arith, List, [], ◌∷◌}
use n_backup.Ledger.{
  Ledger, record_retransmit, advance_normal, apply_ack_offset, resume_from_wire_offset,
}
use n_backup.Ledger.Sent.{Sent, normal, again, total, normal_before, cut}
use n_backup.Ledger.Reach.{
  Reach, fresh_ledger, fresh, send, resend, apply_ack_lem, resume_lem, swapped_records,
}

-- 100 bytes, of which 40 go again, and 50 more bytes.
abbrev history : List Sent
history = normal 50 ∷ again 40 ∷ normal 100 ∷ []

abbrev ledger : Ledger
ledger = advance_normal (record_retransmit (advance_normal fresh_ledger 100) 40) 50

reached : Reach history 0 ledger
reached = send 50 (resend 40 (send 100 fresh))

ledger_wire : ledger.wire_offset ≡ 190
unfolding advance_normal record_retransmit
ledger_wire = refl

history_lem : (normal_before history 120 ≡ 100) × (normal_before history 170 ≡ 130)
unfolding normal_before total
history_lem = (refl, refl)

apply_ack_lem_example : apply_ack_offset ledger 170 ≡ normal_before history 170
apply_ack_lem_example =
    apply_ack_lem history 0 170 ledger reached (omega arith) (omega (arith, ledger_wire))

resume_lem_example :
    ((resume_from_wire_offset ledger 120).send_offset ≡ normal_before history 120)
    × (total (cut history 120) ≡ 120)
    × (normal_before (cut history 120) 120 ≡ normal_before history 120)
resume_lem_example =
    resume_lem history 0 120 ledger reached (omega arith) (omega (arith, ledger_wire))

swapped_records_example :
    (apply_ack_offset (record_retransmit (advance_normal ledger 30) 20) (ledger.wire_offset + 20)
      ≡ ledger.send_offset + 20)
    × (normal_before (normal 30 ∷ again 20 ∷ history) (ledger.wire_offset + 20)
        ≡ ledger.send_offset)
swapped_records_example =
    swapped_records history 0 30 20 20 ledger reached (omega arith) (omega arith)
