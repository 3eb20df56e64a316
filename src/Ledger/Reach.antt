-- ===== src/Ledger/Reach.antt =====
-- Every history of a stream: sends, retransmissions, acknowledgements and new connections in any
-- order. The ledger's records are made in the order of the bytes on the wire.
use n_backup.Prelude.{ℕ, ◌+◌, ◌-◌, ◌≤◌, ◌≡◌, refl, arith, List, [], ◌∷◌, ap, ◌∙◌}
use n_backup.Ledger.{
  Ledger, record_retransmit, advance_normal, translate_wire_offset, apply_ack,
  resume_from_wire_offset, apply_ack_offset,
}
use n_backup.Ledger.Spans.{resent_before, IsOrdered, translate_loop_lem, resume_loop_lem}
use n_backup.Ledger.Sent.{
  Sent, normal, again, total, normal_before, cut, total-cut, normal_before-cut, normal_before-total,
  IsLedger, advance_normal-IsLedger, record_retransmit-IsLedger, apply_ack-IsLedger,
}

abbrev pub fresh_ledger : Ledger
fresh_ledger = record {
  send_offset = 0;
  wire_offset = 0;
  acked_retransmit = 0;
  retransmit_spans = [];
}

-- The history, the last offset that the server acknowledged, and the ledger. The server acknowledges
-- only what it got, and never less than before.
pub data Reach : List Sent → ℕ → Ledger → Type 0 where
  fresh : Reach [] 0 fresh_ledger
  send :
      {log : List Sent} {acked : ℕ} {s : Ledger} (k : ℕ)
      → Reach log acked s
      → Reach (normal k ∷ log) acked (advance_normal s k)
  resend :
      {log : List Sent} {acked : ℕ} {s : Ledger} (k : ℕ)
      → Reach log acked s
      → Reach (again k ∷ log) acked (record_retransmit s k)
  ack :
      {log : List Sent} {acked : ℕ} {s : Ledger} (w : ℕ)
      → Reach log acked s
      → acked ≤ w
      → w ≤ s.wire_offset
      → Reach log w (apply_ack s w)
  resume :
      {log : List Sent} {acked : ℕ} {s : Ledger} (w : ℕ)
      → Reach log acked s
      → acked ≤ w
      → w ≤ s.wire_offset
      → Reach (cut log w) w (resume_from_wire_offset s w)

resume-IsLedger :
    (log : List Sent) (acked w : ℕ) (s : Ledger)
    → IsLedger log acked s
    → acked ≤ w
    → w ≤ s.wire_offset
    → IsLedger (cut log w) w (resume_from_wire_offset s w)
unfolding resume_from_wire_offset resent_before IsOrdered
resume-IsLedger log acked w s v le le' =
    let len : total (cut log w) ≡ w = total-cut log w (omega (arith, v.wire)) in
    let same : normal_before (cut log w) w ≡ normal_before log w =
      normal_before-cut log w (omega (arith, v.wire)) in
    let split = v.splits w le le' in
    let resent = resume_loop_lem 0 w s.wire_offset s.retransmit_spans v.ordered in
    record {
      wire = omega arith;
      sent = rw len (omega arith);
      seen = omega arith;
      ordered = omega arith;
      splits = λ u ge lt. let at : u ≡ w = omega arith in rw at (omega arith);
    }

Reach-IsLedger :
    (log : List Sent) (acked : ℕ) (s : Ledger) → Reach log acked s → IsLedger log acked s
Reach-IsLedger log acked s fresh =
    unfold total normal_before resent_before IsOrdered in
    (record {
      wire = refl;
      sent = refl;
      seen = omega arith;
      ordered = omega arith;
      splits = λ w le le'. omega arith;
    })
Reach-IsLedger log acked s (send k r) = advance_normal-IsLedger _ _ k _ (Reach-IsLedger _ _ _ r)
Reach-IsLedger log acked s (resend k r) =
    record_retransmit-IsLedger _ _ k _ (Reach-IsLedger _ _ _ r)
Reach-IsLedger log acked s (ack w r le le') =
    apply_ack-IsLedger _ _ w _ (Reach-IsLedger _ _ _ r) le le'
Reach-IsLedger log acked s (resume w r le le') =
    resume-IsLedger _ _ w _ (Reach-IsLedger _ _ _ r) le le'

-- After any history that is recorded in the order of the wire: where the server acknowledges the first
-- `w` bytes on the wire, no fewer than before and no more than were sent, the offset that the code
-- finds for it, by which the ring buffer is freed, is the number of normal bytes among them.
pub apply_ack_lem :
    (log : List Sent) (acked w : ℕ) (s : Ledger)
    → Reach log acked s
    → acked ≤ w
    → w ≤ s.wire_offset
    → apply_ack_offset s w ≡ normal_before log w
apply_ack_lem log acked w s r le le' =
    translate_lem log w (apply_ack s w)
      (apply_ack-IsLedger log acked w s (Reach-IsLedger log acked s r) le le')
  where
    translate_lem :
        (log : List Sent) (w : ℕ) (s : Ledger)
        → IsLedger log w s
        → translate_wire_offset s w ≡ normal_before log w
    translate_lem log w s v =
        unfold translate_wire_offset in
        (translate_loop_lem 0 w s.wire_offset (w - s.acked_retransmit) s.retransmit_spans v.ordered
          ∙ (let split = v.splits w (omega arith) v.seen in omega arith))

-- After any history that is recorded in the order of the wire: on a new connection where the server has
-- the first `w` bytes on the wire, no fewer than it acknowledged and no more than were sent, the
-- sender goes on at the first normal byte that is not among them; and the history cut at `w` has `w`
-- bytes with the same normal ones.
pub resume_lem :
    (log : List Sent) (acked w : ℕ) (s : Ledger)
    → Reach log acked s
    → acked ≤ w
    → w ≤ s.wire_offset
    → ((resume_from_wire_offset s w).send_offset ≡ normal_before log w)
      × (total (cut log w) ≡ w)
      × (normal_before (cut log w) w ≡ normal_before log w)
resume_lem log acked w s r le le' =
    let v = Reach-IsLedger log acked s r in
    let after = resume-IsLedger log acked w s v le le' in
    let len : total (cut log w) ≡ w = total-cut log w (omega (arith, v.wire)) in
    let same : normal_before (cut log w) w ≡ normal_before log w =
      normal_before-cut log w (omega (arith, v.wire)) in
    (after.sent ∙ (ap (normal_before (cut log w)) len ∙ same), len, same)

-- After any history that is recorded in the order of the wire, `wire_offset` is the number of bytes on
-- the wire and `send_offset` the number of normal ones among them.
pub Reach-sent :
    (log : List Sent) (acked : ℕ) (s : Ledger)
    → Reach log acked s
    → (s.wire_offset ≡ total log) × (s.send_offset ≡ normal_before log (total log))
Reach-sent log acked s r = let v = Reach-IsLedger log acked s r in (v.wire, v.sent)

-- Where a chunk of `r` bytes is sent again ahead of a normal one of `k` bytes, but recorded behind it,
-- the offset found for its first `w` bytes, `w` at most `k` and `r`, counts them as normal, though none
-- of the `k` bytes is among them.
pub swapped_records :
    (log : List Sent) (acked k r w : ℕ) (s : Ledger)
    → Reach log acked s
    → w ≤ k
    → w ≤ r
    → (apply_ack_offset (record_retransmit (advance_normal s k) r) (s.wire_offset + w)
        ≡ s.send_offset + w)
      × (normal_before (normal k ∷ again r ∷ log) (s.wire_offset + w) ≡ s.send_offset)
swapped_records log acked k r w s reach le le' =
    let v = Reach-IsLedger log acked s reach in
    let all = normal_before-total log (s.wire_offset + w) (omega (arith, v.wire)) in
    (
      apply_ack_lem (again r ∷ normal k ∷ log) acked (s.wire_offset + w)
            (record_retransmit (advance_normal s k) r) (resend r (send k reach))
            (omega (arith, v.seen)) (unfold record_retransmit advance_normal in omega arith)
          ∙ (unfold normal_before in omega (arith, v.wire, v.sent)),
      unfold normal_before total in omega (arith, v.wire, v.sent),
    )
