-- ===== src/Ledger.antt =====
-- The ledger of retransmissions of a ParallelStream in internal/agent/dispatcher.go. The server
-- acknowledges offsets of the bytes on the wire, in which chunks that were sent again stand between
-- the normal ones; the ring buffer counts normal bytes only.
pub mod Spans
pub mod Sent
pub mod Reach
mod Tests
use n_backup.Prelude.{
  ℕ, ◌+◌, ◌-◌, min, Bool, true, false, List, [], ◌∷◌, ◌++◌, ltb, leb, if◌then◌else◌,
}

-- retransmitSpan
pub record Span : Type 0 where
  pub from : ℕ
  pub to : ℕ

-- The fields of ParallelStream under sendMu.
pub record Ledger : Type 0 where
  pub send_offset : ℕ
  pub wire_offset : ℕ
  pub acked_retransmit : ℕ
  pub retransmit_spans : List Span

-- recordRetransmitLocked
unfoldable pub record_retransmit : Ledger → ℕ → Ledger
record_retransmit s len = record s {
  wire_offset = s.wire_offset + len;
  retransmit_spans =
      s.retransmit_spans ++ (record { from = s.wire_offset; to = s.wire_offset + len } ∷ []);
}

-- advanceNormalLocked
unfoldable pub advance_normal : Ledger → ℕ → Ledger
advance_normal s len = record s {
  send_offset = s.send_offset + len;
  wire_offset = s.wire_offset + len;
}

-- The loop of translateWireOffsetLocked. The code's base may pass below 0, where it stays and is
-- returned as 0.
unfoldable pub translate_loop : List Span → ℕ → ℕ → ℕ
translate_loop [] w base = base
translate_loop (span ∷ spans) w base =
    let rest =
      translate_loop spans w
        (if ltb span.from (min w span.to) then base - (min w span.to - span.from) else base) in
    if leb w span.from then base else rest

-- translateWireOffsetLocked
unfoldable pub translate_wire_offset : Ledger → ℕ → ℕ
translate_wire_offset s w = translate_loop s.retransmit_spans w (w - s.acked_retransmit)

-- The loop of applyACKLocked: the bytes it adds to ackedRetransmit, and the spans it keeps.
unfoldable pub ack_loop : List Span → ℕ → ℕ × List Span
ack_loop [] w = (0, [])
ack_loop (span ∷ spans) w =
    let (acked, kept) = ack_loop spans w in
    if leb span.to w
    then (acked + (span.to - span.from), kept)
    else if ltb span.from w
    then (acked + (w - span.from), record { from = w; to = span.to } ∷ kept)
    else (acked, span ∷ kept)

-- applyACKLocked, of the ledger and of the offset that it returns.
unfoldable pub apply_ack : Ledger → ℕ → Ledger
apply_ack s w =
    let (acked, kept) = ack_loop s.retransmit_spans w in
    record s { acked_retransmit = s.acked_retransmit + acked; retransmit_spans = kept }

abbrev pub apply_ack_offset : Ledger → ℕ → ℕ
apply_ack_offset s w = translate_wire_offset (apply_ack s w) w

-- The loop of resumeFromWireOffsetLocked.
unfoldable pub resume_loop : List Span → ℕ → ℕ
resume_loop [] w = 0
resume_loop (span ∷ spans) w =
    let rest = resume_loop spans w in
    if leb w span.from
    then rest
    else if ltb span.from (min span.to w)
    then (min span.to w - span.from) + rest
    else rest

-- resumeFromWireOffsetLocked; it returns the new send_offset.
unfoldable pub resume_from_wire_offset : Ledger → ℕ → Ledger
resume_from_wire_offset s w =
    let acked = s.acked_retransmit + resume_loop s.retransmit_spans w in
    record {
      send_offset = w - acked;
      wire_offset = w;
      acked_retransmit = acked;
      retransmit_spans = [];
    }
