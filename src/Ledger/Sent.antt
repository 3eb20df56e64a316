-- ===== src/Ledger/Sent.antt =====
-- The ledger against the history of what was sent.
use n_backup.Prelude.{ℕ, ◌+◌, ◌-◌, ◌≤◌, ◌≡◌, refl, arith, min, List, [], ◌∷◌, leb, if◌then◌else◌}
use n_backup.Ledger.{Ledger, record_retransmit, advance_normal, apply_ack}
use n_backup.Ledger.Spans.{
  resent_before, IsOrdered, resent_all, ack_loop_lem, ack_loop-IsOrdered, IsOrdered-raise,
  IsOrdered-append, resent_before-append,
}

-- What went on the wire: bytes of the ring buffer in their turn, or a chunk again.
pub data Sent : Type 0 where
  normal : ℕ → Sent
  again : ℕ → Sent

-- The bytes on the wire, and the normal ones of the first `w`; the last to be sent stands first.
unfoldable pub total : List Sent → ℕ
total [] = 0
total (normal k ∷ log) = total log + k
total (again k ∷ log) = total log + k

unfoldable pub normal_before : List Sent → ℕ → ℕ
normal_before [] w = 0
normal_before (normal k ∷ log) w = normal_before log w + min k (w - total log)
normal_before (again k ∷ log) w = normal_before log w

-- A new connection that starts at `w`: what was sent beyond did not arrive.
unfoldable pub cut : List Sent → ℕ → List Sent
cut [] w = []
cut (normal k ∷ log) w =
    let rest = cut log w in
    if leb w (total log)
    then rest
    else if leb (total log + k) w
    then normal k ∷ log
    else normal (w - total log) ∷ log
cut (again k ∷ log) w =
    let rest = cut log w in
    if leb w (total log)
    then rest
    else if leb (total log + k) w
    then again k ∷ log
    else again (w - total log) ∷ log

pub normal_before-total :
    (log : List Sent) (w : ℕ) → total log ≤ w → normal_before log w ≡ normal_before log (total log)
unfolding total normal_before
normal_before-total [] w le = refl
normal_before-total (normal k ∷ log) w le =
    ground (arith, normal_before-total log w, normal_before-total log (total log + k))
normal_before-total (again k ∷ log) w le =
    ground (arith, normal_before-total log w, normal_before-total log (total log + k))

pub total-cut : (log : List Sent) (w : ℕ) → w ≤ total log → total (cut log w) ≡ w
unfolding total cut
total-cut [] w le = omega arith
total-cut (normal k ∷ log) w le = ground (arith, total-cut log w)
total-cut (again k ∷ log) w le = ground (arith, total-cut log w)

pub normal_before-cut :
    (log : List Sent) (w : ℕ) → w ≤ total log → normal_before (cut log w) w ≡ normal_before log w
unfolding total normal_before cut
normal_before-cut [] w le = refl
normal_before-cut (normal k ∷ log) w le = ground (arith, normal_before-cut log w)
normal_before-cut (again k ∷ log) w le = ground (arith, normal_before-cut log w)

-- `acked` is the last wire offset that the server acknowledged. From there on, a wire offset is made of
-- the normal bytes and of those that the ledger knows as sent again.
pub record IsLedger (log : List Sent) (acked : ℕ) (s : Ledger) : Type 0 where
  pub wire : s.wire_offset ≡ total log
  pub sent : s.send_offset ≡ normal_before log (total log)
  pub seen : acked ≤ s.wire_offset
  pub ordered : IsOrdered 0 s.retransmit_spans s.wire_offset
  pub splits :
      (w : ℕ)
      → acked ≤ w
      → w ≤ s.wire_offset
      → w ≡ normal_before log w + (s.acked_retransmit + resent_before s.retransmit_spans w)

pub advance_normal-IsLedger :
    (log : List Sent) (acked k : ℕ) (s : Ledger)
    → IsLedger log acked s
    → IsLedger (normal k ∷ log) acked (advance_normal s k)
unfolding advance_normal total normal_before
advance_normal-IsLedger log acked k s v = record {
  wire = omega (arith, v.wire);
  sent = omega (arith, v.wire, v.sent, normal_before-total log (total log + k) (omega arith));
  seen = omega (arith, v.seen);
  ordered =
      IsOrdered-raise 0 s.wire_offset (s.wire_offset + k) s.retransmit_spans v.ordered
        (omega arith);
  splits = λ w le le'. ground (
    arith,
    v.wire,
    v.seen,
    v.splits w,
    v.splits s.wire_offset,
    normal_before-total log w,
    resent_all 0 w s.wire_offset s.retransmit_spans v.ordered,
  );
}

pub record_retransmit-IsLedger :
    (log : List Sent) (acked k : ℕ) (s : Ledger)
    → IsLedger log acked s
    → IsLedger (again k ∷ log) acked (record_retransmit s k)
unfolding record_retransmit total normal_before
record_retransmit-IsLedger log acked k s v = record {
  wire = omega (arith, v.wire);
  sent = omega (arith, v.wire, v.sent, normal_before-total log (total log + k) (omega arith));
  seen = omega (arith, v.seen);
  ordered = IsOrdered-append 0 s.wire_offset k s.retransmit_spans v.ordered;
  splits = λ w le le'. ground (
    arith,
    v.wire,
    v.seen,
    v.splits w,
    v.splits s.wire_offset,
    normal_before-total log w,
    resent_before-append s.retransmit_spans
        (record { from = s.wire_offset; to = s.wire_offset + k }) w,
    resent_all 0 w s.wire_offset s.retransmit_spans v.ordered,
  );
}

pub apply_ack-IsLedger :
    (log : List Sent) (acked w : ℕ) (s : Ledger)
    → IsLedger log acked s
    → acked ≤ w
    → w ≤ s.wire_offset
    → IsLedger log w (apply_ack s w)
unfolding apply_ack
apply_ack-IsLedger log acked w s v le le' = record {
  wire = v.wire;
  sent = v.sent;
  seen = le';
  ordered = ack_loop-IsOrdered 0 w s.wire_offset s.retransmit_spans v.ordered;
  splits = λ u ge lt. omega (
    arith,
    v.splits u (omega arith) lt,
    ack_loop_lem 0 w u s.wire_offset s.retransmit_spans v.ordered ge,
  );
}
