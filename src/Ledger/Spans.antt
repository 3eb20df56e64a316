-- ===== src/Ledger/Spans.antt =====
-- What the loops over the spans compute: the retransmitted bytes before a wire offset.
use n_backup.Prelude.{
  ℕ, ◌+◌, ◌-◌, ◌≤◌, ◌≡◌, refl, arith, min, List, [], ◌∷◌, ◌++◌, ltb, leb, inl, inr, Bool-cases,
}
use n_backup.Ledger.{Span, translate_loop, ack_loop, resume_loop}

-- The bytes of the spans before `w`.
unfoldable pub resent_before : List Span → ℕ → ℕ
resent_before [] w = 0
resent_before (span ∷ spans) w = (min w span.to - span.from) + resent_before spans w

-- Each span starts where the one before it ended or later, from `low` on, and ends by `high`.
unfoldable pub IsOrdered : ℕ → List Span → ℕ → Type 0
IsOrdered low [] high = low ≤ high
IsOrdered low (span ∷ spans) high =
    (low ≤ span.from) × (span.from ≤ span.to) × IsOrdered span.to spans high

resent_none :
    (low w high : ℕ) (spans : List Span)
    → IsOrdered low spans high
    → w ≤ low
    → resent_before spans w ≡ 0
unfolding resent_before IsOrdered
resent_none low w high [] o le = refl
resent_none low w high (span ∷ spans) (a, b, o) le =
    ground (arith, resent_none span.to w high spans o)

pub resent_all :
    (low w high : ℕ) (spans : List Span)
    → IsOrdered low spans high
    → high ≤ w
    → resent_before spans w ≡ resent_before spans high
unfolding resent_before IsOrdered
resent_all low w high [] o le = refl
resent_all low w high (span ∷ spans) (a, b, o) le =
    ground (arith, resent_all span.to w high spans o, IsOrdered-le span.to high spans o)
  where
    IsOrdered-le : (low high : ℕ) (spans : List Span) → IsOrdered low spans high → low ≤ high
    IsOrdered-le low high [] o = o
    IsOrdered-le low high (span ∷ spans) (a, b, o) =
        omega (arith, IsOrdered-le span.to high spans o)

pub translate_loop_lem :
    (low w high base : ℕ) (spans : List Span)
    → IsOrdered low spans high
    → translate_loop spans w base ≡ base - resent_before spans w
unfolding translate_loop resent_before IsOrdered
translate_loop_lem low w high base [] o = omega arith
translate_loop_lem low w high base (span ∷ spans) (a, b, o) = ground (
  arith,
  translate_loop_lem span.to w high (base - (min w span.to - span.from)) spans o,
  translate_loop_lem span.to w high base spans o,
  resent_none span.to w high spans o,
)

pub resume_loop_lem :
    (low w high : ℕ) (spans : List Span)
    → IsOrdered low spans high
    → resume_loop spans w ≡ resent_before spans w
unfolding resume_loop resent_before IsOrdered
resume_loop_lem low w high [] o = refl
resume_loop_lem low w high (span ∷ spans) (a, b, o) =
    ground (arith, resume_loop_lem span.to w high spans o)

-- What an acknowledgement of `w` takes out of the spans, it adds to the counter.
pub ack_loop_lem :
    (low w v high : ℕ) (spans : List Span)
    → IsOrdered low spans high
    → w ≤ v
    → (ack_loop spans w).0 + resent_before (ack_loop spans w).1 v ≡ resent_before spans v
unfolding ack_loop resent_before IsOrdered
ack_loop_lem low w v high [] o le = refl
ack_loop_lem low w v high (span ∷ spans) (a, b, o) le =
    ground (arith, ack_loop_lem span.to w v high spans o)

weaken :
    (low low' high : ℕ) (spans : List Span)
    → low ≤ low'
    → IsOrdered low' spans high
    → IsOrdered low spans high
unfolding IsOrdered
weaken low low' high [] le o = omega (arith, o)
weaken low low' high (span ∷ spans) le (a, b, o) = (omega arith, b, o)

pub ack_loop-IsOrdered :
    (low w high : ℕ) (spans : List Span)
    → IsOrdered low spans high
    → IsOrdered low (ack_loop spans w).1 high
unfolding ack_loop IsOrdered
ack_loop-IsOrdered low w high [] o = o
ack_loop-IsOrdered low w high (span ∷ spans) (a, b, o) =
    let rest = ack_loop-IsOrdered span.to w high spans o in
    elim (Bool-cases (leb span.to w)) [
      | inl gone ↦ rw gone (weaken low span.to high (ack_loop spans w).1 (omega arith) rest)
      | inr more ↦ elim (Bool-cases (ltb span.from w)) [
        | inl cut ↦ rw (more, cut) (ground arith, ground arith, rest)
        | inr whole ↦ rw (more, whole) (a, b, rest)
      ]
    ]

pub IsOrdered-raise :
    (low high high' : ℕ) (spans : List Span)
    → IsOrdered low spans high
    → high ≤ high'
    → IsOrdered low spans high'
unfolding IsOrdered
IsOrdered-raise low high high' [] o le = omega (arith, o)
IsOrdered-raise low high high' (span ∷ spans) (a, b, o) le =
    (a, b, IsOrdered-raise span.to high high' spans o le)

-- A span at the end.
pub IsOrdered-append :
    (low high k : ℕ) (spans : List Span)
    → IsOrdered low spans high
    → IsOrdered low (spans ++ (record { from = high; to = high + k } ∷ [])) (high + k)
unfolding IsOrdered
IsOrdered-append low high k [] o = (o, omega arith, omega arith)
IsOrdered-append low high k (span ∷ spans) (a, b, o) =
    (a, b, IsOrdered-append span.to high k spans o)

pub resent_before-append :
    (spans : List Span) (span : Span) (w : ℕ)
    → resent_before (spans ++ (span ∷ [])) w ≡ resent_before spans w + (min w span.to - span.from)
unfolding resent_before
resent_before-append [] span w = omega arith
resent_before-append (s ∷ spans) span w = omega (arith, resent_before-append spans span w)
