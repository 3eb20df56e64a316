-- ===== src/AutoScaler/Steps.antt =====
-- What one evaluation of the scaler may do to the active streams, and how its branches do it.
use n_backup.Prelude.{
  ℕ, ◌+◌, ◌≤◌, ◌≡◌, refl, sym, ap, ◌∙◌, arith, Bool, true, false, length, Option, none, some, leb,
  ◌==◌, if◌then◌else◌, ◌⊎◌, inl, inr, Bool-cases, Option-cases,
}
use n_backup.Dispatcher.{activate_stream, deactivate_stream}
use n_backup.AutoScaler.{
  active_streams, next_activatable, last_active, idle, probing, AutoScaler, scale_up, scale_down,
}
use n_backup.AutoScaler.Streams.{activate_stream-active, deactivate_stream-active}

module _ {ℓ} {R : Type ℓ} (zero_rate : R) (gains : R → R → Bool) where
  abbrev pub act : AutoScaler R → ℕ
  act scaler = active_streams scaler.dispatcher.streams

  -- At least one stream is active, and two while a probe is on, which is in the adaptive mode only.
  pub record IsSafe (scaler : AutoScaler R) : Type 0 where
    pub some_active : 1 ≤ act scaler
    pub probed : scaler.probe_state ≡ probing → 2 ≤ act scaler
    pub mode : scaler.adaptive ≡ false → scaler.probe_state ≡ idle

  -- One more or one less, of the same streams.
  pub record IsStep (scaler next : AutoScaler R) : Type 0 where
    pub safe : IsSafe next
    pub up : act next ≤ act scaler + 1
    pub down : act scaler ≤ act next + 1
    pub same : length next.dispatcher.streams ≡ length scaler.dispatcher.streams

  scale_up_cases :
      (ok : Bool) (scaler : AutoScaler R)
      → (scale_up zero_rate gains ok scaler ≡ scaler)
        ⊎ ((i : ℕ) × (next_activatable 0 scaler.dispatcher.streams ≡ some i)
            × (scale_up zero_rate gains ok scaler
                ≡ record scaler { dispatcher = activate_stream i scaler.dispatcher }))
  scale_up_cases ok scaler =
      elim (Bool-cases (leb (length scaler.dispatcher.streams) (act scaler))) [
        | inl full ↦ inl (unfold scale_up in ground arith)
        | inr room ↦ elim (Option-cases (next_activatable 0 scaler.dispatcher.streams)) [
          | inl absent ↦ inl (unfold scale_up in ground arith)
          | inr (i, found) ↦ elim (Bool-cases ok) [
            | inl done ↦ inr (i, found, unfold scale_up in ground arith)
            | inr failed ↦ inl (unfold scale_up in ground arith)
          ]
        ]
      ]

  scale_down_cases :
      (scaler : AutoScaler R)
      → (scale_down zero_rate gains scaler ≡ scaler)
        ⊎ ((i : ℕ) × (2 ≤ act scaler)
            × (scale_down zero_rate gains scaler
                ≡ record scaler { dispatcher = deactivate_stream i scaler.dispatcher }))
  scale_down_cases scaler = elim (Bool-cases (leb (act scaler) 1)) [
    | inl few ↦ inl (unfold scale_down in ground arith)
    | inr many ↦ elim (Option-cases (last_active 0 scaler.dispatcher.streams)) [
      | inl absent ↦ inl (unfold scale_down in ground arith)
      | inr (i, found) ↦ elim (Bool-cases (i == 0)) [
        | inl first ↦ inl (unfold scale_down in ground arith)
        | inr other ↦ inr (i, ground arith, unfold scale_down in ground arith)
      ]
    ]
  ]

  -- What scaling does to a scaler whose probe is off.
  abbrev IsScaled : AutoScaler R → AutoScaler R → Type 0
  IsScaled scaler next =
      (next.probe_state ≡ scaler.probe_state)
      × (next.adaptive ≡ scaler.adaptive)
      × (1 ≤ act next)
      × (act next ≤ act scaler + 1)
      × (act scaler ≤ act next + 1)
      × (length next.dispatcher.streams ≡ length scaler.dispatcher.streams)

  pub scale_up-IsScaled :
      (ok : Bool) (scaler : AutoScaler R)
      → 1 ≤ act scaler
      → IsScaled scaler (scale_up zero_rate gains ok scaler)
  scale_up-IsScaled ok scaler pos = elim (scale_up_cases ok scaler) [
    | inl same ↦ rw same (refl, refl, pos, omega arith, omega arith, refl)
    | inr (i, found, e) ↦
        let (more, len) = activate_stream-active scaler.dispatcher i found in
        rw e (refl, refl, omega (arith, more), omega (arith, more), omega (arith, more), len)
  ]

  pub scale_down-IsScaled :
      (scaler : AutoScaler R) → 1 ≤ act scaler → IsScaled scaler (scale_down zero_rate gains scaler)
  scale_down-IsScaled scaler pos = elim (scale_down_cases scaler) [
    | inl same ↦ rw same (refl, refl, pos, omega arith, omega arith, refl)
    | inr (i, two, e) ↦
        let (le, ge, len) = deactivate_stream-active scaler.dispatcher i in
        rw e (refl, refl, omega (arith, two, ge), omega (arith, le), ge, len)
  ]

  idle≢probing : idle ≡ probing → ⊥
  idle≢probing e = ground arith

  -- A step with the probe off.
  pub off-IsStep :
      (scaler next : AutoScaler R)
      → next.probe_state ≡ idle
      → 1 ≤ act next
      → act next ≤ act scaler + 1
      → act scaler ≤ act next + 1
      → length next.dispatcher.streams ≡ length scaler.dispatcher.streams
      → IsStep scaler next
  off-IsStep scaler next off pos le ge len = record {
    safe = record {
      some_active = pos;
      probed = λ on. absurd (idle≢probing (sym off ∙ on));
      mode = λ e. off;
    };
    up = le;
    down = ge;
    same = len;
  }

  pub if-IsStep :
      (scaler : AutoScaler R) (b : Bool) {x y : AutoScaler R}
      → (b ≡ true → IsStep scaler x)
      → (b ≡ false → IsStep scaler y)
      → IsStep scaler (if b then x else y)
  if-IsStep scaler true h k = h refl
  if-IsStep scaler false h k = k refl

  pub option-IsStep :
      (scaler : AutoScaler R) (o : Option ℕ) {x : AutoScaler R} {f : ℕ → AutoScaler R}
      → (o ≡ none → IsStep scaler x)
      → ((i : ℕ) → o ≡ some i → IsStep scaler (f i))
      → IsStep scaler (elim o [ none ↦ x | some i ↦ f i ])
  option-IsStep scaler none h k = h refl
  option-IsStep scaler (some i) h k = k i refl

  -- Only the dispatcher is compared.
  pub moved :
      (scaler scaler' next : AutoScaler R)
      → scaler'.dispatcher ≡ scaler.dispatcher
      → IsStep scaler' next
      → IsStep scaler next
  moved scaler scaler' next e step = record {
    safe = step.safe;
    up = omega (arith, step.up, ap (λ d. active_streams d.streams) e);
    down = omega (arith, step.down, ap (λ d. active_streams d.streams) e);
    same = step.same ∙ ap (λ d. length d.streams) e;
  }
