-- ===== src/AutoScaler/Bounds.antt =====
-- How many streams are active over a run of the scaler.
use n_backup.Prelude.{
  ℕ, ◌+◌, ◌≤◌, ◌≡◌, refl, ◌∙◌, arith, Bool, true, false, not, ◌||◌, List, [], ◌∷◌, length, Option,
  none, some, ltb, leb, ◌==◌, ◌⊎◌, inl, inr,
}
use n_backup.Dispatcher.{deactivate_stream}
use n_backup.AutoScaler.{
  next_activatable, ProbeState, idle, probing, AutoScaler, Sample, update_snapshot,
  evaluate_efficiency, start_probe, try_probe, evaluate_idle, revert_probe, evaluate_probing,
  evaluate_adaptive, evaluate, run,
}
use n_backup.AutoScaler.Streams.{
  activate_stream-active, deactivate_stream-active, active_streams-length,
}
use n_backup.AutoScaler.Steps.{
  act, IsSafe, IsStep, scale_up-IsScaled, scale_down-IsScaled, off-IsStep, if-IsStep, option-IsStep,
  moved,
}

module _ {ℓ} {R : Type ℓ} (zero_rate : R) (gains : R → R → Bool) where
  efficiency-IsStep :
      (s : Sample R) (scaler : AutoScaler R)
      → scaler.probe_state ≡ idle
      → 1 ≤ act zero_rate gains scaler
      → IsStep zero_rate gains scaler (evaluate_efficiency zero_rate gains s scaler)
  efficiency-IsStep s scaler off pos =
      let up_counted = record scaler {
        scale_down_count = 0;
        scale_up_count = scaler.scale_up_count + 1;
      } in
      let down_counted = record scaler {
        scale_up_count = 0;
        scale_down_count = scaler.scale_down_count + 1;
      } in
      let (u1, u2, u3, u4, u5, u6) = scale_up-IsScaled zero_rate gains s.activates up_counted pos in
      let (d1, d2, d3, d4, d5, d6) = scale_down-IsScaled zero_rate gains down_counted pos in
      unfold evaluate_efficiency update_snapshot in
      if-IsStep zero_rate gains scaler s.above_one
        (λ e.
          if-IsStep zero_rate gains scaler (leb scaler.hysteresis (scaler.scale_up_count + 1))
            (λ e. off-IsStep zero_rate gains scaler _ (u1 ∙ off) u3 u4 u5 u6)
            (λ e. off-IsStep zero_rate gains scaler _ off pos (omega arith) (omega arith) refl))
        (λ e.
          if-IsStep zero_rate gains scaler s.below_seven_tenths
            (λ e.
              if-IsStep zero_rate gains scaler (leb scaler.hysteresis (scaler.scale_down_count + 1))
                (λ e. off-IsStep zero_rate gains scaler _ (d1 ∙ off) d3 d4 d5 d6)
                (λ e. off-IsStep zero_rate gains scaler _ off pos (omega arith) (omega arith) refl))
            (λ e. off-IsStep zero_rate gains scaler _ off pos (omega arith) (omega arith) refl))

  start_probe-IsStep :
      (s : Sample R) (scaler : AutoScaler R)
      → scaler.adaptive ≡ true
      → 1 ≤ act zero_rate gains scaler
      → IsStep zero_rate gains scaler (start_probe zero_rate gains s scaler)
  start_probe-IsStep s scaler adaptive pos =
      unfold start_probe update_snapshot in
      option-IsStep zero_rate gains scaler (next_activatable 0 scaler.dispatcher.streams)
        (λ e. off-IsStep zero_rate gains scaler _ refl pos (omega arith) (omega arith) refl)
        (λ i e.
          if-IsStep zero_rate gains scaler (not s.activates)
            (λ f. off-IsStep zero_rate gains scaler _ refl pos (omega arith) (omega arith) refl)
            (λ f.
              let (more, len) = activate_stream-active scaler.dispatcher i e in
              record {
                safe = record {
                  some_active = omega (arith, more);
                  probed = λ on. omega (arith, more);
                  mode = λ e. absurd (clash scaler.adaptive adaptive e);
                };
                up = omega (arith, more);
                down = omega (arith, more);
                same = len;
              }))
    where
      clash : (b : Bool) → b ≡ true → b ≡ false → ⊥
      clash b e f = ground arith

  try_probe-IsStep :
      (s : Sample R) (scaler : AutoScaler R)
      → scaler.adaptive ≡ true
      → scaler.probe_state ≡ idle
      → 1 ≤ act zero_rate gains scaler
      → IsStep zero_rate gains scaler (try_probe zero_rate gains s scaler)
  try_probe-IsStep s scaler adaptive off pos =
      unfold try_probe update_snapshot in
      if-IsStep zero_rate gains scaler
        (ltb (act zero_rate gains scaler) (length scaler.dispatcher.streams))
        (λ e.
          if-IsStep zero_rate gains scaler (leb scaler.hysteresis (scaler.scale_up_count + 1))
            (λ e. start_probe-IsStep s scaler adaptive pos)
            (λ e. off-IsStep zero_rate gains scaler _ off pos (omega arith) (omega arith) refl))
        (λ e. off-IsStep zero_rate gains scaler _ off pos (omega arith) (omega arith) refl)

  idle-IsStep :
      (s : Sample R) (scaler : AutoScaler R)
      → scaler.adaptive ≡ true
      → scaler.probe_state ≡ idle
      → 1 ≤ act zero_rate gains scaler
      → IsStep zero_rate gains scaler (evaluate_idle zero_rate gains s scaler)
  idle-IsStep s scaler adaptive off pos =
      let counted = record scaler {
        scale_up_count = 0;
        scale_down_count = scaler.scale_down_count + 1;
      } in
      let (d1, d2, d3, d4, d5, d6) = scale_down-IsScaled zero_rate gains counted pos in
      unfold evaluate_idle update_snapshot in
      if-IsStep zero_rate gains scaler (ltb 0 scaler.probe_cooldown)
        (λ e. off-IsStep zero_rate gains scaler _ off pos (omega arith) (omega arith) refl)
        (λ e.
          if-IsStep zero_rate gains scaler s.below_half
            (λ e.
              if-IsStep zero_rate gains scaler (leb scaler.hysteresis (scaler.scale_down_count + 1))
                (λ e. off-IsStep zero_rate gains scaler _ (d1 ∙ off) d3 d4 d5 d6)
                (λ e.
                  moved zero_rate gains scaler counted _ refl
                    (try_probe-IsStep s counted adaptive off pos)))
            (λ e.
              moved zero_rate gains scaler (record scaler { scale_down_count = 0 }) _ refl
                (try_probe-IsStep s (record scaler { scale_down_count = 0 }) adaptive off pos)))

  revert-IsStep :
      (scaler : AutoScaler R)
      → 2 ≤ act zero_rate gains scaler
      → IsStep zero_rate gains scaler (revert_probe zero_rate gains scaler)
  revert-IsStep scaler two = unfold revert_probe in choose scaler.probe_stream
    where
      choose :
          (o : Option ℕ)
          → IsStep zero_rate gains scaler (record scaler {
            dispatcher = elim o [
              | none ↦ scaler.dispatcher
              | some i ↦ deactivate_stream i scaler.dispatcher
            ];
            probe_state = idle;
            probe_baseline = zero_rate;
            probe_stream = none;
            probe_cooldown = 5;
          })
      choose none =
          off-IsStep zero_rate gains scaler _ refl (omega arith) (omega arith) (omega arith) refl
      choose (some i) =
          let (le, ge, len) = deactivate_stream-active scaler.dispatcher i in
          off-IsStep zero_rate gains scaler _ refl (omega (arith, two, ge)) (omega (arith, le)) ge
            len

  probing-IsStep :
      (s : Sample R) (scaler : AutoScaler R)
      → IsSafe zero_rate gains scaler
      → scaler.probe_state ≡ probing
      → IsStep zero_rate gains scaler (evaluate_probing zero_rate gains s scaler)
  probing-IsStep s scaler v on =
      let measured = record scaler { probe_windows = scaler.probe_windows + 1 } in
      let reverted = revert-IsStep measured (v.probed on) in
      unfold evaluate_probing update_snapshot in
      if-IsStep zero_rate gains scaler (not (leb 3 (scaler.probe_windows + 1)))
        (λ e. record {
          safe = record { some_active = v.some_active; probed = v.probed; mode = v.mode };
          up = omega arith;
          down = omega arith;
          same = refl;
        })
        (λ e.
          if-IsStep zero_rate gains scaler (gains scaler.probe_baseline s.throughput)
            (λ f.
              off-IsStep zero_rate gains scaler _ refl v.some_active (omega arith) (omega arith)
                refl)
            (λ f. record {
              safe = record {
                some_active = reverted.safe.some_active;
                probed = reverted.safe.probed;
                mode = reverted.safe.mode;
              };
              up = reverted.up;
              down = reverted.down;
              same = reverted.same;
            }))

  probe_cases : (p : ProbeState) → (p ≡ idle) ⊎ (p ≡ probing)
  probe_cases idle = inl refl
  probe_cases probing = inr refl

  adaptive-IsStep :
      (s : Sample R) (scaler : AutoScaler R)
      → IsSafe zero_rate gains scaler
      → scaler.adaptive ≡ true
      → IsStep zero_rate gains scaler (evaluate_adaptive zero_rate gains s scaler)
  adaptive-IsStep s scaler v adaptive = elim (probe_cases scaler.probe_state) [
    | inl off ↦ rw (adaptive_idle s scaler off) (idle-IsStep s scaler adaptive off v.some_active)
    | inr on ↦ rw (adaptive_probing s scaler on) (probing-IsStep s scaler v on)
  ]
    where
      adaptive_idle :
          (s : Sample R) (scaler : AutoScaler R)
          → scaler.probe_state ≡ idle
          → evaluate_adaptive zero_rate gains s scaler ≡ evaluate_idle zero_rate gains s scaler
      adaptive_idle s scaler off = unfold evaluate_adaptive in ground arith

      adaptive_probing :
          (s : Sample R) (scaler : AutoScaler R)
          → scaler.probe_state ≡ probing
          → evaluate_adaptive zero_rate gains s scaler ≡ evaluate_probing zero_rate gains s scaler
      adaptive_probing s scaler on = unfold evaluate_adaptive in ground arith

  evaluate-IsStep :
      (s : Sample R) (scaler : AutoScaler R)
      → IsSafe zero_rate gains scaler
      → IsStep zero_rate gains scaler (evaluate zero_rate gains s scaler)
  evaluate-IsStep s scaler v =
      unfold evaluate update_snapshot in
      if-IsStep zero_rate gains scaler (not s.drains || (act zero_rate gains scaler == 0))
        (λ e. record {
          safe = record { some_active = v.some_active; probed = v.probed; mode = v.mode };
          up = omega arith;
          down = omega arith;
          same = refl;
        })
        (λ e.
          if-IsStep zero_rate gains scaler (not scaler.enabled)
            (λ f.
              off-IsStep zero_rate gains scaler _ refl v.some_active (omega arith) (omega arith)
                refl)
            (λ f.
              if-IsStep zero_rate gains scaler scaler.adaptive (λ g. adaptive-IsStep s scaler v g)
                (λ g. efficiency-IsStep s scaler (v.mode g) v.some_active)))

  -- In both modes, for any samples and outcomes of activations, while no stream dies on its own: when
  -- some stream is active, and at least two where a probe is on, which only the adaptive mode has, then
  -- this stays so over every number of evaluations, the number of active streams stays at most the
  -- dispatcher's, and each evaluation changes it by at most one.
  pub run-IsStep :
      (ss : List (Sample R)) (s : Sample R) (scaler : AutoScaler R)
      → IsSafe zero_rate gains scaler
      → let reached = run zero_rate gains ss scaler in
        IsSafe zero_rate gains reached
        × (act zero_rate gains reached ≤ length scaler.dispatcher.streams)
        × IsStep zero_rate gains reached (evaluate zero_rate gains s reached)
  unfolding run
  run-IsStep [] s scaler v =
      (v, active_streams-length scaler.dispatcher.streams, evaluate-IsStep s scaler v)
  run-IsStep (s' ∷ ss) s scaler v =
      let one = evaluate-IsStep s' scaler v in
      let (safe, few, next) = run-IsStep ss s (evaluate zero_rate gains s' scaler) one.safe in
      (safe, omega (arith, few, one.same), next)
