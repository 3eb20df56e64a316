-- ===== src/AutoScaler.antt =====
-- internal/agent/autoscaler.go: how many streams of the dispatcher are active. A rate is a float64 in the
-- code; what the code asks of rates is here what a sample answers.
pub mod Streams
pub mod Steps
pub mod Bounds
pub mod Lost
mod Tests
use n_backup.Prelude.{
  ℕ, zero, suc, ◌+◌, ◌-◌, Bool, true, false, not, ◌&&◌, ◌||◌, List, [], ◌∷◌, length, Option, none,
  some, ltb, leb, ◌==◌, if◌then◌else◌,
}
use n_backup.Dispatcher.{Stream, Dispatcher, activate_stream, deactivate_stream}

-- ActiveStreams: the counter is raised and lowered with the flags.
unfoldable pub active_streams : List Stream → ℕ
active_streams [] = 0
active_streams (s ∷ ss) = (if s.active then 1 else 0) + active_streams ss

-- The loop of NextActivatableStream from an index on.
unfoldable pub next_activatable : ℕ → List Stream → Option ℕ
next_activatable i [] = none
next_activatable i (s ∷ ss) =
    let rest = next_activatable (i + 1) ss in if s.active || s.dead then rest else some i

-- The loop of LastActiveStream, of which the highest index counts.
unfoldable pub last_active : ℕ → List Stream → Option ℕ
last_active i [] = none
last_active i (s ∷ ss) = elim (last_active (i + 1) ss) [
  | some j ↦ some j
  | none ↦ if s.active then some i else none
]

-- probeIdle, probeProbing
pub data ProbeState : Type 0 where
  idle : ProbeState
  probing : ProbeState

-- What is reported: protocol.AutoScaleState*
pub data AutoScaleState : Type 0 where
  stable : AutoScaleState
  scaling_up : AutoScaleState
  scale_down_state : AutoScaleState
  probing_state : AutoScaleState

pub record AutoScaler {ℓ} (R : Type ℓ) : Type ℓ where
  pub dispatcher : Dispatcher
  pub adaptive : Bool
  pub enabled : Bool
  pub hysteresis : ℕ
  pub scale_up_count : ℕ
  pub scale_down_count : ℕ
  pub probe_state : ProbeState
  pub probe_baseline : R
  pub probe_stream : Option ℕ
  pub probe_windows : ℕ
  pub probe_cooldown : ℕ
  pub snapshot_active : ℕ
  pub snapshot_state : AutoScaleState
  pub snapshot_probe : Bool

-- SampleRates at one evaluation: whether DrainBps is above 0, the comparisons of the efficiency with
-- 1.0, 0.7 and 0.5, the total throughput, and whether ActivateStream returns nil.
pub record Sample {ℓ} (R : Type ℓ) : Type ℓ where
  pub drains : Bool
  pub above_one : Bool
  pub below_seven_tenths : Bool
  pub below_half : Bool
  pub throughput : R
  pub activates : Bool

abbrev pub probe_windows_required : ℕ
probe_windows_required = 3

abbrev pub probe_cooldown_windows : ℕ
probe_cooldown_windows = 5

abbrev pub scale_down_cooldown : ℕ
scale_down_cooldown = 3

-- `zero_rate` is 0.0; `gains` tells of a baseline and a throughput whether the gain is at least 5 %.
module _ {ℓ} {R : Type ℓ} (zero_rate : R) (gains : R → R → Bool) where
  abbrev pub active : AutoScaler R → ℕ
  active scaler = active_streams scaler.dispatcher.streams

  abbrev pub max_streams : AutoScaler R → ℕ
  max_streams scaler = length scaler.dispatcher.streams

  -- NewAutoScaler: the dispatcher, whether the mode is "adaptive", the hysteresis and the option Enabled.
  unfoldable pub new_auto_scaler : Dispatcher → Bool → ℕ → Option Bool → AutoScaler R
  new_auto_scaler dispatcher adaptive hysteresis enabled = record {
    dispatcher = dispatcher;
    adaptive = adaptive;
    enabled = elim enabled [ none ↦ true | some b ↦ b ];
    hysteresis = if hysteresis == 0 then 3 else hysteresis;
    scale_up_count = 0;
    scale_down_count = 0;
    probe_state = idle;
    probe_baseline = zero_rate;
    probe_stream = none;
    probe_windows = 0;
    probe_cooldown = 0;
    snapshot_active = 0;
    snapshot_state = stable;
    snapshot_probe = false;
  }

  -- updateSnapshot
  unfoldable pub update_snapshot : ℕ → AutoScaleState → Bool → AutoScaler R → AutoScaler R
  update_snapshot n state probe scaler = record scaler {
    snapshot_active = n;
    snapshot_state = state;
    snapshot_probe = probe;
  }

  -- scaleUp
  unfoldable pub scale_up : Bool → AutoScaler R → AutoScaler R
  scale_up ok scaler =
      if leb (max_streams scaler) (active scaler)
      then scaler
      else elim (next_activatable 0 scaler.dispatcher.streams) [
        | none ↦ scaler
        | some i ↦
            if ok
            then record scaler { dispatcher = activate_stream i scaler.dispatcher }
            else scaler
      ]

  -- scaleDown
  unfoldable pub scale_down : AutoScaler R → AutoScaler R
  scale_down scaler =
      if leb (active scaler) 1 then scaler else elim (last_active 0 scaler.dispatcher.streams) [
        | none ↦ scaler
        | some i ↦
            if i == 0
            then scaler
            else record scaler { dispatcher = deactivate_stream i scaler.dispatcher }
      ]

  -- evaluateEfficiency
  unfoldable pub evaluate_efficiency : Sample R → AutoScaler R → AutoScaler R
  evaluate_efficiency s scaler =
      if s.above_one
      then (let counted = record scaler {
        scale_down_count = 0;
        scale_up_count = scaler.scale_up_count + 1;
      } in
          let scaled = record (scale_up s.activates counted) { scale_up_count = 0 } in
          if leb scaler.hysteresis (scaler.scale_up_count + 1)
          then update_snapshot (active scaled) scaling_up false scaled
          else update_snapshot (active scaler) stable false counted)
      else if s.below_seven_tenths
      then (let counted = record scaler {
        scale_up_count = 0;
        scale_down_count = scaler.scale_down_count + 1;
      } in
          let scaled = record (scale_down counted) { scale_down_count = 0 } in
          if leb scaler.hysteresis (scaler.scale_down_count + 1)
          then update_snapshot (active scaled) scale_down_state false scaled
          else update_snapshot (active scaler) stable false counted)
      else update_snapshot (active scaler) stable false
          (record scaler { scale_up_count = 0; scale_down_count = 0 })

  -- The start of a probe.
  unfoldable pub start_probe : Sample R → AutoScaler R → AutoScaler R
  start_probe s scaler =
      let ready = record scaler { probe_windows = 0; scale_up_count = 0 } in
      let refused = record ready {
        probe_state = idle;
        probe_baseline = zero_rate;
        probe_stream = none;
      } in
      elim (next_activatable 0 scaler.dispatcher.streams) [
        | none ↦ update_snapshot (active scaler) stable false refused
        | some i ↦
            if not s.activates
            then update_snapshot (active scaler) stable false
                (record refused { probe_cooldown = probe_cooldown_windows })
            else (let probed = record ready {
              dispatcher = activate_stream i scaler.dispatcher;
              probe_baseline = s.throughput;
              probe_state = probing;
              probe_stream = some i;
            } in
                update_snapshot (active probed) probing_state true probed)
      ]

  -- evaluateAdaptive in the idle state behind its test for a scale-down.
  unfoldable pub try_probe : Sample R → AutoScaler R → AutoScaler R
  try_probe s scaler =
      if ltb (active scaler) (max_streams scaler)
      then if leb scaler.hysteresis (scaler.scale_up_count + 1)
        then start_probe s scaler
        else update_snapshot (active scaler) stable false
            (record scaler { scale_up_count = scaler.scale_up_count + 1 })
      else update_snapshot (active scaler) stable false (record scaler { scale_up_count = 0 })

  -- evaluateAdaptive in the idle state.
  unfoldable pub evaluate_idle : Sample R → AutoScaler R → AutoScaler R
  evaluate_idle s scaler =
      if ltb 0 scaler.probe_cooldown
      then update_snapshot (active scaler) stable false
          (record scaler { probe_cooldown = scaler.probe_cooldown - 1 })
      else if s.below_half
      then (let counted = record scaler {
        scale_up_count = 0;
        scale_down_count = scaler.scale_down_count + 1;
      } in
          let scaled = record (scale_down counted) {
            scale_down_count = 0;
            probe_cooldown = scale_down_cooldown;
          } in
          if leb scaler.hysteresis (scaler.scale_down_count + 1)
          then update_snapshot (active scaled) scale_down_state false scaled
          else try_probe s counted)
      else try_probe s (record scaler { scale_down_count = 0 })

  -- A probe that is given up.
  unfoldable pub revert_probe : AutoScaler R → AutoScaler R
  revert_probe scaler = record scaler {
    dispatcher = elim scaler.probe_stream [
      | none ↦ scaler.dispatcher
      | some i ↦ deactivate_stream i scaler.dispatcher
    ];
    probe_state = idle;
    probe_baseline = zero_rate;
    probe_stream = none;
    probe_cooldown = probe_cooldown_windows;
  }

  -- evaluateAdaptive in the probing state.
  unfoldable pub evaluate_probing : Sample R → AutoScaler R → AutoScaler R
  evaluate_probing s scaler =
      let measured = record scaler { probe_windows = scaler.probe_windows + 1 } in
      if not (leb probe_windows_required measured.probe_windows)
      then update_snapshot (active scaler) probing_state true measured
      else if gains scaler.probe_baseline s.throughput
      then update_snapshot (active scaler) scaling_up false
          (record measured { probe_state = idle; probe_baseline = zero_rate; probe_stream = none })
      else update_snapshot (active (revert_probe measured)) stable false (revert_probe measured)

  -- evaluateAdaptive
  unfoldable pub evaluate_adaptive : Sample R → AutoScaler R → AutoScaler R
  evaluate_adaptive s scaler = elim scaler.probe_state [
    | idle ↦ evaluate_idle s scaler
    | probing ↦ evaluate_probing s scaler
  ]

  -- evaluate
  unfoldable pub evaluate : Sample R → AutoScaler R → AutoScaler R
  evaluate s scaler =
      if not s.drains || (active scaler == 0)
      then update_snapshot (active scaler) stable false scaler
      else if not scaler.enabled
      then update_snapshot (active scaler) stable false (record scaler {
        scale_up_count = 0;
        scale_down_count = 0;
        probe_state = idle;
        probe_baseline = zero_rate;
        probe_stream = none;
        probe_windows = 0;
        probe_cooldown = 0;
      })
      else if scaler.adaptive
      then evaluate_adaptive s scaler
      else evaluate_efficiency s scaler

  -- Run: one evaluation for each tick.
  unfoldable pub run : List (Sample R) → AutoScaler R → AutoScaler R
  run [] scaler = scaler
  run (s ∷ ss) scaler = run ss (evaluate s scaler)
