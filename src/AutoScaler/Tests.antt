-- ===== src/AutoScaler/Tests.antt =====
-- A dispatcher of three streams in the adaptive mode, with rates as numbers.
use n_backup.Prelude.{ℕ, ◌≤◌, ◌≡◌, refl, arith, Bool, true, false, List, [], ◌∷◌, some, none, ltb}
use n_backup.Dispatcher.{Stream, set_stream, activate_stream}
use n_backup.AutoScaler.{
  active_streams, next_activatable, idle, probing, stable, AutoScaler, Sample, new_auto_scaler,
  update_snapshot, start_probe, try_probe, evaluate_idle, evaluate_adaptive, evaluate, run,
}
use n_backup.AutoScaler.Steps.{IsSafe, IsStep}
use n_backup.AutoScaler.Bounds.{run-IsStep}
use n_backup.AutoScaler.Lost.{run-probe_lost}

abbrev gains : ℕ → ℕ → Bool
gains baseline now = ltb baseline now

abbrev stream_of : ℕ → Bool → Bool → Stream
stream_of i on dead = record { index = i; active = on; dead = dead; written = []; room = none }

abbrev scaler_of : List Stream → AutoScaler ℕ
scaler_of streams = record {
  dispatcher = record {
    chunk_size = 4;
    pending = [];
    global_seq = 0;
    next_stream = 0;
    streams = streams;
    chunk_map = [];
  };
  adaptive = true;
  enabled = true;
  hysteresis = 1;
  scale_up_count = 0;
  scale_down_count = 0;
  probe_state = idle;
  probe_baseline = 0;
  probe_stream = none;
  probe_windows = 0;
  probe_cooldown = 0;
  snapshot_active = 0;
  snapshot_state = stable;
  snapshot_probe = false;
}

abbrev sample : Sample ℕ
sample = record {
  drains = true;
  above_one = true;
  below_seven_tenths = false;
  below_half = false;
  throughput = 10;
  activates = true;
}

abbrev fresh : AutoScaler ℕ
fresh = scaler_of (stream_of 0 true false ∷ stream_of 1 false false ∷ stream_of 2 false false ∷ [])

-- The adaptive mode with a hysteresis of 1, enabled by default.
fresh_lem : new_auto_scaler 0 gains fresh.dispatcher true 1 none ≡ fresh
unfolding new_auto_scaler
fresh_lem = refl

-- A probe activates stream 1.
probe_lem : active_streams (run 0 gains (sample ∷ []) fresh).dispatcher.streams ≡ 2
unfolding run evaluate evaluate_adaptive evaluate_idle try_probe start_probe update_snapshot
    active_streams next_activatable activate_stream set_stream
probe_lem = refl

fresh-IsSafe : IsSafe 0 gains fresh
unfolding active_streams
fresh-IsSafe = record {
  some_active = omega arith;
  probed = λ e. absurd (ground arith);
  mode = λ e. absurd (ground arith);
}

run-IsStep_example :
    let reached = run 0 gains (sample ∷ sample ∷ []) fresh in
    IsSafe 0 gains reached
    × (active_streams reached.dispatcher.streams ≤ 3)
    × IsStep 0 gains reached (evaluate 0 gains sample reached)
run-IsStep_example = run-IsStep 0 gains (sample ∷ sample ∷ []) sample fresh fresh-IsSafe

-- The first stream died during the probe of the second one.
abbrev lone : AutoScaler ℕ
lone = record (scaler_of (stream_of 0 false true ∷ stream_of 1 true false ∷ [])) {
  probe_state = probing;
  probe_baseline = 20;
  probe_stream = some 1;
  probe_windows = 2;
}

lone_lem : active_streams lone.dispatcher.streams ≡ 1
unfolding active_streams
lone_lem = refl

run-probe_lost_example :
    active_streams (run 0 gains (sample ∷ sample ∷ []) lone).dispatcher.streams ≡ 0
run-probe_lost_example =
    run-probe_lost 0 gains (sample ∷ []) sample lone 1 (stream_of 1 true false) refl refl refl refl
      (omega arith) lone_lem refl refl refl refl
