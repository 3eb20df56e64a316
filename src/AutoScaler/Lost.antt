-- ===== src/AutoScaler/Lost.antt =====
-- A probe whose stream is the last one that is left.
use n_backup.Prelude.{
  ℕ, ◌≤◌, ◌≡◌, ap, ◌∙◌, arith, Bool, true, false, List, [], ◌∷◌, get_elem?, some,
}
use n_backup.Dispatcher.{Stream, deactivate_stream}
use n_backup.AutoScaler.{
  active_streams, probing, AutoScaler, Sample, update_snapshot, revert_probe, evaluate_probing,
  evaluate_adaptive, evaluate, run,
}
use n_backup.AutoScaler.Streams.{deactivate_stream-one}

module _ {ℓ} {R : Type ℓ} (zero_rate : R) (gains : R → R → Bool) where
  reverted :
      (s : Sample R) (scaler : AutoScaler R) (i : ℕ)
      → scaler.enabled ≡ true
      → scaler.adaptive ≡ true
      → scaler.probe_state ≡ probing
      → scaler.probe_stream ≡ some i
      → 2 ≤ scaler.probe_windows
      → active_streams scaler.dispatcher.streams ≡ 1
      → s.drains ≡ true
      → gains scaler.probe_baseline s.throughput ≡ false
      → (evaluate zero_rate gains s scaler).dispatcher ≡ deactivate_stream i scaler.dispatcher
  unfolding evaluate evaluate_adaptive evaluate_probing revert_probe update_snapshot
  reverted s scaler i enabled adaptive on probe windows one drains loss = ground arith

  stuck :
      (s : Sample R) (scaler : AutoScaler R)
      → active_streams scaler.dispatcher.streams ≡ 0
      → (evaluate zero_rate gains s scaler).dispatcher ≡ scaler.dispatcher
  unfolding evaluate update_snapshot
  stuck s scaler none_active = ground arith

  stuck_run :
      (ss : List (Sample R)) (scaler : AutoScaler R)
      → active_streams scaler.dispatcher.streams ≡ 0
      → active_streams (run zero_rate gains ss scaler).dispatcher.streams ≡ 0
  unfolding run
  stuck_run [] scaler e = e
  stuck_run (s ∷ ss) scaler e =
      stuck_run ss (evaluate zero_rate gains s scaler)
        (ap (λ d. active_streams d.streams) (stuck s scaler e) ∙ e)

  -- The scaler is enabled and in the adaptive mode, data drain, and a probe ends at this evaluation
  -- without the gain that it needs, while its stream is the only active one, as when the others have
  -- died meanwhile. Then no stream is active after this evaluation and any number of later ones: the
  -- scaler deactivates the last stream, and activates none again.
  pub run-probe_lost :
      (ss : List (Sample R)) (s : Sample R) (scaler : AutoScaler R) (i : ℕ) (stream : Stream)
      → scaler.enabled ≡ true
      → scaler.adaptive ≡ true
      → scaler.probe_state ≡ probing
      → scaler.probe_stream ≡ some i
      → 2 ≤ scaler.probe_windows
      → active_streams scaler.dispatcher.streams ≡ 1
      → get_elem? scaler.dispatcher.streams i ≡ some stream
      → stream.active ≡ true
      → s.drains ≡ true
      → gains scaler.probe_baseline s.throughput ≡ false
      → active_streams (run zero_rate gains (s ∷ ss) scaler).dispatcher.streams ≡ 0
  unfolding run
  run-probe_lost ss s scaler i stream enabled adaptive on probe windows one found live drains loss =
      stuck_run ss (evaluate zero_rate gains s scaler) (
        ap (λ d. active_streams d.streams)
          (reverted s scaler i enabled adaptive on probe windows one drains loss)
        ∙ omega (arith, deactivate_stream-one scaler.dispatcher i stream found live, one))
