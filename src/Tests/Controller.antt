-- ===== src/Tests/Controller.antt =====
-- The theorems on the controller, at concrete inputs.
use statgate.Prelude.{
  ℤ, pos, negsuc, true, false, [], ◌∷◌, inl, inr, ◌≡◌, ◌≢◌, refl, ◌+◌, ◌≤◌, arith, ◌*ℤ◌, wrap64,
}
use statgate.Api.{CanaryRollout, SprtMetricState, pending, running, paused, promoted, aborted}
use statgate.Actions.{not_found, panic, ok, perform, attempt, pure, ◌>>=◌}
use statgate.Effects.{
  Env, get_rollout, now, write_status, set, fetch_rollout, update_status, set_gauge, read_clock,
  canary_weight, rollout_phase,
}
use statgate.Metrics.{
  record_rollout_phase, record_canary_weight, phase_code, record_sprt_boundaries,
  record_sprt_metric_state, reset_sprt_metric_series,
}
use statgate.Metrics.Labels.{HasPublished, recordings-HasPublished}
use statgate.Actions.Rules.{Outcome}
use statgate.Actions.Count.{total}
use statgate.Reconciler.{reconcile, requeue, set_status, is_promoted, seconds}
use statgate.Reconciler.Transition.{Allowed}
use statgate.Reconciler.Cycle.{
  reconcile-Allowed, reconcile_no_panic, reconcile_terminal, reconcile_unread,
}
use statgate.Reconciler.Safety.{IsWellFormed}
use statgate.Reconciler.Runs.{edited, Stores, Run, here, cycle, edit, Run-IsWellFormed, Run-aborted}
use statgate.Reconciler.Unasked.{Run-IsUnasked}
use statgate.Reconciler.Waits.{Waited, reconcile-Waited}
use statgate.Reconciler.Updates.{is_status_update, reconcile-one_update}
use statgate.Tests.Sample.{Object, objects, integer_floats}
use statgate.Tests.Cluster.{demo_rollout, demo_key, demo_env}

abbrev at_first_step : CanaryRollout ℤ
at_first_step = demo_rollout "http://prometheus" running (pos 0) (pos 5) []

abbrev demo_state : SprtMetricState ℤ
demo_state = record {
  name = "error-rate";
  log_likelihood = pos 2;
  observations = pos 120;
  failures = pos 3;
  baseline_rate = pos 0;
  last_canary_total = pos 120;
  last_canary_failure = pos 3;
  decision = pending;
}

at_first_step-IsWellFormed : IsWellFormed at_first_step
at_first_step-IsWellFormed = omega arith

reconcile-Allowed_example :
    Outcome
      (Allowed {V = Object} (demo_env at_first_step (pos 7) (pos 3)) (λ _. Unit {0}) at_first_step)
      (Unit {0})
      (λ _. Unit {0})
      []
      (reconcile (demo_env at_first_step (pos 7) (pos 3)) demo_key [])
reconcile-Allowed_example =
    reconcile-Allowed (demo_env at_first_step (pos 7) (pos 3)) demo_key [] (λ _. Unit {0}) (λ h. tt)
      at_first_step refl

reconcile-Waited_example :
    Outcome
      (Waited {V = Object} (pos 7) at_first_step)
      (Unit {0})
      (λ _. Unit {0})
      []
      (reconcile (demo_env at_first_step (pos 7) (pos 3)) demo_key [])
reconcile-Waited_example =
    reconcile-Waited (demo_env at_first_step (pos 7) (pos 3)) demo_key [] (pos 7) at_first_step
      (λ h. omega arith) refl

reconcile_no_panic_example :
    (reconcile (demo_env at_first_step (pos 7) (pos 3)) demo_key []).0 ≢ panic
reconcile_no_panic_example =
    reconcile_no_panic (demo_env at_first_step (pos 7) (pos 3)) demo_key [] at_first_step refl
      at_first_step-IsWellFormed (λ h k d e. cc)

reconcile-one_update_example :
    total is_status_update (reconcile (demo_env at_first_step (pos 7) (pos 3)) demo_key []).1
    ≤ 1 + 0
reconcile-one_update_example =
    reconcile-one_update (demo_env at_first_step (pos 7) (pos 3)) demo_key []

abbrev done : CanaryRollout ℤ
done = demo_rollout "http://prometheus" promoted (pos 3) (pos 100) []

leaves_alone :
    reconcile (demo_env done (pos 7) (pos 3)) demo_key []
    ≡ (ok (requeue (pos 0)), get_rollout demo_key ∷ [])
leaves_alone =
    reconcile_terminal (demo_env done (pos 7) (pos 3)) demo_key [] done refl (inr (refl, refl))

abbrev halted : CanaryRollout ℤ
halted = demo_rollout "" paused (pos 0) (pos 5) []

abbrev resumed : CanaryRollout ℤ
resumed = record halted {
  status = record halted.status {
    phase = running;
    last_transition_time = pos 7;
    message = "Rollout resumed";
  };
}

-- A paused rollout that is to go on: its timer starts anew, and the phase is published.
resume-Stores : Stores (demo_env halted (pos 7) (pos 3)) demo_key [] halted resumed
unfolding reconcile set_status record_rollout_phase record_canary_weight phase_code now write_status
    set perform attempt pure ◌>>=◌ fetch_rollout
resume-Stores = record {
  found = refl;
  calls =
      update_status resumed
      ∷ set_gauge canary_weight ("statgate-demo" ∷ "demo-rollout" ∷ []) (pos 5)
      ∷ set_gauge rollout_phase ("statgate-demo" ∷ "demo-rollout" ∷ []) (pos 1)
      ∷ read_clock
      ∷ get_rollout demo_key
      ∷ [];
  grown = refl;
  within = inl refl;
}

resume-Run : Run Object halted (edited resumed false true)
resume-Run =
    edit false true (cycle (demo_env halted (pos 7) (pos 3)) demo_key [] here resume-Stores)

Run-IsWellFormed_example : IsWellFormed (edited resumed false true)
Run-IsWellFormed_example =
    Run-IsWellFormed {V = Object} (edited resumed false true) (omega arith) resume-Run

abbrev rolled_back : CanaryRollout ℤ
rolled_back = demo_rollout "" aborted (pos 1) (pos 0) []

Run-aborted_example : (edited rolled_back true false).status ≡ rolled_back.status
Run-aborted_example =
    Run-aborted {V = Object} {s = rolled_back} (edited rolled_back true false) refl
      (edit true false here)

Run-IsUnasked_example :
    ((edited resumed false true).status.current_step ≡ pos 0)
    × (is_promoted (edited resumed false true).status.phase ≡ false)
unfolding seconds ◌*ℤ◌ wrap64
Run-IsUnasked_example =
    Run-IsUnasked {V = Object} (edited resumed false true)
      (record {
        configured = refl;
        no_url = refl;
        pausing = (refl, (refl, (refl, tt)));
        has_steps = refl;
        first_step = refl;
        not_promoted = refl;
        none_passed = refl;
      })
      resume-Run

-- The rollout was deleted before the cycle.
abbrev deleted_env : Env ℤ Object
deleted_env = record (demo_env done (pos 7) (pos 3)) {
  rollout_at = λ h key. inl (not_found "demo-rollout");
}

reads_nothing :
    reconcile deleted_env demo_key [] ≡ (ok (requeue (pos 0)), get_rollout demo_key ∷ [])
reads_nothing = reconcile_unread deleted_env demo_key [] (not_found "demo-rollout") refl

recordings-HasPublished_example :
    let env = demo_env at_first_step (pos 7) (pos 3) in
    let state = demo_state in
    HasPublished []
      (record_sprt_boundaries env "statgate-demo" "demo-rollout" (pos 4) (negsuc 2) [])
    × HasPublished [] (record_sprt_metric_state env "statgate-demo" "demo-rollout" state [])
    × HasPublished [] (record_canary_weight env "statgate-demo" "demo-rollout" (pos 5) [])
    × HasPublished [] (record_rollout_phase env "statgate-demo" "demo-rollout" running [])
    × HasPublished [] (reset_sprt_metric_series env "statgate-demo" "demo-rollout" "error-rate" [])
recordings-HasPublished_example =
    recordings-HasPublished (demo_env at_first_step (pos 7) (pos 3)) "statgate-demo" "demo-rollout"
      (pos 4) (negsuc 2) demo_state (pos 5) running "error-rate" []
