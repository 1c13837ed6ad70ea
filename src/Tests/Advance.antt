-- ===== src/Tests/Advance.antt =====
-- The cycles at the end of a step of the demo rollout, at time 70 s.
use statgate.Prelude.{
  Bool, none, ℤ, pos, arith, ◌+ℤ◌, ◌-ℤ◌, ◌*ℤ◌, wrap32, wrap64, saturate64, [], ◌∷◌, ◌≡◌, refl,
}
use statgate.Api.{CanaryStep, CanaryRollout, SprtMetricState, promote, running}
use statgate.Actions.{Result, perform, pure, wrapping, ◌>>=◌}
use statgate.Effects.{
  Env, History, get_rollout, update_status, set_gauge, delete_gauge, read_clock, canary_weight,
  rollout_phase, sprt_log_likelihood, sprt_observations, sprt_failures, fetch_deployment,
  fetch_pods,
}
use statgate.Reconciler.{is_canary_ready, reconcile, since, seconds}
use statgate.Reconciler.Progress.{moved_on}
use statgate.Reconciler.Advance.{
  unaddressed, unconfigured, IsAtWeight, completed, reconcile_advances, reconcile_completes,
}
use statgate.Tests.Sample.{Object, objects, integer_floats}
use statgate.Tests.Cluster.{demo_rollout, demo_env, demo_key}

-- Its one metric is promoted, and there is no Prometheus to ask now.
abbrev promoted_state : SprtMetricState ℤ
promoted_state = record {
  name = "error-rate";
  log_likelihood = pos 0;
  observations = pos 9;
  failures = pos 0;
  baseline_rate = pos 0;
  last_canary_total = pos 9;
  last_canary_failure = pos 0;
  decision = promote;
}

abbrev first : CanaryRollout ℤ
first = demo_rollout "" running (pos 0) (pos 5) (promoted_state ∷ [])

abbrev first_step : CanaryStep
first_step = record { weight = pos 5; pause_seconds = pos 60 }

abbrev first_env : Env ℤ Object
first_env = demo_env first (pos 70000000000) (pos 3)

abbrev first_ready : Result Bool × History ℤ Object
first_ready = is_canary_ready first_env "statgate-demo" "demo-canary" (get_rollout demo_key ∷ [])

first-IsAtWeight : IsAtWeight first_env demo_key [] first first_step first_ready.1
unfolding is_canary_ready fetch_deployment fetch_pods perform pure wrapping ◌>>=◌
first-IsAtWeight = record {
  found = refl;
  on = refl;
  no_abort = refl;
  no_pause = refl;
  within = refl;
  at = refl;
  weighed = refl;
  ready = refl;
}

reconcile_advances_example :
    (reconcile first_env demo_key []).1
    ≡ update_status (moved_on first_env first (pos 70000000000))
      ∷ set_gauge canary_weight ("statgate-demo" ∷ "demo-rollout" ∷ []) (pos 5)
      ∷ set_gauge rollout_phase ("statgate-demo" ∷ "demo-rollout" ∷ []) (pos 1)
      ∷ read_clock
      ∷ delete_gauge sprt_failures ("statgate-demo" ∷ "demo-rollout" ∷ "error-rate" ∷ [])
      ∷ delete_gauge sprt_observations ("statgate-demo" ∷ "demo-rollout" ∷ "error-rate" ∷ [])
      ∷ delete_gauge sprt_log_likelihood ("statgate-demo" ∷ "demo-rollout" ∷ "error-rate" ∷ [])
      ∷ read_clock
      ∷ first_ready.1
unfolding since seconds saturate64 ◌*ℤ◌ ◌-ℤ◌ wrap64 wrap32 ◌+ℤ◌
reconcile_advances_example =
    reconcile_advances first_env demo_key [] first first_step first_ready.1 first-IsAtWeight first
      (read_clock ∷ first_ready.1) (unaddressed refl) refl (λ p c. refl) refl

-- The last step, of a rollout without an analysis.
abbrev last : CanaryRollout ℤ
last =
    let r = demo_rollout "" running (pos 2) (pos 50) [] in
    record r { spec = record r.spec { analysis = none } }

abbrev last_step : CanaryStep
last_step = record { weight = pos 50; pause_seconds = pos 60 }

abbrev last_env : Env ℤ Object
last_env = demo_env last (pos 70000000000) (pos 3)

abbrev last_ready : Result Bool × History ℤ Object
last_ready = is_canary_ready last_env "statgate-demo" "demo-canary" (get_rollout demo_key ∷ [])

last-IsAtWeight : IsAtWeight last_env demo_key [] last last_step last_ready.1
unfolding is_canary_ready fetch_deployment fetch_pods perform pure wrapping ◌>>=◌
last-IsAtWeight = record {
  found = refl;
  on = refl;
  no_abort = refl;
  no_pause = refl;
  within = refl;
  at = refl;
  weighed = refl;
  ready = refl;
}

reconcile_completes_example :
    (reconcile last_env demo_key []).1
    ≡ update_status (completed last_env last (pos 70000000000))
      ∷ set_gauge canary_weight ("statgate-demo" ∷ "demo-rollout" ∷ []) (pos 100)
      ∷ set_gauge rollout_phase ("statgate-demo" ∷ "demo-rollout" ∷ []) (pos 3)
      ∷ read_clock
      ∷ read_clock
      ∷ last_ready.1
unfolding since seconds saturate64 ◌*ℤ◌ ◌-ℤ◌ wrap64 wrap32 ◌+ℤ◌
reconcile_completes_example =
    reconcile_completes last_env demo_key [] last last_step last_ready.1 last-IsAtWeight last
      (read_clock ∷ last_ready.1) (unconfigured refl) refl (λ p c. absurd (ground arith)) refl
