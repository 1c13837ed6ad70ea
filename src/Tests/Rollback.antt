-- ===== src/Tests/Rollback.antt =====
-- The rollback of the demo rollout, where every query answers 3, so that all requests failed.
use statgate.Prelude.{inl, Bool, true, ℤ, pos, ◌+ℤ◌, ◌-ℤ◌, ◌*ℤ◌, wrap64, [], ◌∷◌, ◌≡◌, refl}
use statgate.Api.{CanaryStep, CanaryRollout, running}
use statgate.Actions.{Result, err, failure, wrap, ok, perform, pure, wrapping, lift, ◌>>=◌}
use statgate.Effects.{
  Env, History, get_rollout, update_status, set_gauge, read_clock, canary_weight, rollout_phase,
  now, set, fetch_deployment, fetch_pods, new_client, run_query, fetch_virtual_service,
  write_virtual_service,
}
use statgate.Metrics.{record_sprt_boundaries, record_sprt_metric_state}
use statgate.VirtualService.{patch, set_virtual_service_weights}
use statgate.Analyzer.{Report, roll_back, run_sprt}
use statgate.Reconciler.{is_canary_ready, set_weights, reconcile}
use statgate.Reconciler.Ends.{rolled_back}
use statgate.Reconciler.Rollback.{reconcile_rolls_back, reconcile_rolls_back_unpatched}
use statgate.Tests.Sample.{Object, objects, integer_floats}
use statgate.Tests.Cluster.{demo_analysis, demo_rollout, demo_env, demo_key}

abbrev last : CanaryRollout ℤ
last = demo_rollout "http://prometheus" running (pos 2) (pos 50) []

abbrev step : CanaryStep
step = record { weight = pos 50; pause_seconds = pos 60 }

abbrev env : Env ℤ Object
env = demo_env last (pos 7) (pos 3)

abbrev readiness : Result Bool × History ℤ Object
readiness = is_canary_ready env "statgate-demo" "demo-canary" (get_rollout demo_key ∷ [])

abbrev analysed : Result (Report ℤ) × History ℤ Object
analysed =
    run_sprt env "http://prometheus" "statgate-demo" "demo-rollout" demo_analysis []
      (read_clock ∷ readiness.1)

abbrev moved : Result (Unit {0}) × History ℤ Object
moved = set_weights env last (pos 100) (pos 0) analysed.1

abbrev report_of : Result (Report ℤ) → Report ℤ
report_of (ok report) = report
report_of _ = record { decision = roll_back; states = []; reason = "" }

is_ready : readiness.0 ≡ ok true
unfolding is_canary_ready fetch_deployment fetch_pods perform pure wrapping ◌>>=◌
is_ready = refl

finds_degraded : analysed.0 ≡ ok (report_of analysed.0)
unfolding run_sprt record_sprt_boundaries record_sprt_metric_state new_client run_query now set
    perform pure wrapping ◌>>=◌ ◌+ℤ◌ ◌-ℤ◌ ◌*ℤ◌ wrap64
finds_degraded = refl

rolls_back : (report_of analysed.0).decision ≡ roll_back
unfolding run_sprt record_sprt_boundaries record_sprt_metric_state new_client run_query now set
    perform pure wrapping ◌>>=◌ ◌+ℤ◌ ◌-ℤ◌ ◌*ℤ◌ wrap64
rolls_back = refl

moves_back : moved.0 ≡ ok tt
unfolding set_weights set_virtual_service_weights fetch_virtual_service write_virtual_service patch
    lift perform wrapping ◌>>=◌
moves_back = refl

reconcile_rolls_back_example :
    (reconcile env demo_key []).1
    ≡ update_status (rolled_back env last (report_of analysed.0) (pos 7))
      ∷ set_gauge canary_weight ("statgate-demo" ∷ "demo-rollout" ∷ []) (pos 0)
      ∷ set_gauge rollout_phase ("statgate-demo" ∷ "demo-rollout" ∷ []) (pos 4)
      ∷ read_clock
      ∷ moved.1
reconcile_rolls_back_example =
    reconcile_rolls_back env demo_key [] last step demo_analysis (report_of analysed.0) refl refl
      refl refl refl refl refl refl refl rolls_back is_ready finds_degraded moves_back

-- A cluster in which the VirtualService cannot be read.
abbrev broken_env : Env ℤ Object
broken_env = record env { virtual_service_at = λ h k. inl (failure "unavailable") }

abbrev not_moved : Result (Unit {0}) × History ℤ Object
not_moved = set_weights broken_env last (pos 100) (pos 0) analysed.1

stays : not_moved.0 ≡ err (wrap "get VirtualService statgate-demo/demo-vs" (failure "unavailable"))
unfolding set_weights set_virtual_service_weights fetch_virtual_service perform wrapping ◌>>=◌
stays = refl

reconcile_rolls_back_unpatched_example :
    (reconcile broken_env demo_key []).1
    ≡ update_status (rolled_back broken_env last (report_of analysed.0) (pos 7))
      ∷ set_gauge canary_weight ("statgate-demo" ∷ "demo-rollout" ∷ []) (pos 0)
      ∷ set_gauge rollout_phase ("statgate-demo" ∷ "demo-rollout" ∷ []) (pos 4)
      ∷ read_clock
      ∷ not_moved.1
unfolding is_canary_ready fetch_deployment fetch_pods run_sprt record_sprt_boundaries
    record_sprt_metric_state new_client run_query now set set_weights set_virtual_service_weights
    fetch_virtual_service perform pure wrapping ◌>>=◌ ◌+ℤ◌ ◌-ℤ◌ ◌*ℤ◌ wrap64
reconcile_rolls_back_unpatched_example =
    reconcile_rolls_back_unpatched broken_env demo_key [] last step demo_analysis
      (report_of analysed.0)
      (wrap "get VirtualService statgate-demo/demo-vs" (failure "unavailable")) refl refl refl refl
      refl refl refl refl refl rolls_back refl finds_degraded stays
