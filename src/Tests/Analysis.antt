-- ===== src/Tests/Analysis.antt =====
-- The theorems on the analysis and on the ends of a rollout, at concrete inputs.
use statgate.Prelude.{ℤ, pos, [], ◌∷◌, ◌≡◌, refl, inl, inr}
use statgate.Api.{CanaryRollout, SprtMetricState, running, pending}
use statgate.Actions.{wrap, failure, err, perform, wrapping, ◌>>=◌}
use statgate.Effects.{
  Env, History, set_gauge, read_clock, update_status, canary_weight, rollout_phase,
  get_virtual_service, fetch_virtual_service,
}
use statgate.Analyzer.{Report, Bounds, roll_back}
use statgate.Reconciler.{after_analysis, set_weights}
use statgate.VirtualService.{set_virtual_service_weights}
use statgate.Reconciler.Ends.{rolled_back, after_analysis_unpatched}
use statgate.Tests.Sample.{Object, objects, integer_floats}
use statgate.Tests.Cluster.{demo_rollout, demo_env}

abbrev last : CanaryRollout ℤ
last = demo_rollout "http://prometheus" running (pos 2) (pos 50) []

abbrev env : Env ℤ Object
env = demo_env last (pos 7) (pos 3)

abbrev fresh : SprtMetricState ℤ
fresh = record {
  name = "error-rate";
  log_likelihood = pos 0;
  observations = pos 0;
  failures = pos 0;
  baseline_rate = pos 0;
  last_canary_total = pos 0;
  last_canary_failure = pos 0;
  decision = pending;
}

abbrev bounds : Bounds ℤ
bounds = record { upper = pos 5; lower = pos 0 }

-- A cluster in which the VirtualService cannot be read.
abbrev broken_env : Env ℤ Object
broken_env = record env { virtual_service_at = λ h k. inl (failure "unavailable") }

abbrev degraded_report : Report ℤ
degraded_report = record { decision = roll_back; states = []; reason = "degraded" }

abbrev after_patch : History ℤ Object
after_patch = get_virtual_service (record { namespace = "statgate-demo"; name = "demo-vs" }) ∷ []

unpatched :
    set_weights broken_env last (pos 100) (pos 0) []
    ≡ (err (wrap "get VirtualService statgate-demo/demo-vs" (failure "unavailable")), after_patch)
unfolding set_weights set_virtual_service_weights fetch_virtual_service perform wrapping ◌>>=◌
unpatched = refl

aborts_unpatched :
    (after_analysis broken_env last
      (record { weight = pos 50; pause_seconds = pos 60 })
      (pos 7)
      (inr degraded_report)
      []).1
    ≡ update_status (rolled_back broken_env last degraded_report (pos 7))
      ∷ set_gauge canary_weight ("statgate-demo" ∷ "demo-rollout" ∷ []) (pos 0)
      ∷ set_gauge rollout_phase ("statgate-demo" ∷ "demo-rollout" ∷ []) (pos 4)
      ∷ read_clock
      ∷ after_patch
aborts_unpatched =
    after_analysis_unpatched broken_env last (record { weight = pos 50; pause_seconds = pos 60 })
      (pos 7) degraded_report [] after_patch
      (wrap "get VirtualService statgate-demo/demo-vs" (failure "unavailable")) refl unpatched
