-- ===== src/Metrics.antt =====
-- internal/controller/metrics.go: what is published about a rollout.
pub mod Quiet
pub mod Labels
use statgate.Prelude.{ℕ, ℤ, pos, String, Option, none, some, List, [], ◌∷◌, ◌≡◌, ◌≢◌, refl, arith}
use statgate.Float64.{Float64}
use statgate.Api.{
  SprtMetricState, RolloutPhase, empty, pending, running, paused, promoted, aborted, failed,
  unknown,
}
use statgate.Actions.{pure, ◌>>=◌, ◌>>◌}
use statgate.Effects.{
  Env, M, set, delete, sprt_log_likelihood, sprt_boundary_a, sprt_boundary_b, sprt_observations,
  sprt_failures, canary_weight, rollout_phase,
}

-- `none` where the second result of the Go function is false.
unfoldable pub phase_code : RolloutPhase → Option ℕ
phase_code pending = some 0
phase_code running = some 1
phase_code paused = some 2
phase_code promoted = some 3
phase_code aborted = some 4
phase_code failed = some 5
phase_code _ = none

module _ {F V : Type 0} ⦃fl : Float64 F⦄ (env : Env F V) where
  open fl use {of_int}

  unfoldable pub record_sprt_boundaries : String → String → F → F → M F V (Unit {0})
  record_sprt_boundaries ns rollout upper lower = do
    set env sprt_boundary_a (ns ∷ rollout ∷ []) upper
    set env sprt_boundary_b (ns ∷ rollout ∷ []) lower

  unfoldable pub record_sprt_metric_state : String → String → SprtMetricState F → M F V (Unit {0})
  record_sprt_metric_state ns rollout state = do
    set env sprt_log_likelihood (ns ∷ rollout ∷ state.name ∷ []) state.log_likelihood
    set env sprt_observations (ns ∷ rollout ∷ state.name ∷ []) (of_int state.observations)
    set env sprt_failures (ns ∷ rollout ∷ state.name ∷ []) (of_int state.failures)

  unfoldable pub record_canary_weight : String → String → ℤ → M F V (Unit {0})
  record_canary_weight ns rollout weight = set env canary_weight (ns ∷ rollout ∷ []) (of_int weight)

  publish_code : String → String → Option ℕ → M F V (Unit {0})
  publish_code ns rollout none = pure tt
  publish_code ns rollout (some code) =
      set env rollout_phase (ns ∷ rollout ∷ []) (of_int (pos code))

  unfoldable pub record_rollout_phase : String → String → RolloutPhase → M F V (Unit {0})
  unfolding publish_code
  record_rollout_phase ns rollout phase = publish_code ns rollout (phase_code phase)

  unfoldable pub reset_sprt_metric_series : String → String → String → M F V (Unit {0})
  reset_sprt_metric_series ns rollout metric_name = do
    delete env sprt_log_likelihood (ns ∷ rollout ∷ metric_name ∷ [])
    delete env sprt_observations (ns ∷ rollout ∷ metric_name ∷ [])
    delete env sprt_failures (ns ∷ rollout ∷ metric_name ∷ [])
