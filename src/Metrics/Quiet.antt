-- ===== src/Metrics/Quiet.antt =====
-- Publishing makes no call but those on gauges.
use statgate.Prelude.{ℕ, ℤ, String, Option, none, some, List, length, ◌==◌, ◌≡◌, true, refl}
use statgate.Float64.{Float64}
use statgate.Api.{SprtMetricState, RolloutPhase}
use statgate.Effects.{
  Env, Call, Gauge, declared_labels, set, delete, IsReading, IsAsking, asking-IsReading,
}
use statgate.Actions.Rules.{Ensures, Ensures-bind, Ensures-perform, Ensures-pure}
use statgate.Metrics.{
  record_sprt_boundaries, record_sprt_metric_state, record_canary_weight, record_rollout_phase,
  publish_code, phase_code, reset_sprt_metric_series,
}

module _ {F V : Type 0} ⦃fl : Float64 F⦄ (env : Env F V) {P : Call F V → Type 0} {K : Type 0}
    (asks : (c : Call F V) → IsAsking c → P c) where
  set-Asking :
      (g : Gauge) (labels : List String) (v : F)
      → (length labels == length (declared_labels g)) ≡ true
      → Ensures P K (λ _. Unit {0}) (set env g labels v)
  unfolding set
  set-Asking g labels v fits = rw fits (Ensures-perform _ _ (asks _ tt) (λ h a e. tt))

  pub record_sprt_boundaries-Quiet :
      (ns rollout : String) (upper lower : F)
      → Ensures P K (λ _. Unit {0}) (record_sprt_boundaries env ns rollout upper lower)
  unfolding record_sprt_boundaries
  record_sprt_boundaries-Quiet ns rollout upper lower =
      Ensures-bind _ _ (set-Asking _ _ _ refl) λ _ _. set-Asking _ _ _ refl

  pub record_sprt_metric_state-Quiet :
      (ns rollout : String) (s : SprtMetricState F)
      → Ensures P K (λ _. Unit {0}) (record_sprt_metric_state env ns rollout s)
  unfolding record_sprt_metric_state
  record_sprt_metric_state-Quiet ns rollout s =
      Ensures-bind _ _ (set-Asking _ _ _ refl)
        λ _ _. Ensures-bind _ _ (set-Asking _ _ _ refl) λ _ _. set-Asking _ _ _ refl

module _ {F V : Type 0} ⦃fl : Float64 F⦄ (env : Env F V) {P : Call F V → Type 0} {K : Type 0}
    (reads : (c : Call F V) → IsReading c → P c) where
  set-Quiet :
      (g : Gauge) (labels : List String) (v : F)
      → (length labels == length (declared_labels g)) ≡ true
      → Ensures P K (λ _. Unit {0}) (set env g labels v)
  set-Quiet g labels v fits = set-Asking env (λ c p. reads c (asking-IsReading c p)) g labels v fits

  delete-Quiet :
      (g : Gauge) (labels : List String) → Ensures P K (λ _. Unit {0}) (delete env g labels)
  unfolding delete
  delete-Quiet g labels = Ensures-perform _ _ (reads _ tt) (λ h a e. tt)

  pub record_canary_weight-Quiet :
      (ns rollout : String) (w : ℤ)
      → Ensures P K (λ _. Unit {0}) (record_canary_weight env ns rollout w)
  unfolding record_canary_weight
  record_canary_weight-Quiet ns rollout w = set-Quiet _ _ _ refl

  publish_code-Quiet :
      (ns rollout : String) (c : Option ℕ)
      → Ensures P K (λ _. Unit {0}) (publish_code env ns rollout c)
  unfolding publish_code
  publish_code-Quiet ns rollout none = Ensures-pure tt tt
  publish_code-Quiet ns rollout (some c) = set-Quiet _ _ _ refl

  pub record_rollout_phase-Quiet :
      (ns rollout : String) (p : RolloutPhase)
      → Ensures P K (λ _. Unit {0}) (record_rollout_phase env ns rollout p)
  unfolding record_rollout_phase
  record_rollout_phase-Quiet ns rollout p = publish_code-Quiet ns rollout (phase_code p)

  pub reset_sprt_metric_series-Quiet :
      (ns rollout name : String)
      → Ensures P K (λ _. Unit {0}) (reset_sprt_metric_series env ns rollout name)
  unfolding reset_sprt_metric_series
  reset_sprt_metric_series-Quiet ns rollout name =
      Ensures-bind _ _ (delete-Quiet _ _)
        λ _ _. Ensures-bind _ _ (delete-Quiet _ _) λ _ _. delete-Quiet _ _
