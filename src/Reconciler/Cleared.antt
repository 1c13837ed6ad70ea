-- ===== src/Reconciler/Cleared.antt =====
-- What an advance does to the gauges of the metrics.
use statgate.Prelude.{none, some, Option, List, [], ◌∷◌, ◌≡◌, refl}
use statgate.Float64.{Float64}
use statgate.Api.{SprtMetric, SprtAnalysis, CanaryRollout}
use statgate.Actions.{ok, perform, pure, ◌>>=◌}
use statgate.Effects.{
  Env, History, delete_gauge, sprt_log_likelihood, sprt_observations, sprt_failures, delete,
}
use statgate.Metrics.{reset_sprt_metric_series}
use statgate.VirtualService.{Unstructured}
use statgate.Reconciler.{reset_series, reset_analysis}

abbrev pub metrics_of : {F : Type 0} → Option (SprtAnalysis F) → List (SprtMetric F)
metrics_of none = []
metrics_of (some a) = a.metrics

module _ {F V : Type 0} where
  -- After the series of each metric are deleted.
  abbrev pub unpublished : CanaryRollout F → List (SprtMetric F) → History F V → History F V
  unpublished r [] h = h
  unpublished r (m ∷ ms) h = unpublished r ms (
      delete_gauge sprt_failures (r.namespace ∷ r.name ∷ m.name ∷ [])
      ∷ delete_gauge sprt_observations (r.namespace ∷ r.name ∷ m.name ∷ [])
      ∷ delete_gauge sprt_log_likelihood (r.namespace ∷ r.name ∷ m.name ∷ [])
      ∷ h)

module _ {F V : Type 0} ⦃fl : Float64 F⦄ ⦃u : Unstructured V⦄ (env : Env F V) where
  reset_series-unpublished :
      (r : CanaryRollout F) (ms : List (SprtMetric F)) (h : History F V)
      → reset_series env r ms h ≡ (ok tt, unpublished r ms h)
  unfolding reset_series reset_sprt_metric_series delete perform pure ◌>>=◌
  reset_series-unpublished r [] h = refl
  reset_series-unpublished r (m ∷ ms) h = reset_series-unpublished r ms _

  pub reset_analysis-unpublished :
      (r : CanaryRollout F) (a : Option (SprtAnalysis F)) (h : History F V)
      → reset_analysis env r a h ≡ (ok tt, unpublished r (metrics_of a) h)
  unfolding reset_analysis pure
  reset_analysis-unpublished r none h = refl
  reset_analysis-unpublished r (some a) h = reset_series-unpublished r a.metrics h
