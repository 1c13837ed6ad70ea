-- ===== src/Analyzer/Totals/Loop.antt =====
-- The loop over the metrics, by the answers that it gets.
use statgate.Prelude.{String, Option, none, true, false, ◌≡◌, refl}
use statgate.Float64.{Float64}
use statgate.Api.{SprtMetric, SprtMetricState}
use statgate.Effects.{Env, Call, IsAsking}
use statgate.Actions.Rules.{Ensures, Ensures-bind, Ensures-pure, Ensures-if, Ensures-wrapping}
use statgate.Analyzer.{Bounds, Observation, silent, is_decided, observe_counters, run_metric}
use statgate.Analyzer.Verdicts.{state_of}
use statgate.Analyzer.Cycles.{query_scalar-Quiet, publish-Ensures}
use statgate.Analyzer.Totals.{Answers, next_state}

-- A state that comes of some answers of the four queries.
abbrev pub IsNext :
    {F : Type 0} ⦃fl : Float64 F⦄
    → Bounds F
    → SprtMetric F
    → SprtMetricState F
    → Observation F
    → Type 0
IsNext {F} b m s o = (a : Answers F) × (state_of o ≡ next_state b m s a)

module _ {F : Type 0} ⦃fl : Float64 F⦄ (b : Bounds F) (m : SprtMetric F)
    (s : SprtMetricState F) where
  decided-IsNext : is_decided s.decision ≡ true → IsNext b m s (silent s)
  decided-IsNext decided = (
    record {
      canary_total = none;
      canary_failure = none;
      stable_total = none;
      stable_failure = none;
    },
    rw decided refl,
  )

  undecided-IsNext :
      (ct cf st sf : Option F)
      → is_decided s.decision ≡ false
      → IsNext b m s (observe_counters b m s ct cf st sf)
  undecided-IsNext ct cf st sf undecided = (
    record { canary_total = ct; canary_failure = cf; stable_total = st; stable_failure = sf },
    rw undecided refl,
  )

module _ {F V : Type 0} ⦃fl : Float64 F⦄ (env : Env F V) (url ns rollout_name : String)
    {P : Call F V → Type 0} {K : Type 0} (asks : (c : Call F V) → IsAsking c → P c) (b : Bounds F)
    (m : SprtMetric F) (s : SprtMetricState F) where
  -- What the loop leaves of the state of a metric is what `next_state` makes of it, by what the
  -- queries answered.
  pub run_metric-IsNext : Ensures P K (IsNext b m s) (run_metric env url ns rollout_name b m s)
  unfolding run_metric
  run_metric-IsNext =
      Ensures-if _ _ _ (λ decided. Ensures-pure _ (decided-IsNext b m s decided))
        λ undecided.
          Ensures-bind _ _
            (Ensures-wrapping _ _ (query_scalar-Quiet env url ns rollout_name asks _))
            λ ct _.
              Ensures-bind _ _
                (Ensures-wrapping _ _ (query_scalar-Quiet env url ns rollout_name asks _))
                λ cf _.
                  Ensures-bind _ _
                    (Ensures-wrapping _ _ (query_scalar-Quiet env url ns rollout_name asks _))
                    λ st _.
                      Ensures-bind _ _
                        (Ensures-wrapping _ _ (query_scalar-Quiet env url ns rollout_name asks _))
                        λ sf _.
                          publish-Ensures env url ns rollout_name asks _
                            (undecided-IsNext b m s ct cf st sf undecided)
