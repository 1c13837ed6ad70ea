-- ===== src/Metrics/Labels.antt =====
-- That the gauges are given the labels that they are declared with.
use statgate.Prelude.{ℕ, ℤ, String, Option, none, some, ◌≡◌, refl, length, All, List, [], ◌∷◌, ◌++◌}
use statgate.Float64.{Float64}
use statgate.Api.{SprtMetricState, RolloutPhase}
use statgate.Actions.{Result, ok, perform, pure, ◌>>=◌}
use statgate.Effects.{Env, Call, History, declared_labels, set_gauge, delete_gauge, set, delete}
use statgate.Metrics.{
  record_sprt_boundaries, record_sprt_metric_state, record_canary_weight, record_rollout_phase,
  publish_code, phase_code, reset_sprt_metric_series,
}

-- A call on a gauge with as many labels as the gauge is declared with.
abbrev pub IsLabelled : {F V : Type 0} → Call F V → Type 0
IsLabelled (set_gauge g labels x) = length labels ≡ length (declared_labels g)
IsLabelled (delete_gauge g labels) = length labels ≡ length (declared_labels g)
IsLabelled _ = ⊥

-- An action has returned after such calls only.
pub record HasPublished {F V : Type 0} (h : History F V) (r : Result (Unit {0}) × History F V)
    : Type 0 where
  pub calls : List (Call F V)
  pub grown : r ≡ (ok tt, calls ++ h)
  pub labelled : All IsLabelled calls

module _ {F V : Type 0} ⦃fl : Float64 F⦄ (env : Env F V) (ns rollout : String) where
  publish_code-HasPublished :
      (c : Option ℕ) (h : History F V) → HasPublished h (publish_code env ns rollout c h)
  unfolding publish_code set perform pure
  publish_code-HasPublished none h = record { calls = []; grown = refl; labelled = tt }
  publish_code-HasPublished (some c) h = record {
    calls = _ ∷ [];
    grown = refl;
    labelled = (refl, tt);
  }

  -- Each of the five functions that publish returns, whatever the namespace, the rollout, the metric and
  -- the values are, and sets and deletes nothing but gauges, each with as many labels as it is declared
  -- with; at another number the library would panic, or delete nothing.
  pub recordings-HasPublished :
      (upper lower : F) (state : SprtMetricState F) (weight : ℤ) (phase : RolloutPhase)
      (name : String) (h : History F V)
      → HasPublished h (record_sprt_boundaries env ns rollout upper lower h)
        × HasPublished h (record_sprt_metric_state env ns rollout state h)
        × HasPublished h (record_canary_weight env ns rollout weight h)
        × HasPublished h (record_rollout_phase env ns rollout phase h)
        × HasPublished h (reset_sprt_metric_series env ns rollout name h)
  unfolding record_sprt_boundaries record_sprt_metric_state record_canary_weight
      record_rollout_phase reset_sprt_metric_series set delete perform ◌>>=◌
  recordings-HasPublished upper lower state weight phase name h = (
    record { calls = _ ∷ _ ∷ []; grown = refl; labelled = (refl, (refl, tt)) },
    record { calls = _ ∷ _ ∷ _ ∷ []; grown = refl; labelled = (refl, (refl, (refl, tt))) },
    record { calls = _ ∷ []; grown = refl; labelled = (refl, tt) },
    publish_code-HasPublished (phase_code phase) h,
    record { calls = _ ∷ _ ∷ _ ∷ []; grown = refl; labelled = (refl, (refl, (refl, tt))) },
  )
