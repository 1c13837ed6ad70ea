-- ===== src/Statctl/SprtPanel.antt =====
-- cmd/statctl/render.go: `renderSPRT`, as the lines that are written.
pub mod Drawn
use statgate.Prelude.{
  ℕ, ℤ, pos, zero, suc, Bool, true, false, String, Option, none, some, List, [], ◌∷◌, ◌++◌, ◌-◌,
  ltb_ℤ, eq_ℤ, if◌then◌else◌, ◌+s◌, ◌+ℤ◌, ◌-ℤ◌, saturate64, show_ℤ, str_eq, length, map,
}
use statgate.Float64.{Float64}
use statgate.Api.{
  SprtMetric, SprtAnalysis, SprtMetricState, CanaryRollout, RolloutPhase, empty, pending, running,
  paused, promoted, aborted, failed, unknown, Verdict, other,
}
use statgate.Effects.{Env}
use statgate.Statctl.Bar.{llr_bar}
use statgate.Statctl.Steps.{StepLine, render_steps, decision_badge}
use statgate.Statctl.Texts.{padded, text_or}
use statgate.Statctl.Durations.{human_duration}

abbrev joined : List String → String
joined [] = ""
joined (s ∷ ss) = s +s joined ss

-- What `stateByName` holds for a name: the last state with that name.
abbrev last_state :
    {F : Type 0}
    → String
    → List (SprtMetricState F)
    → Option (SprtMetricState F)
    → Option (SprtMetricState F)
last_state name [] found = found
last_state name (s ∷ ss) found = last_state name ss (if str_eq s.name name then some s else found)

abbrev is_unset : Verdict → Bool
is_unset (other s) = str_eq s ""
is_unset _ = false

abbrev shown_decision : {F : Type 0} → Option (SprtMetricState F) → Verdict
shown_decision none = Verdict.pending
shown_decision (some s) = if is_unset s.decision then Verdict.pending else s.decision

-- The texts of a part, and those of the rest, where `none` is a panic.
abbrev appended : List String → Option (List String) → Option (List String)
appended ls none = none
appended ls (some rest) = some (ls ++ rest)

module _ {F V : Type 0} ⦃fl : Float64 F⦄ (env : Env F V) where
  open fl use {of_int, add, sub, mul, div, log, lt}

  upper : SprtAnalysis F → F
  upper a = log (div (sub (of_int (pos 1)) a.beta) a.alpha)

  lower : SprtAnalysis F → F
  lower a = log (div a.beta (sub (of_int (pos 1)) a.alpha))

  observed_rate : SprtMetricState F → F
  observed_rate s =
      if ltb_ℤ (pos 0) s.observations
      then div (of_int s.failures) (of_int s.observations)
      else of_int (pos 0)

  shown_alternative : SprtMetric F → SprtMetricState F → F
  shown_alternative m s =
      let p1 = add s.baseline_rate m.delta in if lt (of_int (pos 1)) p1 then of_int (pos 1) else p1

  metric_head : SprtMetric F → Option (SprtMetricState F) → String
  metric_head m s =
      "Metric: " +s padded 24 m.name +s "  decision: " +s decision_badge (shown_decision s)

  -- With the bar that was drawn.
  state_lines : SprtAnalysis F → SprtMetric F → SprtMetricState F → List String → List String
  unfolding upper lower observed_rate shown_alternative
  state_lines a m s bar =
      ("  Λ (log-likelihood):    " +s env.format "%+0.4f" s.log_likelihood)
      ∷ ("    promote B " +s joined bar +s " A rollback")
      ∷ ("  boundaries:            B="
          +s env.format "%+0.4f" (lower a)
          +s "  (promote)    A="
          +s env.format "%+0.4f" (upper a)
          +s "  (rollback)")
      ∷ ("  baseline p0 (stable):  "
          +s env.format "%.4f" s.baseline_rate
          +s "  ("
          +s env.format "%.2f" (mul s.baseline_rate (of_int (pos 100)))
          +s "%)")
      ∷ ("  alternative p1=p0+Δ:   "
          +s env.format "%.4f" (shown_alternative m s)
          +s "  (Δ="
          +s env.format "%.4f" m.delta
          +s ")")
      ∷ ("  canary observed:       "
          +s show_ℤ s.observations
          +s " requests, "
          +s show_ℤ s.failures
          +s " failures ("
          +s env.format "%.2f" (mul (observed_rate s) (of_int (pos 100)))
          +s "%)")
      ∷ ""
      ∷ []

  drawn_lines :
      SprtAnalysis F
      → SprtMetric F
      → SprtMetricState F
      → Option (List String)
      → Option (List String)
  unfolding state_lines
  drawn_lines a m s none = none
  drawn_lines a m s (some bar) = some (state_lines a m s bar)

  metric_lines : SprtAnalysis F → SprtMetric F → Option (SprtMetricState F) → Option (List String)
  unfolding metric_head drawn_lines upper lower
  metric_lines a m none =
      some
        (metric_head m none ∷ "  (no observations yet — SPRT runs during pause windows)" ∷ "" ∷ [])
  metric_lines a m (some s) =
      appended (metric_head m (some s) ∷ [])
        (drawn_lines a m s (llr_bar s.log_likelihood (lower a) (upper a)))

  -- The loop over the metrics.
  metrics_lines :
      SprtAnalysis F → List (SprtMetricState F) → List (SprtMetric F) → Option (List String)
  unfolding metric_lines
  metrics_lines a states [] = some []
  metrics_lines a states (m ∷ ms) =
      both (metric_lines a m (last_state m.name states none)) (metrics_lines a states ms)
    where
      both : Option (List String) → Option (List String) → Option (List String)
      both none rest = none
      both (some ls) rest = appended ls rest

  interval : SprtAnalysis F → ℤ
  interval a =
      if ltb_ℤ (pos 0) a.analysis_interval_seconds then a.analysis_interval_seconds else pos 10

  -- Before the metrics; without metrics the loop prints nothing.
  configuration_lines : String → SprtAnalysis F → List String
  unfolding upper lower interval
  configuration_lines url a =
      "SPRT configuration:"
      ∷ ("  α (false rollback)  = "
          +s env.format "%-10.4f" a.alpha
          +s "  A (reject H0)  = "
          +s env.format "%+0.4f" (upper a))
      ∷ ("  β (missed failure)  = "
          +s env.format "%-10.4f" a.beta
          +s "  B (accept H0)  = "
          +s env.format "%+0.4f" (lower a))
      ∷ ("  analysis interval   = " +s show_ℤ (interval a) +s "s")
      ∷ ("  Prometheus          = " +s text_or url "(not set — SPRT disabled)")
      ∷ ""
      ∷ []

  -- `renderSPRT`, and the branch without an analysis.
  unfoldable pub render_sprt : CanaryRollout F → Option (SprtAnalysis F) → Option (List String)
  unfolding configuration_lines metrics_lines
  render_sprt r none = some ("SPRT analysis: not configured" ∷ "" ∷ [])
  render_sprt r (some a) =
      appended (configuration_lines r.spec.prometheus_url a)
        (metrics_lines a r.status.analysis_state a.metrics)
