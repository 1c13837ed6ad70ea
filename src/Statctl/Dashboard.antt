-- ===== src/Statctl/Dashboard.antt =====
-- cmd/statctl/render.go: `renderRollout`, and what `renderSteps` prints of its lines. A
-- rendering is the lines that are written.
pub mod Drawn
use statgate.Prelude.{
  ℕ, ℤ, pos, zero, suc, Bool, true, false, String, Option, none, some, List, [], ◌∷◌, ◌++◌, ◌-◌,
  ltb_ℤ, eq_ℤ, if◌then◌else◌, ◌+s◌, ◌+ℤ◌, ◌-ℤ◌, saturate64, show_ℤ, str_eq, length, map,
}
use statgate.Float64.{Float64}
use statgate.Api.{
  SprtMetric, SprtAnalysis, SprtMetricState, CanaryRollout, RolloutPhase, empty, pending, running,
  paused, promoted, aborted, failed, unknown, Verdict, other,
}
use statgate.Effects.{Env}
use statgate.Statctl.Bar.{llr_bar}
use statgate.Statctl.Steps.{StepLine, render_steps, decision_badge}
use statgate.Statctl.Texts.{padded, padded_number, bool_text, phase_text, text_or}
use statgate.Statctl.SprtPanel.{render_sprt}
use statgate.Statctl.Durations.{human_duration}

hrule : String
hrule = "────────────────────────────────────────────────────────────────────────────────"

step_text : StepLine → String
step_text l =
    "  "
    +s l.mark
    +s " step "
    +s show_ℤ (pos l.index)
    +s "   weight="
    +s padded_number 3 l.weight
    +s "%   pause="
    +s show_ℤ l.pause_seconds
    +s "s"
    +s l.ending

abbrev pub shown_step : {F : Type 0} → String → CanaryRollout F → String
shown_step between r =
    show_ℤ (r.status.current_step +ℤ pos 1) +s between +s show_ℤ (pos (length r.spec.steps))

abbrev step_of : {F : Type 0} → CanaryRollout F → String
step_of r = if eq_ℤ (pos (length r.spec.steps)) (pos 0) then "—" else shown_step " / " r

abbrev pub shown_weight : {F : Type 0} → CanaryRollout F → String
shown_weight r = show_ℤ r.status.current_weight +s "%"

module _ {F V : Type 0} ⦃fl : Float64 F⦄ (env : Env F V) where
  last_change : CanaryRollout F → ℤ → String
  last_change r now =
      if eq_ℤ r.status.last_transition_time (pos 0)
      then "—"
      else human_duration env (saturate64 (now -ℤ r.status.last_transition_time)) +s " ago"

  message_lines : String → List String
  message_lines s = if str_eq s "" then [] else ("  Message      : " +s s) ∷ []

  -- The lines above the analysis.
  head_lines : CanaryRollout F → ℤ → List String
  unfolding hrule last_change message_lines
  head_lines r now =
      ("StatGate canary rollout  "
        +s text_or r.namespace "default"
        +s "/"
        +s r.name
        +s "    (as of "
        +s env.clock_text now
        +s ")")
      ∷ hrule
      ∷ ("  Phase        : "
          +s padded 22 (text_or (phase_text r.status.phase) "—")
          +s "  Step        : "
          +s step_of r)
      ∷ ("  Weight       : "
          +s padded 22 (shown_weight r)
          +s "  Paused      : "
          +s bool_text r.spec.paused)
      ∷ ("  Abort        : "
          +s padded 22 (bool_text r.spec.abort)
          +s "  Last change : "
          +s last_change r now)
      ∷ ("  Target       : "
          +s padded 22 r.spec.target_ref
          +s "  VS          : "
          +s r.spec.virtual_service_ref)
      ∷ (message_lines r.status.message ++ ("" ∷ []))

  steps_text : CanaryRollout F → List String
  unfolding step_text
  steps_text r =
      "Steps:" ∷ map step_text (render_steps r.status.phase r.status.current_step r.spec.steps)

  -- `none` is a panic.
  unfoldable pub render_rollout : CanaryRollout F → ℤ → Option (List String)
  unfolding head_lines steps_text
  render_rollout r now = with_steps (render_sprt env r r.spec.analysis)
    where
      with_steps : Option (List String) → Option (List String)
      with_steps none = none
      with_steps (some ls) = some (head_lines r now ++ (ls ++ steps_text r))
