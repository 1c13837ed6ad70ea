-- ===== src/Statctl/Steps.antt =====
-- cmd/statctl/render.go: `renderSteps` and `decisionBadge`.
use statgate.Prelude.{
  ℕ, ℤ, pos, zero, suc, Bool, true, false, not, String, List, [], ◌∷◌, ◌≡◌, ◌&&◌, ◌+◌, ◌<◌, ltb_ℤ,
  eq_ℤ, if◌then◌else◌, arith, ◌⊎◌, get_elem?, some,
}
use statgate.Api.{CanaryStep, RolloutPhase, promoted, aborted, failed, Verdict, promote, rollback}

-- `decisionBadge`
abbrev pub decision_badge : Verdict → String
decision_badge promote = "✔ promote"
decision_badge rollback = "✗ rollback"
decision_badge _ = "… pending"

-- `terminal`
abbrev pub is_terminal : RolloutPhase → Bool
is_terminal promoted = true
is_terminal aborted = true
is_terminal failed = true
is_terminal _ = false

abbrev is_promoted_phase : RolloutPhase → Bool
is_promoted_phase promoted = true
is_promoted_phase _ = false

-- The marker of the step `i` of a rollout that is at the step `cur`.
pub marker : RolloutPhase → ℤ → ℕ → String
marker phase cur i =
    if is_promoted_phase phase
    then "[✔]"
    else if is_terminal phase
    then (if ltb_ℤ (pos i) cur then "[✔]" else if eq_ℤ (pos i) cur then "[✗]" else "[ ]")
    else if ltb_ℤ (pos i) cur
    then "[✔]"
    else if eq_ℤ (pos i) cur
    then "[▶]"
    else "[ ]"

pub suffix : RolloutPhase → ℤ → ℕ → String
suffix phase cur i = if not (is_terminal phase) && eq_ℤ (pos i) cur then "   ← current" else ""

-- A line of the list, by its parts: the marker, the index, the weight, the pause and the suffix.
pub record StepLine : Type 0 where
  pub mark : String
  pub index : ℕ
  pub weight : ℤ
  pub pause_seconds : ℤ
  pub ending : String

step_lines : RolloutPhase → ℤ → ℕ → List CanaryStep → List StepLine
step_lines phase cur i [] = []
step_lines phase cur i (s ∷ steps) =
    record {
      mark = marker phase cur i;
      index = i;
      weight = s.weight;
      pause_seconds = s.pause_seconds;
      ending = suffix phase cur i;
    }
    ∷ step_lines phase cur (suc i) steps

unfoldable pub render_steps : RolloutPhase → ℤ → List CanaryStep → List StepLine
unfolding step_lines marker suffix
render_steps phase cur steps = step_lines phase cur 0 steps

step_lines-get :
    (phase : RolloutPhase) (cur : ℤ) (from : ℕ) (steps : List CanaryStep) (i : ℕ) (line : StepLine)
    → get_elem? (step_lines phase cur from steps) i ≡ some line
    → (line.mark ≡ marker phase cur (from + i))
      × (line.ending ≡ suffix phase cur (from + i))
      × (line.index ≡ from + i)
unfolding step_lines
step_lines-get phase cur from [] i line h = absurd (ground arith)
step_lines-get phase cur from (s ∷ steps) zero line h = ground arith
step_lines-get phase cur from (s ∷ steps) (suc i) line h =
    let (m, e, n) = step_lines-get phase cur (suc from) steps i line h in
    (ground arith, ground arith, ground arith)

abbrev current_suffix : String
current_suffix = "   ← current"

-- While the rollout is not at an end, just the line of its current step has the arrow and the suffix,
-- the lines before it have the check mark, and those behind it have the empty box.
pub render_steps-current :
    (phase : RolloutPhase) (cur : ℕ) (steps : List CanaryStep) (i : ℕ) (line : StepLine)
    → is_terminal phase ≡ false
    → get_elem? (render_steps phase (pos cur) steps) i ≡ some line
    → ((i < cur) × (line.mark ≡ "[✔]") × (line.ending ≡ ""))
      ⊎ (((i ≡ cur) × (line.mark ≡ "[▶]") × (line.ending ≡ current_suffix))
          ⊎ ((cur < i) × (line.mark ≡ "[ ]") × (line.ending ≡ "")))
unfolding render_steps marker suffix
render_steps-current phase cur steps i line open_end found =
    let (m, e, n) = step_lines-get phase (pos cur) 0 steps i line found in ground arith
