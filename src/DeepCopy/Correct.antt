-- ===== src/DeepCopy/Correct.antt =====
-- The deep copies are copies, and share nothing with what they copy.
use statgate.Prelude.{Option, some, List, refl}
use statgate.Api.{CanaryStep, SprtMetric, SprtMetricState}
use statgate.DeepCopy.Heap.{Heap, bind, pure}
use statgate.DeepCopy.Objects.{
  AnalysisOf, SpecOf, StatusOf, RolloutOf, Analysis, Spec, Status, Rollout, Cell, steps_cell,
  metrics_cell, states_cell, analysis_cell, get_steps, get_metrics, get_states, get_analysis,
  copy_ref, copy_analysis, copy_spec, copy_status, copy_rollout, step_cell, metric_cell, state_cell,
  spec_cell, status_cell, get_step, get_metric, get_state, get_spec, get_status, deep_copy_step,
  deep_copy_metric, deep_copy_state, deep_copy_analysis, deep_copy_spec, deep_copy_status,
}
use statgate.DeepCopy.Copier.{IsCopier, pure-IsCopier, view_ref, ref-IsCopier}
use statgate.DeepCopy.Fields.{field-IsCopier, fields-IsCopier}

-- The values that the objects stand for, with nil told from empty.
abbrev pub AnalysisValue : Type 0 → Type 0
AnalysisValue F = AnalysisOf F (Option (List (SprtMetric F)))

abbrev pub SpecValue : Type 0 → Type 0
SpecValue F = SpecOf (Option (List CanaryStep)) (Option (AnalysisValue F))

abbrev pub StatusValue : Type 0 → Type 0
StatusValue F = StatusOf (Option (List (SprtMetricState F)))

abbrev pub RolloutValue : Type 0 → Type 0
RolloutValue F = RolloutOf (SpecValue F) (StatusValue F)

abbrev pub values : {C A : Type 0} → Heap C → A → Option A
values h a = some a

-- What the value of a record is, by the values of what it refers to.
abbrev pub analysis_value :
    {F : Type 0} → Analysis F → Option (List (SprtMetric F)) → AnalysisValue F
analysis_value x m = record {
  alpha = x.alpha;
  beta = x.beta;
  analysis_interval_seconds = x.analysis_interval_seconds;
  metrics = m;
}

abbrev pub spec_value :
    {F : Type 0} → Spec → Option (List CanaryStep) → Option (AnalysisValue F) → SpecValue F
spec_value x s a = record {
  target_ref = x.target_ref;
  stable_service_ref = x.stable_service_ref;
  canary_service_ref = x.canary_service_ref;
  virtual_service_ref = x.virtual_service_ref;
  steps = s;
  paused = x.paused;
  abort = x.abort;
  prometheus_url = x.prometheus_url;
  analysis = a;
}

abbrev pub status_value : {F : Type 0} → Status → Option (List (SprtMetricState F)) → StatusValue F
status_value x s = record {
  phase = x.phase;
  current_step = x.current_step;
  current_weight = x.current_weight;
  last_transition_time = x.last_transition_time;
  message = x.message;
  analysis_state = s;
}

abbrev pub rollout_value : {F : Type 0} → Rollout → SpecValue F → StatusValue F → RolloutValue F
rollout_value x p s = record {
  namespace = x.namespace;
  name = x.name;
  creation_timestamp = x.creation_timestamp;
  spec = p;
  status = s;
}

module _ {F : Type 0} where
  abbrev pub view_analysis : Heap (Cell F) → Analysis F → Option (AnalysisValue F)
  view_analysis h x =
      bind (view_ref get_metrics values h x.metrics) (λ m. some (analysis_value x m))

  analysis-IsCopier : IsCopier view_analysis (copy_analysis {F = F})
  unfolding copy_analysis
  analysis-IsCopier =
      field-IsCopier (λ x. x.metrics) (λ x m. record x { metrics = m }) analysis_value
        (view_ref get_metrics values) (copy_ref get_metrics metrics_cell pure) (λ r a. refl)
        (λ r a v. refl)
        (ref-IsCopier get_metrics metrics_cell pure values (λ a. refl) pure-IsCopier)

  abbrev pub view_spec : Heap (Cell F) → Spec → Option (SpecValue F)
  view_spec h x =
      bind (view_ref get_steps values h x.steps) (λ s.
        bind (view_ref get_analysis view_analysis h x.analysis) (λ a. some (spec_value x s a)))

  spec-IsCopier : IsCopier view_spec (copy_spec {F = F})
  unfolding copy_spec
  spec-IsCopier =
      fields-IsCopier (λ x. x.steps) (λ x. x.analysis)
        (λ x s a. record x { steps = s; analysis = a }) spec_value (view_ref get_steps values)
        (copy_ref get_steps steps_cell pure) (view_ref get_analysis view_analysis)
        (copy_ref get_analysis analysis_cell copy_analysis) (λ r a b. refl) (λ r a b. refl)
        (λ r a b v u. refl)
        (ref-IsCopier get_steps steps_cell pure values (λ a. refl) pure-IsCopier)
        (ref-IsCopier get_analysis analysis_cell copy_analysis view_analysis (λ a. refl)
          analysis-IsCopier)

  abbrev pub view_status : Heap (Cell F) → Status → Option (StatusValue F)
  view_status h x =
      bind (view_ref get_states values h x.analysis_state) (λ s. some (status_value x s))

  status-IsCopier : IsCopier view_status (copy_status {F = F})
  unfolding copy_status
  status-IsCopier =
      field-IsCopier (λ x. x.analysis_state) (λ x s. record x { analysis_state = s }) status_value
        (view_ref get_states values) (copy_ref get_states states_cell pure) (λ r a. refl)
        (λ r a v. refl) (ref-IsCopier get_states states_cell pure values (λ a. refl) pure-IsCopier)

  abbrev pub view_rollout : Heap (Cell F) → Rollout → Option (RolloutValue F)
  view_rollout h x =
      bind (view_spec h x.spec)
        (λ p. bind (view_status h x.status) (λ s. some (rollout_value x p s)))

  pub rollout-IsCopier : IsCopier view_rollout (copy_rollout {F = F})
  unfolding copy_rollout
  rollout-IsCopier =
      fields-IsCopier (λ x. x.spec) (λ x. x.status) (λ x p s. record x { spec = p; status = s })
        rollout_value view_spec copy_spec view_status copy_status (λ r a b. refl) (λ r a b. refl)
        (λ r a b v u. refl) spec-IsCopier status-IsCopier

  -- Each part is copied deeply by its own `DeepCopy`.
  parts-IsCopier :
      IsCopier (view_ref get_step values) (deep_copy_step {F = F})
      × IsCopier (view_ref get_metric values) (deep_copy_metric {F = F})
      × IsCopier (view_ref get_state values) (deep_copy_state {F = F})
      × IsCopier (view_ref get_analysis view_analysis) (deep_copy_analysis {F = F})
      × IsCopier (view_ref get_spec view_spec) (deep_copy_spec {F = F})
      × IsCopier (view_ref get_status view_status) (deep_copy_status {F = F})
  unfolding deep_copy_step deep_copy_metric deep_copy_state deep_copy_analysis deep_copy_spec
      deep_copy_status
  parts-IsCopier = (
    ref-IsCopier get_step step_cell pure values (λ a. refl) pure-IsCopier,
    ref-IsCopier get_metric metric_cell pure values (λ a. refl) pure-IsCopier,
    ref-IsCopier get_state state_cell pure values (λ a. refl) pure-IsCopier,
    ref-IsCopier get_analysis analysis_cell copy_analysis view_analysis (λ a. refl)
        analysis-IsCopier,
    ref-IsCopier get_spec spec_cell copy_spec view_spec (λ a. refl) spec-IsCopier,
    ref-IsCopier get_status status_cell copy_status view_status (λ a. refl) status-IsCopier,
  )
