-- ===== src/DeepCopy/Objects.antt =====
-- The objects as they stand in memory, and their deep copies. A slice or a pointer is the address of its
-- array or object, and `none` if it is nil; the metadata's own copy is the library's, of values here.
use statgate.Prelude.{ℕ, ℤ, Bool, String, Option, none, some, List, [], ◌∷◌}
use statgate.Api.{CanaryStep, SprtMetric, SprtMetricState, RolloutPhase}
use statgate.DeepCopy.Heap.{Command, pure, load, alloc, ◌>>=◌}

-- Over what stands for the references: addresses in memory, and contents in a value that is read.
pub record AnalysisOf (F M : Type 0) : Type 0 where
  pub alpha : F
  pub beta : F
  pub analysis_interval_seconds : ℤ
  pub metrics : M

pub record SpecOf (S A : Type 0) : Type 0 where
  pub target_ref : String
  pub stable_service_ref : String
  pub canary_service_ref : String
  pub virtual_service_ref : String
  pub steps : S
  pub paused : Bool
  pub abort : Bool
  pub prometheus_url : String
  pub analysis : A

pub record StatusOf (S : Type 0) : Type 0 where
  pub phase : RolloutPhase
  pub current_step : ℤ
  pub current_weight : ℤ
  pub last_transition_time : ℤ
  pub message : String
  pub analysis_state : S

pub record RolloutOf (P S : Type 0) : Type 0 where
  pub namespace : String
  pub name : String
  pub creation_timestamp : ℤ
  pub spec : P
  pub status : S

pub record RolloutListOf (I : Type 0) : Type 0 where
  pub resource_version : String
  pub items : I

abbrev pub Ref : Type 0
Ref = Option ℕ

abbrev pub Analysis : Type 0 → Type 0
Analysis F = AnalysisOf F Ref

abbrev pub Spec : Type 0
Spec = SpecOf Ref Ref

abbrev pub Status : Type 0
Status = StatusOf Ref

abbrev pub Rollout : Type 0
Rollout = RolloutOf Spec Status

pub data Cell (F : Type 0) : Type 0 where
  steps_cell : List CanaryStep → Cell F
  metrics_cell : List (SprtMetric F) → Cell F
  states_cell : List (SprtMetricState F) → Cell F
  analysis_cell : Analysis F → Cell F
  rollouts_cell : List Rollout → Cell F
  rollout_cell : Rollout → Cell F
  list_cell : RolloutListOf Ref → Cell F
  step_cell : CanaryStep → Cell F
  metric_cell : SprtMetric F → Cell F
  state_cell : SprtMetricState F → Cell F
  spec_cell : Spec → Cell F
  status_cell : Status → Cell F

module _ {F : Type 0} where
  abbrev pub get_steps : Cell F → Option (List CanaryStep)
  get_steps (steps_cell x) = some x
  get_steps _ = none

  abbrev pub get_metrics : Cell F → Option (List (SprtMetric F))
  get_metrics (metrics_cell x) = some x
  get_metrics _ = none

  abbrev pub get_states : Cell F → Option (List (SprtMetricState F))
  get_states (states_cell x) = some x
  get_states _ = none

  abbrev pub get_analysis : Cell F → Option (Analysis F)
  get_analysis (analysis_cell x) = some x
  get_analysis _ = none

  abbrev pub get_rollouts : Cell F → Option (List Rollout)
  get_rollouts (rollouts_cell x) = some x
  get_rollouts _ = none

  abbrev pub get_rollout : Cell F → Option Rollout
  get_rollout (rollout_cell x) = some x
  get_rollout _ = none

  abbrev pub get_list : Cell F → Option (RolloutListOf Ref)
  get_list (list_cell x) = some x
  get_list _ = none

  abbrev pub get_step : Cell F → Option CanaryStep
  get_step (step_cell x) = some x
  get_step _ = none

  abbrev pub get_metric : Cell F → Option (SprtMetric F)
  get_metric (metric_cell x) = some x
  get_metric _ = none

  abbrev pub get_state : Cell F → Option (SprtMetricState F)
  get_state (state_cell x) = some x
  get_state _ = none

  abbrev pub get_spec : Cell F → Option Spec
  get_spec (spec_cell x) = some x
  get_spec _ = none

  abbrev pub get_status : Cell F → Option Status
  get_status (status_cell x) = some x
  get_status _ = none

-- nil stays nil; else the contents are copied into a new cell. That is the shape of each `DeepCopy`, and
-- of the part of `DeepCopyInto` for a slice or a pointer; the cell is taken when its contents are there.
unfoldable pub copy_ref :
    {C A : Type 0} → (C → Option A) → (A → C) → (A → Command C A) → Ref → Command C Ref
copy_ref get put copy none = pure none
copy_ref get put copy (some p) = do a ← load get p; a' ← copy a; q ← alloc (put a'); pure (some q)

module _ {F : Type 0} where
  -- `DeepCopyInto`, by the contents of `out` when it returns.
  unfoldable pub copy_analysis : Analysis F → Command (Cell F) (Analysis F)
  copy_analysis x = do
    metrics ← copy_ref get_metrics metrics_cell pure x.metrics
    pure (record x { metrics = metrics })

  unfoldable pub copy_spec : Spec → Command (Cell F) Spec
  copy_spec x = do
    steps ← copy_ref get_steps steps_cell pure x.steps
    analysis ← copy_ref get_analysis analysis_cell copy_analysis x.analysis
    pure (record x { steps = steps; analysis = analysis })

  unfoldable pub copy_status : Status → Command (Cell F) Status
  copy_status x = do
    states ← copy_ref get_states states_cell pure x.analysis_state
    pure (record x { analysis_state = states })

  unfoldable pub copy_rollout : Rollout → Command (Cell F) Rollout
  copy_rollout x = do
    spec ← copy_spec x.spec
    status ← copy_status x.status
    pure (record x { spec = spec; status = status })

  -- The loop over the items.
  unfoldable pub copy_items : List Rollout → Command (Cell F) (List Rollout)
  copy_items [] = pure []
  copy_items (x ∷ xs) = do x' ← copy_rollout x; xs' ← copy_items xs; pure (x' ∷ xs')

  unfoldable pub copy_list : RolloutListOf Ref → Command (Cell F) (RolloutListOf Ref)
  copy_list x = do
    items ← copy_ref get_rollouts rollouts_cell copy_items x.items
    pure (record x { items = items })

  -- `DeepCopy` of the parts.
  unfoldable pub deep_copy_step : Ref → Command (Cell F) Ref
  deep_copy_step = copy_ref get_step step_cell pure

  unfoldable pub deep_copy_metric : Ref → Command (Cell F) Ref
  deep_copy_metric = copy_ref get_metric metric_cell pure

  unfoldable pub deep_copy_state : Ref → Command (Cell F) Ref
  deep_copy_state = copy_ref get_state state_cell pure

  unfoldable pub deep_copy_analysis : Ref → Command (Cell F) Ref
  deep_copy_analysis = copy_ref get_analysis analysis_cell copy_analysis

  unfoldable pub deep_copy_spec : Ref → Command (Cell F) Ref
  deep_copy_spec = copy_ref get_spec spec_cell copy_spec

  unfoldable pub deep_copy_status : Ref → Command (Cell F) Ref
  deep_copy_status = copy_ref get_status status_cell copy_status

  -- `DeepCopy` of a rollout and of a list of them, which `DeepCopyObject` returns too.
  unfoldable pub deep_copy_rollout : Ref → Command (Cell F) Ref
  deep_copy_rollout = copy_ref get_rollout rollout_cell copy_rollout

  unfoldable pub deep_copy_list : Ref → Command (Cell F) Ref
  deep_copy_list = copy_ref get_list list_cell copy_list
