-- ===== src/Api.antt =====
-- api/v1alpha1/types.go: the custom resource. An `int32` is the integer that it stands for, a slice is
-- a list, a nil pointer is `none`, and a `metav1.Time` counts nanoseconds from Go's zero time.
use statgate.Prelude.{ℤ, Bool, String, Option, List, true, false}

pub record CanaryStep : Type 0 where
  pub weight : ℤ
  pub pause_seconds : ℤ

pub record SprtMetric (F : Type 0) : Type 0 where
  pub name : String
  pub canary_total_query : String
  pub canary_failure_query : String
  pub stable_total_query : String
  pub stable_failure_query : String
  pub delta : F

pub record SprtAnalysis (F : Type 0) : Type 0 where
  pub alpha : F
  pub beta : F
  pub analysis_interval_seconds : ℤ
  pub metrics : List (SprtMetric F)

-- The string `Decision` of a metric's state, by the values that the code compares it with.
pub data Verdict : Type 0 where
  pending promote rollback : Verdict
  other : String → Verdict

abbrev pub is_promote : Verdict → Bool
is_promote promote = true
is_promote _ = false

abbrev pub is_rollback : Verdict → Bool
is_rollback rollback = true
is_rollback _ = false

pub record SprtMetricState (F : Type 0) : Type 0 where
  pub name : String
  pub log_likelihood : F
  pub observations : ℤ
  pub failures : ℤ
  pub baseline_rate : F
  pub last_canary_total : F
  pub last_canary_failure : F
  pub decision : Verdict

pub record CanaryRolloutSpec (F : Type 0) : Type 0 where
  pub target_ref : String
  pub stable_service_ref : String
  pub canary_service_ref : String
  pub virtual_service_ref : String
  pub steps : List CanaryStep
  pub paused : Bool
  pub abort : Bool
  pub prometheus_url : String
  pub analysis : Option (SprtAnalysis F)

-- The string type `RolloutPhase`: its constants, the empty string, and every other string.
pub data RolloutPhase : Type 0 where
  empty pending running paused promoted aborted failed : RolloutPhase
  unknown : String → RolloutPhase

pub record CanaryRolloutStatus (F : Type 0) : Type 0 where
  pub phase : RolloutPhase
  pub current_step : ℤ
  pub current_weight : ℤ
  pub last_transition_time : ℤ
  pub message : String
  pub analysis_state : List (SprtMetricState F)

-- Of the metadata the code reads the two names, and `statctl` the creation time too.
pub record CanaryRollout (F : Type 0) : Type 0 where
  pub namespace : String
  pub name : String
  pub creation_timestamp : ℤ
  pub spec : CanaryRolloutSpec F
  pub status : CanaryRolloutStatus F
