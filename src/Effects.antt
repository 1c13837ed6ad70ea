-- ===== src/Effects.antt =====
-- How the programs meet their surroundings: the Kubernetes API client, the Prometheus query API, the
-- registry of gauges and the clock, and for `statctl` the files and the terminal. Each call is recorded in a history, the newest call first, and its
-- answer comes from an environment, a parameter that may answer anything, by all that was called
-- before. Log lines are not modelled.
use statgate.Prelude.{Bool, ℤ, String, Option, List, [], ◌∷◌, ◌⊎◌, inr, length, ◌==◌, if◌then◌else◌}
use statgate.Api.{CanaryRollout}
use statgate.Actions.{Action, perform, crash, Error}

pub record ObjectKey : Type 0 where
  pub namespace : String
  pub name : String

-- Of corev1 and appsv1, the fields that are read.
pub record PodCondition : Type 0 where
  pub condition_type : String
  pub status : String

pub record Pod : Type 0 where
  pub conditions : List PodCondition

abbrev pub Labels : Type 0
Labels = List (String × String)

pub record Deployment : Type 0 where
  pub selector : Option Labels

-- `model.Value`: an instant vector by its samples' values, or another type of result by its name.
pub data QueryValue (F : Type 0) : Type 0 where
  vector : List F → QueryValue F
  other_value : String → QueryValue F

pub data Gauge : Type 0 where
  sprt_log_likelihood sprt_boundary_a sprt_boundary_b sprt_observations sprt_failures : Gauge
  canary_weight rollout_phase : Gauge

-- `rolloutMetricLabels` and `rolloutLabels`, and the labels that each gauge is declared with.
abbrev pub rollout_metric_labels : List String
rollout_metric_labels = "namespace" ∷ "rollout" ∷ "metric" ∷ []

abbrev pub rollout_labels : List String
rollout_labels = "namespace" ∷ "rollout" ∷ []

abbrev pub declared_labels : Gauge → List String
declared_labels sprt_log_likelihood = rollout_metric_labels
declared_labels sprt_boundary_a = rollout_labels
declared_labels sprt_boundary_b = rollout_labels
declared_labels sprt_observations = rollout_metric_labels
declared_labels sprt_failures = rollout_metric_labels
declared_labels canary_weight = rollout_labels
declared_labels rollout_phase = rollout_labels

-- The calls, over the type of floats and the type of dynamic values (`interface{}`).
pub data Call (F V : Type 0) : Type 0 where
  get_rollout get_virtual_service get_deployment : ObjectKey → Call F V
  update_virtual_service : V → Call F V
  list_pods : String → Labels → Call F V
  update_status : CanaryRollout F → Call F V
  read_clock : Call F V
  new_prometheus_client : String → Call F V
  query : String → String → Call F V
  set_gauge : Gauge → List String → F → Call F V
  delete_gauge : Gauge → List String → Call F V
  -- of `statctl`
  connect read_input print : String → Call F V
  create_rollout update_rollout : CanaryRollout F → Call F V
  delete_rollout : ObjectKey → Call F V
  list_rollouts : String → Call F V
  warn : String → Call F V

abbrev pub History : Type 0 → Type 0 → Type 0
History F V = List (Call F V)

-- The flags of `statctl`, as the package `flag` leaves them, and a manifest as the package `yaml` does.
pub record Flags : Type 0 where
  pub namespace : String
  pub kubeconfig : String
  pub file : String
  pub interval : ℤ

pub record Manifest (F : Type 0) : Type 0 where
  pub kind : String
  pub rollout : CanaryRollout F

-- The answer to each call, given the calls before it; and what the programs take from libraries: the
-- formats `%.4f` and `%q`, the parsing of flags for a subcommand, and of a manifest; the text of an error,
-- the other formats of a `float64`, the time of day of a clock's reading, the text of a duration, and
-- `Seconds`, `Minutes` and `Hours` of one; the variables of the environment, the home directory, the
-- files that are there, the joining of paths, and the loading of a client's configuration and scheme.
pub record Env (F V : Type 0) : Type 0 where
  pub rollout_at : History F V → ObjectKey → Error ⊎ CanaryRollout F
  pub virtual_service_at : History F V → ObjectKey → Error ⊎ V
  pub deployment_at : History F V → ObjectKey → Error ⊎ Deployment
  pub pods_at : History F V → String → Labels → Error ⊎ List Pod
  pub virtual_service_written : History F V → V → Error ⊎ Unit {0}
  pub status_written : History F V → CanaryRollout F → Error ⊎ Unit {0}
  pub now_at : History F V → ℤ
  pub client_created : History F V → String → Error ⊎ Unit {0}
  pub query_answer : History F V → String → String → Error ⊎ QueryValue F
  pub format_float : F → String
  pub quote : String → String
  pub parse_flags : String → List String → Error ⊎ Flags
  pub unmarshal : String → Error ⊎ Manifest F
  pub connected : History F V → String → Error ⊎ Unit {0}
  pub input_at : History F V → String → Error ⊎ String
  pub created : History F V → CanaryRollout F → Error ⊎ Unit {0}
  pub updated : History F V → CanaryRollout F → Error ⊎ Unit {0}
  pub deleted : History F V → ObjectKey → Error ⊎ Unit {0}
  pub rollouts_at : History F V → String → Error ⊎ List (CanaryRollout F)
  pub error_text : Error → String
  pub variable : String → String
  pub home_dir : Error ⊎ String
  pub file_exists : String → Bool
  pub join_path : List String → String
  pub config_loaded : String → Error ⊎ Unit {0}
  pub scheme_registered : Error ⊎ Unit {0}
  pub interrupted_at : History F V → Bool
  pub format : String → F → String
  pub clock_text : ℤ → String
  pub duration_text : ℤ → String
  pub seconds_of : ℤ → F
  pub minutes_of : ℤ → F
  pub hours_of : ℤ → F

abbrev pub M : Type 0 → Type 0 → Type 0 → Type 0
M F V A = Action (Call F V) A

-- The calls that change nothing outside: all but the writes to the API server.
abbrev pub IsReading : {F V : Type 0} → Call F V → Type 0
IsReading (update_status r) = ⊥
IsReading (update_virtual_service v) = ⊥
IsReading (create_rollout r) = ⊥
IsReading (update_rollout r) = ⊥
IsReading (delete_rollout k) = ⊥
IsReading _ = Unit {0}

-- The calls of an analysis: the clock, the queries and the gauges.
abbrev pub IsAsking : {F V : Type 0} → Call F V → Type 0
IsAsking read_clock = Unit {0}
IsAsking (new_prometheus_client url) = Unit {0}
IsAsking (query url q) = Unit {0}
IsAsking (set_gauge g labels x) = Unit {0}
IsAsking _ = ⊥

pub asking-IsReading : {F V : Type 0} (c : Call F V) → IsAsking c → IsReading c
asking-IsReading read_clock p = tt
asking-IsReading (new_prometheus_client url) p = tt
asking-IsReading (query url q) p = tt
asking-IsReading (set_gauge g labels x) p = tt
asking-IsReading _ p = absurd p

module _ {F V : Type 0} (env : Env F V) where
  unfoldable pub now : M F V ℤ
  now = perform read_clock (λ h. inr (env.now_at h))

  -- `g.WithLabelValues(labels...).Set(v)`: the library panics at another number of labels than declared.
  unfoldable pub set : Gauge → List String → F → M F V (Unit {0})
  set g labels v =
      if length labels == length (declared_labels g)
      then perform (set_gauge g labels v) (λ h. inr tt)
      else crash

  unfoldable pub delete : Gauge → List String → M F V (Unit {0})
  delete g labels = perform (delete_gauge g labels) (λ h. inr tt)

  unfoldable pub fetch_rollout : ObjectKey → M F V (CanaryRollout F)
  fetch_rollout key = perform (get_rollout key) (λ h. env.rollout_at h key)

  unfoldable pub fetch_virtual_service : ObjectKey → M F V V
  fetch_virtual_service key = perform (get_virtual_service key) (λ h. env.virtual_service_at h key)

  unfoldable pub fetch_deployment : ObjectKey → M F V Deployment
  fetch_deployment key = perform (get_deployment key) (λ h. env.deployment_at h key)

  unfoldable pub fetch_pods : String → Labels → M F V (List Pod)
  fetch_pods ns labels = perform (list_pods ns labels) (λ h. env.pods_at h ns labels)

  unfoldable pub write_virtual_service : V → M F V (Unit {0})
  write_virtual_service v =
      perform (update_virtual_service v) (λ h. env.virtual_service_written h v)

  -- `r.Status().Update(ctx, rollout)`
  unfoldable pub write_status : CanaryRollout F → M F V (Unit {0})
  write_status r = perform (update_status r) (λ h. env.status_written h r)

  unfoldable pub new_client : String → M F V (Unit {0})
  new_client url = perform (new_prometheus_client url) (λ h. env.client_created h url)

  unfoldable pub run_query : String → String → M F V (QueryValue F)
  run_query url q = perform (query url q) (λ h. env.query_answer h url q)
