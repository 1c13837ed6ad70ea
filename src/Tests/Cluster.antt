-- ===== src/Tests/Cluster.antt =====
-- A cluster with a VirtualService of two routes, and the rollout of the baseline demo scenario.
use statgate.Prelude.{
  ℕ, ℤ, pos, negsuc, ◌/◌, true, false, String, Option, none, some, List, [], ◌∷◌, inr,
  if◌then◌else◌,
}
use statgate.Api.{
  CanaryStep, SprtMetric, SprtAnalysis, SprtMetricState, CanaryRollout, RolloutPhase,
}
use statgate.Effects.{ObjectKey, Pod, Deployment, Env, vector}
use statgate.VirtualService.{route_path, http_path, host_path}
use statgate.Tests.Sample.{Object, object, Slice, absent, slice, path_eq}

abbrev no_int : List String → Option ℤ
no_int p = none

abbrev no_text : List String → String
no_text p = ""

abbrev no_slice : List String → Slice
no_slice p = absent

abbrev pub route_to : String → Object
route_to host = object true no_int (λ p. if path_eq p host_path then host else "") no_slice

abbrev pub first_http : Object
first_http = object true no_int no_text λ p.
    if path_eq p route_path
    then slice (route_to "demo-stable" ∷ route_to "demo-canary" ∷ [])
    else absent

abbrev pub demo_virtual_service : Object
demo_virtual_service =
    object true no_int no_text λ p. if path_eq p http_path then slice (first_http ∷ []) else absent

abbrev pub demo_metric : SprtMetric ℤ
demo_metric = record {
  name = "error-rate";
  canary_total_query = "canary total";
  canary_failure_query = "canary failure";
  stable_total_query = "stable total";
  stable_failure_query = "stable failure";
  delta = pos 0;
}

abbrev pub demo_analysis : SprtAnalysis ℤ
demo_analysis = record {
  alpha = pos 1;
  beta = pos 5;
  analysis_interval_seconds = pos 10;
  metrics = demo_metric ∷ [];
}

abbrev pub demo_steps : List CanaryStep
demo_steps =
    record { weight = pos 5; pause_seconds = pos 60 }
    ∷ record { weight = pos 25; pause_seconds = pos 60 }
    ∷ record { weight = pos 50; pause_seconds = pos 60 }
    ∷ []

-- The demo rollout at a phase, a step, a weight and the states of its metrics.
abbrev pub demo_rollout : String → RolloutPhase → ℤ → ℤ → List (SprtMetricState ℤ) → CanaryRollout ℤ
demo_rollout url phase step weight states = record {
  namespace = "statgate-demo";
  name = "demo-rollout";
  creation_timestamp = pos 0;
  spec = record {
    target_ref = "demo-canary";
    stable_service_ref = "demo-stable";
    canary_service_ref = "demo-canary";
    virtual_service_ref = "demo-vs";
    steps = demo_steps;
    paused = false;
    abort = false;
    prometheus_url = url;
    analysis = some demo_analysis;
  };
  status = record {
    phase = phase;
    current_step = step;
    current_weight = weight;
    last_transition_time = pos 0;
    message = "";
    analysis_state = states;
  };
}

abbrev pub demo_key : ObjectKey
demo_key = record { namespace = "statgate-demo"; name = "demo-rollout" }

abbrev pub ready_pod : Pod
ready_pod = record { conditions = record { condition_type = "Ready"; status = "True" } ∷ [] }

abbrev pub demo_deployment : Deployment
demo_deployment = record { selector = some [] }

-- Every call succeeds; the clock stands still, and each query has one sample.
abbrev quotient : ℤ → ℕ → ℤ
quotient (pos n) k = pos (n / k)
quotient (negsuc n) k = negsuc (n / k)

abbrev pub demo_env : CanaryRollout ℤ → ℤ → ℤ → Env ℤ Object
demo_env r clock sample = record {
  rollout_at = λ h k. inr r;
  virtual_service_at = λ h k. inr demo_virtual_service;
  deployment_at = λ h k. inr demo_deployment;
  pods_at = λ h ns labels. inr (ready_pod ∷ []);
  virtual_service_written = λ h v. inr tt;
  status_written = λ h r'. inr tt;
  now_at = λ h. clock;
  client_created = λ h url. inr tt;
  query_answer = λ h url q. inr (vector (sample ∷ []));
  format_float = λ f. "?";
  quote = λ s. s;
  parse_flags = λ verb flags. inr (record {
    namespace = "statgate-demo";
    kubeconfig = "";
    file = "rollout.yaml";
    interval = pos 2;
  });
  unmarshal = λ text. inr (record { kind = "CanaryRollout"; rollout = r });
  connected = λ h config. inr tt;
  input_at = λ h file. inr "";
  created = λ h r'. inr tt;
  updated = λ h r'. inr tt;
  deleted = λ h k. inr tt;
  rollouts_at = λ h ns. inr (r ∷ []);
  error_text = λ e. "error";
  variable = λ key. "";
  home_dir = inr "/home";
  file_exists = λ path. true;
  join_path = λ parts. "/home/.kube/config";
  config_loaded = λ config. inr tt;
  scheme_registered = inr tt;
  interrupted_at = λ h. false;
  format = λ verb f. "?";
  clock_text = λ t. "12:00:00";
  duration_text = λ d. "2s";
  seconds_of = λ d. quotient d 1000000000;
  minutes_of = λ d. quotient d 60000000000;
  hours_of = λ d. quotient d 3600000000000;
}
