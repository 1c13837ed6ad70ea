-- ===== src/Analyzer.antt =====
-- internal/controller/metrics_analyzer.go: one cycle of the sequential probability ratio test.
pub mod Evolution
pub mod Verdicts
pub mod Moves
pub mod Cycles
pub mod Totals
use statgate.Prelude.{
  ℤ, pos, Bool, true, false, String, Option, none, some, List, [], ◌∷◌, ◌++◌, ◌&&◌, ◌||◌, ◌+ℤ◌,
  wrap64, if◌then◌else◌, str_eq, show_ℤ, show_ℕ, ◌+s◌, length, not,
}
use statgate.Float64.{Float64}
use statgate.Api.{
  SprtMetric, SprtAnalysis, SprtMetricState, Verdict, pending, promote, rollback, is_promote,
  is_rollback,
}
use statgate.Actions.{pure, fail, failure, wrapping, ◌>>=◌, ◌>>◌}
use statgate.Effects.{Env, M, now, run_query, new_client, QueryValue, vector, other_value}
use statgate.Metrics.{record_sprt_boundaries, record_sprt_metric_state}

pub data SprtDecision : Type 0 where
  keep_observing promote_all roll_back : SprtDecision

-- What `RunSPRT` returns beside its error.
pub record Report (F : Type 0) : Type 0 where
  pub decision : SprtDecision
  pub states : List (SprtMetricState F)
  pub reason : String

-- The two boundaries of the test.
pub record Bounds (F : Type 0) : Type 0 where
  pub upper : F
  pub lower : F

-- One metric's part of a cycle: its state is appended with nothing published, or it is published and
-- appended, or it is published and ends the whole cycle with a rollback.
pub data Observation (F : Type 0) : Type 0 where
  silent published degraded : SprtMetricState F → Observation F

abbrev pub is_decided : Verdict → Bool
is_decided v = is_promote v || is_rollback v

-- `allPromote` behind its loop, here and in the reconciler.
abbrev pub all_promoted : {F : Type 0} → List (SprtMetricState F) → Bool
all_promoted [] = true
all_promoted (s ∷ ss) = is_promote s.decision && all_promoted ss

abbrev pub all_promote : {F : Type 0} → List (SprtMetricState F) → Bool
all_promote [] = false
all_promote (s ∷ ss) = all_promoted (s ∷ ss)

module _ {F : Type 0} ⦃fl : Float64 F⦄ where
  open fl use {literal, of_int, to_int, add, sub, mul, div, log, lt, le, eq}

  abbrev zero_float : F
  zero_float = of_int (pos 0)

  abbrev one_float : F
  one_float = of_int (pos 1)

  abbrev epsilon : F
  epsilon = literal 1 10

  pub fresh_state : String → SprtMetricState F
  fresh_state name = record {
    name = name;
    log_likelihood = of_int (pos 0);
    observations = pos 0;
    failures = pos 0;
    baseline_rate = of_int (pos 0);
    last_canary_total = of_int (pos 0);
    last_canary_failure = of_int (pos 0);
    decision = pending;
  }

  unfoldable pub find_or_init_state : List (SprtMetricState F) → String → SprtMetricState F
  unfolding fresh_state
  find_or_init_state [] name = fresh_state name
  find_or_init_state (s ∷ ss) name = if str_eq s.name name then s else find_or_init_state ss name

  unfoldable pub sprt_bounds : SprtAnalysis F → Bounds F
  sprt_bounds a = record {
    upper = log (div (sub one_float a.beta) a.alpha);
    lower = log (div a.beta (sub one_float a.alpha));
  }

  -- p0 and p1
  pub baseline : F → F → F
  baseline stable_failure stable_total =
      let p0 = div stable_failure stable_total in if lt p0 epsilon then epsilon else p0

  pub alternative : F → F → F
  alternative p0 delta =
      let p1 = add p0 delta in if le one_float p1 then sub one_float epsilon else p1

  -- Where counters fall, the state starts over from their present values.
  pub restarted : SprtMetric F → F → F → F → SprtMetricState F
  unfolding fresh_state
  restarted metric p0 canary_total canary_failure = record (fresh_state metric.name) {
    last_canary_total = canary_total;
    last_canary_failure = canary_failure;
    baseline_rate = p0;
  }

  -- The update of the likelihood ratio and of the two counts.
  pub accumulated : SprtMetricState F → F → F → F → F → SprtMetricState F
  accumulated s p0 p1 new_total new_failures =
      if lt zero_float new_total
      then record s {
        log_likelihood = add s.log_likelihood (
            add (mul new_failures (log (div p1 p0)))
              (mul (sub new_total new_failures) (log (div (sub one_float p1) (sub one_float p0)))));
        observations = wrap64 (s.observations +ℤ to_int new_total);
        failures = wrap64 (s.failures +ℤ to_int new_failures);
      }
      else s

  -- The comparison with the boundaries.
  pub judge : Bounds F → SprtMetricState F → Observation F
  judge b s =
      if le b.upper s.log_likelihood
      then degraded (record s { decision = rollback })
      else if le s.log_likelihood b.lower
      then published (record s { decision = promote })
      else published s

  -- A cycle of one metric whose four counters are there.
  pub observe : Bounds F → SprtMetric F → SprtMetricState F → F → F → F → F → Observation F
  observe b metric s canary_total canary_failure stable_total stable_failure =
      if eq stable_total zero_float
      then silent s
      else (let p0 = baseline stable_failure stable_total in
          let p1 = alternative p0 metric.delta in
          let new_total = sub canary_total s.last_canary_total in
          let new_failures = sub canary_failure s.last_canary_failure in
          if lt new_total zero_float || lt new_failures zero_float
          then silent (restarted metric p0 canary_total canary_failure)
          else judge b (record (accumulated s p0 p1 new_total new_failures) {
            last_canary_total = canary_total;
            last_canary_failure = canary_failure;
            baseline_rate = p0;
          }))

  -- A counter that is nil skips the cycle.
  pub observe_counters :
      Bounds F
      → SprtMetric F
      → SprtMetricState F
      → Option F
      → Option F
      → Option F
      → Option F
      → Observation F
  observe_counters b metric s (some ct) (some cf) (some st) (some sf) =
      observe b metric s ct cf st sf
  observe_counters b metric s _ _ _ _ = silent s

abbrev first_sample : {F V : Type 0} → QueryValue F → M F V (Option F)
first_sample (vector []) = pure none
first_sample (vector (v ∷ vs)) = pure (some v)
first_sample (other_value type_name) = fail (failure ("expected instant vector, got " +s type_name))

module _ {F V : Type 0} ⦃fl : Float64 F⦄ (env : Env F V) (url ns rollout_name : String) where
  -- `time.Now()` is an argument of the query.
  pub query_scalar : String → M F V (Option F)
  query_scalar q = do _ ← now env; value ← run_query env url q; first_sample value

  abbrev query_text : SprtMetric F → String → String
  query_text metric which = "metric " +s env.quote metric.name +s " " +s which

  pub publish : Observation F → M F V (Observation F)
  publish (silent s) = pure (silent s)
  publish (published s) = record_sprt_metric_state env ns rollout_name s >> pure (published s)
  publish (degraded s) = record_sprt_metric_state env ns rollout_name s >> pure (degraded s)

  -- The body of the loop over the metrics, up to the appending.
  pub run_metric : Bounds F → SprtMetric F → SprtMetricState F → M F V (Observation F)
  run_metric b metric s = if is_decided s.decision then pure (silent s) else (do
    canary_total ←
        wrapping (query_text metric "canaryTotalQuery") (query_scalar metric.canary_total_query)
    canary_failure ←
        wrapping (query_text metric "canaryFailureQuery") (query_scalar metric.canary_failure_query)
    stable_total ←
        wrapping (query_text metric "stableTotalQuery") (query_scalar metric.stable_total_query)
    stable_failure ←
        wrapping (query_text metric "stableFailureQuery") (query_scalar metric.stable_failure_query)
    publish (observe_counters b metric s canary_total canary_failure stable_total stable_failure))

  degradation_text : String → Bounds F → SprtMetricState F → String
  degradation_text name b s =
      "metric "
      +s env.quote name
      +s ": evidence of degradation (Λ="
      +s env.format_float s.log_likelihood
      +s " ≥ A="
      +s env.format_float b.upper
      +s ", p0="
      +s env.format_float s.baseline_rate
      +s ", observed="
      +s show_ℤ s.observations
      +s ", failures="
      +s show_ℤ s.failures
      +s ")"

  -- The statements behind the loop.
  conclude : List (SprtMetricState F) → Report F
  conclude states =
      if all_promote states
      then record {
        decision = promote_all;
        states = states;
        reason = "all metrics passed SPRT (Λ ≤ B for all)";
      }
      else record {
        decision = keep_observing;
        states = states;
        reason = "SPRT: collecting evidence (" +s show_ℕ (length states) +s " metrics tracked)";
      }

  after_metric :
      String
      → Bounds F
      → List (SprtMetricState F)
      → (List (SprtMetricState F) → M F V (Report F))
      → Observation F
      → M F V (Report F)
  after_metric name b done rest (degraded s) = pure (record {
    decision = roll_back;
    states = done ++ (s ∷ []);
    reason = degradation_text name b s;
  })
  after_metric name b done rest (silent s) = rest (done ++ (s ∷ []))
  after_metric name b done rest (published s) = rest (done ++ (s ∷ []))

  -- The loop; `done` is `updatedState` so far.
  run_metrics :
      Bounds F
      → List (SprtMetricState F)
      → List (SprtMetric F)
      → List (SprtMetricState F)
      → M F V (Report F)
  run_metrics b current [] done = pure (conclude done)
  run_metrics b current (m ∷ ms) done =
      run_metric b m (find_or_init_state current m.name)
      >>= after_metric m.name b done (λ done'. run_metrics b current ms done')

  unfoldable pub run_sprt : SprtAnalysis F → List (SprtMetricState F) → M F V (Report F)
  unfolding run_metrics sprt_bounds run_metric after_metric conclude degradation_text query_scalar
      publish observe_counters observe baseline alternative restarted accumulated judge
      find_or_init_state
  run_sprt analysis current = do
    wrapping "create prometheus client" (new_client env url)
    record_sprt_boundaries env ns rollout_name (sprt_bounds analysis).upper
        (sprt_bounds analysis).lower
    run_metrics (sprt_bounds analysis) current analysis.metrics []
