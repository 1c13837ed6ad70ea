-- ===== src/Reconciler.antt =====
-- internal/controller/reconciler.go: one reconcile cycle of a CanaryRollout.
pub mod Transition
pub mod Analysis
pub mod Refinement
pub mod Safety
pub mod Cycle
pub mod Runs
pub mod Updates
pub mod Unasked
pub mod Waits
pub mod Ends
pub mod Progress
mod Branches
pub mod Rollback
pub mod Cleared
pub mod Advance
pub mod Promotion
use statgate.Prelude.{
  ℤ, pos, negsuc, Bool, true, false, not, String, Option, none, some, List, [], ◌∷◌, ◌⊎◌, inl, inr,
  ◌&&◌, ◌||◌, ◌+ℤ◌, ◌-ℤ◌, ◌*ℤ◌, wrap32, wrap64, saturate64, ltb_ℤ, leb_ℤ, eq_ℤ, if◌then◌else◌,
  str_eq, show_ℤ, ◌+s◌, length, get_elem?,
}
use statgate.Float64.{Float64}
use statgate.Api.{
  CanaryStep, SprtMetric, SprtAnalysis, SprtMetricState, CanaryRollout, CanaryRolloutStatus,
  RolloutPhase, empty, pending, running, paused, promoted, aborted, failed,
}
use statgate.Actions.{
  Error, is_not_found, pure, fail, crash, wrapping, ignoring, attempt, ◌>>=◌, ◌>>◌,
}
use statgate.Effects.{
  ObjectKey, PodCondition, Pod, Labels, Deployment, Env, M, now, fetch_rollout, fetch_deployment,
  fetch_pods, write_status,
}
use statgate.VirtualService.{Unstructured, set_virtual_service_weights}
use statgate.Metrics.{record_canary_weight, record_rollout_phase, reset_sprt_metric_series}
use statgate.Analyzer.{
  SprtDecision, keep_observing, promote_all, roll_back, Report, run_sprt, all_promote,
}

-- `ctrl.Result`, of which the code sets one field. Where the code returns a result beside an error,
-- the model returns the error: the controller runtime looks at the result only without one.
pub record ReconcileResult : Type 0 where
  pub requeue_after : ℤ

abbrev pub requeue : ℤ → ReconcileResult
requeue d = record { requeue_after = d }

-- Durations count nanoseconds.
abbrev pub second : ℤ
second = pos 1000000000

-- `time.Duration(n) * time.Second`
unfoldable pub seconds : ℤ → ℤ
seconds n = wrap64 (n *ℤ second)

abbrev pub readiness_timeout : ℤ
readiness_timeout = pos 300000000000

-- `time.Since(t)` at the clock's reading
unfoldable pub since : ℤ → ℤ → ℤ
since reading t = saturate64 (reading -ℤ t)

abbrev pub is_aborted : RolloutPhase → Bool
is_aborted aborted = true
is_aborted _ = false

abbrev pub is_promoted : RolloutPhase → Bool
is_promoted promoted = true
is_promoted _ = false

abbrev pub is_paused : RolloutPhase → Bool
is_paused paused = true
is_paused _ = false

-- `Phase == "" || Phase == PhasePending`
abbrev pub is_new : RolloutPhase → Bool
is_new empty = true
is_new pending = true
is_new _ = false

abbrev pub is_roll_back : SprtDecision → Bool
is_roll_back roll_back = true
is_roll_back _ = false

-- `steps[i]`, where `none` is an index out of range.
abbrev pub step_at : List CanaryStep → ℤ → Option CanaryStep
step_at steps (pos i) = get_elem? steps i
step_at steps (negsuc i) = none

abbrev pub is_ready_condition : PodCondition → Bool
is_ready_condition c = str_eq c.condition_type "Ready" && str_eq c.status "True"

abbrev pub any_condition : List PodCondition → Bool
any_condition [] = false
any_condition (c ∷ cs) = is_ready_condition c || any_condition cs

abbrev pub any_ready : List Pod → Bool
any_ready [] = false
any_ready (p ∷ ps) = any_condition p.conditions || any_ready ps

-- `analysisInterval`
abbrev pub analysis_interval : {F : Type 0} → Option (SprtAnalysis F) → ℤ
analysis_interval none = seconds (pos 10)
analysis_interval (some a) =
    if ltb_ℤ (pos 0) a.analysis_interval_seconds
    then seconds a.analysis_interval_seconds
    else seconds (pos 10)

abbrev pub has_analysis : {F : Type 0} → Option (SprtAnalysis F) → Bool
has_analysis none = false
has_analysis (some a) = true

module _ {F V : Type 0} ⦃fl : Float64 F⦄ ⦃u : Unstructured V⦄ (env : Env F V) where
  unfoldable pub set_status : CanaryRollout F → RolloutPhase → ℤ → ℤ → String → M F V (Unit {0})
  set_status r phase step weight message = do
    reading ← now env
    record_rollout_phase env r.namespace r.name phase
    record_canary_weight env r.namespace r.name weight
    write_status env (record r {
      status = record r.status {
        phase = phase;
        current_step = step;
        current_weight = weight;
        last_transition_time = reading;
        message = message;
      };
    })

  pub pods_of : String → String → Option Labels → M F V Bool
  pods_of ns deployment_name none = crash
  pods_of ns deployment_name (some labels) = do
    pods ← wrapping ("list pods for " +s deployment_name) (fetch_pods env ns labels)
    pure (any_ready pods)

  -- A deployment whose selector is nil makes the function panic.
  unfoldable pub is_canary_ready : String → String → M F V Bool
  unfolding pods_of
  is_canary_ready ns deployment_name = do
    deployment ←
        wrapping ("get deployment " +s deployment_name)
          (fetch_deployment env (record { namespace = ns; name = deployment_name }))
    pods_of ns deployment_name deployment.selector

  -- `SetVirtualServiceWeights` with the rollout's services.
  unfoldable pub set_weights : CanaryRollout F → ℤ → ℤ → M F V (Unit {0})
  set_weights r stable canary =
      set_virtual_service_weights env r.namespace r.spec.virtual_service_ref
        r.spec.stable_service_ref stable r.spec.canary_service_ref canary

  reset_series : CanaryRollout F → List (SprtMetric F) → M F V (Unit {0})
  reset_series r [] = pure tt
  reset_series r (m ∷ ms) =
      reset_sprt_metric_series env r.namespace r.name m.name >> reset_series r ms

  pub reset_analysis : CanaryRollout F → Option (SprtAnalysis F) → M F V (Unit {0})
  reset_analysis r none = pure tt
  reset_analysis r (some a) = reset_series r a.metrics

  -- "Advance to next step", with the rollout as the analysis left it.
  pub advance : CanaryRollout F → M F V ReconcileResult
  advance r = do
    reset_analysis r r.spec.analysis
    let cleared = record r { status = record r.status { analysis_state = [] } }
    let next = wrap32 (r.status.current_step +ℤ pos 1)
    if leb_ℤ (pos (length r.spec.steps)) next
        then (do
          set_status cleared promoted next (pos 100) "Rollout promoted, 100% traffic to canary"
          pure (requeue (pos 0)))
        else (do
          set_status cleared running next r.status.current_weight
              ("Advancing to step " +s show_ℤ next)
          pure (requeue second))

  -- From the timer check on.
  pub wait_or_advance : CanaryRollout F → CanaryStep → ℤ → M F V ReconcileResult
  wait_or_advance r step elapsed =
      let pause = seconds step.pause_seconds in
      let interval = analysis_interval r.spec.analysis in
      let remaining = wrap64 (pause -ℤ elapsed) in
      if ltb_ℤ elapsed pause
      then (do
        write_status env r
        pure (requeue (if ltb_ℤ remaining interval then remaining else interval)))
      else if ltb_ℤ (pos 0) pause
          && (has_analysis r.spec.analysis && not (all_promote r.status.analysis_state))
      then (do
        write_status env (record r {
          status = record r.status {
            message =
                "Step "
                +s show_ℤ r.status.current_step
                +s ": timer elapsed, waiting for SPRT promote decision";
          };
        })
        pure (requeue interval))
      else advance r

  -- The rollout with the analysis' outcome in memory.
  abbrev pub with_report : CanaryRollout F → Report F → CanaryRollout F
  with_report r report = record r {
    status = record r.status { analysis_state = report.states; message = report.reason };
  }

  pub after_analysis : CanaryRollout F → CanaryStep → ℤ → Error ⊎ Report F → M F V ReconcileResult
  after_analysis r step elapsed (inl e) = pure (requeue (seconds (pos 15)))
  after_analysis r step elapsed (inr report) =
      if is_roll_back report.decision
      then (do
        ignoring (set_weights r (pos 100) (pos 0))
        set_status (with_report r report) aborted r.status.current_step (pos 0)
            ("SPRT rollback at step " +s show_ℤ r.status.current_step +s ": " +s report.reason)
        pure (requeue (pos 0)))
      else wait_or_advance (with_report r report) step elapsed

  pub analyse : CanaryRollout F → CanaryStep → ℤ → Option (SprtAnalysis F) → M F V ReconcileResult
  analyse r step elapsed none = wait_or_advance r step elapsed
  analyse r step elapsed (some a) =
      if str_eq r.spec.prometheus_url "" then wait_or_advance r step elapsed else (do
        outcome ←
            attempt
              (run_sprt env r.spec.prometheus_url r.namespace r.name a r.status.analysis_state)
        after_analysis r step elapsed outcome)

  pub apply_weight : CanaryRollout F → CanaryStep → M F V ReconcileResult
  apply_weight r step = do
    wrapping ("set weights at step " +s show_ℤ r.status.current_step)
        (set_weights r (wrap32 (pos 100 -ℤ step.weight)) step.weight)
    set_status r running r.status.current_step step.weight (
        "Step "
        +s show_ℤ r.status.current_step
        +s ": canary weight set to "
        +s show_ℤ step.weight
        +s "%")
    pure (requeue (seconds step.pause_seconds))

  -- From "Current step" on; `none` is the panic of an index out of range.
  pub run_step : CanaryRollout F → Option CanaryStep → M F V ReconcileResult
  run_step r none = crash
  run_step r (some step) = do
    reading ← now env
    if not (eq_ℤ r.status.current_weight step.weight)
        then apply_weight r step
        else analyse r step (since reading r.status.last_transition_time) r.spec.analysis

  pub not_ready : CanaryRollout F → M F V ReconcileResult
  not_ready r = do
    reading ← now env
    if ltb_ℤ readiness_timeout (since reading r.status.last_transition_time)
        then (do
          ignoring (set_weights r (pos 100) (pos 0))
          set_status r failed r.status.current_step (pos 0)
              "Canary pods not ready, timeout exceeded"
          pure (requeue (pos 0)))
        else pure (requeue (seconds (pos 10)))

  -- Behind "Initialize".
  pub progress : CanaryRollout F → M F V ReconcileResult
  progress r =
      if leb_ℤ (pos (length r.spec.steps)) r.status.current_step
      then (do
        set_status r promoted r.status.current_step (pos 100)
            "Rollout promoted, 100% traffic to canary"
        pure (requeue (pos 0)))
      else (do
        ready ← wrapping "check canary readiness" (is_canary_ready r.namespace r.spec.target_ref)
        if ready then run_step r (step_at r.spec.steps r.status.current_step) else not_ready r)

  pub abort_rollout : CanaryRollout F → M F V ReconcileResult
  abort_rollout r = do
    wrapping "rollback weights" (set_weights r (pos 100) (pos 0))
    set_status r aborted r.status.current_step (pos 0) "Rollout aborted, 100% traffic to stable"
    pure (requeue (pos 0))

  pub pause_rollout : CanaryRollout F → M F V ReconcileResult
  pause_rollout r =
      if not (is_paused r.status.phase)
      then (do
        set_status r paused r.status.current_step r.status.current_weight "Rollout paused by user"
        pure (requeue (pos 0)))
      else pure (requeue (pos 0))

  pub reconcile_rollout : CanaryRollout F → M F V ReconcileResult
  reconcile_rollout r =
      if is_aborted r.status.phase
      then pure (requeue (pos 0))
      else if is_promoted r.status.phase && not r.spec.abort
      then pure (requeue (pos 0))
      else if r.spec.abort
      then abort_rollout r
      else if r.spec.paused
      then pause_rollout r
      else if is_paused r.status.phase
      then (do
        set_status r running r.status.current_step r.status.current_weight "Rollout resumed"
        pure (requeue second))
      else if is_new r.status.phase
      then (do set_status r running (pos 0) (pos 0) "Rollout started"; pure (requeue second))
      else progress r

  pub reconcile_fetched : Error ⊎ CanaryRollout F → M F V ReconcileResult
  reconcile_fetched (inl e) = if is_not_found e then pure (requeue (pos 0)) else fail e
  reconcile_fetched (inr r) = reconcile_rollout r

  unfoldable pub reconcile : ObjectKey → M F V ReconcileResult
  unfolding reconcile_fetched reconcile_rollout pause_rollout abort_rollout progress not_ready
      run_step apply_weight analyse after_analysis wait_or_advance advance reset_analysis
      reset_series set_weights is_canary_ready pods_of
  reconcile key = do found ← attempt (fetch_rollout env key); reconcile_fetched found
