-- ===== src/Reconciler/Transition.antt =====
-- The specification of the rollout's state machine: what a reconcile cycle may store in the status.
use statgate.Prelude.{
  ℤ, pos, Bool, true, false, none, some, List, [], ◌⊎◌, ◌≡◌, ◌&&◌, not, ◌+ℤ◌, ◌-ℤ◌, wrap32, ltb_ℤ,
  leb_ℤ, eq_ℤ, str_eq, length, inr,
}
use statgate.Float64.{Float64}
use statgate.Api.{
  CanaryStep, SprtAnalysis, SprtMetricState, CanaryRollout, CanaryRolloutStatus, RolloutPhase,
  running, paused, promoted, aborted, failed,
}
use statgate.Effects.{
  Env, History, Call, update_status, update_virtual_service, create_rollout, update_rollout,
  delete_rollout,
}
use statgate.VirtualService.{Unstructured, named, patch}
use statgate.Analyzer.{roll_back, Report, sprt_bounds, all_promote}
use statgate.Analyzer.Cycles.{IsReport}
use statgate.Reconciler.{
  since, seconds, readiness_timeout, is_aborted, is_promoted, is_paused, is_new, is_roll_back,
  step_at, has_analysis,
}

-- A phase in which a cycle drives the steps. `Failed` is one.
abbrev pub is_active : RolloutPhase → Bool
is_active p = not (is_aborted p) && (not (is_promoted p) && (not (is_paused p) && not (is_new p)))

abbrev pub Becomes : {F : Type 0} → CanaryRolloutStatus F → RolloutPhase → ℤ → ℤ → Type 0
Becomes t phase step weight =
    (t.phase ≡ phase) × (t.current_step ≡ step) × (t.current_weight ≡ weight)

module _ {F : Type 0} ⦃fl : Float64 F⦄ where
  -- The analysis ran on the stored states, and ended with `decision` in the states `after`.
  pub record Analysed (r : CanaryRollout F) (report : Report F) : Type 0 where
    pub analysis : SprtAnalysis F
    pub configured : r.spec.analysis ≡ some analysis
    pub url_set : str_eq r.spec.prometheus_url "" ≡ false
    pub is_report :
        IsReport
          (λ q o. Unit {0})
          (sprt_bounds analysis)
          r.status.analysis_state
          analysis.metrics
          report

  -- The states after the analysis of a cycle that did not roll back: those of the report, or those
  -- stored where there is no analysis or no Prometheus to ask.
  pub data Observed (r : CanaryRollout F) (after : List (SprtMetricState F)) : Type 0 where
    skipped :
        (r.spec.analysis ≡ none) ⊎ (str_eq r.spec.prometheus_url "" ≡ true)
        → after ≡ r.status.analysis_state
        → Observed r after
    analysed :
        (report : Report F)
        → Analysed r report
        → is_roll_back report.decision ≡ false
        → after ≡ report.states
        → Observed r after

  -- The cycle is at a step whose weight is applied.
  pub record AtStep (r : CanaryRollout F) (step : CanaryStep) : Type 0 where
    pub active : is_active r.status.phase ≡ true
    pub going_on : (r.spec.abort ≡ false) × (r.spec.paused ≡ false)
    pub found : step_at r.spec.steps r.status.current_step ≡ some step

  -- `Reads` holds of the values that the clock may show.
  pub data Transition (Reads : ℤ → Type 0) (r : CanaryRollout F) (t : CanaryRolloutStatus F)
      : Type 0 where
    abort :
        r.spec.abort ≡ true
        → is_aborted r.status.phase ≡ false
        → Becomes t aborted r.status.current_step (pos 0)
        → t.analysis_state ≡ r.status.analysis_state
        → Transition Reads r t
    pause :
        r.spec.abort ≡ false
        → r.spec.paused ≡ true
        → is_aborted r.status.phase ≡ false
        → is_promoted r.status.phase ≡ false
        → is_paused r.status.phase ≡ false
        → Becomes t paused r.status.current_step r.status.current_weight
        → t.analysis_state ≡ r.status.analysis_state
        → Transition Reads r t
    resume :
        (r.spec.abort ≡ false) × (r.spec.paused ≡ false)
        → is_paused r.status.phase ≡ true
        → Becomes t running r.status.current_step r.status.current_weight
        → t.analysis_state ≡ r.status.analysis_state
        → Transition Reads r t
    start :
        (r.spec.abort ≡ false) × (r.spec.paused ≡ false)
        → is_new r.status.phase ≡ true
        → Becomes t running (pos 0) (pos 0)
        → t.analysis_state ≡ r.status.analysis_state
        → Transition Reads r t
    -- There are no steps left.
    finish :
        (r.spec.abort ≡ false) × (r.spec.paused ≡ false)
        → is_active r.status.phase ≡ true
        → leb_ℤ (pos (length r.spec.steps)) r.status.current_step ≡ true
        → Becomes t promoted r.status.current_step (pos 100)
        → t.analysis_state ≡ r.status.analysis_state
        → Transition Reads r t
    time_out :
        (r.spec.abort ≡ false) × (r.spec.paused ≡ false)
        → is_active r.status.phase ≡ true
        → leb_ℤ (pos (length r.spec.steps)) r.status.current_step ≡ false
        → (reading : ℤ) → Reads reading
        → ltb_ℤ readiness_timeout (since reading r.status.last_transition_time) ≡ true
        → Becomes t failed r.status.current_step (pos 0)
        → t.analysis_state ≡ r.status.analysis_state
        → Transition Reads r t
    apply :
        (step : CanaryStep)
        → AtStep r step
        → eq_ℤ r.status.current_weight step.weight ≡ false
        → Becomes t running r.status.current_step step.weight
        → t.analysis_state ≡ r.status.analysis_state
        → Transition Reads r t
    roll_back_step :
        (step : CanaryStep)
        → AtStep r step
        → eq_ℤ r.status.current_weight step.weight ≡ true
        → (report : Report F) → Analysed r report
        → report.decision ≡ roll_back
        → Becomes t aborted r.status.current_step (pos 0)
        → t.analysis_state ≡ report.states
        → Transition Reads r t
    -- The step goes on, and only the analysis and the message are stored.
    observe :
        (step : CanaryStep)
        → AtStep r step
        → eq_ℤ r.status.current_weight step.weight ≡ true
        → Observed r t.analysis_state
        → Becomes t r.status.phase r.status.current_step r.status.current_weight
        → t.last_transition_time ≡ r.status.last_transition_time
        → Transition Reads r t
    -- The pause is over, and an analysis, if it is configured and there was a pause, has promoted
    -- every metric.
    advance :
        (step : CanaryStep)
        → AtStep r step
        → eq_ℤ r.status.current_weight step.weight ≡ true
        → (reading : ℤ) → Reads reading
        → ltb_ℤ (since reading r.status.last_transition_time) (seconds step.pause_seconds) ≡ false
        → (after : List (SprtMetricState F)) → Observed r after
        → (ltb_ℤ (pos 0) (seconds step.pause_seconds) ≡ true
            → has_analysis r.spec.analysis ≡ true
            → all_promote after ≡ true)
        → t.analysis_state ≡ []
        → (let next = wrap32 (r.status.current_step +ℤ pos 1) in
            ((leb_ℤ (pos (length r.spec.steps)) next ≡ true) × Becomes t promoted next (pos 100))
            ⊎ ((leb_ℤ (pos (length r.spec.steps)) next ≡ false)
                × Becomes t running next r.status.current_weight))
        → Transition Reads r t

  -- The weights with which a cycle may patch the VirtualService, the stable one first.
  pub data IsSplit (r : CanaryRollout F) (stable canary : ℤ) : Type 0 where
    all_stable : stable ≡ pos 100 → canary ≡ pos 0 → IsSplit r stable canary
    at_step :
        (step : CanaryStep)
        → AtStep r step
        → stable ≡ wrap32 (pos 100 -ℤ step.weight)
        → canary ≡ step.weight
        → IsSplit r stable canary

  module _ {V : Type 0} ⦃u : Unstructured V⦄ where
    -- The VirtualService that the rollout refers to, patched as it was answered at some time.
    pub record IsShift (env : Env F V) (r : CanaryRollout F) (vs' : V) : Type 0 where
      pub vs : V
      pub before : History F V
      pub read :
          env.virtual_service_at before
            (record { namespace = r.namespace; name = r.spec.virtual_service_ref })
          ≡ inr vs
      pub stable : ℤ
      pub canary : ℤ
      pub split : IsSplit r stable canary
      pub patched :
          patch
            (named r.namespace r.spec.virtual_service_ref)
            vs
            r.spec.stable_service_ref
            stable
            r.spec.canary_service_ref
            canary
          ≡ inr vs'

    -- What a cycle on `r` may call: anything that only reads or publishes, a write of a status that is
    -- a transition, with all else as it was read, and a write of a patched VirtualService.
    abbrev pub Allowed : Env F V → (ℤ → Type 0) → CanaryRollout F → Call F V → Type 0
    Allowed env Reads r (update_status r') =
        (r' ≡ record r { status = r'.status }) × Transition Reads r r'.status
    Allowed env Reads r (update_virtual_service vs') = IsShift env r vs'
    Allowed env Reads r (create_rollout r') = ⊥
    Allowed env Reads r (update_rollout r') = ⊥
    Allowed env Reads r (delete_rollout k) = ⊥
    Allowed env Reads r _ = Unit {0}
