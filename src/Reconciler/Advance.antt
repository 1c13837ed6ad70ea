-- ===== src/Reconciler/Advance.antt =====
-- That a cycle goes on when a step is over: to the next step, or to the promotion.
use statgate.Prelude.{
  ℤ, pos, true, false, none, some, Option, Bool, Bool-cases, not, ◌&&◌, [], ◌∷◌, inl, inr, ◌≡◌, ◌≢◌,
  refl, ap, ◌∙◌, ◌+ℤ◌, wrap32, leb_ℤ, ltb_ℤ, eq_ℤ, str_eq, length, arith,
}
use statgate.Float64.{Float64}
use statgate.Api.{CanaryStep, SprtAnalysis, CanaryRollout, promoted}
use statgate.Actions.{Result, ok, reply, perform, pure, ◌>>=◌}
use statgate.Effects.{
  ObjectKey, Env, History, M, get_rollout, update_status, set_gauge, read_clock, canary_weight,
  rollout_phase, now, write_status, set,
}
use statgate.Metrics.{record_rollout_phase, record_canary_weight, phase_code}
use statgate.VirtualService.{Unstructured}
use statgate.Analyzer.{SprtDecision, roll_back, all_promote, Report, run_sprt}
use statgate.Reconciler.{
  ReconcileResult, requeue, is_canary_ready, step_at, since, seconds, has_analysis, reset_analysis,
  is_roll_back, analyse, after_analysis, with_report, wait_or_advance, advance, set_status,
  reconcile,
}
use statgate.Reconciler.Transition.{is_active}
use statgate.Reconciler.Branches.{reconcile_rollout-runs, progress-steps, run_step-analyse}
use statgate.Reconciler.Cycle.{reconcile-found}
use statgate.Reconciler.Cleared.{metrics_of, unpublished, reset_analysis-unpublished}
use statgate.Reconciler.Ends.{returned}
use statgate.Reconciler.Progress.{last_of, moved_on, advance-moves}
use statgate.Reconciler.Rollback.{analyse-some}

-- The gate after a pause, shut only for a metric that is not promoted.
gate_open :
    (long configured all : Bool)
    → (long ≡ true → configured ≡ true → all ≡ true)
    → (long && (configured && not all)) ≡ false
gate_open false configured all g = refl
gate_open true false all g = refl
gate_open true true true g = refl
gate_open true true false g = absurd (let q = g refl refl in ground arith)

goes_on : (d : SprtDecision) → d ≢ roll_back → is_roll_back d ≡ false
goes_on d n = elim (Bool-cases (is_roll_back d)) [
  | inl back ↦ absurd (n (ground arith))
  | inr on ↦ on
]

module _ {F V : Type 0} ⦃fl : Float64 F⦄ ⦃u : Unstructured V⦄ (env : Env F V) where
  -- What the analysis leaves of a rollout and of the history: both as they are if there is none to run,
  -- and else the rollout with the report, which is no rollback.
  pub data Analysed (r : CanaryRollout F) (h : History F V)
      : CanaryRollout F → History F V → Type 0 where
    unconfigured : r.spec.analysis ≡ none → Analysed r h r h
    unaddressed : str_eq r.spec.prometheus_url "" ≡ true → Analysed r h r h
    examined :
        (a : SprtAnalysis F) (report : Report F) (h' : History F V)
        → r.spec.analysis ≡ some a
        → str_eq r.spec.prometheus_url "" ≡ false
        → run_sprt env r.spec.prometheus_url r.namespace r.name a r.status.analysis_state h
          ≡ (ok report, h')
        → report.decision ≢ roll_back
        → Analysed r h (with_report env r report) h'

  -- A rollout that is on its way, with no abort or pause asked for, whose pods are ready and whose step
  -- `c` has its weight; the pods are listed by `seen`.
  pub record IsAtWeight (key : ObjectKey) (h : History F V) (r : CanaryRollout F) (c : CanaryStep)
      (seen : History F V) : Type 0 where
    pub found : env.rollout_at h key ≡ inr r
    pub on : is_active r.status.phase ≡ true
    pub no_abort : r.spec.abort ≡ false
    pub no_pause : r.spec.paused ≡ false
    pub within : leb_ℤ (pos (length r.spec.steps)) r.status.current_step ≡ false
    pub at : step_at r.spec.steps r.status.current_step ≡ some c
    pub weighed : eq_ℤ r.status.current_weight c.weight ≡ true
    pub ready :
        is_canary_ready env r.namespace r.spec.target_ref (get_rollout key ∷ h) ≡ (ok true, seen)

  analyse-skips :
      (r : CanaryRollout F) (c : CanaryStep) (elapsed : ℤ) (o : Option (SprtAnalysis F))
      (h : History F V)
      → str_eq r.spec.prometheus_url "" ≡ true
      → analyse env r c elapsed o h ≡ wait_or_advance env r c elapsed h
  unfolding analyse
  analyse-skips r c elapsed none h url = refl
  analyse-skips r c elapsed (some a) h url = rw url refl

  analyse-unconfigured :
      (r : CanaryRollout F) (c : CanaryStep) (elapsed : ℤ) (o : Option (SprtAnalysis F))
      (h : History F V)
      → o ≡ none
      → analyse env r c elapsed o h ≡ wait_or_advance env r c elapsed h
  unfolding analyse
  analyse-unconfigured r c elapsed none h e = refl
  analyse-unconfigured r c elapsed (some a) h e = absurd (ground arith)

  after_analysis-goes_on :
      (r : CanaryRollout F) (c : CanaryStep) (elapsed : ℤ) (report : Report F) (h : History F V)
      → report.decision ≢ roll_back
      → after_analysis env r c elapsed (inr report) h
        ≡ wait_or_advance env (with_report env r report) c elapsed h
  unfolding after_analysis
  after_analysis-goes_on r c elapsed report h n = rw (goes_on report.decision n) refl

  analyse-Analysed :
      (r r' : CanaryRollout F) (c : CanaryStep) (elapsed : ℤ) (h h' : History F V)
      → Analysed r h r' h'
      → analyse env r c elapsed r.spec.analysis h ≡ wait_or_advance env r' c elapsed h'
  analyse-Analysed r r' c elapsed h h' (unconfigured e) =
      analyse-unconfigured r c elapsed r.spec.analysis h e
  analyse-Analysed r r' c elapsed h h' (unaddressed e) =
      analyse-skips r c elapsed r.spec.analysis h e
  analyse-Analysed r r' c elapsed h h' (examined a report _ configured url ran n) =
      analyse-some env r c elapsed a r.spec.analysis report h h' configured url ran
      ∙ after_analysis-goes_on r c elapsed report h' n

  -- The status of a promotion behind the last step.
  abbrev pub completed : CanaryRollout F → ℤ → CanaryRollout F
  completed r reading = record r {
    status = record r.status {
      phase = promoted;
      current_step = wrap32 (r.status.current_step +ℤ pos 1);
      current_weight = pos 100;
      last_transition_time = reading;
      message = "Rollout promoted, 100% traffic to canary";
      analysis_state = [];
    };
  }

  advance-completes :
      (r : CanaryRollout F) (h h' : History F V)
      → reset_analysis env r r.spec.analysis h ≡ (ok tt, h')
      → leb_ℤ (pos (length r.spec.steps)) (wrap32 (r.status.current_step +ℤ pos 1)) ≡ true
      → (advance env r h).1
        ≡ update_status (completed r (env.now_at h'))
          ∷ set_gauge canary_weight (r.namespace ∷ r.name ∷ []) (fl.of_int (pos 100))
          ∷ set_gauge rollout_phase (r.namespace ∷ r.name ∷ []) (fl.of_int (pos 3))
          ∷ read_clock
          ∷ h'
  unfolding advance set_status record_rollout_phase record_canary_weight phase_code now write_status
      set perform pure ◌>>=◌
  advance-completes r h h' cleared last =
      rw (cleared, last) (returned (reply (env.status_written _ _)) _ (requeue (pos 0)))

  module _ (key : ObjectKey) (h : History F V) (r : CanaryRollout F) (c : CanaryStep)
      (seen : History F V) (weighed : IsAtWeight key h r c seen) (r' : CanaryRollout F)
      (h' : History F V) (analysed : Analysed r (read_clock ∷ seen) r' h') where
    reconcile-times :
        reconcile env key h
        ≡ wait_or_advance env r' c (since (env.now_at seen) r.status.last_transition_time) h'
    reconcile-times =
        reconcile-found env key h r weighed.found
        ∙ reconcile_rollout-runs env r (get_rollout key ∷ h) weighed.on weighed.no_abort
            weighed.no_pause
        ∙ progress-steps env r c (get_rollout key ∷ h) seen weighed.within weighed.at weighed.ready
        ∙ run_step-analyse env r c seen weighed.weighed
        ∙ analyse-Analysed r r' c _ (read_clock ∷ seen) h' analysed

    reconcile-over :
        ltb_ℤ (since (env.now_at seen) r.status.last_transition_time) (seconds c.pause_seconds)
          ≡ false
        → (ltb_ℤ (pos 0) (seconds c.pause_seconds) ≡ true
            → has_analysis r'.spec.analysis ≡ true
            → all_promote r'.status.analysis_state ≡ true)
        → (reconcile env key h).1 ≡ (advance env r' h').1
    unfolding wait_or_advance
    reconcile-over over gate =
        ap (λ (x : Result ReconcileResult × History F V). x.1) reconcile-times
        ∙ ap (λ (m : M F V ReconcileResult). (m h').1)
            (last_of _ _ _ _ _ over (gate_open _ _ _ gate))

    -- A cycle of a rollout that is on its way, with no abort or pause asked for, whose pods are ready and
    -- whose step has its weight, and that the analysis, if there is one to run, does not roll back: if the
    -- pause is over, and if with a pause above 0 and an analysis every metric is promoted, and there is a
    -- next step, the three series of each metric are deleted, the clock is read, the phase and the weight
    -- are published, and the next step is stored as running, with a new timer, no analysis states and the
    -- weight as it was.
    pub reconcile_advances :
        ltb_ℤ (since (env.now_at seen) r.status.last_transition_time) (seconds c.pause_seconds)
          ≡ false
        → (ltb_ℤ (pos 0) (seconds c.pause_seconds) ≡ true
            → has_analysis r'.spec.analysis ≡ true
            → all_promote r'.status.analysis_state ≡ true)
        → leb_ℤ (pos (length r'.spec.steps)) (wrap32 (r'.status.current_step +ℤ pos 1)) ≡ false
        → let cleared = unpublished r' (metrics_of r'.spec.analysis) h' in
          (reconcile env key h).1
          ≡ update_status (moved_on env r' (env.now_at cleared))
            ∷ set_gauge canary_weight
                (r'.namespace ∷ r'.name ∷ [])
                (fl.of_int r'.status.current_weight)
            ∷ set_gauge rollout_phase (r'.namespace ∷ r'.name ∷ []) (fl.of_int (pos 1))
            ∷ read_clock
            ∷ cleared
    reconcile_advances over gate more =
        reconcile-over over gate
        ∙ advance-moves env r' h' _ (reset_analysis-unpublished env r' r'.spec.analysis h') more

    -- A cycle of a rollout that is on its way, with no abort or pause asked for, whose pods are ready and
    -- whose step has its weight, and that the analysis, if there is one to run, does not roll back: if the
    -- pause is over, and if with a pause above 0 and an analysis every metric is promoted, and there is no
    -- next step, the three series of each metric are deleted, the clock is read, the phase and the weight
    -- 100 are published, and `Promoted` is stored with the weight 100. There is no write of a
    -- VirtualService among these calls: the traffic keeps the split of the last step.
    pub reconcile_completes :
        ltb_ℤ (since (env.now_at seen) r.status.last_transition_time) (seconds c.pause_seconds)
          ≡ false
        → (ltb_ℤ (pos 0) (seconds c.pause_seconds) ≡ true
            → has_analysis r'.spec.analysis ≡ true
            → all_promote r'.status.analysis_state ≡ true)
        → leb_ℤ (pos (length r'.spec.steps)) (wrap32 (r'.status.current_step +ℤ pos 1)) ≡ true
        → let cleared = unpublished r' (metrics_of r'.spec.analysis) h' in
          (reconcile env key h).1
          ≡ update_status (completed r' (env.now_at cleared))
            ∷ set_gauge canary_weight (r'.namespace ∷ r'.name ∷ []) (fl.of_int (pos 100))
            ∷ set_gauge rollout_phase (r'.namespace ∷ r'.name ∷ []) (fl.of_int (pos 3))
            ∷ read_clock
            ∷ cleared
    reconcile_completes over gate last =
        reconcile-over over gate
        ∙ advance-completes r' h' _ (reset_analysis-unpublished env r' r'.spec.analysis h') last
