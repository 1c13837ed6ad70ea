-- ===== src/Reconciler/Rollback.antt =====
-- That a canary whose analysis finds it degraded loses its traffic in that cycle.
use statgate.Prelude.{
  ℤ, pos, true, false, none, some, Option, [], ◌∷◌, inr, ◌≡◌, refl, ap, ◌∙◌, leb_ℤ, eq_ℤ, str_eq,
  length, arith,
}
use statgate.Float64.{Float64}
use statgate.Api.{CanaryStep, SprtAnalysis, CanaryRollout}
use statgate.Actions.{Error, err, Result, ok, attempt, reply, perform, pure, ignoring, ◌>>=◌}
use statgate.Effects.{
  ObjectKey, Env, History, get_rollout, update_status, set_gauge, read_clock, canary_weight,
  rollout_phase, now, write_status, set,
}
use statgate.Metrics.{record_rollout_phase, record_canary_weight, phase_code}
use statgate.VirtualService.{Unstructured}
use statgate.Analyzer.{roll_back, Report, run_sprt}
use statgate.Reconciler.{
  ReconcileResult, requeue, is_canary_ready, step_at, analyse, after_analysis, set_weights,
  set_status, reconcile,
}
use statgate.Reconciler.Transition.{is_active}
use statgate.Reconciler.Branches.{reconcile_rollout-runs, progress-steps, run_step-analyse}
use statgate.Reconciler.Cycle.{reconcile-found}
use statgate.Reconciler.Ends.{returned, rolled_back, after_analysis_unpatched}

pub with_first : {A H : Type 0} (x : Result A × H) (a : Result A) → x.0 ≡ a → x ≡ (a, x.1)
with_first x a e = ap (λ (z : Result _). (z, x.1)) e

module _ {F V : Type 0} ⦃fl : Float64 F⦄ ⦃u : Unstructured V⦄ (env : Env F V) where
  pub analyse-some :
      (r : CanaryRollout F) (c : CanaryStep) (elapsed : ℤ) (a : SprtAnalysis F)
      (o : Option (SprtAnalysis F)) (report : Report F) (h h' : History F V)
      → o ≡ some a
      → str_eq r.spec.prometheus_url "" ≡ false
      → run_sprt env r.spec.prometheus_url r.namespace r.name a r.status.analysis_state h
        ≡ (ok report, h')
      → analyse env r c elapsed o h ≡ after_analysis env r c elapsed (inr report) h'
  unfolding analyse attempt ◌>>=◌
  analyse-some r c elapsed a none report h h' e url ran = absurd (ground arith)
  analyse-some r c elapsed a (some b) report h h' e url ran =
      let same : b ≡ a = ground arith in rw (same, url, ran) refl

  after_analysis-rolls_back :
      (r : CanaryRollout F) (c : CanaryStep) (elapsed : ℤ) (report : Report F) (h h' : History F V)
      → report.decision ≡ roll_back
      → set_weights env r (pos 100) (pos 0) h ≡ (ok tt, h')
      → (after_analysis env r c elapsed (inr report) h).1
        ≡ update_status (rolled_back env r report (env.now_at h'))
          ∷ set_gauge canary_weight (r.namespace ∷ r.name ∷ []) (fl.of_int (pos 0))
          ∷ set_gauge rollout_phase (r.namespace ∷ r.name ∷ []) (fl.of_int (pos 4))
          ∷ read_clock
          ∷ h'
  unfolding after_analysis set_status record_rollout_phase record_canary_weight phase_code now
      write_status set perform pure ignoring ◌>>=◌
  after_analysis-rolls_back r c elapsed report h h' d moved =
      rw (d, moved) (returned (reply (env.status_written _ _)) _ (requeue (pos 0)))

  -- A cycle of a rollout that is on its way, with no abort or pause asked for, whose pods are ready and
  -- whose step has its weight: if the analysis is configured, with a Prometheus to ask, and its report is a
  -- rollback, and the traffic goes back to the stable service, the cycle then reads the clock, publishes
  -- the phase and the weight, and stores `Aborted` with the weight 0 and the states of the report.
  pub reconcile_rolls_back :
      (key : ObjectKey) (h : History F V) (r : CanaryRollout F) (c : CanaryStep)
      (a : SprtAnalysis F) (report : Report F)
      → env.rollout_at h key ≡ inr r
      → is_active r.status.phase ≡ true
      → r.spec.abort ≡ false
      → r.spec.paused ≡ false
      → leb_ℤ (pos (length r.spec.steps)) r.status.current_step ≡ false
      → step_at r.spec.steps r.status.current_step ≡ some c
      → eq_ℤ r.status.current_weight c.weight ≡ true
      → r.spec.analysis ≡ some a
      → str_eq r.spec.prometheus_url "" ≡ false
      → report.decision ≡ roll_back
      → let ready = is_canary_ready env r.namespace r.spec.target_ref (get_rollout key ∷ h) in
        let analysed =
          run_sprt env r.spec.prometheus_url r.namespace r.name a r.status.analysis_state
            (read_clock ∷ ready.1) in
        let moved = set_weights env r (pos 100) (pos 0) analysed.1 in
        ready.0 ≡ ok true
        → analysed.0 ≡ ok report
        → moved.0 ≡ ok tt
        → (reconcile env key h).1
          ≡ update_status (rolled_back env r report (env.now_at moved.1))
            ∷ set_gauge canary_weight (r.namespace ∷ r.name ∷ []) (fl.of_int (pos 0))
            ∷ set_gauge rollout_phase (r.namespace ∷ r.name ∷ []) (fl.of_int (pos 4))
            ∷ read_clock
            ∷ moved.1
  reconcile_rolls_back key h r c a report found on stop halt within at same configured url d ready
        ran moved =
      ap (λ (x : Result ReconcileResult × History F V). x.1)
        (reconcile-found env key h r found
          ∙ reconcile_rollout-runs env r (get_rollout key ∷ h) on stop halt
          ∙ progress-steps env r c (get_rollout key ∷ h) _ within at (with_first _ _ ready)
          ∙ run_step-analyse env r c _ same
          ∙ analyse-some r c _ a r.spec.analysis report _ _ configured url (with_first _ _ ran))
      ∙ after_analysis-rolls_back r c _ report _ _ d (with_first _ _ moved)

  -- A cycle of a rollout that is on its way, with no abort or pause asked for, whose pods are ready and
  -- whose step has its weight: if the analysis is configured, with a Prometheus to ask, and its report is a
  -- rollback, but the traffic cannot be put back, the cycle stores `Aborted` with the weight 0 all the
  -- same: after the calls of the failed patch come the reading of the clock, the phase, the weight 0 and
  -- the update, and no second attempt.
  pub reconcile_rolls_back_unpatched :
      (key : ObjectKey) (h : History F V) (r : CanaryRollout F) (c : CanaryStep)
      (a : SprtAnalysis F) (report : Report F) (e : Error)
      → env.rollout_at h key ≡ inr r
      → is_active r.status.phase ≡ true
      → r.spec.abort ≡ false
      → r.spec.paused ≡ false
      → leb_ℤ (pos (length r.spec.steps)) r.status.current_step ≡ false
      → step_at r.spec.steps r.status.current_step ≡ some c
      → eq_ℤ r.status.current_weight c.weight ≡ true
      → r.spec.analysis ≡ some a
      → str_eq r.spec.prometheus_url "" ≡ false
      → report.decision ≡ roll_back
      → let ready = is_canary_ready env r.namespace r.spec.target_ref (get_rollout key ∷ h) in
        let analysed =
          run_sprt env r.spec.prometheus_url r.namespace r.name a r.status.analysis_state
            (read_clock ∷ ready.1) in
        let moved = set_weights env r (pos 100) (pos 0) analysed.1 in
        ready.0 ≡ ok true
        → analysed.0 ≡ ok report
        → moved.0 ≡ err e
        → (reconcile env key h).1
          ≡ update_status (rolled_back env r report (env.now_at moved.1))
            ∷ set_gauge canary_weight (r.namespace ∷ r.name ∷ []) (fl.of_int (pos 0))
            ∷ set_gauge rollout_phase (r.namespace ∷ r.name ∷ []) (fl.of_int (pos 4))
            ∷ read_clock
            ∷ moved.1
  reconcile_rolls_back_unpatched key h r c a report e found on stop halt within at same configured
        url d ready ran failed =
      ap (λ (x : Result ReconcileResult × History F V). x.1)
        (reconcile-found env key h r found
          ∙ reconcile_rollout-runs env r (get_rollout key ∷ h) on stop halt
          ∙ progress-steps env r c (get_rollout key ∷ h) _ within at (with_first _ _ ready)
          ∙ run_step-analyse env r c _ same
          ∙ analyse-some r c _ a r.spec.analysis report _ _ configured url (with_first _ _ ran))
      ∙ after_analysis_unpatched env r c _ report _ _ e d (with_first _ _ failed)
