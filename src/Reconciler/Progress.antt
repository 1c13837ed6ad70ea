-- ===== src/Reconciler/Progress.antt =====
-- That a cycle does its work: the abort that is asked for, and the next step when a pause is over.
use statgate.Prelude.{
  ℤ, pos, true, false, none, some, Option, Bool, not, ◌&&◌, if◌then◌else◌, List, [], ◌∷◌, inr, ◌≡◌,
  refl, ap, ◌∙◌, ◌+ℤ◌, wrap32, leb_ℤ, ltb_ℤ, length, show_ℤ, ◌+s◌,
}
use statgate.Float64.{Float64}
use statgate.Api.{CanaryStep, SprtMetric, SprtAnalysis, CanaryRollout, running, aborted}
use statgate.Actions.{Error, Result, ok, err, wrap, reply, perform, pure, wrapping, ◌>>=◌}
use statgate.Effects.{
  ObjectKey, Env, History, M, get_rollout, update_status, set_gauge, read_clock, canary_weight,
  rollout_phase, now, write_status, set, delete,
}
use statgate.Metrics.{
  record_rollout_phase, record_canary_weight, phase_code, reset_sprt_metric_series,
}
use statgate.Analyzer.{all_promote}
use statgate.VirtualService.{Unstructured}
use statgate.Reconciler.{
  ReconcileResult, set_status, set_weights, reset_series, reset_analysis, has_analysis, advance,
  wait_or_advance, abort_rollout, reconcile_rollout, reconcile, requeue, is_aborted, is_promoted,
  second, seconds,
}
use statgate.Reconciler.Cycle.{reconcile-found}
use statgate.Reconciler.Ends.{returned}

third_of :
    {A : Type 0} (on held asked : Bool) (x y z w : A)
    → on ≡ false
    → asked ≡ true
    → (if on then x else if held && not asked then y else if asked then z else w) ≡ z
third_of true held asked x y z w e d = absurd (cc)
third_of false held false x y z w e d = absurd (cc)
third_of false true true x y z w e d = refl
third_of false false true x y z w e d = refl

pub last_of :
    {A : Type 0} (waits held : Bool) (x y z : A)
    → waits ≡ false
    → held ≡ false
    → (if waits then x else if held then y else z) ≡ z
last_of true held x y z e d = absurd (cc)
last_of false true x y z e d = absurd (cc)
last_of false false x y z e d = refl

module _ {F V : Type 0} ⦃fl : Float64 F⦄ ⦃u : Unstructured V⦄ (env : Env F V) where
  -- The status that an abort stores.
  abbrev pub stopped : CanaryRollout F → ℤ → CanaryRollout F
  stopped r reading = record r {
    status = record r.status {
      phase = aborted;
      current_weight = pos 0;
      last_transition_time = reading;
      message = "Rollout aborted, 100% traffic to stable";
    };
  }

  abort-taken :
      (r : CanaryRollout F) (h : History F V)
      → is_aborted r.status.phase ≡ false
      → r.spec.abort ≡ true
      → reconcile_rollout env r h ≡ abort_rollout env r h
  unfolding reconcile_rollout
  abort-taken r h on asked =
      ap (λ (m : M F V ReconcileResult). m h)
        (third_of (is_aborted r.status.phase) (is_promoted r.status.phase) r.spec.abort _ _ _ _ on
          asked)

  -- A rollout whose abort is asked for, and that is not aborted yet: if the traffic goes back to the
  -- stable service, the cycle then reads the clock, publishes the phase and the weight, and stores
  -- `Aborted` with the weight 0.
  pub reconcile_abort_ok :
      (key : ObjectKey) (h h' : History F V) (r : CanaryRollout F)
      → env.rollout_at h key ≡ inr r
      → is_aborted r.status.phase ≡ false
      → r.spec.abort ≡ true
      → set_weights env r (pos 100) (pos 0) (get_rollout key ∷ h) ≡ (ok tt, h')
      → (reconcile env key h).1
        ≡ update_status (stopped r (env.now_at h'))
          ∷ set_gauge canary_weight (r.namespace ∷ r.name ∷ []) (fl.of_int (pos 0))
          ∷ set_gauge rollout_phase (r.namespace ∷ r.name ∷ []) (fl.of_int (pos 4))
          ∷ read_clock
          ∷ h'
  unfolding abort_rollout set_status record_rollout_phase record_canary_weight phase_code now
      write_status set perform pure wrapping ◌>>=◌
  reconcile_abort_ok key h h' r found on asked moved =
      ap (λ (x : Result ReconcileResult × History F V). x.1)
        (reconcile-found env key h r found ∙ abort-taken r (get_rollout key ∷ h) on asked)
      ∙ rw moved (returned (reply (env.status_written _ _)) _ (requeue (pos 0)))

  -- A rollout whose abort is asked for, and that is not aborted yet: if the traffic cannot be put back
  -- to the stable service, the cycle returns the error and makes no further call, so nothing is stored.
  pub reconcile_abort_error :
      (key : ObjectKey) (h h' : History F V) (r : CanaryRollout F) (e : Error)
      → env.rollout_at h key ≡ inr r
      → is_aborted r.status.phase ≡ false
      → r.spec.abort ≡ true
      → set_weights env r (pos 100) (pos 0) (get_rollout key ∷ h) ≡ (err e, h')
      → reconcile env key h ≡ (err (wrap "rollback weights" e), h')
  unfolding abort_rollout wrapping ◌>>=◌
  reconcile_abort_error key h h' r e found on asked failed =
      reconcile-found env key h r found
      ∙ abort-taken r (get_rollout key ∷ h) on asked
      ∙ rw failed refl

  -- The status of the next step.
  abbrev pub moved_on : CanaryRollout F → ℤ → CanaryRollout F
  moved_on r reading = record r {
    status = record r.status {
      phase = running;
      current_step = wrap32 (r.status.current_step +ℤ pos 1);
      last_transition_time = reading;
      message = "Advancing to step " +s show_ℤ (wrap32 (r.status.current_step +ℤ pos 1));
      analysis_state = [];
    };
  }

  reset_series-ok :
      (r : CanaryRollout F) (ms : List (SprtMetric F)) (h : History F V)
      → (reset_series env r ms h).0 ≡ ok tt
  unfolding reset_series reset_sprt_metric_series delete perform pure ◌>>=◌
  reset_series-ok r [] h = refl
  reset_series-ok r (m ∷ ms) h = reset_series-ok r ms _

  pub reset_analysis-ok :
      (r : CanaryRollout F) (a : Option (SprtAnalysis F)) (h : History F V)
      → reset_analysis env r a h ≡ (ok tt, (reset_analysis env r a h).1)
  unfolding reset_analysis pure
  reset_analysis-ok r none h = refl
  reset_analysis-ok r (some a) h =
      ap (λ (x : Result (Unit {0})). (x, (reset_series env r a.metrics h).1))
        (reset_series-ok r a.metrics h)

  pub advance-moves :
      (r : CanaryRollout F) (h h' : History F V)
      → reset_analysis env r r.spec.analysis h ≡ (ok tt, h')
      → leb_ℤ (pos (length r.spec.steps)) (wrap32 (r.status.current_step +ℤ pos 1)) ≡ false
      → (advance env r h).1
        ≡ update_status (moved_on r (env.now_at h'))
          ∷ set_gauge canary_weight (r.namespace ∷ r.name ∷ []) (fl.of_int r.status.current_weight)
          ∷ set_gauge rollout_phase (r.namespace ∷ r.name ∷ []) (fl.of_int (pos 1))
          ∷ read_clock
          ∷ h'
  unfolding advance set_status record_rollout_phase record_canary_weight phase_code now write_status
      set perform pure ◌>>=◌
  advance-moves r h h' cleared more =
      rw (cleared, more) (returned (reply (env.status_written _ _)) _ (requeue second))

  -- When the pause of a step is over, and there was no pause, or no analysis, or every metric is
  -- promoted, and there is a next step, then after the metrics' gauges are cleared the next step is
  -- stored as running, with a new timer, no analysis states, and the weight as it was.
  pub wait_or_advance_over :
      (r : CanaryRollout F) (step : CanaryStep) (elapsed : ℤ) (h : History F V)
      → ltb_ℤ elapsed (seconds step.pause_seconds) ≡ false
      → (ltb_ℤ (pos 0) (seconds step.pause_seconds)
          && (has_analysis r.spec.analysis && not (all_promote r.status.analysis_state)))
        ≡ false
      → leb_ℤ (pos (length r.spec.steps)) (wrap32 (r.status.current_step +ℤ pos 1)) ≡ false
      → let h' = (reset_analysis env r r.spec.analysis h).1 in
        (wait_or_advance env r step elapsed h).1
        ≡ update_status (moved_on r (env.now_at h'))
          ∷ set_gauge canary_weight (r.namespace ∷ r.name ∷ []) (fl.of_int r.status.current_weight)
          ∷ set_gauge rollout_phase (r.namespace ∷ r.name ∷ []) (fl.of_int (pos 1))
          ∷ read_clock
          ∷ h'
  unfolding wait_or_advance
  wait_or_advance_over r step elapsed h over open_gate more =
      ap (λ (m : M F V ReconcileResult). (m h).1) (last_of _ _ _ _ _ over open_gate)
      ∙ advance-moves r h _ (reset_analysis-ok r r.spec.analysis h) more
