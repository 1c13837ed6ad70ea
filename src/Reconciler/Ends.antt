-- ===== src/Reconciler/Ends.antt =====
-- What a rollback stores where the traffic cannot be put back.
use statgate.Prelude.{ℤ, pos, [], ◌∷◌, inr, ◌≡◌, refl, show_ℤ, ◌+s◌}
use statgate.Float64.{Float64}
use statgate.Api.{CanaryStep, CanaryRollout, aborted}
use statgate.Actions.{
  Error, Result, ok, err, panic, continue, reply, perform, pure, ignoring, ◌>>=◌,
}
use statgate.Effects.{
  Env, History, update_status, set_gauge, read_clock, canary_weight, rollout_phase, now,
  write_status, set,
}
use statgate.Metrics.{record_rollout_phase, record_canary_weight, phase_code}
use statgate.VirtualService.{Unstructured}
use statgate.Analyzer.{roll_back, Report}
use statgate.Reconciler.{set_status, set_weights, after_analysis, with_report, requeue}

pub returned :
    {F V A B : Type 0} (x : Result A) (h : History F V) (b : B)
    → (continue (x, h) (λ _. pure b)).1 ≡ h
unfolding pure
returned (ok a) h b = refl
returned (err e) h b = refl
returned panic h b = refl

module _ {F V : Type 0} ⦃fl : Float64 F⦄ ⦃u : Unstructured V⦄ (env : Env F V) where
  -- The status that a rollback stores.
  abbrev pub rolled_back : CanaryRollout F → Report F → ℤ → CanaryRollout F
  rolled_back r report reading = record (with_report env r report) {
    status = record (with_report env r report).status {
      phase = aborted;
      current_weight = pos 0;
      last_transition_time = reading;
      message = "SPRT rollback at step " +s show_ℤ r.status.current_step +s ": " +s report.reason;
    };
  }

  -- If the VirtualService cannot be patched, a rollback of the analysis stores `Aborted` with the
  -- weight 0 all the same: after the calls of the failed patch come the reading of the clock, two
  -- gauges and the update, and no second attempt.
  pub after_analysis_unpatched :
      (r : CanaryRollout F) (step : CanaryStep) (elapsed : ℤ) (report : Report F)
      (h h' : History F V) (e : Error)
      → report.decision ≡ roll_back
      → set_weights env r (pos 100) (pos 0) h ≡ (err e, h')
      → (after_analysis env r step elapsed (inr report) h).1
        ≡ update_status (rolled_back r report (env.now_at h'))
          ∷ set_gauge canary_weight (r.namespace ∷ r.name ∷ []) (fl.of_int (pos 0))
          ∷ set_gauge rollout_phase (r.namespace ∷ r.name ∷ []) (fl.of_int (pos 4))
          ∷ read_clock
          ∷ h'
  unfolding after_analysis set_status record_rollout_phase record_canary_weight phase_code now
      write_status set perform pure ignoring ◌>>=◌
  after_analysis_unpatched r step elapsed report h h' e d failed =
      rw (d, failed) (returned (reply (env.status_written _ _)) _ (requeue (pos 0)))
