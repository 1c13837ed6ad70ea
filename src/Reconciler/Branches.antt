-- ===== src/Reconciler/Branches.antt =====
-- The branches of a cycle on the way to the steps.
use statgate.Prelude.{
  ℤ, pos, leb_ℤ, eq_ℤ, Bool, true, false, ◌&&◌, none, some, Option, ◌∷◌, ◌≡◌, refl, ap, ◌∙◌, length,
  arith,
}
use statgate.Float64.{Float64}
use statgate.Api.{CanaryStep, SprtAnalysis, CanaryRollout}
use statgate.Actions.{ok, perform, wrapping, ◌>>=◌}
use statgate.Effects.{Env, History, M, read_clock, now}
use statgate.VirtualService.{Unstructured}
use statgate.Reconciler.{
  ReconcileResult, is_canary_ready, step_at, progress, run_step, apply_weight, analyse,
  wait_or_advance, has_analysis, since, reconcile_rollout,
}
use statgate.Reconciler.Transition.{is_active}

gate_open : (a b c : Bool) → b ≡ false → (a && (b && c)) ≡ false
gate_open false b c e = refl
gate_open true false c e = refl
gate_open true true c e = absurd (cc)

module _ {F V : Type 0} ⦃fl : Float64 F⦄ ⦃u : Unstructured V⦄ (env : Env F V) where
  -- A rollout that runs, with nothing asked for, comes to its steps.
  pub reconcile_rollout-runs :
      (r : CanaryRollout F) (h : History F V)
      → is_active r.status.phase ≡ true
      → r.spec.abort ≡ false
      → r.spec.paused ≡ false
      → reconcile_rollout env r h ≡ progress env r h
  unfolding reconcile_rollout
  reconcile_rollout-runs r h on stop halt = ground arith

  pub progress-steps :
      (r : CanaryRollout F) (c : CanaryStep) (h h' : History F V)
      → leb_ℤ (pos (length r.spec.steps)) r.status.current_step ≡ false
      → step_at r.spec.steps r.status.current_step ≡ some c
      → is_canary_ready env r.namespace r.spec.target_ref h ≡ (ok true, h')
      → progress env r h ≡ run_step env r (some c) h'
  unfolding progress wrapping ◌>>=◌
  progress-steps r c h h' more found ready = rw (more, found, ready) refl

  analyse-none :
      (r : CanaryRollout F) (c : CanaryStep) (elapsed : ℤ) (a : Option (SprtAnalysis F))
      → a ≡ none
      → analyse env r c elapsed a ≡ wait_or_advance env r c elapsed
  unfolding analyse
  analyse-none r c elapsed none e = refl
  analyse-none r c elapsed (some a) e = absurd (ground arith)

  pub run_step-weigh :
      (r : CanaryRollout F) (c : CanaryStep) (h : History F V)
      → eq_ℤ r.status.current_weight c.weight ≡ false
      → run_step env r (some c) h ≡ apply_weight env r c (read_clock ∷ h)
  unfolding run_step now perform ◌>>=◌
  run_step-weigh r c h e = rw e refl

  pub run_step-analyse :
      (r : CanaryRollout F) (c : CanaryStep) (h : History F V)
      → eq_ℤ r.status.current_weight c.weight ≡ true
      → run_step env r (some c) h
        ≡ analyse env r c
            (since (env.now_at h) r.status.last_transition_time)
            r.spec.analysis
            (read_clock ∷ h)
  unfolding run_step now perform ◌>>=◌
  run_step-analyse r c h e = rw e refl

  pub run_step-time :
      (r : CanaryRollout F) (c : CanaryStep) (h : History F V)
      → eq_ℤ r.status.current_weight c.weight ≡ true
      → r.spec.analysis ≡ none
      → run_step env r (some c) h
        ≡ wait_or_advance env r c
            (since (env.now_at h) r.status.last_transition_time)
            (read_clock ∷ h)
  run_step-time r c h e plain =
      run_step-analyse r c h e
      ∙ ap (λ (m : M F V ReconcileResult). m (read_clock ∷ h)) (analyse-none r c _ _ plain)

  pub no_gate :
      (r : CanaryRollout F) (paused all : Bool)
      → r.spec.analysis ≡ none
      → (paused && (has_analysis r.spec.analysis && all)) ≡ false
  no_gate r paused all plain = gate_open paused _ all (ap has_analysis plain)
