-- ===== src/Reconciler/Promotion/Starts.antt =====
-- The cycle that starts a rollout, or resumes it.
use statgate.Prelude.{
  ℕ, ℤ, pos, Bool, true, false, not, ◌&&◌, String, [], ◌∷◌, ◌≡◌, refl, ap, ◌∙◌, if◌then◌else◌,
  arith,
}
use statgate.Float64.{Float64}
use statgate.Api.{CanaryRollout, RolloutPhase, running}
use statgate.Actions.{pure, ◌>>=◌}
use statgate.Effects.{
  ObjectKey, Env, History, M, update_status, set_gauge, read_clock, canary_weight, rollout_phase,
}
use statgate.Metrics.{phase_code}
use statgate.VirtualService.{Unstructured}
use statgate.Reconciler.{
  ReconcileResult, set_status, reconcile_rollout, is_aborted, is_promoted, is_paused, is_new,
  second, requeue,
}
use statgate.Reconciler.Promotion.{IsServing, with_status, at_step}
use statgate.Reconciler.Promotion.Calls.{set_status-serving}

-- The sixth and the fifth of the branches of a cycle.
starts_of :
    {A : Type 0} (p : RolloutPhase) (stop halt : Bool) (x y z w v t : A)
    → is_new p ≡ true
    → stop ≡ false
    → halt ≡ false
    → (if is_aborted p
        then x
        else if is_promoted p && not stop
        then x
        else if stop
        then y
        else if halt
        then z
        else if is_paused p
        then w
        else if is_new p
        then v
        else t)
      ≡ v
starts_of p stop halt x y z w v t e d g = ground arith

resumes_of :
    {A : Type 0} (p : RolloutPhase) (stop halt : Bool) (x y z w t : A)
    → is_paused p ≡ true
    → stop ≡ false
    → halt ≡ false
    → (if is_aborted p
        then x
        else if is_promoted p && not stop
        then x
        else if stop
        then y
        else if halt
        then z
        else if is_paused p
        then w
        else t)
      ≡ w
resumes_of p stop halt x y z w t e d g = ground arith

module _ {F V : Type 0} ⦃fl : Float64 F⦄ ⦃u : Unstructured V⦄ (env : Env F V) {key : ObjectKey}
    {base s : CanaryRollout F} {tick : ℕ} (serving : IsServing env key base s tick) where
  -- The calls that store a rollout as running.
  abbrev pub run_calls : ℤ → ℤ → String → History F V → History F V
  run_calls step weight message h =
      update_status
        (with_status s (at_step running step weight (env.now_at h) message s.status.analysis_state))
      ∷ set_gauge canary_weight (s.namespace ∷ s.name ∷ []) (fl.of_int weight)
      ∷ set_gauge rollout_phase (s.namespace ∷ s.name ∷ []) (fl.of_int (pos 1))
      ∷ read_clock
      ∷ h

  set_running :
      (step weight : ℤ) (message : String) (h : History F V)
      → ((set_status env s running step weight message >>= λ _. pure (requeue second)) h).1
        ≡ run_calls step weight message h
  unfolding pure ◌>>=◌ phase_code
  set_running step weight message h =
      rw (set_status-serving env key base s tick serving s running step weight message 1 h refl)
        refl

  -- A rollout that is new starts at its first step.
  pub reconcile_rollout-starts :
      (h : History F V)
      → is_new s.status.phase ≡ true
      → s.spec.abort ≡ false
      → s.spec.paused ≡ false
      → (reconcile_rollout env s h).1 ≡ run_calls (pos 0) (pos 0) "Rollout started" h
  unfolding reconcile_rollout
  reconcile_rollout-starts h new stop halt =
      ap (λ (m : M F V ReconcileResult). (m h).1)
        (starts_of s.status.phase s.spec.abort s.spec.paused _ _ _ _ _ _ new stop halt)
      ∙ set_running (pos 0) (pos 0) "Rollout started" h

  -- One that is paused goes on where it was.
  pub reconcile_rollout-resumes :
      (h : History F V)
      → is_paused s.status.phase ≡ true
      → s.spec.abort ≡ false
      → s.spec.paused ≡ false
      → (reconcile_rollout env s h).1
        ≡ run_calls s.status.current_step s.status.current_weight "Rollout resumed" h
  unfolding reconcile_rollout
  reconcile_rollout-resumes h was stop halt =
      ap (λ (m : M F V ReconcileResult). (m h).1)
        (resumes_of s.status.phase s.spec.abort s.spec.paused _ _ _ _ _ was stop halt)
      ∙ set_running s.status.current_step s.status.current_weight "Rollout resumed" h
