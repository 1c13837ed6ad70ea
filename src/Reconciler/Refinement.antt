-- ===== src/Reconciler/Refinement.antt =====
-- A whole reconcile cycle against the transitions.
use statgate.Prelude.{
  ℤ, pos, negsuc, Bool, true, false, String, Option, none, some, List, inr, ◌≡◌, refl, ◌&&◌, not,
  leb_ℤ, eq_ℤ, length, arith, ◌≤ℤ◌, get_elem?-some,
}
use statgate.Float64.{Float64}
use statgate.Api.{CanaryStep, CanaryRollout}
use statgate.Effects.{ObjectKey, Labels, Env, History, Deployment, fetch_deployment, fetch_pods}
use statgate.Actions.Rules.{
  Ensures, Ensures-bind, Ensures-perform, Ensures-pure, Ensures-crash, Ensures-if, Ensures-ignoring,
  Ensures-wrapping,
}
use statgate.VirtualService.{Unstructured}
use statgate.Reconciler.{
  is_aborted, is_promoted, step_at, pods_of, is_canary_ready, apply_weight, run_step, not_ready,
  progress, abort_rollout, pause_rollout, reconcile_rollout,
}
use statgate.Reconciler.Transition.{
  AtStep, abort, pause, resume, start, finish, time_out, apply, all_stable, at_step, Allowed,
  is_active,
}
use statgate.Reconciler.Analysis.{
  now-Allowed, set_status-Allowed, set_weights-Allowed, analyse-Allowed,
}

is_active-eq :
    (a p q n : Bool)
    → a ≡ false
    → p ≡ false
    → q ≡ false
    → n ≡ false
    → (not a && (not p && (not q && not n))) ≡ true
is_active-eq a p q n h h' k k' = ground arith

not-eq-true : (b : Bool) → not b ≡ true → b ≡ false
not-eq-true b h = ground arith

not_both : (p a : Bool) → (p && not a) ≡ false → a ≡ false → p ≡ false
not_both p a h k = ground arith

step_at-none :
    (steps : List CanaryStep) (i : ℤ)
    → leb_ℤ (pos (length steps)) i ≡ false
    → step_at steps i ≡ none
    → ¬ (pos 0 ≤ℤ i)
step_at-none steps (pos i) h e =
    λ _. let (step, found) = get_elem?-some steps i (ground arith) in ground arith
step_at-none steps (negsuc i) h e = λ n. omega arith

module _ {F V : Type 0} ⦃fl : Float64 F⦄ ⦃u : Unstructured V⦄ (env : Env F V) (Reads : ℤ → Type 0)
    (clock : (h : History F V) → Reads (env.now_at h)) {K : Type 0}
    (nil_selector : (h : History F V) (key : ObjectKey) (d : Deployment)
      → env.deployment_at h key ≡ inr d
      → d.selector ≡ none
      → K)
    (r : CanaryRollout F) (negative_step : ¬ (pos 0 ≤ℤ r.status.current_step) → K) where
  pods_of-Allowed :
      (ns name : String) (selector : Option Labels)
      → (selector ≡ none → K)
      → Ensures (Allowed env Reads r) K (λ _. Unit {0}) (pods_of env ns name selector)
  unfolding pods_of
  pods_of-Allowed ns name none k = Ensures-crash (k refl)
  pods_of-Allowed ns name (some labels) k =
      Ensures-bind {Q = λ _. Unit {0}} _ _
        (Ensures-wrapping _ _ (unfold fetch_pods in Ensures-perform _ _ tt (λ h a e. tt)))
        λ pods _. Ensures-pure _ tt

  is_canary_ready-Allowed :
      (ns name : String)
      → Ensures (Allowed env Reads r) K (λ _. Unit {0}) (is_canary_ready env ns name)
  unfolding is_canary_ready fetch_deployment
  is_canary_ready-Allowed ns name =
      Ensures-bind {Q = λ d. d.selector ≡ none → K} _ _
        (Ensures-wrapping _ _ (Ensures-perform _ _ tt (λ h d e. nil_selector h _ d e)))
        λ d k. pods_of-Allowed ns name d.selector k

  module _ (active : is_active r.status.phase ≡ true)
      (going_on : (r.spec.abort ≡ false) × (r.spec.paused ≡ false)) where
    apply_weight-Allowed :
        (step : CanaryStep)
        → AtStep r step
        → eq_ℤ r.status.current_weight step.weight ≡ false
        → Ensures (Allowed env Reads r) K (λ _. Unit {0}) (apply_weight env r step)
    unfolding apply_weight
    apply_weight-Allowed step at differs =
        Ensures-bind _ _
          (Ensures-wrapping _ _
            (set_weights-Allowed env Reads clock r r.status _ _ (at_step step at refl refl)))
          λ _ _.
            Ensures-bind _ _
              (set_status-Allowed env Reads clock r r.status _ _ _ _
                λ t. apply step at differs (refl, refl, refl) refl)
              λ _ _. Ensures-pure _ tt

    run_step-Allowed :
        (o : Option CanaryStep)
        → step_at r.spec.steps r.status.current_step ≡ o
        → (o ≡ none → K)
        → Ensures (Allowed env Reads r) K (λ _. Unit {0}) (run_step env r o)
    unfolding run_step
    run_step-Allowed none e k = Ensures-crash (k refl)
    run_step-Allowed (some step) e k =
        let at : AtStep r step = record { active = active; going_on = going_on; found = e } in
        Ensures-bind _ _ (now-Allowed env Reads clock r) λ reading read.
          Ensures-if _ _ _ (λ differs. apply_weight-Allowed step at (ground arith))
            λ same.
              analyse-Allowed env Reads clock r step at (ground arith) reading read r.spec.analysis
                refl

    not_ready-Allowed :
        leb_ℤ (pos (length r.spec.steps)) r.status.current_step ≡ false
        → Ensures (Allowed env Reads r) K (λ _. Unit {0}) (not_ready env r)
    unfolding not_ready
    not_ready-Allowed left = Ensures-bind _ _ (now-Allowed env Reads clock r) λ reading read.
        Ensures-if _ _ _
          (λ late.
            Ensures-bind _ _
              (Ensures-ignoring _
                (set_weights-Allowed env Reads clock r r.status _ _ (all_stable refl refl)))
              λ _ _.
                Ensures-bind _ _
                  (set_status-Allowed env Reads clock r r.status _ _ _ _
                    λ t. time_out going_on active left reading read late (refl, refl, refl) refl)
                  λ _ _. Ensures-pure _ tt)
          λ early. Ensures-pure _ tt

    progress-Allowed : Ensures (Allowed env Reads r) K (λ _. Unit {0}) (progress env r)
    unfolding progress
    progress-Allowed =
        Ensures-if _ _ _
          (λ none_left.
            Ensures-bind _ _
              (set_status-Allowed env Reads clock r r.status _ _ _ _
                λ t. finish going_on active none_left (refl, refl, refl) refl)
              λ _ _. Ensures-pure _ tt)
          λ left. Ensures-bind _ _ (Ensures-wrapping _ _ (is_canary_ready-Allowed _ _)) λ ready _.
            Ensures-if _ _ _
              (λ _.
                run_step-Allowed _ refl (λ e. negative_step (step_at-none r.spec.steps _ left e)))
              λ _. not_ready-Allowed left

  pause_rollout-Allowed :
      r.spec.abort ≡ false
      → r.spec.paused ≡ true
      → is_aborted r.status.phase ≡ false
      → is_promoted r.status.phase ≡ false
      → Ensures (Allowed env Reads r) K (λ _. Unit {0}) (pause_rollout env r)
  unfolding pause_rollout
  pause_rollout-Allowed going wanted live open_end =
      Ensures-if _ _ _
        (λ fresh.
          Ensures-bind _ _
            (set_status-Allowed env Reads clock r r.status _ _ _ _
              λ t. pause going wanted live open_end (not-eq-true _ fresh) (refl, refl, refl) refl)
            λ _ _. Ensures-pure _ tt)
        λ already. Ensures-pure _ tt

  abort_rollout-Allowed :
      r.spec.abort ≡ true
      → is_aborted r.status.phase ≡ false
      → Ensures (Allowed env Reads r) K (λ _. Unit {0}) (abort_rollout env r)
  unfolding abort_rollout
  abort_rollout-Allowed wanted live =
      Ensures-bind _ _
        (Ensures-wrapping _ _
          (set_weights-Allowed env Reads clock r r.status _ _ (all_stable refl refl)))
        λ _ _.
          Ensures-bind _ _
            (set_status-Allowed env Reads clock r r.status _ _ _ _
              λ t. abort wanted live (refl, refl, refl) refl)
            λ _ _. Ensures-pure _ tt

  -- A cycle writes only transitions of the rollout and patches of its VirtualService, and it panics
  -- only if a deployment has no selector or the stored step is negative.
  pub reconcile_rollout-Allowed :
      Ensures (Allowed env Reads r) K (λ _. Unit {0}) (reconcile_rollout env r)
  unfolding reconcile_rollout
  reconcile_rollout-Allowed =
      Ensures-if _ _ _ (λ _. Ensures-pure _ tt)
        λ live.
          Ensures-if _ _ _ (λ _. Ensures-pure _ tt)
            λ open_end.
              Ensures-if _ _ _ (λ wanted. abort_rollout-Allowed wanted live)
                λ going.
                  Ensures-if _ _ _
                    (λ wanted.
                      pause_rollout-Allowed going wanted live (not_both _ _ open_end going))
                    λ running_on.
                      Ensures-if _ _ _
                        (λ was_paused.
                          Ensures-bind _ _
                            (set_status-Allowed env Reads clock r r.status _ _ _ _
                              λ t. resume (going, running_on) was_paused (refl, refl, refl) refl)
                            λ _ _. Ensures-pure _ tt)
                        λ not_paused.
                          Ensures-if _ _ _
                            (λ fresh.
                              Ensures-bind _ _
                                (set_status-Allowed env Reads clock r r.status _ _ _ _
                                  λ t. start (going, running_on) fresh (refl, refl, refl) refl)
                                λ _ _. Ensures-pure _ tt)
                            λ old.
                              progress-Allowed
                                (is_active-eq _ _ _ _ live (not_both _ _ open_end going) not_paused
                                  old)
                                (going, running_on)
