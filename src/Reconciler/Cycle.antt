-- ===== src/Reconciler/Cycle.antt =====
-- `Reconcile` from the request on: what it calls, where it stops at once, and that it does not panic.
use mathlib.Core.List.{append_assoc}
use statgate.Prelude.{
  ℤ, pos, true, false, none, [], ◌∷◌, ◌++◌, ◌⊎◌, inl, inr, ◌≡◌, ◌≢◌, sym, arith, subst, ◌∙◌, ap,
  All-append, Bool-cases, if◌then◌else◌,
}
use statgate.Float64.{Float64}
use statgate.Api.{CanaryRollout}
use statgate.Actions.{
  Error, is_not_found, Result, ok, err, panic, attempt, perform, pure, fail, ◌>>=◌,
}
use statgate.Effects.{ObjectKey, Env, Call, History, Deployment, get_rollout, fetch_rollout}
use statgate.Actions.Rules.{Outcome, Post}
use statgate.VirtualService.{Unstructured}
use statgate.Reconciler.{
  ReconcileResult, requeue, is_aborted, is_promoted, reconcile_rollout, reconcile_fetched,
  reconcile,
}
use statgate.Reconciler.Transition.{Allowed}
use statgate.Reconciler.Refinement.{reconcile_rollout-Allowed}
use statgate.Reconciler.Safety.{IsWellFormed}

module _ {F V : Type 0} ⦃fl : Float64 F⦄ ⦃u : Unstructured V⦄ (env : Env F V) (key : ObjectKey)
    (h : History F V) where
  -- The cycle of a rollout that is there.
  pub reconcile-found :
      (r : CanaryRollout F)
      → env.rollout_at h key ≡ inr r
      → reconcile env key h ≡ reconcile_rollout env r (get_rollout key ∷ h)
  unfolding reconcile fetch_rollout perform attempt ◌>>=◌
  reconcile-found r e = rw e

  Outcome-after :
      {A : Type 0} {P : Call F V → Type 0} {K : Type 0} {Q : A → Type 0} (c : Call F V)
      (x : Result A × History F V)
      → P c
      → Outcome P K Q (c ∷ h) x
      → Outcome P K Q h x
  Outcome-after {P = P} c x p o = record {
    calls = o.calls ++ (c ∷ []);
    grown = o.grown ∙ sym (append_assoc o.calls (c ∷ []) h);
    allowed = All-append P o.calls (c ∷ []) o.allowed (p, tt);
    post = o.post;
  }

  module _ (Reads : ℤ → Type 0) (clock : (h' : History F V) → Reads (env.now_at h'))
      (r : CanaryRollout F) (found : env.rollout_at h key ≡ inr r) where
    -- Every status that a cycle writes is a transition of the rollout that it read, with the metadata
    -- and the spec unchanged, and every VirtualService that it writes is a patch, to 100 and 0 or to the
    -- weight of the current step, of one that the API server answered for the rollout's VirtualService.
    pub reconcile-Allowed :
        Outcome (Allowed env Reads r) (Unit {0}) (λ _. Unit {0}) h (reconcile env key h)
    reconcile-Allowed = rw (reconcile-found r found) (
        Outcome-after (get_rollout key) _ tt
          ((reconcile_rollout-Allowed env Reads clock (λ h' k d e n. tt) r (λ n. tt)).at _))

  -- A cycle of a well-formed rollout does not panic, if deployments have selectors.
  pub reconcile_no_panic :
      (r : CanaryRollout F)
      → env.rollout_at h key ≡ inr r
      → IsWellFormed r
      → ((h' : History F V) (k : ObjectKey) (d : Deployment)
          → env.deployment_at h' k ≡ inr d
          → d.selector ≢ none)
      → (reconcile env key h).0 ≢ panic
  reconcile_no_panic r found v selectors p =
      let o =
        (reconcile_rollout-Allowed env (λ _. Unit {0}) (λ _. tt) {K = ⊥} selectors r
            (λ n. n v.step_from)).at
          (get_rollout key ∷ h) in
      subst (Post {A = ReconcileResult} ⊥ (λ _. Unit {0}))
        (ap (λ (x : Result ReconcileResult × History F V). x.0) (sym (reconcile-found r found)) ∙ p)
        o.post

  -- A rollout that is aborted, or promoted with no abort request, is left alone: the cycle reads it,
  -- makes no other call and asks for no other cycle.
  pub reconcile_terminal :
      (r : CanaryRollout F)
      → env.rollout_at h key ≡ inr r
      → (is_aborted r.status.phase ≡ true)
        ⊎ ((is_promoted r.status.phase ≡ true) × (r.spec.abort ≡ false))
      → reconcile env key h ≡ (ok (requeue (pos 0)), get_rollout key ∷ h)
  unfolding reconcile_rollout pure
  reconcile_terminal r found end = reconcile-found r found ∙ ground arith

  -- If the rollout cannot be read the cycle ends at once: well if it is not there, else with the error.
  pub reconcile_unread :
      (e : Error)
      → env.rollout_at h key ≡ inl e
      → reconcile env key h
        ≡ (if is_not_found e then ok (requeue (pos 0)) else err e, get_rollout key ∷ h)
  unfolding reconcile fetch_rollout perform attempt ◌>>=◌ pure fail reconcile_fetched
  reconcile_unread e gone =
      rw gone
        (elim (Bool-cases (is_not_found e)) [ inl missing ↦ rw missing | inr other ↦ rw other ])
