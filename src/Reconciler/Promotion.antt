-- ===== src/Reconciler/Promotion.antt =====
-- Cycle after cycle of `Reconcile` on a cluster that answers without errors, where the API server keeps
-- the status that was stored last.
mod Timer
mod Calls
mod Rounds
mod Starts
mod Active
mod Onward
pub mod Reach
use statgate.Prelude.{
  ℕ, String, zero, suc, ◌+◌, ◌*◌, ◌<◌, ◌≤◌, ℤ, pos, ◌+ℤ◌, ◌≤ℤ◌, true, false, none, some, List, [],
  ◌∷◌, ◌++◌, inr, ◌≡◌, All, length,
}
use statgate.Float64.{Float64}
use statgate.Api.{
  CanaryStep, SprtMetricState, RolloutPhase, CanaryRollout, CanaryRolloutStatus, promoted,
}
use statgate.Effects.{
  ObjectKey, Pod, Labels, Deployment, Env, History, get_rollout, update_status, update_rollout,
  read_clock,
}
use statgate.VirtualService.{Unstructured, named, patch}
use statgate.Reconciler.{reconcile, any_ready, is_new, seconds}

-- The rollout as the API server has it: the one stored last, and `s` before any is. An update of the
-- spec carries the status as it was read.
abbrev pub latest : {F V : Type 0} → CanaryRollout F → History F V → CanaryRollout F
latest s [] = s
latest s (update_status r ∷ h) = r
latest s (update_rollout r ∷ h) = r
latest s (c ∷ h) = latest s h

abbrev pub with_status : {F : Type 0} → CanaryRollout F → CanaryRolloutStatus F → CanaryRollout F
with_status s t = record s { status = t }

abbrev pub vs_key : {F : Type 0} → CanaryRollout F → ObjectKey
vs_key s = record { namespace = s.namespace; name = s.spec.virtual_service_ref }

-- A status by its fields.
abbrev pub at_step :
    {F : Type 0}
    → RolloutPhase
    → ℤ
    → ℤ
    → ℤ
    → String
    → List (SprtMetricState F)
    → CanaryRolloutStatus F
at_step phase step weight timer message states = record {
  phase = phase;
  current_step = step;
  current_weight = weight;
  last_transition_time = timer;
  message = message;
  analysis_state = states;
}

-- A spec that only its steps and their pauses hold up.
pub record IsPlain {F : Type 0} (s : CanaryRollout F) (longest : ℕ) : Type 0 where
  pub unpaused : s.spec.paused ≡ false
  pub unstopped : s.spec.abort ≡ false
  pub timed : s.spec.analysis ≡ none
  pub few_steps : length s.spec.steps < 2147483648
  pub pauses : All (λ (c : CanaryStep). seconds c.pause_seconds ≤ℤ pos longest) s.spec.steps
  pub in_range : longest ≤ 9223372036854775807

module _ {F V : Type 0} ⦃fl : Float64 F⦄ ⦃u : Unstructured V⦄ (env : Env F V) (key : ObjectKey)
    (base s : CanaryRollout F) where
  -- A cluster that answers: the server, which has `base` at first, keeps what it is given, the pods are ready, the VirtualService
  -- has the routes, and the clock moves on by `tick` from a reading of one cycle to any of a later one.
  pub record IsServing (tick : ℕ) : Type 0 where
    pub keeps : (h : History F V) → env.rollout_at h key ≡ inr (latest base h)
    pub stores : (h : History F V) (r : CanaryRollout F) → env.status_written h r ≡ inr tt
    pub deploys :
        (h : History F V) (k : ObjectKey)
        → (d : Deployment) × (labels : Labels) × (env.deployment_at h k ≡ inr d)
          × (d.selector ≡ some labels)
    pub ready :
        (h : History F V) (labels : Labels)
        → (pods : List Pod) × (env.pods_at h s.namespace labels ≡ inr pods)
          × (any_ready pods ≡ true)
    pub routed :
        (h : History F V) (stable canary : ℤ)
        → (vs vs' : V) × (env.virtual_service_at h (vs_key s) ≡ inr vs)
          × (patch
                (named s.namespace s.spec.virtual_service_ref)
                vs
                s.spec.stable_service_ref
                stable
                s.spec.canary_service_ref
                canary
              ≡ inr vs')
    pub routes : (h : History F V) (vs : V) → env.virtual_service_written h vs ≡ inr tt
    pub spaced :
        (h later cycle : History F V)
        → env.now_at h +ℤ pos tick
          ≤ℤ env.now_at (cycle ++ (get_rollout key ∷ (later ++ (read_clock ∷ h))))

module _ {F V : Type 0} ⦃fl : Float64 F⦄ ⦃u : Unstructured V⦄ (env : Env F V)
    (key : ObjectKey) where
  -- The calls of that many cycles, one after the other.
  abbrev pub cycles : ℕ → History F V → History F V
  cycles zero h = h
  cycles (suc n) h = cycles n (reconcile env key h).1
