-- ===== src/Reconciler/Waits.antt =====
-- When a cycle may go on to the next step.
use statgate.Prelude.{
  ℤ, pos, true, false, List, ◌⊎◌, inl, inr, ◌≡◌, ◌≤ℤ◌, -ℤ_parts, saturate64, ltb_ℤ, arith, All-imp,
}
use statgate.Float64.{Float64}
use statgate.Api.{CanaryStep, SprtMetricState, CanaryRollout}
use statgate.Effects.{ObjectKey, Env, Call, History, update_status, update_virtual_service}
use statgate.Actions.Rules.{Outcome}
use statgate.VirtualService.{Unstructured}
use statgate.Analyzer.{all_promote}
use statgate.Reconciler.{since, seconds, is_new, has_analysis, reconcile}
use statgate.Reconciler.Transition.{
  Observed, AtStep, Transition, abort, pause, resume, start, finish, time_out, apply,
  roll_back_step, observe, advance, Allowed,
}
use statgate.Reconciler.Cycle.{reconcile-Allowed}

since_mono : (x y t p : ℤ) → x ≤ℤ y → ltb_ℤ (since x t) p ≡ false → ltb_ℤ (since y t) p ≡ false
unfolding since saturate64
since_mono x y t p le h = ground (arith, -ℤ_parts x t, -ℤ_parts y t)

module _ {F : Type 0} ⦃fl : Float64 F⦄ where
  -- The step's pause was over at `latest`, and if the pause is not 0 and an analysis is configured, it
  -- had promoted every metric in the states that the cycle had.
  pub record IsOver (latest : ℤ) (r : CanaryRollout F) : Type 0 where
    pub step : CanaryStep
    pub at : AtStep r step
    pub elapsed :
        ltb_ℤ (since latest r.status.last_transition_time) (seconds step.pause_seconds) ≡ false
    pub after : List (SprtMetricState F)
    pub observed : Observed r after
    pub gate :
        ltb_ℤ (pos 0) (seconds step.pause_seconds) ≡ true
        → has_analysis r.spec.analysis ≡ true
        → all_promote after ≡ true

  abbrev pub Waited : {V : Type 0} → ℤ → CanaryRollout F → Call F V → Type 0
  Waited latest r (update_status r') =
      (r'.status.current_step ≡ r.status.current_step)
      ⊎ ((is_new r.status.phase ≡ true) × (r'.status.current_step ≡ pos 0))
      ⊎ IsOver latest r
  Waited latest r _ = Unit {0}

  Transition-Waited :
      (latest : ℤ) (r r' : CanaryRollout F)
      → Transition (λ n. n ≤ℤ latest) r r'.status
      → (r'.status.current_step ≡ r.status.current_step)
        ⊎ ((is_new r.status.phase ≡ true) × (r'.status.current_step ≡ pos 0))
        ⊎ IsOver latest r
  Transition-Waited latest r r' (abort w l b a) = inl b.1
  Transition-Waited latest r r' (pause w l x y z b a) = inl b.1
  Transition-Waited latest r r' (resume w l b a) = inl b.1
  Transition-Waited latest r r' (start w l b a) = inr (inl (l, b.1))
  Transition-Waited latest r r' (finish w a l b s) = inl b.1
  Transition-Waited latest r r' (time_out w a l n k o b s) = inl b.1
  Transition-Waited latest r r' (apply step at d b a) = inl b.1
  Transition-Waited latest r r' (roll_back_step step at d rep an w b a) = inl b.1
  Transition-Waited latest r r' (observe step at d o b a) = inl b.1
  Transition-Waited latest r r' (advance step at d n k o after ob g e b) = inr (
      inr (record {
        step = step;
        at = at;
        elapsed = since_mono n latest _ _ k o;
        after = after;
        observed = ob;
        gate = g;
      }))

  module _ {V : Type 0} ⦃u : Unstructured V⦄ where
    Allowed-Waited :
        (env : Env F V) (latest : ℤ) (r : CanaryRollout F) (c : Call F V)
        → Allowed env (λ n. n ≤ℤ latest) r c
        → Waited latest r c
    Allowed-Waited env latest r (update_status r') a = Transition-Waited latest r r' a.1
    Allowed-Waited env latest r (update_virtual_service vs) a = tt
    Allowed-Waited env latest r _ a = tt

    -- If the clock never shows more than `latest`, a cycle stores another step than the one it read only
    -- at the start of a rollout, or when the pause is over; if that pause is above 0 and an analysis is
    -- configured, only when also every metric was promoted in the states that the cycle had.
    pub reconcile-Waited :
        (env : Env F V) (key : ObjectKey) (h : History F V) (latest : ℤ) (r : CanaryRollout F)
        → ((h' : History F V) → env.now_at h' ≤ℤ latest)
        → env.rollout_at h key ≡ inr r
        → Outcome (Waited latest r) (Unit {0}) (λ _. Unit {0}) h (reconcile env key h)
    reconcile-Waited env key h latest r clock found =
        let o = reconcile-Allowed env key h (λ n. n ≤ℤ latest) clock r found in
        record {
          calls = o.calls;
          grown = o.grown;
          allowed = All-imp _ _ o.calls (Allowed-Waited env latest r) o.allowed;
          post = o.post;
        }
