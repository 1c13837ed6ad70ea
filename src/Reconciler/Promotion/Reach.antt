-- ===== src/Reconciler/Promotion/Reach.antt =====
-- That the rollout is promoted, and after how many cycles.
use statgate.Prelude.{
  ℕ, zero, suc, ◌+◌, ◌*◌, ◌≤◌, pos, Bool, true, false, ◌∷◌, inl, inr, ◌≡◌, ap, ◌∙◌, length, arith,
  ℤ, ◌-◌, ◌++◌, ◌+ℤ◌, ◌≤ℤ◌, not, ◌&&◌, Bool-cases,
}
use statgate.Float64.{Float64}
use statgate.Api.{CanaryRollout, CanaryRolloutSpec, promoted}
use statgate.Actions.{Result}
use statgate.Effects.{ObjectKey, Env, History, get_rollout}
use statgate.VirtualService.{Unstructured}
use statgate.Reconciler.{
  ReconcileResult, reconcile, is_new, is_promoted, is_aborted, is_paused, reconcile_rollout,
}
use statgate.Reconciler.Cycle.{reconcile-found, reconcile_terminal}
use statgate.Reconciler.Promotion.{IsServing, IsPlain, latest, cycles, at_step, with_status}
use statgate.Reconciler.Promotion.Active.{
  cost_lem, need, IsOnCourse, IsPromoted, Active, fresh, need_positive, need_unset,
}
use statgate.Reconciler.Promotion.Onward.{reconcile-Onward}
use statgate.Reconciler.Transition.{is_active}
use statgate.Reconciler.Promotion.Timer.{IsDue, add_parts}
use statgate.Reconciler.Promotion.Starts.{
  reconcile_rollout-starts, reconcile_rollout-resumes, run_calls,
}
use native.Mathlib.Nat.{suc-mul, add-mul}

is_active_of :
    (a p q n : Bool)
    → a ≡ false
    → p ≡ false
    → q ≡ false
    → n ≡ false
    → (not a && (not p && (not q && not n))) ≡ true
is_active_of a p q n h h' k k' = ground arith

module _ {F V : Type 0} ⦃fl : Float64 F⦄ ⦃u : Unstructured V⦄ {env : Env F V} {key : ObjectKey}
    {base s : CanaryRollout F} {longest tick waits : ℕ}
    (course : IsOnCourse env key base s longest tick waits) where
  -- Once promoted, always promoted.
  stays : (n : ℕ) (h : History F V) → IsPromoted base s h → IsPromoted base s (cycles env key n h)
  stays zero h p = p
  stays (suc n) h p = stays n _ (
      rw
        (reconcile_terminal env key h (latest base h) (course.serving.keeps h) (
          inr (
            ap is_promoted p.0,
            ap (λ (x : CanaryRolloutSpec F). x.abort) p.2 ∙ course.plain.unstopped,
          )))
        p)

  reach :
      (n k m v : ℕ) (set : Bool) (h : History F V)
      → Active env key base s longest tick waits k m v set h
      → need waits m v set ≤ n
      → IsPromoted base s (cycles env key n h)
  reach zero k m v set h a e = absurd (ground (arith, e, need_positive waits m v set))
  reach (suc n) k m v set h a e = elim (reconcile-Onward course k m v set h a) [
    | inl done ↦ stays n _ done
    | inr (k', m', v', set', a', less) ↦ reach n k' m' v' set' _ a' (omega (arith, e, less))
  ]

  -- How far a rollout is after the first cycle, or before it.
  abbrev Begun : ℕ → History F V → Type 0
  Begun budget h =
      (k m v : ℕ) × (set : Bool) × Active env key base s longest tick waits k m v set h
      × (need waits m v set ≤ budget)

  few_left :
      (k m : ℕ)
      → k + m ≡ length s.spec.steps
      → need waits m waits false ≤ length s.spec.steps * (waits + 2) + 1
  few_left k m e = omega (
    arith,
    need_unset waits m waits,
    cost_lem waits m,
    add-mul k m (waits + 2),
    ap (λ (t : ℕ). t * (waits + 2)) e,
  )

  module _ (h : History F V) (stored : latest base h ≡ s) where
    found : reconcile env key h ≡ reconcile_rollout env s (get_rollout key ∷ h)
    found = reconcile-found env key h s (course.serving.keeps h ∙ ap inr stored)

    -- A new rollout starts its first step.
    start :
        is_new s.status.phase ≡ true
        → Begun (length s.spec.steps * (waits + 2) + 1) (reconcile env key h).1
    start new = (
      0,
      length s.spec.steps,
      waits,
      false,
      fresh course 0 _ false (pos 0) "Rollout started" s.status.analysis_state (get_rollout key ∷ h)
          _ _ _
          (ap (λ (x : Result ReconcileResult × History F V). x.1) found
            ∙ reconcile_rollout-starts env course.serving (get_rollout key ∷ h) new
                course.plain.unstopped course.plain.unpaused)
          (omega arith) (λ e. absurd (cc)),
      few_left 0 _ (omega arith),
    )

    module _ (k m : ℕ) (step : s.status.current_step ≡ pos k)
        (left : k + m ≡ length s.spec.steps) where
      -- A paused one goes on at its step.
      resume :
          is_paused s.status.phase ≡ true
          → Begun (length s.spec.steps * (waits + 2) + 1) (reconcile env key h).1
      resume was = (
        k,
        m,
        waits,
        false,
        fresh course k m false s.status.current_weight "Rollout resumed" s.status.analysis_state
            (get_rollout key ∷ h) _ _ _
            (ap (λ (x : Result ReconcileResult × History F V). x.1) found
              ∙ reconcile_rollout-resumes env course.serving (get_rollout key ∷ h) was
                  course.plain.unstopped course.plain.unpaused
              ∙ ap
                  (λ (z : ℤ).
                    run_calls env course.serving z s.status.current_weight "Rollout resumed"
                      (get_rollout key ∷ h))
                  step)
            left (λ e. absurd (cc)),
        few_left k m left,
      )

      -- Any other is on its way already.
      on_way :
          is_active s.status.phase ≡ true
          → IsDue env key longest tick waits h s.status.last_transition_time
          → Begun (length s.spec.steps * (waits + 2) + 1) h
      on_way active due = (
        k,
        m,
        waits,
        false,
        record {
          phase = s.status.phase;
          active = active;
          weight = s.status.current_weight;
          timer = s.status.last_transition_time;
          message = s.status.message;
          states = s.status.analysis_state;
          stored =
              stored
              ∙ ap
                  (λ (z : ℤ). with_status s (
                    at_step s.status.phase z s.status.current_weight s.status.last_transition_time
                      s.status.message s.status.analysis_state))
                  step;
          steps = left;
          few = omega arith;
          due = due;
          has_weight = λ e. absurd (cc);
        },
        few_left k m left,
      )

  go_on :
      (n budget : ℕ) (h : History F V)
      → Begun budget h
      → budget ≤ n
      → IsPromoted base s (cycles env key n h)
  go_on n budget h (k, m, v, set, a, e) le = reach n k m v set h a (omega (arith, e, le))

  -- Whatever the phase is, if the rollout has not ended.
  cycles-IsPromoted :
      (n k : ℕ) (h : History F V)
      → latest base h ≡ s
      → is_aborted s.status.phase ≡ false
      → is_promoted s.status.phase ≡ false
      → s.status.current_step ≡ pos k
      → k ≤ length s.spec.steps
      → IsDue env key longest tick waits h s.status.last_transition_time
      → length s.spec.steps * (waits + 2) + 2 ≤ n
      → IsPromoted base s (cycles env key n h)
  cycles-IsPromoted zero k h stored on open_end step within due e = absurd (omega (arith, e))
  cycles-IsPromoted (suc n) k h stored on open_end step within due e =
      let left : k + (length s.spec.steps - k) ≡ length s.spec.steps = omega (arith, within) in
      elim (Bool-cases (is_new s.status.phase)) [
        | inl new ↦ go_on n _ _ (start h stored new) (omega (arith, e))
        | inr old ↦ elim (Bool-cases (is_paused s.status.phase)) [
          | inl was ↦ go_on n _ _ (resume h stored k _ step left was) (omega (arith, e))
          | inr unpaused ↦
              go_on (suc n) _ h
                (on_way h stored k _ step left (is_active_of _ _ _ _ on open_end unpaused old) due)
                (omega (arith, e))
        ]
      ]

module _ {F V : Type 0} ⦃fl : Float64 F⦄ ⦃u : Unstructured V⦄ (env : Env F V) (key : ObjectKey)
    (base s : CanaryRollout F) (longest tick waits n k : ℕ) (h : History F V) where
  -- A rollout that is neither aborted nor promoted, whose step is in the list or at its end, and that is not
  -- to be paused, aborted or analysed, on a cluster that answers without errors, whose pods are ready at each
  -- cycle, whose VirtualService takes the weights, and that keeps what is stored,
  -- whose clock moves on by `tick` from each cycle to the next and from the last transition to the first
  -- cycle: if no pause is longer than `waits` + 1 ticks, the rollout is stored as promoted, with the weight
  -- 100 and its spec unchanged, after `waits` + 2 cycles for each step and two more, and stays so in any
  -- later cycle.
  pub cycles_promote :
      IsServing env key base s tick
      → IsPlain s longest
      → longest ≤ suc waits * tick
      → latest base h ≡ s
      → is_aborted s.status.phase ≡ false
      → is_promoted s.status.phase ≡ false
      → s.status.current_step ≡ pos k
      → k ≤ length s.spec.steps
      → ((cycle : History F V)
          → s.status.last_transition_time +ℤ pos tick
            ≤ℤ env.now_at (cycle ++ (get_rollout key ∷ h)))
      → length s.spec.steps * (waits + 2) + 2 ≤ n
      → let r = latest base (cycles env key n h) in
        (r.status.phase ≡ promoted) × (r.status.current_weight ≡ pos 100) × (r.spec ≡ s.spec)
  cycles_promote serving plain enough stored on open_end step within before e =
      cycles-IsPromoted (record { serving = serving; plain = plain; enough = enough }) n k h stored
        on open_end step within
        (λ cycle.
          add_parts _ _ longest tick _ (before cycle) (omega (arith, enough, suc-mul waits tick)))
        e
