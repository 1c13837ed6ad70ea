-- ===== src/Reconciler/Promotion/Onward.antt =====
-- One cycle of a rollout on its way.
use native.Mathlib.Nat.{zero-mul}
use statgate.Prelude.{
  ℕ, zero, suc, ℤ, pos, ◌+ℤ◌, wrap32, ltb_ℤ, eq_ℤ, eq_ℤ_iff, Bool, true, false, some, [], ◌∷◌, ◌++◌,
  inl, inr, ◌≡◌, refl, ap, ◌∙◌, get_elem?, get_elem?-some, All-get, Bool-cases, arith, show_ℤ, ◌+s◌,
}
use statgate.Float64.{Float64}
use statgate.Api.{CanaryStep, CanaryRollout, running}
use statgate.Effects.{
  ObjectKey, Env, History, update_status, set_gauge, read_clock, canary_weight, rollout_phase,
  get_rollout, get_deployment, list_pods,
}
use statgate.VirtualService.{Unstructured}
use statgate.Reconciler.{
  reconcile, progress, apply_weight, run_step, wait_or_advance, seconds, since, reset_analysis,
}
use statgate.Reconciler.Cycle.{reconcile-found}
use statgate.Reconciler.Progress.{wait_or_advance_over}
use statgate.Reconciler.Promotion.{with_status, at_step}
use statgate.Reconciler.Promotion.Timer.{IsDue-wait, since_due}
use statgate.Reconciler.Promotion.Calls.{is_canary_ready-serving}
use statgate.Reconciler.Branches.{
  reconcile_rollout-runs, progress-steps, run_step-weigh, run_step-time, no_gate,
}
use statgate.Reconciler.Promotion.Rounds.{
  wait_or_advance-waits, apply_weight-serving, wait_or_advance-promotes, progress-promotes,
}
use statgate.Reconciler.Promotion.Active.{
  need, IsOnCourse, Onward, Active, EndsPromoted-IsPromoted, fresh, need_least, need_unset,
  next_step,
}

unset_of : (set : Bool) → (set ≡ true → ⊥) → set ≡ false
unset_of true n = absurd (n refl)
unset_of false n = refl

module _ {F V : Type 0} ⦃fl : Float64 F⦄ ⦃u : Unstructured V⦄ {env : Env F V} {key : ObjectKey}
    {base s : CanaryRollout F} {longest tick waits : ℕ}
    (course : IsOnCourse env key base s longest tick waits) where
  abbrev rollout :
      {k m v : ℕ} {set : Bool} {h : History F V}
      → Active env key base s longest tick waits k m v set h
      → CanaryRollout F
  rollout {k} a = with_status s (at_step a.phase (pos k) a.weight a.timer a.message a.states)

  module _ (k m : ℕ) (h : History F V) (c : CanaryStep)
      (found : get_elem? s.spec.steps k ≡ some c) where
    -- The weight of the step is set.
    apply_weight-Onward :
        (v : ℕ) (set : Bool) (a : Active env key base s longest tick waits k (suc m) v set h)
        (before : History F V)
        → set ≡ false
        → Onward env key base s longest tick waits
            (need waits (suc m) v set)
            (apply_weight env (rollout a) c before).1
    apply_weight-Onward v set a before unset =
        let (h', e) = apply_weight-serving env course.serving (rollout a).status c before in
        inr (
          k,
          suc m,
          waits,
          true,
          fresh course k (suc m) true c.weight _ a.states h' _ _ _ e a.steps
              (λ _ c' found'. ground (arith, found, found', eq_ℤ_iff c.weight c'.weight)),
          rw unset (omega arith),
        )

    -- The pause is not over: at the next cycle the timer is one cycle closer.
    waiting-Onward :
        (v : ℕ) (set : Bool) (a : Active env key base s longest tick waits k (suc m) v set h)
        (calls : History F V)
        → eq_ℤ a.weight c.weight ≡ true
        → ltb_ℤ
            (since (env.now_at (calls ++ (get_rollout key ∷ h))) a.timer)
            (seconds c.pause_seconds)
          ≡ true
        → Onward env key base s longest tick waits
            (need waits (suc m) v set)
            (wait_or_advance env
              (rollout a)
              c
              (since (env.now_at (calls ++ (get_rollout key ∷ h))) a.timer)
              (read_clock ∷ (calls ++ (get_rollout key ∷ h)))).1
    waiting-Onward zero set a calls same early = absurd (
        ground (
          arith,
          early,
          since_due a.timer (env.now_at (calls ++ (get_rollout key ∷ h))) (seconds c.pause_seconds)
              longest (rw (ap pos (zero-mul tick)) at (a.due calls))
              (All-get _ s.spec.steps k c course.plain.pauses found) course.plain.in_range,
        ))
    waiting-Onward (suc v) set a calls same early =
        rw
          (wait_or_advance-waits env course.serving (rollout a) c _
            (read_clock ∷ (calls ++ (get_rollout key ∷ h))) early)
          (inr (
            k,
            suc m,
            v,
            true,
            record {
              phase = a.phase;
              active = a.active;
              weight = a.weight;
              timer = a.timer;
              message = a.message;
              states = a.states;
              stored = refl;
              steps = a.steps;
              few = omega (arith, a.few);
              due = IsDue-wait env key longest tick course.serving v h calls (_ ∷ []) a.timer a.due;
              has_weight = λ _ c' found'. ground (arith, found, found', same);
            },
            omega (arith, need_least waits m (suc v) set a.few),
          ))

    -- The pause is over: the next step, or the promotion.
    moving-Onward :
        (v : ℕ) (set : Bool) (a : Active env key base s longest tick waits k (suc m) v set h)
        (elapsed : ℤ) (before : History F V)
        → ltb_ℤ elapsed (seconds c.pause_seconds) ≡ false
        → (m' : ℕ) → m ≡ m'
        → Onward env key base s longest tick waits
            (need waits (suc m) v set)
            (wait_or_advance env (rollout a) c elapsed before).1
    moving-Onward v set a elapsed before over zero last = inl (
        EndsPromoted-IsPromoted base s _ (
          wait_or_advance-promotes env course.serving (rollout a) c elapsed before over
            course.plain.timed
            (rw (next_step k m _ a.steps course.plain.few_steps) (ground (arith, a.steps, last)))))
    moving-Onward v set a elapsed before over (suc m') more =
        let h' = (reset_analysis env (rollout a) s.spec.analysis before).1 in
        let next = next_step k m _ a.steps course.plain.few_steps in
        let message = "Advancing to step " +s show_ℤ (wrap32 (pos k +ℤ pos 1)) in
        inr (
          suc k,
          m,
          waits,
          false,
          fresh course (suc k) m false a.weight message [] h' _
              (set_gauge canary_weight (s.namespace ∷ s.name ∷ []) (fl.of_int a.weight))
              (set_gauge rollout_phase (s.namespace ∷ s.name ∷ []) (fl.of_int (pos 1)))
              (wait_or_advance_over env (rollout a) c elapsed before over
                  (no_gate env (rollout a) _ _ course.plain.timed)
                  (rw next (ground (arith, a.steps, more)))
                ∙ ap
                    (λ (z : ℤ).
                      update_status
                        (with_status s (at_step running z a.weight (env.now_at h') message []))
                      ∷ set_gauge canary_weight (s.namespace ∷ s.name ∷ []) (fl.of_int a.weight)
                      ∷ set_gauge rollout_phase (s.namespace ∷ s.name ∷ []) (fl.of_int (pos 1))
                      ∷ read_clock
                      ∷ h')
                    next)
              (omega (arith, a.steps)) (λ e. absurd (cc)),
          omega (arith, need_unset waits m waits, need_least waits m v set a.few),
        )

  -- A cycle of a rollout on its way comes to its steps.
  reconcile-progress :
      (k m v : ℕ) (set : Bool) (h : History F V)
      → (a : Active env key base s longest tick waits k m v set h)
      → reconcile env key h ≡ progress env (rollout a) (get_rollout key ∷ h)
  reconcile-progress k m v set h a =
      reconcile-found env key h (rollout a) (course.serving.keeps h ∙ ap inr a.stored)
      ∙ reconcile_rollout-runs env (rollout a) (get_rollout key ∷ h) a.active course.plain.unstopped
          course.plain.unpaused

  run_step-Onward :
      (k m v : ℕ) (set : Bool) (h calls : History F V) (c : CanaryStep)
      → get_elem? s.spec.steps k ≡ some c
      → (a : Active env key base s longest tick waits k (suc m) v set h)
      → Onward env key base s longest tick waits
          (need waits (suc m) v set)
          (run_step env (rollout a) (some c) (calls ++ (get_rollout key ∷ h))).1
  run_step-Onward k m v set h calls c found a =
      let at_reading = calls ++ (get_rollout key ∷ h) in
      let elapsed = since (env.now_at at_reading) a.timer in
      elim (Bool-cases (eq_ℤ a.weight c.weight)) [
        | inl same ↦
            rw (run_step-time env (rollout a) c at_reading same course.plain.timed)
              (elim (Bool-cases (ltb_ℤ elapsed (seconds c.pause_seconds))) [
                | inl early ↦ waiting-Onward k m h c found v set a calls same early
                | inr over ↦
                    moving-Onward k m h c found v set a elapsed (read_clock ∷ at_reading) over m
                      refl
              ])
        | inr other ↦ rw (run_step-weigh env (rollout a) c at_reading other) (
            apply_weight-Onward k m h c found v set a (read_clock ∷ at_reading)
              (unset_of set λ e. cc (a.has_weight e c found, other)))
      ]

  -- A cycle brings the rollout onward.
  pub reconcile-Onward :
      (k m v : ℕ) (set : Bool) (h : History F V)
      → Active env key base s longest tick waits k m v set h
      → Onward env key base s longest tick waits (need waits m v set) (reconcile env key h).1
  reconcile-Onward k zero v set h a = rw (reconcile-progress k zero v set h a) (
      inl (
        EndsPromoted-IsPromoted base s _
          (progress-promotes env course.serving (rollout a) _ (ground (arith, a.steps)))))
  reconcile-Onward k (suc m) v set h a =
      let (c, found) = get_elem?-some s.spec.steps k (omega (arith, a.steps)) in
      let (labels, ready) =
        is_canary_ready-serving env key base s tick course.serving s.spec.target_ref
          (get_rollout key ∷ h) in
      rw
        (reconcile-progress k (suc m) v set h a
          ∙ progress-steps env (rollout a) c (get_rollout key ∷ h) _ (ground (arith, a.steps)) found
              ready)
        (run_step-Onward k m v set h
          (list_pods s.namespace labels
            ∷ get_deployment (record { namespace = s.namespace; name = s.spec.target_ref })
            ∷ [])
          c found a)
