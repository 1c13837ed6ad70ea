-- ===== src/Reconciler/Promotion/Rounds.antt =====
-- The work of a cycle on a cluster that answers.
use statgate.Prelude.{
  ℕ, ℤ, pos, ◌+ℤ◌, wrap32, leb_ℤ, ltb_ℤ, true, false, none, String, [], ◌∷◌, ◌≡◌, refl, ap, ◌∙◌,
  length, ◌+s◌, show_ℤ, ◌-ℤ◌,
}
use statgate.Float64.{Float64}
use statgate.Api.{
  CanaryStep, CanaryRollout, CanaryRolloutSpec, CanaryRolloutStatus, running, promoted,
}
use statgate.Actions.{ok, perform, pure, wrapping, ◌>>=◌}
use statgate.Effects.{
  ObjectKey, Env, History, M, update_status, set_gauge, read_clock, canary_weight, rollout_phase,
  write_status,
}
use statgate.Metrics.{phase_code}
use statgate.VirtualService.{Unstructured}
use statgate.Reconciler.{
  ReconcileResult, set_weights, progress, apply_weight, wait_or_advance, advance, reset_analysis,
  seconds,
}
use statgate.Reconciler.Progress.{last_of, reset_analysis-ok}
use statgate.Reconciler.Promotion.{IsServing, with_status}
use statgate.Reconciler.Promotion.Calls.{set_weights-serving, set_status-serving}
use statgate.Reconciler.Branches.{no_gate}

-- The last call stores the promotion.
abbrev pub EndsPromoted : {F V : Type 0} → CanaryRolloutSpec F → History F V → Type 0
EndsPromoted {F} {V} spec h =
    (r : CanaryRollout F) × (rest : History F V) × (h ≡ update_status r ∷ rest)
    × (r.status.phase ≡ promoted)
    × (r.status.current_weight ≡ pos 100)
    × (r.spec ≡ spec)

abbrev finished : {F : Type 0} → CanaryRollout F → ℤ → ℤ → CanaryRollout F
finished r step reading = record r {
  status = record r.status {
    phase = promoted;
    current_step = step;
    current_weight = pos 100;
    last_transition_time = reading;
    message = "Rollout promoted, 100% traffic to canary";
  };
}

abbrev step_message : {F : Type 0} → CanaryRolloutStatus F → CanaryStep → String
step_message t c =
    "Step " +s show_ℤ t.current_step +s ": canary weight set to " +s show_ℤ c.weight +s "%"

abbrev pub weighed : {F : Type 0} → CanaryRolloutStatus F → CanaryStep → ℤ → CanaryRolloutStatus F
weighed t c reading = record t {
  phase = running;
  current_weight = c.weight;
  last_transition_time = reading;
  message = step_message t c;
}

module _ {F V : Type 0} ⦃fl : Float64 F⦄ ⦃u : Unstructured V⦄ (env : Env F V) {key : ObjectKey}
    {base s : CanaryRollout F} {tick : ℕ} (serving : IsServing env key base s tick) where
  pub wait_or_advance-waits :
      (r : CanaryRollout F) (c : CanaryStep) (elapsed : ℤ) (h : History F V)
      → ltb_ℤ elapsed (seconds c.pause_seconds) ≡ true
      → (wait_or_advance env r c elapsed h).1 ≡ update_status r ∷ h
  unfolding wait_or_advance write_status perform pure ◌>>=◌
  wait_or_advance-waits r c elapsed h e = rw (e, serving.stores h r) refl

  weighing :
      (t : CanaryRolloutStatus F) (c : CanaryStep) (h h' : History F V)
      → set_weights env (with_status s t) (wrap32 (pos 100 -ℤ c.weight)) c.weight h ≡ (ok tt, h')
      → (apply_weight env (with_status s t) c h).1
        ≡ update_status (with_status s (weighed t c (env.now_at h')))
          ∷ set_gauge canary_weight (s.namespace ∷ s.name ∷ []) (fl.of_int c.weight)
          ∷ set_gauge rollout_phase (s.namespace ∷ s.name ∷ []) (fl.of_int (pos 1))
          ∷ read_clock
          ∷ h'
  unfolding apply_weight wrapping pure ◌>>=◌ phase_code
  weighing t c h h' moved =
      rw
        (
          moved,
          set_status-serving env key base s tick serving (with_status s t) running t.current_step
              c.weight (step_message t c) 1 h' refl,
        )
        refl

  -- The weight of a step that has another weight than the traffic.
  pub apply_weight-serving :
      (t : CanaryRolloutStatus F) (c : CanaryStep) (h : History F V)
      → (h' : History F V) × ((apply_weight env (with_status s t) c h).1
          ≡ update_status (with_status s (weighed t c (env.now_at h')))
            ∷ set_gauge canary_weight (s.namespace ∷ s.name ∷ []) (fl.of_int c.weight)
            ∷ set_gauge rollout_phase (s.namespace ∷ s.name ∷ []) (fl.of_int (pos 1))
            ∷ read_clock
            ∷ h')
  apply_weight-serving t c h =
      let (vs, moved) =
        set_weights-serving env key base s tick serving t (wrap32 (pos 100 -ℤ c.weight)) c.weight
          h in
      (_, weighing t c h _ moved)

  -- The end of the last step.
  advance-promotes :
      (r : CanaryRollout F) (h h' : History F V)
      → reset_analysis env r r.spec.analysis h ≡ (ok tt, h')
      → leb_ℤ (pos (length r.spec.steps)) (wrap32 (r.status.current_step +ℤ pos 1)) ≡ true
      → (advance env r h).1
        ≡ update_status (
            finished
              (record r { status = record r.status { analysis_state = [] } })
              (wrap32 (r.status.current_step +ℤ pos 1))
              (env.now_at h'))
          ∷ set_gauge canary_weight (r.namespace ∷ r.name ∷ []) (fl.of_int (pos 100))
          ∷ set_gauge rollout_phase (r.namespace ∷ r.name ∷ []) (fl.of_int (pos 3))
          ∷ read_clock
          ∷ h'
  unfolding advance pure ◌>>=◌ phase_code
  advance-promotes r h h' cleared last =
      rw
        (
          cleared,
          last,
          set_status-serving env key base s tick serving
              (record r { status = record r.status { analysis_state = [] } }) promoted
              (wrap32 (r.status.current_step +ℤ pos 1)) (pos 100)
              "Rollout promoted, 100% traffic to canary" 3 h' refl,
        )
        refl

  wait_or_advance-advances :
      (r : CanaryRollout F) (c : CanaryStep) (elapsed : ℤ) (h : History F V)
      → ltb_ℤ elapsed (seconds c.pause_seconds) ≡ false
      → r.spec.analysis ≡ none
      → (wait_or_advance env r c elapsed h).1 ≡ (advance env r h).1
  unfolding wait_or_advance
  wait_or_advance-advances r c elapsed h over plain =
      ap (λ (m : M F V ReconcileResult). (m h).1)
        (last_of _ _ _ _ (advance env r) over (no_gate env r _ _ plain))

  pub wait_or_advance-promotes :
      (r : CanaryRollout F) (c : CanaryStep) (elapsed : ℤ) (h : History F V)
      → ltb_ℤ elapsed (seconds c.pause_seconds) ≡ false
      → r.spec.analysis ≡ none
      → leb_ℤ (pos (length r.spec.steps)) (wrap32 (r.status.current_step +ℤ pos 1)) ≡ true
      → EndsPromoted r.spec (wait_or_advance env r c elapsed h).1
  wait_or_advance-promotes r c elapsed h over plain last = (
    _,
    _,
    wait_or_advance-advances r c elapsed h over plain
        ∙ advance-promotes r h _ (reset_analysis-ok env r r.spec.analysis h) last,
    refl,
    refl,
    refl,
  )

  no_steps :
      (r : CanaryRollout F) (h : History F V)
      → leb_ℤ (pos (length r.spec.steps)) r.status.current_step ≡ true
      → (progress env r h).1
        ≡ update_status (finished r r.status.current_step (env.now_at h))
          ∷ set_gauge canary_weight (r.namespace ∷ r.name ∷ []) (fl.of_int (pos 100))
          ∷ set_gauge rollout_phase (r.namespace ∷ r.name ∷ []) (fl.of_int (pos 3))
          ∷ read_clock
          ∷ h
  unfolding progress pure ◌>>=◌ phase_code
  no_steps r h last =
      rw
        (
          last,
          set_status-serving env key base s tick serving r promoted r.status.current_step (pos 100)
              "Rollout promoted, 100% traffic to canary" 3 h refl,
        )
        refl

  -- A rollout that has no step left.
  pub progress-promotes :
      (r : CanaryRollout F) (h : History F V)
      → leb_ℤ (pos (length r.spec.steps)) r.status.current_step ≡ true
      → EndsPromoted r.spec (progress env r h).1
  progress-promotes r h last = (_, _, no_steps r h last, refl, refl, refl)
