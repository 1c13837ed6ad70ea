-- ===== src/Reconciler/Analysis.antt =====
-- The parts of a cycle from the analysis on, against the transitions.
use statgate.Prelude.{
  ℤ, pos, Bool, true, false, String, Option, none, some, List, [], ◌∷◌, ◌⊎◌, inl, inr, ◌≡◌, refl,
  ◌&&◌, not, ltb_ℤ, eq_ℤ, arith, subst,
}
use statgate.Float64.{Float64}
use statgate.Api.{
  CanaryStep, SprtMetric, SprtAnalysis, SprtMetricState, CanaryRollout, CanaryRolloutStatus,
  RolloutPhase,
}
use statgate.Actions.{Error}
use statgate.Effects.{
  asking-IsReading, Env, Call, History, update_status, update_virtual_service, create_rollout,
  update_rollout, delete_rollout, now, write_status, IsReading,
}
use statgate.Actions.Rules.{
  Ensures, Ensures-bind, Ensures-perform, Ensures-pure, Ensures-if, Ensures-ignoring,
  Ensures-attempt, Ensures-imp, OnValue,
}
use statgate.VirtualService.{Unstructured}
use statgate.VirtualService.Writes.{set_virtual_service_weights-Ensures}
use statgate.Metrics.Quiet.{
  record_canary_weight-Quiet, record_rollout_phase-Quiet, reset_sprt_metric_series-Quiet,
}
use statgate.Analyzer.{SprtDecision, keep_observing, promote_all, Report, roll_back, all_promote}
use statgate.Analyzer.Cycles.{run_sprt-Moves}
use statgate.Reconciler.{
  since, seconds, is_roll_back, has_analysis, set_status, set_weights, reset_series, reset_analysis,
  advance, wait_or_advance, after_analysis, analyse,
}
use statgate.Reconciler.Transition.{
  Analysed, Observed, skipped, analysed, AtStep, Transition, roll_back_step, observe, IsSplit,
  all_stable, Allowed,
}

abbrev pub moved :
    {F : Type 0} → CanaryRolloutStatus F → RolloutPhase → ℤ → ℤ → ℤ → String → CanaryRolloutStatus F
moved s phase step weight reading message = record s {
  phase = phase;
  current_step = step;
  current_weight = weight;
  last_transition_time = reading;
  message = message;
}

pub Allowed-reading :
    {F V : Type 0} ⦃fl : Float64 F⦄ ⦃u : Unstructured V⦄ (env : Env F V) (Reads : ℤ → Type 0)
    (r : CanaryRollout F) (c : Call F V)
    → IsReading c
    → Allowed env Reads r c
Allowed-reading env Reads r (update_status r') h = absurd h
Allowed-reading env Reads r (update_virtual_service vs) h = absurd h
Allowed-reading env Reads r (create_rollout r') h = absurd h
Allowed-reading env Reads r (update_rollout r') h = absurd h
Allowed-reading env Reads r (delete_rollout k) h = absurd h
Allowed-reading env Reads r _ h = tt

-- The status in memory: the analysis' states and some message.
abbrev in_memory :
    {F : Type 0} → CanaryRollout F → List (SprtMetricState F) → String → CanaryRolloutStatus F
in_memory r after message = record r.status { analysis_state = after; message = message }

gate_open :
    (pausing configured all : Bool)
    → (pausing && (configured && not all)) ≡ false
    → pausing ≡ true
    → configured ≡ true
    → all ≡ true
gate_open pausing configured all h p c = ground arith

is_roll_back-eq : (d : SprtDecision) → is_roll_back d ≡ true → d ≡ roll_back
is_roll_back-eq roll_back h = refl
is_roll_back-eq keep_observing h = cc
is_roll_back-eq promote_all h = cc

module _ {F V : Type 0} ⦃fl : Float64 F⦄ ⦃u : Unstructured V⦄ (env : Env F V) (Reads : ℤ → Type 0)
    (clock : (h : History F V) → Reads (env.now_at h)) (r : CanaryRollout F) {K : Type 0} where
  pub write_status-Allowed :
      (t : CanaryRolloutStatus F)
      → Transition Reads r t
      → Ensures (Allowed env Reads r) K (λ _. Unit {0}) (write_status env (record r { status = t }))
  unfolding write_status
  write_status-Allowed t h = Ensures-perform _ _ (refl, h) (λ h a e. tt)

  pub now-Allowed : Ensures (Allowed env Reads r) K Reads (now env)
  unfolding now
  now-Allowed = Ensures-perform _ _ tt (λ h a e. subst Reads (cc) (clock h))

  pub set_status-Allowed :
      (s : CanaryRolloutStatus F) (phase : RolloutPhase) (step weight : ℤ) (message : String)
      → ((reading : ℤ) → Transition Reads r (moved s phase step weight reading message))
      → Ensures
          (Allowed env Reads r)
          K
          (λ _. Unit {0})
          (set_status env (record r { status = s }) phase step weight message)
  unfolding set_status
  set_status-Allowed s phase step weight message h = Ensures-bind _ _ now-Allowed λ reading _.
      Ensures-bind _ _ (record_rollout_phase-Quiet env (Allowed-reading env Reads r) _ _ _) λ _ _.
        Ensures-bind _ _ (record_canary_weight-Quiet env (Allowed-reading env Reads r) _ _ _)
          λ _ _. write_status-Allowed _ (h reading)

  pub set_weights-Allowed :
      (s : CanaryRolloutStatus F) (stable canary : ℤ)
      → IsSplit r stable canary
      → Ensures
          (Allowed env Reads r)
          K
          (λ _. Unit {0})
          (set_weights env (record r { status = s }) stable canary)
  unfolding set_weights
  set_weights-Allowed s stable canary split =
      set_virtual_service_weights-Ensures env _ _ _ _ _ _ {P = Allowed env Reads r} tt
        λ before vs vs' q e. record {
          vs = vs;
          before = before;
          read = q;
          stable = stable;
          canary = canary;
          split = split;
          patched = e;
        }

  reset_series-Allowed :
      (r' : CanaryRollout F) (ms : List (SprtMetric F))
      → Ensures (Allowed env Reads r) K (λ _. Unit {0}) (reset_series env r' ms)
  unfolding reset_series
  reset_series-Allowed r' [] = Ensures-pure _ tt
  reset_series-Allowed r' (m ∷ ms) =
      Ensures-bind _ _ (reset_sprt_metric_series-Quiet env (Allowed-reading env Reads r) _ _ _)
        λ _ _. reset_series-Allowed r' ms

  reset_analysis-Allowed :
      (r' : CanaryRollout F) (a : Option (SprtAnalysis F))
      → Ensures (Allowed env Reads r) K (λ _. Unit {0}) (reset_analysis env r' a)
  unfolding reset_analysis
  reset_analysis-Allowed r' none = Ensures-pure _ tt
  reset_analysis-Allowed r' (some a) = reset_series-Allowed r' a.metrics

  -- What is stored when the cycle is done with the analysis, the report in memory.
  module _ (step : CanaryStep) (at : AtStep r step)
      (applied : eq_ℤ r.status.current_weight step.weight ≡ true) (reading : ℤ)
      (read : Reads reading) where
    advance-Allowed :
        (after : List (SprtMetricState F)) (message : String)
        → Observed r after
        → ltb_ℤ (since reading r.status.last_transition_time) (seconds step.pause_seconds) ≡ false
        → (ltb_ℤ (pos 0) (seconds step.pause_seconds) ≡ true
            → has_analysis r.spec.analysis ≡ true
            → all_promote after ≡ true)
        → Ensures
            (Allowed env Reads r)
            K
            (λ _. Unit {0})
            (advance env (record r { status = in_memory r after message }))
    unfolding advance
    advance-Allowed after message o over gate = Ensures-bind _ _ (reset_analysis-Allowed _ _) λ _ _.
        Ensures-if _ _ _
          (λ last.
            Ensures-bind _ _
              (set_status-Allowed _ _ _ _ _ λ t.
                Transition.advance step at applied reading read over after o gate refl
                  (inl (last, (refl, refl, refl))))
              λ _ _. Ensures-pure _ tt)
          (λ more.
            Ensures-bind _ _
              (set_status-Allowed _ _ _ _ _ λ t.
                Transition.advance step at applied reading read over after o gate refl
                  (inr (more, (refl, refl, refl))))
              λ _ _. Ensures-pure _ tt)

    wait_or_advance-Allowed :
        (after : List (SprtMetricState F)) (message : String)
        → Observed r after
        → Ensures
            (Allowed env Reads r)
            K
            (λ _. Unit {0})
            (wait_or_advance env
              (record r { status = in_memory r after message })
              step
              (since reading r.status.last_transition_time))
    unfolding wait_or_advance
    wait_or_advance-Allowed after message o =
        Ensures-if _ _ _
          (λ waiting.
            Ensures-bind _ _
              (write_status-Allowed _ (observe step at applied o (refl, refl, refl) refl))
              λ _ _. Ensures-pure _ tt)
          λ over.
            Ensures-if _ _ _
              (λ gated.
                Ensures-bind _ _
                  (write_status-Allowed _ (observe step at applied o (refl, refl, refl) refl))
                  λ _ _. Ensures-pure _ tt)
              λ open_gate. advance-Allowed after message o over (gate_open _ _ _ open_gate)

    after_analysis-Allowed :
        (o : Error ⊎ Report F)
        → OnValue (Analysed r) o
        → Ensures
            (Allowed env Reads r)
            K
            (λ _. Unit {0})
            (after_analysis env r step (since reading r.status.last_transition_time) o)
    unfolding after_analysis
    after_analysis-Allowed (inl e) h = Ensures-pure _ tt
    after_analysis-Allowed (inr report) h =
        Ensures-if _ _ _
          (λ degraded.
            Ensures-bind _ _ (Ensures-ignoring _ (set_weights-Allowed _ _ _ (all_stable refl refl)))
              λ _ _.
                Ensures-bind _ _
                  (set_status-Allowed _ _ _ _ _ λ t.
                    roll_back_step step at applied report h (is_roll_back-eq _ degraded)
                      (refl, refl, refl) refl)
                  λ _ _. Ensures-pure _ tt)
          λ fine. wait_or_advance-Allowed report.states report.reason (analysed report h fine refl)

    pub analyse-Allowed :
        (a : Option (SprtAnalysis F))
        → r.spec.analysis ≡ a
        → Ensures
            (Allowed env Reads r)
            K
            (λ _. Unit {0})
            (analyse env r step (since reading r.status.last_transition_time) a)
    unfolding analyse
    analyse-Allowed none e =
        wait_or_advance-Allowed r.status.analysis_state r.status.message (skipped (inl e) refl)
    analyse-Allowed (some a) e =
        Ensures-if _ _ _
          (λ no_url.
            wait_or_advance-Allowed r.status.analysis_state r.status.message
              (skipped (inr no_url) refl))
          λ url.
            Ensures-bind _ _
              (Ensures-attempt {Q = Analysed r} _ (
                Ensures-imp _
                  (λ report h. record {
                    analysis = a;
                    configured = e;
                    url_set = url;
                    is_report = h;
                  })
                  (run_sprt-Moves env _ _ _
                    (λ c p. Allowed-reading env Reads r c (asking-IsReading c p)) (λ q o. Unit {0})
                    (λ q o e. tt) a r.status.analysis_state)))
              λ o h. after_analysis-Allowed o h
