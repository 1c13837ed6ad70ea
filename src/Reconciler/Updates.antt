-- ===== src/Reconciler/Updates.antt =====
-- A cycle updates the status at most once.
use statgate.Prelude.{
  ℕ, ℤ, Bool, Option, none, some, List, [], ◌∷◌, ◌⊎◌, inl, inr, ◌+◌, ◌≤◌, ◌≡◌, refl, String, arith,
  pos, ltb_ℤ, ◌&&◌, not,
}
use statgate.Float64.{Float64}
use statgate.Api.{CanaryStep, SprtMetric, SprtAnalysis, CanaryRollout, RolloutPhase}
use statgate.Actions.{Error, pure, ◌>>=◌}
use statgate.Effects.{
  asking-IsReading, ObjectKey, Env, Call, History, Labels, update_status, update_virtual_service,
  now, write_status, fetch_rollout, fetch_deployment, fetch_pods, IsReading,
}
use statgate.Actions.Count.{
  total, Costs, Costs-pure, Costs-fail, Costs-crash, Costs-perform, Costs-if, Costs-wrapping,
  Costs-ignoring, Costs-attempt, Costs-of_Ensures, Costs-bind, Costs-then,
}
use statgate.VirtualService.{Unstructured}
use statgate.VirtualService.Writes.{set_virtual_service_weights-Ensures}
use statgate.Metrics.Quiet.{
  record_canary_weight-Quiet, record_rollout_phase-Quiet, reset_sprt_metric_series-Quiet,
}
use statgate.Analyzer.{Report, all_promote}
use statgate.Analyzer.Cycles.{run_sprt-Moves}
use statgate.Reconciler.{
  ReconcileResult, is_aborted, is_promoted, is_paused, is_new, seconds, has_analysis, set_status,
  set_weights, reset_series, reset_analysis, advance, wait_or_advance, after_analysis, analyse,
  apply_weight, run_step, not_ready, progress, pods_of, is_canary_ready, abort_rollout,
  pause_rollout, reconcile_rollout, reconcile_fetched, reconcile,
}

abbrev pub is_status_update : {F V : Type 0} → Call F V → ℕ
is_status_update (update_status r) = 1
is_status_update _ = 0

is_status_update-reading : {F V : Type 0} (c : Call F V) → IsReading c → is_status_update c ≡ 0
is_status_update-reading (update_status r) h = absurd h
is_status_update-reading (update_virtual_service v) h = absurd h
is_status_update-reading _ h = refl

module _ {F V : Type 0} ⦃fl : Float64 F⦄ ⦃u : Unstructured V⦄ (env : Env F V) where
  set_status-Updates :
      (r : CanaryRollout F) (phase : RolloutPhase) (step weight : ℤ) (message : String)
      → Costs is_status_update 1 (set_status env r phase step weight message)
  unfolding set_status now write_status
  set_status-Updates r phase step weight message =
      Costs-then _ 1 _ _ (Costs-perform _ 0 _ _ (omega arith)) λ reading.
        Costs-then _ 1 _ _
          (Costs-of_Ensures _ 0 {K = Unit {0}} _
            (record_rollout_phase-Quiet env is_status_update-reading _ _ _))
          λ _.
            Costs-then _ 1 _ _
              (Costs-of_Ensures _ 0 {K = Unit {0}} _
                (record_canary_weight-Quiet env is_status_update-reading _ _ _))
              λ _. Costs-perform _ 1 _ _ (omega arith)

  -- Setting the status and returning.
  status_then-Updates :
      (r : CanaryRollout F) (phase : RolloutPhase) (step weight : ℤ) (message : String)
      (result : ReconcileResult)
      → Costs is_status_update 1 (set_status env r phase step weight message >>= λ _. pure result)
  status_then-Updates r phase step weight message result =
      Costs-bind _ 1 0 _ _ (set_status-Updates r phase step weight message)
        λ _. Costs-pure _ 0 result

  set_weights-Updates :
      (r : CanaryRollout F) (stable canary : ℤ)
      → Costs is_status_update 0 (set_weights env r stable canary)
  unfolding set_weights
  set_weights-Updates r stable canary = Costs-of_Ensures _ 0 {K = Unit {0}} _ (
      set_virtual_service_weights-Ensures env _ _ _ _ _ _ {P = λ c. is_status_update c ≡ 0} refl
        λ before vs vs' q e. refl)

  reset_series-Updates :
      (r : CanaryRollout F) (ms : List (SprtMetric F))
      → Costs is_status_update 0 (reset_series env r ms)
  unfolding reset_series
  reset_series-Updates r [] = Costs-pure _ 0 tt
  reset_series-Updates r (m ∷ ms) =
      Costs-then _ 0 _ _
        (Costs-of_Ensures _ 0 {K = Unit {0}} _
          (reset_sprt_metric_series-Quiet env is_status_update-reading _ _ _))
        λ _. reset_series-Updates r ms

  reset_analysis-Updates :
      (r : CanaryRollout F) (a : Option (SprtAnalysis F))
      → Costs is_status_update 0 (reset_analysis env r a)
  unfolding reset_analysis
  reset_analysis-Updates r none = Costs-pure _ 0 tt
  reset_analysis-Updates r (some a) = reset_series-Updates r a.metrics

  advance-Updates : (r : CanaryRollout F) → Costs is_status_update 1 (advance env r)
  unfolding advance
  advance-Updates r =
      Costs-then _ 1 _ _ (reset_analysis-Updates r _)
        λ _. Costs-if _ 1 _ _ _ (status_then-Updates _ _ _ _ _ _) (status_then-Updates _ _ _ _ _ _)

  write_then-Updates :
      (r : CanaryRollout F) (result : ReconcileResult)
      → Costs is_status_update 1 (write_status env r >>= λ _. pure result)
  unfolding write_status
  write_then-Updates r result =
      Costs-bind _ 1 0 _ _ (Costs-perform _ 1 _ _ (omega arith)) λ _. Costs-pure _ 0 result

  abbrev is_gated : CanaryRollout F → CanaryStep → Bool
  is_gated r step =
      ltb_ℤ (pos 0) (seconds step.pause_seconds)
      && (has_analysis r.spec.analysis && not (all_promote r.status.analysis_state))

  wait_or_advance-Updates :
      (r : CanaryRollout F) (step : CanaryStep) (elapsed : ℤ)
      → Costs is_status_update 1 (wait_or_advance env r step elapsed)
  unfolding wait_or_advance
  wait_or_advance-Updates r step elapsed =
      Costs-if is_status_update 1 (ltb_ℤ elapsed (seconds step.pause_seconds)) _ _
        (write_then-Updates _ _)
        (Costs-if is_status_update 1 (is_gated r step) _ _ (write_then-Updates _ _)
          (advance-Updates r))

  after_analysis-Updates :
      (r : CanaryRollout F) (step : CanaryStep) (elapsed : ℤ) (o : Error ⊎ Report F)
      → Costs is_status_update 1 (after_analysis env r step elapsed o)
  unfolding after_analysis
  after_analysis-Updates r step elapsed (inl e) = Costs-pure _ 1 _
  after_analysis-Updates r step elapsed (inr report) =
      Costs-if _ 1 _ _ _
        (Costs-then _ 1 _ _ (Costs-ignoring _ 0 _ (set_weights-Updates _ _ _))
          λ _. status_then-Updates _ _ _ _ _ _)
        (wait_or_advance-Updates _ step elapsed)

  analyse-Updates :
      (r : CanaryRollout F) (step : CanaryStep) (elapsed : ℤ) (a : Option (SprtAnalysis F))
      → Costs is_status_update 1 (analyse env r step elapsed a)
  unfolding analyse
  analyse-Updates r step elapsed none = wait_or_advance-Updates r step elapsed
  analyse-Updates r step elapsed (some a) =
      Costs-if _ 1 _ _ _ (wait_or_advance-Updates r step elapsed) (
        Costs-then _ 1 _ _
          (Costs-attempt _ 0 _ (
            Costs-of_Ensures _ 0 {K = Unit {0}} _ (
              run_sprt-Moves env _ _ _ (λ c p. is_status_update-reading c (asking-IsReading c p))
                (λ q o. Unit {0}) (λ q o e. tt) a r.status.analysis_state)))
          λ o. after_analysis-Updates r step elapsed o)

  run_step-Updates :
      (r : CanaryRollout F) (o : Option CanaryStep) → Costs is_status_update 1 (run_step env r o)
  unfolding run_step apply_weight now
  run_step-Updates r none = Costs-crash _ 1
  run_step-Updates r (some step) =
      Costs-then _ 1 _ _ (Costs-perform _ 0 _ _ (omega arith)) λ reading.
        Costs-if _ 1 _ _ _
          (Costs-then _ 1 _ _ (Costs-wrapping _ 0 _ _ (set_weights-Updates _ _ _))
            λ _. status_then-Updates _ _ _ _ _ _)
          (analyse-Updates r step _ r.spec.analysis)

  not_ready-Updates : (r : CanaryRollout F) → Costs is_status_update 1 (not_ready env r)
  unfolding not_ready now
  not_ready-Updates r = Costs-then _ 1 _ _ (Costs-perform _ 0 _ _ (omega arith)) λ reading.
      Costs-if _ 1 _ _ _
        (Costs-then _ 1 _ _ (Costs-ignoring _ 0 _ (set_weights-Updates _ _ _))
          λ _. status_then-Updates _ _ _ _ _ _)
        (Costs-pure _ 1 _)

  pods_of-Updates :
      (ns name : String) (selector : Option Labels)
      → Costs is_status_update 0 (pods_of env ns name selector)
  unfolding pods_of fetch_pods
  pods_of-Updates ns name none = Costs-crash _ 0
  pods_of-Updates ns name (some labels) =
      Costs-then _ 0 _ _ (Costs-wrapping _ 0 _ _ (Costs-perform _ 0 _ _ (omega arith)))
        λ pods. Costs-pure _ 0 _

  is_canary_ready-Updates :
      (ns name : String) → Costs is_status_update 0 (is_canary_ready env ns name)
  unfolding is_canary_ready fetch_deployment
  is_canary_ready-Updates ns name =
      Costs-then _ 0 _ _ (Costs-wrapping _ 0 _ _ (Costs-perform _ 0 _ _ (omega arith)))
        λ d. pods_of-Updates ns name d.selector

  progress-Updates : (r : CanaryRollout F) → Costs is_status_update 1 (progress env r)
  unfolding progress
  progress-Updates r = Costs-if _ 1 _ _ _ (status_then-Updates _ _ _ _ _ _) (
      Costs-then _ 1 _ _ (Costs-wrapping _ 0 _ _ (is_canary_ready-Updates _ _))
        λ ready. Costs-if _ 1 _ _ _ (run_step-Updates r _) (not_ready-Updates r))

  abort_rollout-Updates : (r : CanaryRollout F) → Costs is_status_update 1 (abort_rollout env r)
  unfolding abort_rollout
  abort_rollout-Updates r =
      Costs-then _ 1 _ _ (Costs-wrapping _ 0 _ _ (set_weights-Updates _ _ _))
        λ _. status_then-Updates _ _ _ _ _ _

  pause_rollout-Updates : (r : CanaryRollout F) → Costs is_status_update 1 (pause_rollout env r)
  unfolding pause_rollout
  pause_rollout-Updates r = Costs-if _ 1 _ _ _ (status_then-Updates _ _ _ _ _ _) (Costs-pure _ 1 _)

  reconcile_rollout-Updates :
      (r : CanaryRollout F) → Costs is_status_update 1 (reconcile_rollout env r)
  unfolding reconcile_rollout
  reconcile_rollout-Updates r =
      Costs-if is_status_update 1 (is_aborted r.status.phase) _ _ (Costs-pure _ 1 _) (
        Costs-if is_status_update 1 (is_promoted r.status.phase && not r.spec.abort) _ _
          (Costs-pure _ 1 _)
          (Costs-if is_status_update 1 r.spec.abort _ _ (abort_rollout-Updates r) (
            Costs-if is_status_update 1 r.spec.paused _ _ (pause_rollout-Updates r) (
              Costs-if is_status_update 1 (is_paused r.status.phase) _ _
                (status_then-Updates _ _ _ _ _ _)
                (Costs-if is_status_update 1 (is_new r.status.phase) _ _
                  (status_then-Updates _ _ _ _ _ _) (progress-Updates r))))))

  reconcile_fetched-Updates :
      (o : Error ⊎ CanaryRollout F) → Costs is_status_update 1 (reconcile_fetched env o)
  unfolding reconcile_fetched
  reconcile_fetched-Updates (inl e) = Costs-if _ 1 _ _ _ (Costs-pure _ 1 _) (Costs-fail _ 1 e)
  reconcile_fetched-Updates (inr r) = reconcile_rollout-Updates r

  -- A cycle makes at most one status update, whatever the environment answers.
  pub reconcile-one_update :
      (key : ObjectKey) (h : History F V)
      → total is_status_update (reconcile env key h).1 ≤ 1 + total is_status_update h
  unfolding reconcile fetch_rollout
  reconcile-one_update key h =
      (Costs-then is_status_update 1 _ _ (Costs-attempt _ 0 _ (Costs-perform _ 0 _ _ (omega arith)))
          λ o. reconcile_fetched-Updates o).bound
        h
