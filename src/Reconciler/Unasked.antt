-- ===== src/Reconciler/Unasked.antt =====
-- A rollout whose analysis is configured without a Prometheus to ask.
use statgate.Prelude.{
  ℤ, pos, negsuc, true, false, some, List, ◌≡◌, refl, ◌∙◌, ap, ltb_ℤ, leb_ℤ, length, All, All-get,
  str_eq,
}
use statgate.Float64.{Float64}
use statgate.Api.{CanaryStep, SprtMetricState, CanaryRollout, CanaryRolloutStatus, RolloutPhase}
use statgate.VirtualService.{Unstructured}
use statgate.Analyzer.{all_promote}
use statgate.Reconciler.{is_promoted, step_at, seconds, has_analysis}
use statgate.Reconciler.Transition.{
  Observed, skipped, analysed, Transition, abort, pause, resume, start, finish, time_out, apply,
  roll_back_step, observe, advance, Becomes,
}
use statgate.Reconciler.Runs.{Run, Run-induction}

-- Every step has a pause, and the first one is not passed yet.
pub record IsUnasked {F : Type 0} (r : CanaryRollout F) : Type 0 where
  pub configured : has_analysis r.spec.analysis ≡ true
  pub no_url : str_eq r.spec.prometheus_url "" ≡ true
  pub pausing :
      All (λ (st : CanaryStep). ltb_ℤ (pos 0) (seconds st.pause_seconds) ≡ true) r.spec.steps
  pub has_steps : leb_ℤ (pos (length r.spec.steps)) (pos 0) ≡ false
  pub first_step : r.status.current_step ≡ pos 0
  pub not_promoted : is_promoted r.status.phase ≡ false
  pub none_passed : all_promote r.status.analysis_state ≡ false

step_at-pausing :
    (steps : List CanaryStep) (i : ℤ) (step : CanaryStep)
    → All (λ (st : CanaryStep). ltb_ℤ (pos 0) (seconds st.pause_seconds) ≡ true) steps
    → step_at steps i ≡ some step
    → ltb_ℤ (pos 0) (seconds step.pause_seconds) ≡ true
step_at-pausing steps (pos i) step h e = All-get _ steps i step h e
step_at-pausing steps (negsuc i) step h e = cc

module _ {F : Type 0} {r : CanaryRollout F} {t : CanaryRolloutStatus F} where
  stuck :
      (phase : RolloutPhase) (step weight : ℤ)
      → IsUnasked r
      → Becomes t phase step weight
      → step ≡ pos 0
      → is_promoted phase ≡ false
      → t.analysis_state ≡ r.status.analysis_state
      → IsUnasked (record r { status = t })
  stuck phase step weight v b zero_step open_end a = record {
    configured = v.configured;
    no_url = v.no_url;
    pausing = v.pausing;
    has_steps = v.has_steps;
    first_step = b.1 ∙ zero_step;
    not_promoted = rw b.0 open_end;
    none_passed = rw a v.none_passed;
  }

module _ {F : Type 0} ⦃fl : Float64 F⦄ {r : CanaryRollout F} where
  -- With no Prometheus to ask, the states stay those that were stored.
  Observed-unasked :
      {after : List (SprtMetricState F)}
      → IsUnasked r
      → Observed r after
      → after ≡ r.status.analysis_state
  Observed-unasked v (skipped c e) = e
  Observed-unasked v (analysed report a d e) = cc (v.no_url, a.url_set)

module _ {F : Type 0} ⦃fl : Float64 F⦄ {Reads : ℤ → Type 0} {r : CanaryRollout F} where
  pub Transition-IsUnasked :
      {t : CanaryRolloutStatus F}
      → Transition Reads r t
      → IsUnasked r
      → IsUnasked (record r { status = t })
  Transition-IsUnasked (abort w l b a) v = stuck _ _ _ v b v.first_step refl a
  Transition-IsUnasked (pause w l x y z b a) v = stuck _ _ _ v b v.first_step refl a
  Transition-IsUnasked (resume w l b a) v = stuck _ _ _ v b v.first_step refl a
  Transition-IsUnasked (start w l b a) v = stuck _ _ _ v b refl refl a
  Transition-IsUnasked (finish w a l b s) v = cc (v.has_steps, rw v.first_step at l)
  Transition-IsUnasked (time_out w a l n k o b s) v = stuck _ _ _ v b v.first_step refl s
  Transition-IsUnasked (apply step at d b a) v = stuck _ _ _ v b v.first_step refl a
  Transition-IsUnasked (roll_back_step step at d rep an w b a) v = cc (v.no_url, an.url_set)
  Transition-IsUnasked (observe step at d o b a) v =
      stuck _ _ _ v b v.first_step v.not_promoted (Observed-unasked v o)
  Transition-IsUnasked (advance step at d n k o after ob g e b) v =
      let all = g (step_at-pausing _ _ step v.pausing at.found) v.configured in
      cc (all, ap all_promote (Observed-unasked v ob), v.none_passed)

-- Without a Prometheus URL, and with an analysis and a pause in every step, a rollout that is at its
-- first step with no promoted metrics stays there: no sequence of cycles and edits of `paused` and
-- `abort` advances or promotes it.
pub Run-IsUnasked :
    {F V : Type 0} ⦃fl : Float64 F⦄ ⦃u : Unstructured V⦄ {s : CanaryRollout F} (r : CanaryRollout F)
    → IsUnasked s
    → Run V s r
    → (r.status.current_step ≡ pos 0) × (is_promoted r.status.phase ≡ false)
Run-IsUnasked {V = V} r v run =
    let w =
      Run-induction {V = V} IsUnasked (λ r t h step. Transition-IsUnasked step h)
        (λ r halt stop h. record {
          configured = h.configured;
          no_url = h.no_url;
          pausing = h.pausing;
          has_steps = h.has_steps;
          first_step = h.first_step;
          not_promoted = h.not_promoted;
          none_passed = h.none_passed;
        })
        v r run in
    (w.first_step, w.not_promoted)
