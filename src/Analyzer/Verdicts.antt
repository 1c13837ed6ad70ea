-- ===== src/Analyzer/Verdicts.antt =====
-- What one cycle does to the state of one metric.
use statgate.Prelude.{
  pos, Bool, true, false, String, Option, some, List, [], ◌∷◌, ◌≡◌, ◌≢◌, inl, inr, refl, ap, ◌∙◌,
  arith, eq_iff, Bool-cases, none,
}
use statgate.Float64.{Float64}
use statgate.Api.{SprtMetric, SprtMetricState, Verdict, pending, promote, rollback, other}
use statgate.Analyzer.{
  Bounds, Observation, silent, published, degraded, is_decided, find_or_init_state, fresh_state,
  accumulated, restarted, judge, observe, observe_counters,
}
use statgate.Analyzer.Evolution.{
  Counters, new_total, new_failures, has_fallen, null_rate, alternative_rate, IsTallied, IsJudged,
  Evolves, missing, no_traffic, started_over, counted,
}

abbrev pub state_of : {F : Type 0} → Observation F → SprtMetricState F
state_of (silent s) = s
state_of (published s) = s
state_of (degraded s) = s

abbrev pub is_degraded : {F : Type 0} → Observation F → Bool
is_degraded (degraded s) = true
is_degraded _ = false

pub decided_iff : (v : Verdict) → is_decided v ≡ false → (v ≢ promote) × (v ≢ rollback)
decided_iff pending h = (λ e. cc, λ e. cc)
decided_iff promote h = absurd (cc)
decided_iff rollback h = absurd (cc)
decided_iff (other x) h = (λ e. cc, λ e. cc)

module _ {F : Type 0} ⦃fl : Float64 F⦄ where
  open fl use {lt, le, eq, add, sub, mul, div, log, to_int, of_int}

  -- The state that the loop takes up for a metric is that metric's.
  pub find_or_init_state-name :
      (states : List (SprtMetricState F)) (name : String)
      → (find_or_init_state states name).name ≡ name
  unfolding find_or_init_state
  find_or_init_state-name [] name = refl
  find_or_init_state-name (s ∷ ss) name =
      ground (arith, eq_iff s.name name, find_or_init_state-name ss name)

  IsTallied-decision :
      (m : SprtMetric F) (s : SprtMetricState F) (c : Counters F) (t : SprtMetricState F)
      (v : Verdict)
      → IsTallied m s c t
      → IsTallied m s c (record t { decision = v })
  IsTallied-decision m s c t v h = record {
    name_kept = h.name_kept;
    from_total = h.from_total;
    from_failure = h.from_failure;
    rate = h.rate;
    busy = h.busy;
    idle = h.idle;
  }

  pub judge-IsTallied :
      (b : Bounds F) (m : SprtMetric F) (s : SprtMetricState F) (c : Counters F)
      (t : SprtMetricState F)
      → IsTallied m s c t
      → IsTallied m s c (state_of (judge b t))
  unfolding judge
  judge-IsTallied b m s c t h = elim (Bool-cases (le b.upper t.log_likelihood)) [
    | inl crossed ↦ rw crossed (IsTallied-decision m s c t rollback h)
    | inr below ↦ elim (Bool-cases (le t.log_likelihood b.lower)) [
      | inl low ↦ rw (below, low) (IsTallied-decision m s c t promote h)
      | inr between ↦ rw (below, between) h
    ]
  ]

  -- A state that was not decided before it is judged.
  judge-IsJudged :
      (b : Bounds F) (t : SprtMetricState F)
      → is_decided t.decision ≡ false
      → IsJudged b (state_of (judge b t))
  unfolding judge
  judge-IsJudged b t u =
      let und = decided_iff t.decision u in
      elim (Bool-cases (le b.upper t.log_likelihood)) [
        | inl crossed ↦ rw crossed (record { rolls_back = ground arith; promotes = ground arith })
        | inr below ↦ elim (Bool-cases (le t.log_likelihood b.lower)) [
          | inl low ↦
              rw (below, low) (record { rolls_back = ground arith; promotes = ground arith })
          | inr between ↦
              rw (below, between)
                (record {
                  rolls_back = (λ r. absurd (und.1 r), λ c. cc);
                  promotes = (λ p. absurd (und.0 p), λ c. cc);
                })
        ]
      ]

  -- The state that is judged.
  abbrev pub tallied : SprtMetric F → SprtMetricState F → Counters F → SprtMetricState F
  tallied m s c =
      record (accumulated s (null_rate c) (alternative_rate m c) (new_total s c)
        (new_failures s c)) {
          last_canary_total = c.canary_total;
          last_canary_failure = c.canary_failure;
          baseline_rate = null_rate c;
        }

  pub tallied-IsTallied :
      (m : SprtMetric F) (s : SprtMetricState F) (c : Counters F)
      → IsTallied m s c (tallied m s c) × ((tallied m s c).decision ≡ s.decision)
  unfolding accumulated
  tallied-IsTallied m s c = elim (Bool-cases (lt (of_int (pos 0)) (new_total s c))) [
    | inl busy ↦ rw busy (
      record {
        name_kept = refl;
        from_total = refl;
        from_failure = refl;
        rate = refl;
        busy = λ _. (refl, refl, refl);
        idle = λ h. absurd (cc);
      },
      refl,
    )
    | inr idle ↦ rw idle (
      record {
        name_kept = refl;
        from_total = refl;
        from_failure = refl;
        rate = refl;
        busy = λ h. absurd (cc);
        idle = λ _. (refl, refl, refl);
      },
      refl,
    )
  ]

  observe-Evolves :
      (b : Bounds F) (m : SprtMetric F) (s : SprtMetricState F) (c : Counters F)
      → m.name ≡ s.name
      → is_decided s.decision ≡ false
      → Evolves b m s
          (some c.canary_total)
          (some c.canary_failure)
          (some c.stable_total)
          (some c.stable_failure)
          (state_of (observe b m s c.canary_total c.canary_failure c.stable_total c.stable_failure))
  unfolding observe
  observe-Evolves b m s c e u = elim (Bool-cases (eq c.stable_total (of_int (pos 0)))) [
    | inl none_came ↦ rw none_came (no_traffic c.stable_total refl none_came refl)
    | inr came ↦ elim (Bool-cases (has_fallen s c)) [
      | inl fell ↦
          rw (came, fell)
            (unfold restarted fresh_state in
              started_over c (refl, refl) (refl, refl) fell (e, refl, refl) (refl, refl)
                (refl, refl))
      | inr grown ↦
          let (counts, verdict) = tallied-IsTallied m s c in
          rw (came, grown)
            (counted c (refl, refl) (refl, refl) came grown
              (judge-IsTallied b m s c (tallied m s c) counts)
              (judge-IsJudged b (tallied m s c) (ap is_decided verdict ∙ u)))
    ]
  ]

  pub observe_counters-Evolves :
      (b : Bounds F) (m : SprtMetric F) (s : SprtMetricState F) (ct cf st sf : Option F)
      → m.name ≡ s.name
      → is_decided s.decision ≡ false
      → Evolves b m s ct cf st sf (state_of (observe_counters b m s ct cf st sf))
  unfolding observe_counters
  observe_counters-Evolves b m s (some ct) (some cf) (some st) (some sf) e u =
      observe-Evolves b m s
        (record { canary_total = ct; canary_failure = cf; stable_total = st; stable_failure = sf })
        e u
  observe_counters-Evolves b m s none cf st sf e u = missing (inl refl) refl
  observe_counters-Evolves b m s (some ct) none st sf e u = missing (inr (inl refl)) refl
  observe_counters-Evolves b m s (some ct) (some cf) none sf e u =
      missing (inr (inr (inl refl))) refl
  observe_counters-Evolves b m s (some ct) (some cf) (some st) none e u =
      missing (inr (inr (inr refl))) refl
