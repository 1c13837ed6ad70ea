-- ===== src/Analyzer/Moves.antt =====
-- How one cycle moves the state of a metric, and when it ends the cycle with a rollback.
use statgate.Prelude.{
  String, pos, ◌≢◌, ◌⊎◌, ap, inl, inr, true, false, Option, some, List, [], ◌∷◌, ◌++◌, ◌≡◌, refl,
  ◌∙◌, Bool-cases,
}
use statgate.Float64.{Float64}
use statgate.Api.{SprtMetric, SprtMetricState, rollback}
use statgate.Analyzer.{
  Bounds, Observation, silent, is_decided, restarted, fresh_state, find_or_init_state, judge,
  observe, observe_counters,
}
use statgate.Analyzer.Evolution.{Evolves, Counters, has_fallen}
use statgate.Analyzer.Verdicts.{state_of, is_degraded, decided_iff, tallied, tallied-IsTallied}

module _ {F : Type 0} ⦃fl : Float64 F⦄ where
  open fl use {le, lt, eq, sub, of_int}

  -- A metric ends the cycle just if its ratio reached the upper bound.
  abbrev pub HasCrossed : Bounds F → Observation F → Type 0
  HasCrossed b o =
      (is_degraded o ≡ true
        → ((state_of o).decision ≡ rollback) × (le b.upper (state_of o).log_likelihood ≡ true))
      × (is_degraded o ≡ false → (state_of o).decision ≢ rollback)

  silent-HasCrossed :
      (b : Bounds F) (t : SprtMetricState F)
      → is_decided t.decision ≡ false
      → HasCrossed b (silent t)
  silent-HasCrossed b t u = (λ h. cc, λ _. (decided_iff t.decision u).1)

  judge-HasCrossed :
      (b : Bounds F) (t : SprtMetricState F)
      → is_decided t.decision ≡ false
      → HasCrossed b (judge b t)
  unfolding judge
  judge-HasCrossed b t u = elim (Bool-cases (le b.upper t.log_likelihood)) [
    | inl crossed ↦ rw crossed (λ _. (refl, crossed), λ h. cc)
    | inr below ↦ elim (Bool-cases (le t.log_likelihood b.lower)) [
      | inl low ↦ rw (below, low) (λ h. cc, λ _ e. cc)
      | inr between ↦ rw (below, between) (λ h. cc, λ _. (decided_iff t.decision u).1)
    ]
  ]

  restarted-HasCrossed :
      (b : Bounds F) (m : SprtMetric F) (p0 ct cf : F)
      → HasCrossed b (silent (restarted m p0 ct cf))
  unfolding restarted fresh_state
  restarted-HasCrossed b m p0 ct cf = silent-HasCrossed b (restarted m p0 ct cf) refl

  observe-HasCrossed :
      (b : Bounds F) (m : SprtMetric F) (s : SprtMetricState F) (c : Counters F)
      → is_decided s.decision ≡ false
      → HasCrossed b (observe b m s c.canary_total c.canary_failure c.stable_total c.stable_failure)
  unfolding observe
  observe-HasCrossed b m s c u = elim (Bool-cases (eq c.stable_total (of_int (pos 0)))) [
    | inl none_came ↦ rw none_came (silent-HasCrossed b s u)
    | inr came ↦ elim (Bool-cases (has_fallen s c)) [
      | inl fell ↦ rw (came, fell) (restarted-HasCrossed b m _ _ _)
      | inr grown ↦
          rw (came, grown)
            (judge-HasCrossed b (tallied m s c) (ap is_decided (tallied-IsTallied m s c).1 ∙ u))
    ]
  ]

  pub observe_counters-HasCrossed :
      (b : Bounds F) (m : SprtMetric F) (s : SprtMetricState F) (ct cf st sf : Option F)
      → is_decided s.decision ≡ false
      → HasCrossed b (observe_counters b m s ct cf st sf)
  unfolding observe_counters
  observe_counters-HasCrossed b m s (some ct) (some cf) (some st) (some sf) u =
      observe-HasCrossed b m s
        (record { canary_total = ct; canary_failure = cf; stable_total = st; stable_failure = sf })
        u
  observe_counters-HasCrossed b m s _ _ _ _ u = silent-HasCrossed b s u

-- `Answered q o` says that the query `q` was answered by `o`, where `none` is an empty vector.
module _ {F : Type 0} ⦃fl : Float64 F⦄ (Answered : String → Option F → Type 0) where
  -- A decided metric is left alone, and another one moves by what its four queries answered.
  pub data IsMoved (b : Bounds F) (m : SprtMetric F) (s t : SprtMetricState F) : Type 0 where
    settled : is_decided s.decision ≡ true → t ≡ s → IsMoved b m s t
    observed :
        is_decided s.decision ≡ false
        → (ct cf st sf : Option F) → Answered m.canary_total_query ct
        → Answered m.canary_failure_query cf
        → Answered m.stable_total_query st
        → Answered m.stable_failure_query sf
        → Evolves b m s ct cf st sf t
        → IsMoved b m s t

  -- The metric moved from what was stored for it, and no rollback was found in this cycle.
  abbrev pub Passes :
      Bounds F → List (SprtMetricState F) → SprtMetric F → SprtMetricState F → Type 0
  Passes b current m s =
      let stored = find_or_init_state current m.name in
      IsMoved b m stored s × (s.decision ≡ rollback → is_decided stored.decision ≡ true)

  abbrev pub Moved :
      Bounds F → List (SprtMetricState F) → List (SprtMetric F) → List (SprtMetricState F) → Type 0
  Moved b current [] [] = Unit {0}
  Moved b current (m ∷ ms) (s ∷ ss) = Passes b current m s × Moved b current ms ss
  Moved b current _ _ = ⊥

  pub Moved-append :
      (b : Bounds F) (current : List (SprtMetricState F)) (ms : List (SprtMetric F))
      (ss : List (SprtMetricState F)) (m : SprtMetric F) (s : SprtMetricState F)
      → Moved b current ms ss
      → Passes b current m s
      → Moved b current (ms ++ (m ∷ [])) (ss ++ (s ∷ []))
  Moved-append b current [] [] m s h e = (e, tt)
  Moved-append b current [] (t ∷ ss) m s h e = absurd h
  Moved-append b current (n ∷ ms) [] m s h e = absurd h
  Moved-append b current (n ∷ ms) (t ∷ ss) m s h e = (h.0, Moved-append b current ms ss m s h.1 e)

  abbrev pub IsObserved : Bounds F → SprtMetric F → SprtMetricState F → Observation F → Type 0
  IsObserved b m s o =
      IsMoved b m s (state_of o)
      × (((is_decided s.decision ≡ true) × (is_degraded o ≡ false))
          ⊎ ((is_decided s.decision ≡ false) × HasCrossed b o))

module _ {F : Type 0} ⦃fl : Float64 F⦄ (b : Bounds F) (s : SprtMetricState F) where
  -- A cycle that goes on has not just found a rollback.
  pub not_found_now :
      (o : Observation F)
      → ((is_decided s.decision ≡ true) × (is_degraded o ≡ false))
        ⊎ ((is_decided s.decision ≡ false) × HasCrossed b o)
      → is_degraded o ≡ false
      → (state_of o).decision ≡ rollback
      → is_decided s.decision ≡ true
  not_found_now o (inl (d, _)) g r = d
  not_found_now o (inr (u, crossed)) g r = absurd (crossed.1 g r)
