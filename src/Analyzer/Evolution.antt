-- ===== src/Analyzer/Evolution.antt =====
-- What a cycle may do to the state of one metric, by what its queries answered.
use statgate.Prelude.{pos, Bool, true, false, Option, some, ◌≡◌, ◌↔◌, ◌||◌, ◌⊎◌, none, ◌+ℤ◌, wrap64}
use statgate.Float64.{Float64}
use statgate.Api.{SprtMetric, SprtMetricState, pending, promote, rollback}
use statgate.Analyzer.{Bounds, baseline, alternative}

-- What the four queries of a metric answer.
pub record Counters (F : Type 0) : Type 0 where
  pub canary_total : F
  pub canary_failure : F
  pub stable_total : F
  pub stable_failure : F

module _ {F : Type 0} ⦃fl : Float64 F⦄ where
  open fl use {lt, le, eq, add, sub, mul, div, log, to_int, of_int}

  abbrev pub new_total : SprtMetricState F → Counters F → F
  new_total s c = sub c.canary_total s.last_canary_total

  abbrev pub new_failures : SprtMetricState F → Counters F → F
  new_failures s c = sub c.canary_failure s.last_canary_failure

  -- A counter is lower than in the last cycle.
  abbrev pub has_fallen : SprtMetricState F → Counters F → Bool
  has_fallen s c = lt (new_total s c) (of_int (pos 0)) || lt (new_failures s c) (of_int (pos 0))

  -- The failure rates that the test compares, under its null and its alternative hypothesis.
  abbrev pub null_rate : Counters F → F
  null_rate c = baseline c.stable_failure c.stable_total

  abbrev pub alternative_rate : SprtMetric F → Counters F → F
  alternative_rate m c = alternative (null_rate c) m.delta

  -- The log-likelihood ratio of `k` failures among `n` requests, for the two rates.
  abbrev pub evidence : F → F → F → F → F
  evidence p0 p1 n k =
      add (mul k (log (div p1 p0)))
        (mul (sub n k) (log (div (sub (of_int (pos 1)) p1) (sub (of_int (pos 1)) p0))))

  -- The requests since the last cycle are counted, and the next one counts from here.
  pub record IsTallied (m : SprtMetric F) (s : SprtMetricState F) (c : Counters F)
      (t : SprtMetricState F) : Type 0 where
    pub name_kept : t.name ≡ s.name
    pub from_total : t.last_canary_total ≡ c.canary_total
    pub from_failure : t.last_canary_failure ≡ c.canary_failure
    pub rate : t.baseline_rate ≡ null_rate c
    pub busy :
        lt (of_int (pos 0)) (new_total s c) ≡ true
        → (t.observations ≡ wrap64 (s.observations +ℤ to_int (new_total s c)))
          × (t.failures ≡ wrap64 (s.failures +ℤ to_int (new_failures s c)))
          × (t.log_likelihood
              ≡ add s.log_likelihood (
                  evidence (null_rate c) (alternative_rate m c) (new_total s c) (new_failures s c)))
    pub idle :
        lt (of_int (pos 0)) (new_total s c) ≡ false
        → (t.observations ≡ s.observations)
          × (t.failures ≡ s.failures)
          × (t.log_likelihood ≡ s.log_likelihood)

  -- The verdict by the bounds that the ratio has reached, the upper one first.
  pub record IsJudged (b : Bounds F) (t : SprtMetricState F) : Type 0 where
    pub rolls_back : (t.decision ≡ rollback) ↔ (le b.upper t.log_likelihood ≡ true)
    pub promotes :
        (t.decision ≡ promote)
        ↔ ((le b.upper t.log_likelihood ≡ false) × (le t.log_likelihood b.lower ≡ true))

  pub data Evolves (b : Bounds F) (m : SprtMetric F) (s : SprtMetricState F)
      (ct cf st sf : Option F) (t : SprtMetricState F) : Type 0 where
    missing :
        (ct ≡ none) ⊎ ((cf ≡ none) ⊎ ((st ≡ none) ⊎ (sf ≡ none)))
        → t ≡ s
        → Evolves b m s ct cf st sf t
    no_traffic :
        (total : F)
        → st ≡ some total
        → eq total (of_int (pos 0)) ≡ true
        → t ≡ s
        → Evolves b m s ct cf st sf t
    started_over :
        (c : Counters F)
        → (ct ≡ some c.canary_total) × (cf ≡ some c.canary_failure)
        → (st ≡ some c.stable_total) × (sf ≡ some c.stable_failure)
        → has_fallen s c ≡ true
        → (t.name ≡ s.name) × (t.decision ≡ pending) × (t.log_likelihood ≡ of_int (pos 0))
        → (t.observations ≡ pos 0) × (t.failures ≡ pos 0)
        → (t.last_canary_total ≡ c.canary_total) × (t.last_canary_failure ≡ c.canary_failure)
        → Evolves b m s ct cf st sf t
    counted :
        (c : Counters F)
        → (ct ≡ some c.canary_total) × (cf ≡ some c.canary_failure)
        → (st ≡ some c.stable_total) × (sf ≡ some c.stable_failure)
        → eq c.stable_total (of_int (pos 0)) ≡ false
        → has_fallen s c ≡ false
        → IsTallied m s c t
        → IsJudged b t
        → Evolves b m s ct cf st sf t
