-- ===== src/Analyzer/Totals.antt =====
-- What a metric counts, cycle after cycle.
mod Counting
pub mod Loop
pub mod Fresh
use statgate.Prelude.{
  ℕ, zero, ◌+◌, ◌-◌, ◌≤◌, ℤ, subst, ◌+ℤ◌, wrap64, not, if◌then◌else◌, wrap64_of_counts, pos, Bool,
  true, false, String, Option, some, none, inl, inr, List, [], ◌∷◌, ◌≡◌, refl, ap, ◌∙◌, sym, arith,
  Bool-cases, ltb, ◌||◌,
}
use statgate.Float64.{Float64}
use statgate.Api.{SprtMetric, SprtMetricState}
use statgate.Analyzer.{
  Bounds, Observation, is_decided, find_or_init_state, fresh_state, accumulated, judge, observe,
  observe_counters,
}
use statgate.Analyzer.Evolution.{
  Counters, new_total, new_failures, has_fallen, null_rate, alternative_rate, IsTallied,
}
use statgate.Analyzer.Verdicts.{state_of, tallied, tallied-IsTallied, judge-IsTallied}

-- What the four queries of a cycle answer, where `none` is an empty vector.
pub record Answers (F : Type 0) : Type 0 where
  pub canary_total : Option F
  pub canary_failure : Option F
  pub stable_total : Option F
  pub stable_failure : Option F

-- A cycle: what the queries answer, and how many requests and failures the canary had by then.
pub record Cycle (F : Type 0) : Type 0 where
  pub answers : Answers F
  pub total : ℕ
  pub failure : ℕ

abbrev pub answers_of : {F : Type 0} → List (Cycle F) → List (Answers F)
answers_of [] = []
answers_of (c ∷ rest) = c.answers ∷ answers_of rest

-- `Counts x n` says that `x` is the number `n`: such floats are computed with exactly.
pub record IsExact {F : Type 0} (fl : Float64 F) (Counts : F → ℕ → Type 0) : Type 0 where
  pub counts_zero : Counts (fl.of_int (pos 0)) 0
  pub counts_bound : (x : F) (n : ℕ) → Counts x n → n ≤ 9007199254740992
  pub to_int_sub :
      (x y : F) (n k : ℕ) → Counts x n → Counts y k → k ≤ n → fl.to_int (fl.sub x y) ≡ pos (n - k)
  pub zero_lt_sub :
      (x y : F) (n k : ℕ)
      → Counts x n
      → Counts y k
      → fl.lt (fl.of_int (pos 0)) (fl.sub x y) ≡ ltb k n
  pub sub_lt_zero :
      (x y : F) (n k : ℕ)
      → Counts x n
      → Counts y k
      → fl.lt (fl.sub x y) (fl.of_int (pos 0)) ≡ ltb n k

module _ {F : Type 0} ⦃fl : Float64 F⦄ where
  -- No answer is missing, and the stable version had requests.
  abbrev pub is_whole : Option F → Option F → Option F → Option F → Bool
  is_whole none cf st sf = false
  is_whole (some x) none st sf = false
  is_whole (some x) (some y) none sf = false
  is_whole (some x) (some y) (some z) none = false
  is_whole (some x) (some y) (some z) (some w) = not (fl.eq z (fl.of_int (pos 0)))

  abbrev pub is_complete : Answers F → Bool
  is_complete a = is_whole a.canary_total a.canary_failure a.stable_total a.stable_failure

  -- The requests and the failures by the last of the cycles that is complete, or `n` and `f`.
  abbrev pub last_total : ℕ → List (Cycle F) → ℕ
  last_total n [] = n
  last_total n (c ∷ rest) = last_total (if is_complete c.answers then c.total else n) rest

  abbrev pub last_failure : ℕ → List (Cycle F) → ℕ
  last_failure f [] = f
  last_failure f (c ∷ rest) = last_failure (if is_complete c.answers then c.failure else f) rest

module _ {F : Type 0} ⦃fl : Float64 F⦄ (Counts : F → ℕ → Type 0) where
  -- Counters that never fall, from the counts `n` and `f` on, and failures that come with requests.
  abbrev pub IsSteady : ℕ → ℕ → List (Cycle F) → Type 0
  IsSteady n f [] = Unit {0}
  IsSteady n f (c ∷ rest) =
      ((x : F) → c.answers.canary_total ≡ some x → Counts x c.total)
      × ((x : F) → c.answers.canary_failure ≡ some x → Counts x c.failure)
      × (n ≤ c.total)
      × (f ≤ c.failure)
      × (c.total ≡ n → c.failure ≡ f)
      × IsSteady c.total c.failure rest

  -- The state shows so many requests and failures as its last counters, and has counted them all.
  pub record HasCounted (s : SprtMetricState F) (total failure : ℕ) : Type 0 where
    pub last_total : Counts s.last_canary_total total
    pub last_failure : Counts s.last_canary_failure failure
    pub observations : s.observations ≡ pos total
    pub failures : s.failures ≡ pos failure

module _ {F : Type 0} ⦃fl : Float64 F⦄ (b : Bounds F) (m : SprtMetric F) where
  -- The state of the metric after a cycle, which leaves one that is decided alone, and after many.
  abbrev pub next_state : SprtMetricState F → Answers F → SprtMetricState F
  next_state s a =
      if is_decided s.decision
      then s
      else state_of
          (observe_counters b m s a.canary_total a.canary_failure a.stable_total a.stable_failure)

  abbrev pub after_cycles : SprtMetricState F → List (Answers F) → SprtMetricState F
  after_cycles s [] = s
  after_cycles s (a ∷ rest) = after_cycles (next_state s a) rest
