-- ===== src/Analyzer/Totals/Fresh.antt =====
-- What a metric has counted since its first cycle.
use statgate.Prelude.{
  ℕ, ◌≤◌, ap, not, true, false, Bool, ◌++◌, ◌⊎◌, if◌then◌else◌, pos, Option, some, none, inl, inr,
  List, [], ◌∷◌, ◌≡◌, refl, ◌∙◌, sym, arith, Bool-cases,
}
use statgate.Float64.{Float64}
use statgate.Api.{SprtMetric, SprtMetricState}
use statgate.Analyzer.{
  Bounds, is_decided, find_or_init_state, fresh_state, observe, observe_counters,
}
use statgate.Analyzer.Verdicts.{state_of}
use statgate.Analyzer.Totals.{
  Answers, Cycle, answers_of, is_whole, is_complete, last_total, last_failure, IsExact, IsSteady,
  HasCounted, next_state, after_cycles,
}
use statgate.Analyzer.Totals.Counting.{observe-HasCounted}

whole : (now n : ℕ) (full : Bool) → n ≤ now → (if full then now else n) ≤ now
whole now n true le = omega arith
whole now n false le = le

whole_together :
    (n f n' f' : ℕ) (full : Bool)
    → (n' ≡ n → f' ≡ f)
    → (if full then n' else n) ≡ n'
    → (if full then f' else f) ≡ f'
whole_together n f n' f' true same e = refl
whole_together n f n' f' false same e = sym (same (sym e))

module _ {F : Type 0} ⦃fl : Float64 F⦄ (b : Bounds F) (m : SprtMetric F) {Counts : F → ℕ → Type 0}
    (exact : IsExact fl Counts) where
  observe_counters-HasCounted :
      (s : SprtMetricState F) (ct cf st sf : Option F) (n f n' f' : ℕ)
      → ((x : F) → ct ≡ some x → Counts x n')
      → ((x : F) → cf ≡ some x → Counts x f')
      → HasCounted Counts s n f
      → n ≤ n'
      → f ≤ f'
      → (n' ≡ n → f' ≡ f)
      → let full = is_whole ct cf st sf in
        HasCounted Counts
          (state_of (observe_counters b m s ct cf st sf))
          (if full then n' else n)
          (if full then f' else f)
  unfolding observe_counters observe
  observe_counters-HasCounted s none cf st sf n f n' f' p q h le le' same = h
  observe_counters-HasCounted s (some x) none st sf n f n' f' p q h le le' same = h
  observe_counters-HasCounted s (some x) (some y) none sf n f n' f' p q h le le' same = h
  observe_counters-HasCounted s (some x) (some y) (some z) none n f n' f' p q h le le' same = h
  observe_counters-HasCounted s (some x) (some y) (some z) (some w) n f n' f' p q h le le' same =
      elim (Bool-cases (fl.eq z (fl.of_int (pos 0)))) [
        | inl quiet ↦ rw quiet h
        | inr came ↦ rw (ap not came) (
            observe-HasCounted b m exact s
              (record {
                canary_total = x;
                canary_failure = y;
                stable_total = z;
                stable_failure = w;
              })
              n f n' f' h (p x refl) (q y refl) le le' same came)
      ]

  frozen :
      (answers : List (Answers F)) (s : SprtMetricState F)
      → is_decided s.decision ≡ true
      → after_cycles b m s answers ≡ s
  frozen [] s decided = refl
  frozen (a ∷ rest) s decided = rw decided (frozen rest s decided)

  -- What the cycles leave of a state: up to one in which it is decided, all that they show is counted.
  abbrev Counted : SprtMetricState F → ℕ → ℕ → List (Cycle F) → Type 0
  Counted s n f cycles =
      (before : List (Cycle F)) × (after : List (Cycle F)) × (cycles ≡ before ++ after)
      × (let left = after_cycles b m s (answers_of before) in
          (after_cycles b m s (answers_of cycles) ≡ left)
          × HasCounted Counts left (last_total n before) (last_failure f before)
          × ((after ≡ []) ⊎ (is_decided left.decision ≡ true)))

  Counted-later :
      (s t : SprtMetricState F) (n f : ℕ) (c : Cycle F) (rest : List (Cycle F))
      → next_state b m s c.answers ≡ t
      → Counted t
          (if is_complete c.answers then c.total else n)
          (if is_complete c.answers then c.failure else f)
          rest
      → Counted s n f (c ∷ rest)
  Counted-later s t n f c rest e (before, after, split, (same, counted, ends)) = (
    c ∷ before,
    after,
    ap (λ l. c ∷ l) split,
    (rw (e, after_cycles) same, rw (e, after_cycles) counted, rw (e, after_cycles) ends),
  )

  after_cycles-Counted :
      (cycles : List (Cycle F)) (s : SprtMetricState F) (n f k g : ℕ)
      → HasCounted Counts s n f
      → n ≤ k
      → f ≤ g
      → (n ≡ k → f ≡ g)
      → IsSteady Counts k g cycles
      → Counted s n f cycles
  after_cycles-Counted [] s n f k g h le le' same steady = ([], [], refl, (refl, h, inl refl))
  after_cycles-Counted (c ∷ rest) s n f k g h le le' same (p, q, on, on', moved, steady) =
      elim (Bool-cases (is_decided s.decision)) [
        | inl decided ↦
            ([], c ∷ rest, refl, (frozen (answers_of (c ∷ rest)) s decided, h, inr decided))
        | inr open_end ↦
            let a = c.answers in
            let together : c.total ≡ n → c.failure ≡ f =
              λ e. moved (omega (arith, e, le, on)) ∙ sym (same (omega (arith, e, le, on))) in
            Counted-later s _ n f c rest (rw open_end refl) (
              after_cycles-Counted rest _ _ _ c.total c.failure
                (observe_counters-HasCounted s a.canary_total a.canary_failure a.stable_total
                  a.stable_failure n f c.total c.failure p q h (omega (arith, le, on))
                  (omega (arith, le', on')) together)
                (whole c.total n (is_complete a) (omega (arith, le, on)))
                (whole c.failure f (is_complete a) (omega (arith, le', on')))
                (whole_together n f c.total c.failure (is_complete a) together) steady)
      ]

  -- Where counts are computed with exactly: a metric that has no state yet starts with one that has
  -- counted nothing, and after cycles whose counters never fall, and show no new failure without a new
  -- request, it has counted all requests and failures up to the last cycle in which no answer was missing
  -- and the stable version had requests: up to the last of all these cycles, or of those up to one that
  -- decided the metric, from which on its state stays. So no request is left out or counted twice, and
  -- those from before its first cycle are counted too.
  pub fresh_counts_all :
      (cycles : List (Cycle F))
      → IsSteady Counts 0 0 cycles
      → (before : List (Cycle F)) × (after : List (Cycle F)) × (cycles ≡ before ++ after)
        × (let fresh = find_or_init_state {F = F} [] m.name in
            let left = after_cycles b m fresh (answers_of before) in
            (after_cycles b m fresh (answers_of cycles) ≡ left)
            × HasCounted Counts left (last_total 0 before) (last_failure 0 before)
            × ((after ≡ []) ⊎ (is_decided left.decision ≡ true)))
  unfolding find_or_init_state fresh_state
  fresh_counts_all cycles steady =
      after_cycles-Counted cycles (find_or_init_state {F = F} [] m.name) 0 0 0 0
        (record {
          last_total = exact.counts_zero;
          last_failure = exact.counts_zero;
          observations = refl;
          failures = refl;
        })
        (omega arith) (omega arith) (λ e. refl) steady
