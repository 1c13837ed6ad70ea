-- ===== src/Analyzer/Totals/Counting.antt =====
-- A cycle that counts.
use statgate.Prelude.{
  ℕ, ◌-◌, ◌≤◌, ℤ, subst, ◌+ℤ◌, wrap64, wrap64_of_counts, pos, Bool, false, inl, inr, ◌≡◌, ap, ◌∙◌,
  sym, arith, Bool-cases, ltb, ◌||◌,
}
use statgate.Float64.{Float64}
use statgate.Api.{SprtMetric, SprtMetricState}
use statgate.Analyzer.{Bounds, observe}
use statgate.Analyzer.Evolution.{Counters, has_fallen, IsTallied}
use statgate.Analyzer.Verdicts.{state_of, tallied, tallied-IsTallied, judge-IsTallied}
use statgate.Analyzer.Totals.{IsExact, HasCounted}

sum_of :
    (n n' : ℕ) (seen new : ℤ)
    → seen ≡ pos n
    → new ≡ pos (n' - n)
    → n ≤ n'
    → n' ≤ 9007199254740992
    → wrap64 (seen +ℤ new) ≡ pos n'
sum_of n n' seen new e d le bound =
    rw (e, d) (wrap64_of_counts n (n' - n) (omega (arith, le, bound)) ∙ ap pos (omega (arith, le)))

or_false : (p q : Bool) → p ≡ false → q ≡ false → (p || q) ≡ false
or_false p q e d = ground arith

module _ {F : Type 0} ⦃fl : Float64 F⦄ (b : Bounds F) (m : SprtMetric F) {Counts : F → ℕ → Type 0}
    (exact : IsExact fl Counts) where
  -- A cycle that counts.
  tallied-HasCounted :
      (s t : SprtMetricState F) (c : Counters F) (n f n' f' : ℕ)
      → HasCounted Counts s n f
      → Counts c.canary_total n'
      → Counts c.canary_failure f'
      → n ≤ n'
      → f ≤ f'
      → (n' ≡ n → f' ≡ f)
      → IsTallied m s c t
      → HasCounted Counts t n' f'
  tallied-HasCounted s t c n f n' f' h ct cf le le' same i =
      let e = exact.zero_lt_sub c.canary_total s.last_canary_total n' n ct h.last_total in
      elim (Bool-cases (ltb n n')) [
        | inl more ↦
            let (seen, failed, _) = i.busy (e ∙ more) in
            record {
              last_total = subst (λ (x : F). Counts x n') (sym i.from_total) ct;
              last_failure = subst (λ (x : F). Counts x f') (sym i.from_failure) cf;
              observations =
                  seen
                  ∙ sum_of n n' _ _ h.observations
                      (exact.to_int_sub c.canary_total s.last_canary_total n' n ct h.last_total le)
                      le (exact.counts_bound c.canary_total n' ct);
              failures =
                  failed
                  ∙ sum_of f f' _ _ h.failures
                      (exact.to_int_sub c.canary_failure s.last_canary_failure f' f cf
                        h.last_failure le')
                      le' (exact.counts_bound c.canary_failure f' cf);
            }
        | inr idle ↦
            let (seen, failed, _) = i.idle (e ∙ idle) in
            let unmoved : n' ≡ n = ground (arith, idle, le) in
            record {
              last_total = subst (λ (x : F). Counts x n') (sym i.from_total) ct;
              last_failure = subst (λ (x : F). Counts x f') (sym i.from_failure) cf;
              observations = seen ∙ h.observations ∙ ap pos (sym unmoved);
              failures = failed ∙ h.failures ∙ ap pos (sym (same unmoved));
            }
      ]

  not_fallen :
      (s : SprtMetricState F) (c : Counters F) (n f n' f' : ℕ)
      → HasCounted Counts s n f
      → Counts c.canary_total n'
      → Counts c.canary_failure f'
      → n ≤ n'
      → f ≤ f'
      → has_fallen s c ≡ false
  not_fallen s c n f n' f' h ct cf le le' =
      or_false _ _
        (exact.sub_lt_zero c.canary_total s.last_canary_total n' n ct h.last_total
          ∙ ground (arith, le))
        (exact.sub_lt_zero c.canary_failure s.last_canary_failure f' f cf h.last_failure
          ∙ ground (arith, le'))

  pub observe-HasCounted :
      (s : SprtMetricState F) (c : Counters F) (n f n' f' : ℕ)
      → HasCounted Counts s n f
      → Counts c.canary_total n'
      → Counts c.canary_failure f'
      → n ≤ n'
      → f ≤ f'
      → (n' ≡ n → f' ≡ f)
      → fl.eq c.stable_total (fl.of_int (pos 0)) ≡ false
      → HasCounted Counts
          (state_of (observe b m s c.canary_total c.canary_failure c.stable_total c.stable_failure))
          n'
          f'
  unfolding observe
  observe-HasCounted s c n f n' f' h ct cf le le' same came =
      rw (came, not_fallen s c n f n' f' h ct cf le le')
        (tallied-HasCounted s _ c n f n' f' h ct cf le le' same
          (judge-IsTallied b m s c (tallied m s c) (tallied-IsTallied m s c).0))
