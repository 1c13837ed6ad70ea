-- ===== src/Tests/Totals.antt =====
-- The counts of a metric after three cycles, in one of which an answer was missing.
use statgate.Prelude.{
  ◌⊎◌, ◌++◌, true, Option, ℕ, ◌≤◌, ◌-◌, ℤ, pos, negsuc, ◌-ℤ◌, none, some, List, [], ◌∷◌, ◌≡◌, refl,
  arith, ltb, ltb_ℤ,
}
use statgate.Analyzer.{Bounds, is_decided, find_or_init_state}
use statgate.Analyzer.Totals.{
  Answers, Cycle, answers_of, last_total, last_failure, IsExact, IsSteady, HasCounted, after_cycles,
}
use statgate.Analyzer.Totals.Fresh.{fresh_counts_all}
use statgate.Tests.Sample.{integer_floats}
use statgate.Tests.Cluster.{demo_metric}

abbrev IsCount : ℤ → ℕ → Type 0
IsCount x n = (x ≡ pos n) × (n ≤ 9007199254740992)

difference : (x y : ℤ) (n k : ℕ) → x ≡ pos n → y ≡ pos k → k ≤ n → x -ℤ y ≡ pos (n - k)
unfolding ◌-ℤ◌
difference x y n k e d le = ground arith

positive : (x y : ℤ) (n k : ℕ) → x ≡ pos n → y ≡ pos k → ltb_ℤ (pos 0) (x -ℤ y) ≡ ltb k n
unfolding ◌-ℤ◌
positive x y n k e d = ground arith

negative : (x y : ℤ) (n k : ℕ) → x ≡ pos n → y ≡ pos k → ltb_ℤ (x -ℤ y) (pos 0) ≡ ltb n k
unfolding ◌-ℤ◌
negative x y n k e d = ground arith

exact : IsExact integer_floats IsCount
exact = record {
  counts_zero = (refl, omega arith);
  counts_bound = λ x n c. c.1;
  to_int_sub = λ x y n k c d le. difference x y n k c.0 d.0 le;
  zero_lt_sub = λ x y n k c d. positive x y n k c.0 d.0;
  sub_lt_zero = λ x y n k c d. negative x y n k c.0 d.0;
}

abbrev bounds : Bounds ℤ
bounds = record { upper = pos 1000000; lower = negsuc 1000000 }

abbrev shown : Option ℤ → Option ℤ → Answers ℤ
shown total failure = record {
  canary_total = total;
  canary_failure = failure;
  stable_total = some (pos 900);
  stable_failure = some (pos 9);
}

abbrev later_cycles : List (Cycle ℤ)
later_cycles =
    record { answers = shown (some (pos 150)) none; total = 150; failure = 3 }
    ∷ record { answers = shown (some (pos 180)) (some (pos 5)); total = 180; failure = 5 }
    ∷ []

abbrev cycles : List (Cycle ℤ)
cycles =
    record { answers = shown (some (pos 120)) (some (pos 3)); total = 120; failure = 3 }
    ∷ later_cycles

IsSteady-later : IsSteady IsCount 120 3 later_cycles
IsSteady-later = (
  (λ x e. (ground arith, omega arith)),
  (λ x e. absurd (ground arith)),
  omega arith,
  omega arith,
  (λ e. refl),
  (
    (λ x e. (ground arith, omega arith)),
    (λ x e. (ground arith, omega arith)),
    omega arith,
    omega arith,
    (λ e. absurd (omega (arith, e))),
    tt,
  ),
)

IsSteady-cycles : IsSteady IsCount 0 0 cycles
IsSteady-cycles = (
  (λ x e. (ground arith, omega arith)),
  (λ x e. (ground arith, omega arith)),
  omega arith,
  omega arith,
  (λ e. absurd (omega (arith, e))),
  IsSteady-later,
)

fresh_counts_all_example :
    (before : List (Cycle ℤ)) × (after : List (Cycle ℤ)) × (cycles ≡ before ++ after)
    × (let fresh = find_or_init_state {F = ℤ} [] "error-rate" in
        let left = after_cycles bounds demo_metric fresh (answers_of before) in
        (after_cycles bounds demo_metric fresh (answers_of cycles) ≡ left)
        × HasCounted IsCount left (last_total 0 before) (last_failure 0 before)
        × ((after ≡ []) ⊎ (is_decided left.decision ≡ true)))
fresh_counts_all_example = fresh_counts_all bounds demo_metric exact cycles IsSteady-cycles
