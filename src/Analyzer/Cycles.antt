-- ===== src/Analyzer/Cycles.antt =====
-- What `RunSPRT` answers: the decision, and how each metric's state moved.
use mathlib.Core.List.{append_assoc, append-nil}
use statgate.Prelude.{
  inl, inr, true, false, String, Option, none, some, List, [], ◌∷◌, ◌++◌, ◌≡◌, refl, sym, ◌∙◌,
  subst, Bool-cases,
}
use statgate.Float64.{Float64}
use statgate.Api.{SprtMetric, SprtAnalysis, SprtMetricState, rollback}
use statgate.Effects.{
  Env, Call, M, QueryValue, vector, other_value, now, run_query, new_client, IsAsking, History,
}
use statgate.Actions.Rules.{
  Ensures, Ensures-imp, Ensures-bind, Ensures-perform, Ensures-pure, Ensures-fail, Ensures-if,
  Ensures-wrapping,
}
use statgate.Metrics.Quiet.{record_sprt_boundaries-Quiet, record_sprt_metric_state-Quiet}
use statgate.Analyzer.{
  keep_observing, promote_all, roll_back, Report, Bounds, Observation, silent, published, degraded,
  all_promote, is_decided, find_or_init_state, sprt_bounds, first_sample, query_scalar, publish,
  run_metric, conclude, after_metric, run_metrics, run_sprt,
}
use statgate.Analyzer.Verdicts.{find_or_init_state-name, observe_counters-Evolves}
use statgate.Analyzer.Moves.{
  IsMoved, settled, observed, Moved, Moved-append, IsObserved, observe_counters-HasCrossed,
  not_found_now,
}

-- What is taken of an answer: the value of its first sample, if there is one.
abbrev pub IsFirst : {F : Type 0} → QueryValue F → Option F → Type 0
IsFirst (vector []) o = o ≡ none
IsFirst (vector (v ∷ vs)) o = o ≡ some v
IsFirst (other_value name) o = ⊥

-- The query `q` is answered by `o` at some time.
pub record IsAnswer {F V : Type 0} (env : Env F V) (url q : String) (o : Option F) : Type 0 where
  pub before : History F V
  pub value : QueryValue F
  pub answered : env.query_answer before url q ≡ inr value
  pub is_first : IsFirst value o

module _ {F : Type 0} ⦃fl : Float64 F⦄ (Answered : String → Option F → Type 0) where
  open fl use {le}

  pub data IsReport (b : Bounds F) (current : List (SprtMetricState F))
      (metrics : List (SprtMetric F)) (r : Report F) : Type 0 where
    -- The metrics up to the first that crossed the upper bound were run, and no more.
    rolled_back :
        (before after : List (SprtMetric F)) (m : SprtMetric F) (done : List (SprtMetricState F))
        (s : SprtMetricState F)
        → r.decision ≡ roll_back
        → metrics ≡ before ++ (m ∷ after)
        → r.states ≡ done ++ (s ∷ [])
        → Moved Answered b current before done
        → is_decided (find_or_init_state current m.name).decision ≡ false
        → IsMoved Answered b m (find_or_init_state current m.name) s
        → s.decision ≡ rollback
        → le b.upper s.log_likelihood ≡ true
        → IsReport b current metrics r
    promoted :
        r.decision ≡ promote_all
        → Moved Answered b current metrics r.states
        → all_promote r.states ≡ true
        → IsReport b current metrics r
    continued :
        r.decision ≡ keep_observing
        → Moved Answered b current metrics r.states
        → all_promote r.states ≡ false
        → IsReport b current metrics r

conclude-IsReport :
    {F V : Type 0} ⦃fl : Float64 F⦄ (Answered : String → Option F → Type 0) (env : Env F V)
    (url ns rollout_name : String) (b : Bounds F) (current : List (SprtMetricState F))
    (metrics : List (SprtMetric F)) (done : List (SprtMetricState F))
    → Moved Answered b current metrics done
    → IsReport Answered b current metrics (conclude env url ns rollout_name done)
unfolding conclude
conclude-IsReport Answered env url ns rollout_name b current metrics done h =
    elim (Bool-cases (all_promote done)) [
      | inl all ↦ rw all (promoted refl h all)
      | inr some_not ↦ rw some_not (continued refl h some_not)
    ]

module _ {F V : Type 0} ⦃fl : Float64 F⦄ (env : Env F V) (url ns rollout_name : String)
    {P : Call F V → Type 0} {K : Type 0} (asks : (c : Call F V) → IsAsking c → P c) where
  first_sample-Quiet : (v : QueryValue F) → Ensures P K (λ _. Unit {0}) (first_sample {V = V} v)
  first_sample-Quiet (vector []) = Ensures-pure none tt
  first_sample-Quiet (vector (v ∷ vs)) = Ensures-pure (some v) tt
  first_sample-Quiet (other_value name) = Ensures-fail _

  pub query_scalar-Quiet :
      (q : String) → Ensures P K (λ _. Unit {0}) (query_scalar env url ns rollout_name q)
  unfolding query_scalar now run_query
  query_scalar-Quiet q = Ensures-bind _ _ (Ensures-perform _ _ (asks _ tt) (λ h a e. tt)) λ _ _.
      Ensures-bind {Q = λ _. Unit {0}} _ _ (Ensures-perform _ _ (asks _ tt) (λ h a e. tt))
        λ v _. first_sample-Quiet v

  pub publish-Ensures :
      {Q : Observation F → Type 0} (o : Observation F)
      → Q o
      → Ensures P K Q (publish env url ns rollout_name o)
  unfolding publish
  publish-Ensures (silent s) q = Ensures-pure _ q
  publish-Ensures (published s) q =
      Ensures-bind _ _ (record_sprt_metric_state-Quiet env asks ns rollout_name s)
        λ _ _. Ensures-pure _ q
  publish-Ensures (degraded s) q =
      Ensures-bind _ _ (record_sprt_metric_state-Quiet env asks ns rollout_name s)
        λ _ _. Ensures-pure _ q

module _ {F V : Type 0} ⦃fl : Float64 F⦄ (env : Env F V) (url ns rollout_name : String)
    {P : Call F V → Type 0} {K : Type 0} (asks : (c : Call F V) → IsAsking c → P c)
    (Answered : String → Option F → Type 0)
    (answers : (q : String) (o : Option F) → IsAnswer env url q o → Answered q o) where
  first_sample-IsFirst : (v : QueryValue F) → Ensures P K (IsFirst v) (first_sample {V = V} v)
  first_sample-IsFirst (vector []) = Ensures-pure none refl
  first_sample-IsFirst (vector (v ∷ vs)) = Ensures-pure (some v) refl
  first_sample-IsFirst (other_value name) = Ensures-fail _

  query_scalar-Answered :
      (q : String) → Ensures P K (Answered q) (query_scalar env url ns rollout_name q)
  unfolding query_scalar now run_query
  query_scalar-Answered q =
      Ensures-bind {Q = λ _. Unit {0}} _ _ (Ensures-perform _ _ (asks _ tt) (λ h a e. tt)) λ _ _.
        Ensures-bind {Q = λ v. (h : History F V) × (env.query_answer h url q ≡ inr v)} _ _
          (Ensures-perform _ _ (asks _ tt) (λ h v e. (h, e)))
          λ v (h, e).
            Ensures-imp _
              (λ o first.
                answers q o (record { before = h; value = v; answered = e; is_first = first }))
              (first_sample-IsFirst v)

  run_metric-Ensures :
      (b : Bounds F) (m : SprtMetric F) (s : SprtMetricState F)
      → m.name ≡ s.name
      → Ensures P K (IsObserved Answered b m s) (run_metric env url ns rollout_name b m s)
  unfolding run_metric
  run_metric-Ensures b m s e =
      Ensures-if _ _ _ (λ decided. Ensures-pure _ (settled decided refl, inl (decided, refl)))
        λ undecided. Ensures-bind _ _ (Ensures-wrapping _ _ (query_scalar-Answered _)) λ ct ct'.
          Ensures-bind _ _ (Ensures-wrapping _ _ (query_scalar-Answered _)) λ cf cf'.
            Ensures-bind _ _ (Ensures-wrapping _ _ (query_scalar-Answered _)) λ st st'.
              Ensures-bind _ _ (Ensures-wrapping _ _ (query_scalar-Answered _)) λ sf sf'.
                publish-Ensures env url ns rollout_name asks _ (
                  observed undecided ct cf st sf ct' cf' st' sf'
                      (observe_counters-Evolves b m s ct cf st sf e undecided),
                  inr (undecided, observe_counters-HasCrossed b m s ct cf st sf undecided),
                )

  module _ (b : Bounds F) (current : List (SprtMetricState F)) (metrics : List (SprtMetric F)) where
    -- `rest` is the loop over `after`.
    after_metric-Ensures :
        (before : List (SprtMetric F)) (m : SprtMetric F) (after : List (SprtMetric F))
        (done : List (SprtMetricState F)) (rest : List (SprtMetricState F) → M F V (Report F))
        → metrics ≡ before ++ (m ∷ after)
        → Moved Answered b current before done
        → ((done' : List (SprtMetricState F))
            → metrics ≡ (before ++ (m ∷ [])) ++ after
            → Moved Answered b current (before ++ (m ∷ [])) done'
            → Ensures P K (IsReport Answered b current metrics) (rest done'))
        → (o : Observation F) → IsObserved Answered b m (find_or_init_state current m.name) o
        → Ensures P K
            (IsReport Answered b current metrics)
            (after_metric env url ns rollout_name m.name b done rest o)
    unfolding after_metric
    after_metric-Ensures before m after done rest e h k (degraded s) (moved, inl (d, open_end)) =
        absurd (cc)
    after_metric-Ensures before m after done rest e h k (degraded s) (moved, inr (u, crossed)) =
        let (verdict, over) = crossed.0 refl in
        Ensures-pure _ (rolled_back before after m done s refl e refl h u moved verdict over)
    after_metric-Ensures before m after done rest e h k (silent s) (moved, found) =
        k _ (e ∙ sym (append_assoc before (m ∷ []) after)) (
          Moved-append Answered b current before done m s h
            (moved, not_found_now b (find_or_init_state current m.name) (silent s) found refl))
    after_metric-Ensures before m after done rest e h k (published s) (moved, found) =
        k _ (e ∙ sym (append_assoc before (m ∷ []) after)) (
          Moved-append Answered b current before done m s h
            (moved, not_found_now b (find_or_init_state current m.name) (published s) found refl))

    run_metrics-Ensures :
        (before ms : List (SprtMetric F)) (done : List (SprtMetricState F))
        → metrics ≡ before ++ ms
        → Moved Answered b current before done
        → Ensures P K
            (IsReport Answered b current metrics)
            (run_metrics env url ns rollout_name b current ms done)
    unfolding run_metrics
    run_metrics-Ensures before [] done e h = Ensures-pure _ (
        conclude-IsReport Answered env url ns rollout_name b current metrics done
          (subst (λ l. Moved Answered b current l done) (sym (append-nil before) ∙ sym e) h))
    run_metrics-Ensures before (m ∷ ms) done e h =
        Ensures-bind _ _
          (run_metric-Ensures b m (find_or_init_state current m.name)
            (sym (find_or_init_state-name current m.name)))
          (after_metric-Ensures before m ms done
            (λ done'. run_metrics env url ns rollout_name b current ms done') e h
            (λ done'. run_metrics-Ensures (before ++ (m ∷ [])) ms done'))

  pub run_sprt-Moves :
      (analysis : SprtAnalysis F) (current : List (SprtMetricState F))
      → Ensures P K
          (IsReport Answered (sprt_bounds analysis) current analysis.metrics)
          (run_sprt env url ns rollout_name analysis current)
  unfolding run_sprt new_client
  run_sprt-Moves analysis current =
      Ensures-bind _ _
        (Ensures-wrapping _ _ (Ensures-perform {Q = λ _. Unit {0}} _ _ (asks _ tt) (λ h a e. tt)))
        λ _ _. Ensures-bind _ _ (record_sprt_boundaries-Quiet env asks ns rollout_name _ _) λ _ _.
          run_metrics-Ensures (sprt_bounds analysis) current analysis.metrics [] analysis.metrics []
            refl tt
