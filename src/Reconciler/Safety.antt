-- ===== src/Reconciler/Safety.antt =====
-- What the transitions keep: bounds of step and weight, and the order of the steps.
use statgate.Prelude.{
  ℕ, ℤ, pos, negsuc, zero, suc, true, false, some, List, [], ◌∷◌, ◌⊎◌, inl, inr, ◌≡◌, refl, ◌+ℤ◌,
  ◌<◌, ◌≤ℤ◌, wrap32, wrap32_of_range, length, arith, All, All-get, get_elem?, ◌∙◌, sym, ap,
}
use statgate.Float64.{Float64}
use statgate.Api.{CanaryStep, CanaryRollout, CanaryRolloutStatus, RolloutPhase, aborted}
use statgate.Reconciler.{is_aborted, is_promoted, is_paused, is_new, step_at}
use statgate.Reconciler.Transition.{
  Transition, abort, pause, resume, start, finish, time_out, apply, roll_back_step, observe,
  advance, is_active, Becomes,
}

-- The weights of the steps are percentages, as the documentation of the field asks.
abbrev pub IsPercentage : ℤ → Type 0
IsPercentage w = (pos 0 ≤ℤ w) × (w ≤ℤ pos 100)

pub record IsWellFormed {F : Type 0} (r : CanaryRollout F) : Type 0 where
  pub weights : All (λ (s : CanaryStep). IsPercentage s.weight) r.spec.steps
  pub few_steps : length r.spec.steps < 2147483647
  pub step_from : pos 0 ≤ℤ r.status.current_step
  pub step_to : r.status.current_step ≤ℤ pos (length r.spec.steps)
  pub weight : IsPercentage r.status.current_weight

step_at-IsPercentage :
    (steps : List CanaryStep) (i : ℤ) (step : CanaryStep)
    → All (λ (s : CanaryStep). IsPercentage s.weight) steps
    → step_at steps i ≡ some step
    → IsPercentage step.weight
step_at-IsPercentage steps (pos i) step h e = All-get _ steps i step h e
step_at-IsPercentage steps (negsuc i) step h e = cc

get_elem?-lt : {A : Type 0} (xs : List A) (i : ℕ) (a : A) → get_elem? xs i ≡ some a → i < length xs
get_elem?-lt [] i a e = cc
get_elem?-lt (x ∷ xs) zero a e = omega arith
get_elem?-lt (x ∷ xs) (suc i) a e = omega (arith, get_elem?-lt xs i a e)

pos-+ℤ-one : (n : ℕ) → pos n +ℤ pos 1 ≡ pos (suc n)
unfolding ◌+ℤ◌
pos-+ℤ-one n = ground arith

-- At a step the counter can go up by one, and it does not wrap.
pub next-in-range :
    (steps : List CanaryStep) (i : ℤ) (step : CanaryStep)
    → length steps < 2147483647
    → step_at steps i ≡ some step
    → (n : ℕ) × (i ≡ pos n) × (n < length steps) × (wrap32 (i +ℤ pos 1) ≡ pos (suc n))
next-in-range steps (pos n) step few e =
    let lt = get_elem?-lt steps n step e in
    (n, refl, lt, rw (pos-+ℤ-one n) (wrap32_of_range (pos (suc n)) (omega arith)))
next-in-range steps (negsuc n) step few e = cc

paused_or_new :
    (p : RolloutPhase)
    → (is_paused p ≡ true) ⊎ (is_new p ≡ true)
    → (is_aborted p ≡ false) × (is_promoted p ≡ false)
paused_or_new p h = ground arith

module _ {F : Type 0} {r : CanaryRollout F} {t : CanaryRolloutStatus F} where
  rebuilt :
      (phase : RolloutPhase) (step weight : ℤ)
      → IsWellFormed r
      → Becomes t phase step weight
      → pos 0 ≤ℤ step
      → step ≤ℤ pos (length r.spec.steps)
      → IsPercentage weight
      → IsWellFormed (record r { status = t })
  rebuilt phase step weight v b from to w = record {
    weights = v.weights;
    few_steps = v.few_steps;
    step_from = rw b.1 from;
    step_to = rw b.1 to;
    weight = rw b.2 w;
  }

  unmoved :
      (phase : RolloutPhase) (weight : ℤ)
      → IsWellFormed r
      → Becomes t phase r.status.current_step weight
      → IsPercentage weight
      → IsWellFormed (record r { status = t })
  unmoved phase weight v b w = rebuilt phase _ weight v b v.step_from v.step_to w

module _ {F : Type 0} ⦃fl : Float64 F⦄ {Reads : ℤ → Type 0} {r : CanaryRollout F}
    {t : CanaryRolloutStatus F} where
  -- A transition keeps a well-formed rollout so.
  pub Transition-IsWellFormed :
      Transition Reads r t → IsWellFormed r → IsWellFormed (record r { status = t })
  Transition-IsWellFormed (abort w l b a) v = unmoved _ _ v b (omega arith)
  Transition-IsWellFormed (pause w l x y z b a) v = unmoved _ _ v b v.weight
  Transition-IsWellFormed (resume w l b a) v = unmoved _ _ v b v.weight
  Transition-IsWellFormed (start w l b a) v =
      rebuilt _ _ _ v b (omega arith) (omega arith) (omega arith)
  Transition-IsWellFormed (finish w a l b s) v = unmoved _ _ v b (omega arith)
  Transition-IsWellFormed (time_out w a l n k o b s) v = unmoved _ _ v b (omega arith)
  Transition-IsWellFormed (apply step at d b a) v =
      unmoved _ _ v b (step_at-IsPercentage _ _ step v.weights at.found)
  Transition-IsWellFormed (roll_back_step step at d rep an w b a) v = unmoved _ _ v b (omega arith)
  Transition-IsWellFormed (observe step at d o b a) v = unmoved _ _ v b v.weight
  Transition-IsWellFormed (advance step at d n k o after ob g e b) v =
      let (i, is, lt, next) = next-in-range _ _ step v.few_steps at.found in
      elim b [
        | inl (last, c) ↦
            rebuilt _ _ _ v c (rw next (omega arith)) (rw next (omega arith)) (omega arith)
        | inr (more, c) ↦ rebuilt _ _ _ v c (rw next (omega arith)) (rw next (omega arith)) v.weight
      ]

  -- `Aborted` is final.
  pub Transition-not_aborted : Transition Reads r t → is_aborted r.status.phase ≡ false
  Transition-not_aborted (abort w l b a) = l
  Transition-not_aborted (pause w l x y z b a) = x
  Transition-not_aborted (resume w l b a) = (paused_or_new _ (inl l)).0
  Transition-not_aborted (start w l b a) = (paused_or_new _ (inr l)).0
  Transition-not_aborted (finish w a l b s) = ground arith
  Transition-not_aborted (time_out w a l n k o b s) = ground arith
  Transition-not_aborted (apply step at d b a) = ground (arith, at.active)
  Transition-not_aborted (roll_back_step step at d rep an w b a) = ground (arith, at.active)
  Transition-not_aborted (observe step at d o b a) = ground (arith, at.active)
  Transition-not_aborted (advance step at d n k o after ob g e b) = ground (arith, at.active)

  -- `Promoted` is left only on an abort request.
  pub Transition-promoted :
      Transition Reads r t
      → is_promoted r.status.phase ≡ true
      → (r.spec.abort ≡ true) × (t.phase ≡ aborted)
  Transition-promoted (abort w l b a) p = (w, b.0)
  Transition-promoted (pause w l x y z b a) p = cc
  Transition-promoted (resume w l b a) p = cc (sym p ∙ (paused_or_new _ (inl l)).1)
  Transition-promoted (start w l b a) p = cc (sym p ∙ (paused_or_new _ (inr l)).1)
  Transition-promoted (finish w a l b s) p = ground arith
  Transition-promoted (time_out w a l n k o b s) p = ground arith
  Transition-promoted (apply step at d b a) p = ground (arith, at.active)
  Transition-promoted (roll_back_step step at d rep an w b a) p = ground (arith, at.active)
  Transition-promoted (observe step at d o b a) p = ground (arith, at.active)
  Transition-promoted (advance step at d n k o after ob g e b) p = ground (arith, at.active)

  -- The step index stays or goes up by one, but at the start, where it is 0.
  pub Transition-step :
      Transition Reads r t
      → IsWellFormed r
      → (t.current_step ≡ r.status.current_step)
        ⊎ ((t.current_step ≡ r.status.current_step +ℤ pos 1) × (is_active r.status.phase ≡ true))
        ⊎ ((t.current_step ≡ pos 0) × (is_new r.status.phase ≡ true))
  Transition-step (abort w l b a) v = inl b.1
  Transition-step (pause w l x y z b a) v = inl b.1
  Transition-step (resume w l b a) v = inl b.1
  Transition-step (start w l b a) v = inr (inr (b.1, l))
  Transition-step (finish w a l b s) v = inl b.1
  Transition-step (time_out w a l n k o b s) v = inl b.1
  Transition-step (apply step at d b a) v = inl b.1
  Transition-step (roll_back_step step at d rep an w b a) v = inl b.1
  Transition-step (observe step at d o b a) v = inl b.1
  Transition-step (advance step at d n k o after ob g e b) v =
      let (i, is, lt, next) = next-in-range _ _ step v.few_steps at.found in
      let up = next ∙ sym (pos-+ℤ-one i) ∙ ap (λ n. n +ℤ pos 1) (sym is) in
      elim b [
        | inl (last, c) ↦ inr (inl (c.1 ∙ up, at.active))
        | inr (more, c) ↦ inr (inl (c.1 ∙ up, at.active))
      ]
