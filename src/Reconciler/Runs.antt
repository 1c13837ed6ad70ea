-- ===== src/Reconciler/Runs.antt =====
-- Sequences of cycles and of the edits of the spec that `statctl` makes.
use mathlib.Core.List.{append_cancel_right}
use statgate.Prelude.{
  Bool, true, List, [], ◌∷◌, ◌⊎◌, inl, inr, ◌≡◌, refl, sym, ◌∙◌, ap, All, ◌++◌, subst,
}
use statgate.Float64.{Float64}
use statgate.Api.{CanaryRollout, CanaryRolloutStatus}
use statgate.Effects.{ObjectKey, Env, Call, History, update_status}
use statgate.VirtualService.{Unstructured}
use statgate.Reconciler.{is_aborted, reconcile}
use statgate.Reconciler.Transition.{Transition, Allowed}
use statgate.Reconciler.Cycle.{reconcile-Allowed}
use statgate.Reconciler.Safety.{IsWellFormed, Transition-IsWellFormed, Transition-not_aborted}

abbrev pub edited : {F : Type 0} → CanaryRollout F → Bool → Bool → CanaryRollout F
edited r halt stop = record r { spec = record r.spec { paused = halt; abort = stop } }

abbrev pub IsWithin : {A : Type 0} → A → List A → Type 0
IsWithin a [] = ⊥
IsWithin a (x ∷ xs) = (x ≡ a) ⊎ IsWithin a xs

All-IsWithin : {A : Type 0} (P : A → Type 0) (a : A) (xs : List A) → All P xs → IsWithin a xs → P a
All-IsWithin P a [] h w = absurd w
All-IsWithin P a (x ∷ xs) h (inl e) = subst P e h.0
All-IsWithin P a (x ∷ xs) h (inr w) = All-IsWithin P a xs h.1 w

module _ {F V : Type 0} ⦃fl : Float64 F⦄ ⦃u : Unstructured V⦄ where
  -- A cycle that read `r` made an update of the status to that of `r'`.
  pub record Stores (env : Env F V) (key : ObjectKey) (h : History F V) (r r' : CanaryRollout F)
      : Type 0 where
    pub found : env.rollout_at h key ≡ inr r
    pub calls : List (Call F V)
    pub grown : (reconcile env key h).1 ≡ calls ++ h
    pub within : IsWithin (update_status r') calls

  pub Stores-Transition :
      {env : Env F V} {key : ObjectKey} {h : History F V} {r r' : CanaryRollout F}
      → Stores env key h r r'
      → (r' ≡ record r { status = r'.status }) × Transition (λ _. Unit {0}) r r'.status
  Stores-Transition {env} {key} {h} {r} {r'} s =
      let o = reconcile-Allowed env key h (λ _. Unit {0}) (λ _. tt) r s.found in
      All-IsWithin (Allowed env (λ _. Unit {0}) r) (update_status r') o.calls o.allowed (
        subst (IsWithin (update_status r')) (append_cancel_right _ _ h (sym s.grown ∙ o.grown))
          s.within)

-- What a rollout `r` can come to from `s`, by cycles and edits. A cycle stores its update only over
-- the rollout that it read, since the API server refuses an update of an object that has changed
-- meanwhile.
pub data Run {F : Type 0} (V : Type 0) ⦃fl : Float64 F⦄ ⦃u : Unstructured V⦄ (s : CanaryRollout F)
    : CanaryRollout F → Type 0 where
  here : Run V s s
  cycle :
      {r r' : CanaryRollout F} (env : Env F V) (key : ObjectKey) (h : History F V)
      → Run V s r
      → Stores env key h r r'
      → Run V s r'
  edit : {r : CanaryRollout F} (halt stop : Bool) → Run V s r → Run V s (edited r halt stop)

module _ {F V : Type 0} ⦃fl : Float64 F⦄ ⦃u : Unstructured V⦄ {s : CanaryRollout F} where
  -- What holds of the start, and is kept by transitions and edits, holds all along a run.
  pub Run-induction :
      (P : CanaryRollout F → Type 0)
      → ((r : CanaryRollout F) (t : CanaryRolloutStatus F)
          → P r
          → Transition (λ _. Unit {0}) r t
          → P (record r { status = t }))
      → ((r : CanaryRollout F) (halt stop : Bool) → P r → P (edited r halt stop))
      → P s
      → (r : CanaryRollout F) → Run V s r
      → P r
  Run-induction P kept changed p _ here = p
  Run-induction P kept changed p r' (cycle {r = r} env key h run stored) =
      let (same, moved) = Stores-Transition stored in
      subst P (sym same) (kept r r'.status (Run-induction P kept changed p r run) moved)
  Run-induction P kept changed p _ (edit {r = r} halt stop run) =
      changed r halt stop (Run-induction P kept changed p r run)

  -- A well-formed rollout stays well-formed under cycles, in any environment, and edits of `paused` and
  -- `abort`: its step stays within the list, and its weight stays a percentage.
  pub Run-IsWellFormed : (r : CanaryRollout F) → IsWellFormed s → Run V s r → IsWellFormed r
  Run-IsWellFormed r v =
      Run-induction IsWellFormed (λ r t w step. Transition-IsWellFormed step w)
        (λ r halt stop w. record {
          weights = w.weights;
          few_steps = w.few_steps;
          step_from = w.step_from;
          step_to = w.step_to;
          weight = w.weight;
        })
        v r

  -- The status of an aborted rollout never changes, whatever cycles run and whatever is edited.
  pub Run-aborted :
      (r : CanaryRollout F) → is_aborted s.status.phase ≡ true → Run V s r → r.status ≡ s.status
  Run-aborted r a =
      Run-induction (λ x. x.status ≡ s.status)
        (λ x t e step.
          cc (
            ap (λ (st : CanaryRolloutStatus F). is_aborted st.phase) e,
            Transition-not_aborted step,
          ))
        (λ x halt stop e. e) refl r
