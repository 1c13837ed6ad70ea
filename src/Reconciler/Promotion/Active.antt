-- ===== src/Reconciler/Promotion/Active.antt =====
-- A rollout on its way to the promotion: where it is, and how many cycles are left.
use native.Mathlib.Nat.{suc-mul, zero-mul}
use statgate.Prelude.{
  ℕ, zero, suc, ◌+◌, ◌*◌, ◌<◌, ◌≤◌, ℤ, pos, ◌+ℤ◌, wrap32, eq_ℤ, Bool, true, false, some, String,
  List, [], ◌∷◌, ◌⊎◌, ◌≡◌, refl, ap, ◌∙◌, length, get_elem?, arith, wrap32_of_range,
}
use statgate.Float64.{Float64}
use statgate.Api.{CanaryStep, CanaryRollout, SprtMetricState, running, promoted, RolloutPhase}
use statgate.Effects.{ObjectKey, Env, Call, History, update_status, read_clock}
use statgate.VirtualService.{Unstructured}
use statgate.Reconciler.Promotion.{IsServing, IsPlain, with_status, latest, at_step}
use statgate.Reconciler.Promotion.Timer.{IsDue, IsDue-set}
use statgate.Reconciler.Promotion.Rounds.{EndsPromoted}
use statgate.Reconciler.Transition.{is_active}

-- The cycles that `m` steps take, if the pause of each is over after `waits` cycles that wait: one
-- that sets the weight, those that wait and one that goes on; and one more if there is no step at all.
abbrev pub cost : ℕ → ℕ → ℕ
cost waits zero = 1
cost waits (suc m) = suc (suc (waits + cost waits m))

pub cost_lem : (waits m : ℕ) → cost waits m ≡ m * (waits + 2) + 1
cost_lem waits zero = omega (arith, zero-mul (waits + 2))
cost_lem waits (suc m) = omega (arith, cost_lem waits m, suc-mul m (waits + 2))

-- Those that are left with `m` steps to go, `v` waits, and the step's weight set or not.
abbrev pub need : ℕ → ℕ → ℕ → Bool → ℕ
need waits zero v set = 1
need waits (suc m) v true = suc (v + cost waits m)
need waits (suc m) v false = cost waits (suc m)

one_more : (k : ℕ) → pos k +ℤ pos 1 ≡ pos (suc k)
unfolding ◌+ℤ◌
one_more k = ground arith

pub next_step : (k m n : ℕ) → k + suc m ≡ n → n < 2147483648 → wrap32 (pos k +ℤ pos 1) ≡ pos (suc k)
next_step k m n e b = ap wrap32 (one_more k) ∙ wrap32_of_range (pos (suc k)) (omega (arith, e, b))

abbrev pub IsPromoted : {F V : Type 0} → CanaryRollout F → CanaryRollout F → History F V → Type 0
IsPromoted base s h =
    ((latest base h).status.phase ≡ promoted)
    × ((latest base h).status.current_weight ≡ pos 100)
    × ((latest base h).spec ≡ s.spec)

module _ {F V : Type 0} ⦃fl : Float64 F⦄ ⦃u : Unstructured V⦄ (env : Env F V) (key : ObjectKey)
    (base s : CanaryRollout F) (longest tick waits : ℕ) where
  -- The longest pause is over after that many cycles and one.
  pub record IsOnCourse : Type 0 where
    pub serving : IsServing env key base s tick
    pub plain : IsPlain s longest
    pub enough : longest ≤ suc waits * tick

  -- A rollout on its way, at step `k` with `m` to go, `v` cycles before its timer is due.
  pub record Active (k m v : ℕ) (set : Bool) (h : History F V) : Type 0 where
    pub phase : RolloutPhase
    pub active : is_active phase ≡ true
    pub weight : ℤ
    pub timer : ℤ
    pub message : String
    pub states : List (SprtMetricState F)
    pub stored : latest base h ≡ with_status s (at_step phase (pos k) weight timer message states)
    pub steps : k + m ≡ length s.spec.steps
    pub few : v ≤ waits
    pub due : IsDue env key longest tick v h timer
    pub has_weight :
        set ≡ true
        → (c : CanaryStep) → get_elem? s.spec.steps k ≡ some c
        → eq_ℤ weight c.weight ≡ true

  -- What a cycle makes of it.
  abbrev pub Onward : ℕ → History F V → Type 0
  Onward budget h =
      IsPromoted base s h
      ⊎ ((k m v : ℕ) × (set : Bool) × Active k m v set h × (suc (need waits m v set) ≤ budget))

pub EndsPromoted-IsPromoted :
    {F V : Type 0} (base s : CanaryRollout F) (h : History F V)
    → EndsPromoted s.spec h
    → IsPromoted base s h
EndsPromoted-IsPromoted base s h (r, rest, e, phase, weight, spec) = rw e (phase, weight, spec)

pub need_unset : (waits m v : ℕ) → need waits m v false ≡ cost waits m
need_unset waits zero v = refl
need_unset waits (suc m) v = refl

pub need_positive : (waits m v : ℕ) (set : Bool) → 1 ≤ need waits m v set
need_positive waits zero v set = omega arith
need_positive waits (suc m) v true = omega arith
need_positive waits (suc m) v false = omega arith

pub need_least :
    (waits m v : ℕ) (set : Bool) → v ≤ waits → suc (v + cost waits m) ≤ need waits (suc m) v set
need_least waits m v true e = omega arith
need_least waits m v false e = omega (arith, e)

module _ {F V : Type 0} ⦃fl : Float64 F⦄ ⦃u : Unstructured V⦄ {env : Env F V} {key : ObjectKey}
    {base s : CanaryRollout F} {longest tick waits : ℕ}
    (course : IsOnCourse env key base s longest tick waits) where
  -- A status that is stored with a new timer.
  pub fresh :
      (k m : ℕ) (set : Bool) (weight : ℤ) (message : String) (states : List (SprtMetricState F))
      (before h : History F V) (c₁ c₂ : Call F V)
      → h
        ≡ update_status
            (with_status s (at_step running (pos k) weight (env.now_at before) message states))
          ∷ c₁
          ∷ c₂
          ∷ read_clock
          ∷ before
      → k + m ≡ length s.spec.steps
      → (set ≡ true
          → (c : CanaryStep) → get_elem? s.spec.steps k ≡ some c
          → eq_ℤ weight c.weight ≡ true)
      → Active env key base s longest tick waits k m waits set h
  fresh k m set weight message states before h c₁ c₂ e steps weighs = rw e record {
    phase = running;
    active = refl;
    weight = weight;
    timer = env.now_at before;
    message = message;
    states = states;
    stored = refl;
    steps = steps;
    few = omega arith;
    due =
        IsDue-set env key longest tick course.serving waits before (_ ∷ c₁ ∷ c₂ ∷ []) course.enough;
    has_weight = weighs;
  }
