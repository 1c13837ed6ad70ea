-- ===== src/Actions/Handled.antt =====
-- Actions that handle every error.
use statgate.Prelude.{ap, List, ◌++◌, ◌≡◌, refl, All, arith}
use statgate.Actions.{Error, Result, Action, ok, err, panic, attempt, captured, continue, ◌>>=◌}
use statgate.Actions.Rules.{Outcome}

-- An action that never ends with an error.
abbrev pub NoErr : {C A : Type 0} → Action C A → Type 0
NoErr {C} m = (h : List C) (e : Error) → (m h).0 ≡ err e → ⊥

captured-NoErr : {A H : Type 0} (r : Result A × H) (e : Error) → (captured r).0 ≡ err e → ⊥
captured-NoErr (ok a, h) e q = absurd (ground arith)
captured-NoErr (err x, h) e q = absurd (ground arith)
captured-NoErr (panic, h) e q = absurd (ground arith)

pub attempt-NoErr : {C A : Type 0} (m : Action C A) → NoErr (attempt m)
unfolding attempt
attempt-NoErr m h = captured-NoErr (m h)

continued-NoErr :
    {C A B : Type 0} (r : Result A × List C) (f : A → Action C B)
    → ((e : Error) → r.0 ≡ err e → ⊥)
    → ((a : A) → NoErr (f a))
    → (e : Error) → (continue r f).0 ≡ err e
    → ⊥
continued-NoErr (ok a, h) f m n e = n a h e
continued-NoErr (err x, h) f m n e = λ q. m x refl
continued-NoErr (panic, h) f m n e = λ q. absurd (ground arith)

pub continue-NoErr :
    {C A B : Type 0} (m : Action C A) (f : A → Action C B)
    → NoErr m
    → ((a : A) → NoErr (f a))
    → NoErr (m >>= f)
unfolding ◌>>=◌
continue-NoErr m f first next h = continued-NoErr (m h) f (first h) next

pub Outcome-ok :
    {C : Type 0} {P : C → Type 0} {A : Type 0} {Q : A → Type 0} {h : List C} (r : Result A × List C)
    → Outcome P ⊥ Q h r
    → ((e : Error) → r.0 ≡ err e → ⊥)
    → (a : A) × (calls : List C) × Q a × (r ≡ (ok a, calls ++ h)) × All P calls
Outcome-ok (ok a, h') o n = (a, o.calls, o.post, ap (λ h. (ok a, h)) o.grown, o.allowed)
Outcome-ok (err e, h') o n = absurd (n e refl)
Outcome-ok (panic, h') o n = absurd o.post
