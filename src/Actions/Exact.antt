-- ===== src/Actions/Exact.antt =====
-- Actions that always return, and how often exactly they make the calls of one kind.
use statgate.Prelude.{
  ◌∷◌, ◌⊎◌, ℕ, Bool, true, false, List, ◌+◌, ◌≡◌, refl, if◌then◌else◌, arith, inl, inr, ◌∙◌, ap,
}
use statgate.Actions.{
  Error, reply, Result, ok, err, panic, Action, pure, perform, attempt, captured, continue, ◌>>=◌,
}
use statgate.Actions.Rules.{Ensures, Outcome}
use statgate.Actions.Count.{total, total-append}

module _ {C : Type 0} (cost : C → ℕ) where
  -- The result and the history of an action that returned and made `n` of the calls.
  pub record IsExact {A : Type 0} (n : ℕ) (h : List C) (r : Result A × List C) : Type 0 where
    pub value : A
    pub returned : r.0 ≡ ok value
    pub counted : total cost r.1 ≡ n + total cost h

  pub record Exactly {A : Type 0} (n : ℕ) (m : Action C A) : Type 0 where
    pub at : (h : List C) → IsExact n h (m h)

  module _ {A : Type 0} where
    pub Exactly-pure : (a : A) → Exactly 0 (pure a)
    unfolding pure
    Exactly-pure a = record {
      at = λ h. record { value = a; returned = refl; counted = omega arith };
    }

    pub Exactly-perform : (c : C) (f : List C → A) → Exactly (cost c) (perform c (λ h. inr (f h)))
    unfolding perform
    Exactly-perform c f = record {
      at = λ h. record { value = f h; returned = refl; counted = refl };
    }

    pub Exactly-if :
        (n : ℕ) (b : Bool) (m k : Action C A)
        → (b ≡ true → Exactly n m)
        → (b ≡ false → Exactly n k)
        → Exactly n (if b then m else k)
    Exactly-if n true m k cm ck = cm refl
    Exactly-if n false m k cm ck = ck refl

    IsExact-captured :
        {Q : A → Type 0} (h : List C) (r : Result A × List C)
        → Outcome (λ c. cost c ≡ 0) ⊥ Q h r
        → IsExact 0 h (captured r)
    IsExact-captured h (ok a, h') o = record {
      value = inr a;
      returned = refl;
      counted = ap (total cost) o.grown ∙ total-append cost o.calls h o.allowed ∙ omega arith;
    }
    IsExact-captured h (err e, h') o = record {
      value = inl e;
      returned = refl;
      counted = ap (total cost) o.grown ∙ total-append cost o.calls h o.allowed ∙ omega arith;
    }
    IsExact-captured h (panic, h') o = absurd o.post

    -- An action that may fail but not panic, and makes none of the calls.
    pub Exactly-attempt :
        {Q : A → Type 0} (m : Action C A) → Ensures (λ c. cost c ≡ 0) ⊥ Q m → Exactly 0 (attempt m)
    unfolding attempt
    Exactly-attempt m e = record { at = λ h. IsExact-captured h (m h) (e.at h) }

  IsExact-continue :
      {A B : Type 0} (n k : ℕ) (h : List C) (r : Result A × List C) (f : A → Action C B)
      → IsExact n h r
      → ((a : A) → Exactly k (f a))
      → IsExact (n + k) h (continue r f)
  IsExact-continue n k h (ok a, h') f e c =
      let x = (c a).at h' in
      record {
        value = x.value;
        returned = x.returned;
        counted = omega (arith, x.counted, e.counted);
      }
  IsExact-continue n k h (err e', h') f e c = absurd (ground (arith, e.returned))
  IsExact-continue n k h (panic, h') f e c = absurd (ground (arith, e.returned))

  pub Exactly-bind :
      {A B : Type 0} (n k : ℕ) (m : Action C A) (f : A → Action C B)
      → Exactly n m
      → ((a : A) → Exactly k (f a))
      → Exactly (n + k) (m >>= f)
  unfolding ◌>>=◌
  Exactly-bind n k m f e c = record { at = λ h. IsExact-continue n k h (m h) f (e.at h) c }

  -- A call of the environment, whose error is taken.
  pub Exactly-tried :
      {A : Type 0} (c : C) (answer : List C → Error ⊎ A)
      → Exactly (cost c) (attempt (perform c answer))
  unfolding attempt perform
  Exactly-tried {A} c answer = record { at = λ h. tried h (answer h) }
    where
      tried : (h : List C) (a : Error ⊎ A) → IsExact (cost c) h (captured (reply a, c ∷ h))
      tried h (inl e) = record { value = inl e; returned = refl; counted = refl }
      tried h (inr a) = record { value = inr a; returned = refl; counted = refl }
