-- ===== src/Actions/Count.antt =====
-- Bounds on how often an action makes the calls of one kind.
use statgate.Prelude.{
  ℕ, Bool, true, false, String, List, [], ◌∷◌, ◌++◌, ◌+◌, ◌≤◌, ◌≡◌, refl, if◌then◌else◌, All, arith,
  ◌⊎◌,
}
use statgate.Actions.{
  Error, Result, ok, err, panic, Action, pure, fail, crash, perform, continue, ◌>>=◌, wrapping,
  wrapped, ignoring, discarded, attempt, captured,
}
use statgate.Actions.Rules.{Ensures}

module _ {C : Type 0} (cost : C → ℕ) where
  abbrev pub total : List C → ℕ
  total [] = 0
  total (c ∷ cs) = cost c + total cs

  pub total-append : (cs h : List C) → All (λ c. cost c ≡ 0) cs → total (cs ++ h) ≡ total h
  total-append [] h a = refl
  total-append (c ∷ cs) h a = omega (arith, total-append cs h a.1, a.0)

  module _ {A : Type 0} where
    -- At most `n` of the counted calls, whatever was called before.
    pub record Costs (n : ℕ) (m : Action C A) : Type 0 where
      pub bound : (h : List C) → total (m h).1 ≤ n + total h

    pub Costs-pure : (n : ℕ) (a : A) → Costs n (pure a)
    unfolding pure
    Costs-pure n a = record { bound = λ h. omega arith }

    pub Costs-fail : (n : ℕ) (e : Error) → Costs n (fail e)
    unfolding fail
    Costs-fail n e = record { bound = λ h. omega arith }

    pub Costs-crash : (n : ℕ) → Costs n crash
    unfolding crash
    Costs-crash n = record { bound = λ h. omega arith }

    pub Costs-perform :
        (n : ℕ) (c : C) (answer : List C → Error ⊎ A) → cost c ≤ n → Costs n (perform c answer)
    unfolding perform
    Costs-perform n c answer le = record { bound = λ h. omega arith }

    pub Costs-if :
        (n : ℕ) (b : Bool) (m k : Action C A) → Costs n m → Costs n k → Costs n (if b then m else k)
    Costs-if n true m k cm ck = cm
    Costs-if n false m k cm ck = ck

    wrapped-history : {H : Type 0} (s : String) (r : Result A × H) → (wrapped s r).1 ≡ r.1
    wrapped-history s (ok a, h) = refl
    wrapped-history s (err e, h) = refl
    wrapped-history s (panic, h) = refl

    discarded-history : {H : Type 0} (r : Result A × H) → (discarded r).1 ≡ r.1
    discarded-history (ok a, h) = refl
    discarded-history (err e, h) = refl
    discarded-history (panic, h) = refl

    captured-history : {H : Type 0} (r : Result A × H) → (captured r).1 ≡ r.1
    captured-history (ok a, h) = refl
    captured-history (err e, h) = refl
    captured-history (panic, h) = refl

    pub Costs-wrapping : (n : ℕ) (s : String) (m : Action C A) → Costs n m → Costs n (wrapping s m)
    unfolding wrapping
    Costs-wrapping n s m c = record { bound = λ h. rw (wrapped-history s (m h)) (c.bound h) }

    -- Nothing is counted where no call has a cost.
    pub Costs-of_Ensures :
        (n : ℕ) {K : Type 0} {Q : A → Type 0} (m : Action C A)
        → Ensures (λ c. cost c ≡ 0) K Q m
        → Costs n m
    Costs-of_Ensures n m e = record {
      bound = λ h. let o = e.at h in rw (o.grown, total-append o.calls h o.allowed) (omega arith);
    }

  pub Costs-ignoring : {A : Type 0} (n : ℕ) (m : Action C A) → Costs n m → Costs n (ignoring m)
  unfolding ignoring
  Costs-ignoring n m c = record { bound = λ h. rw (discarded-history (m h)) (c.bound h) }

  pub Costs-attempt : {A : Type 0} (n : ℕ) (m : Action C A) → Costs n m → Costs n (attempt m)
  unfolding attempt
  Costs-attempt n m c = record { bound = λ h. rw (captured-history (m h)) (c.bound h) }

  total-continue :
      {A B : Type 0} (n : ℕ) (r : Result A × List C) (f : A → Action C B)
      → ((a : A) → Costs n (f a))
      → total (continue r f).1 ≤ n + total r.1
  total-continue n (ok a, h) f c = (c a).bound h
  total-continue n (err e, h) f c = omega arith
  total-continue n (panic, h) f c = omega arith

  pub Costs-bind :
      {A B : Type 0} (n k : ℕ) (m : Action C A) (f : A → Action C B)
      → Costs n m
      → ((a : A) → Costs k (f a))
      → Costs (n + k) (m >>= f)
  unfolding ◌>>=◌
  Costs-bind n k m f cm cf = record {
    bound = λ h. omega (arith, total-continue k (m h) f cf, cm.bound h);
  }

  -- A part that costs nothing, in front.
  pub Costs-then :
      {A B : Type 0} (k : ℕ) (m : Action C A) (f : A → Action C B)
      → Costs 0 m
      → ((a : A) → Costs k (f a))
      → Costs k (m >>= f)
  unfolding ◌>>=◌
  Costs-then k m f cm cf = record {
    bound = λ h. omega (arith, total-continue k (m h) f cf, cm.bound h);
  }
