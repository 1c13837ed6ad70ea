-- ===== src/Actions/Rules.antt =====
-- A program logic for the controller's actions, one rule for each way to build an action.
use statgate.Prelude.{
  Bool, true, false, String, List, [], ◌∷◌, ◌++◌, ◌⊎◌, inl, inr, ◌≡◌, refl, if◌then◌else◌, All,
  All-append, ◌∙◌, ap, sym,
}
use statgate.Actions.{
  Error, Result, ok, err, panic, Action, pure, fail, crash, lift, reply, perform, continue, ◌>>=◌,
  wrapping, wrapped, ignoring, discarded, attempt, captured,
}
use mathlib.Core.List.{append_assoc}

-- `Q` of a value that is returned, and `K` if the function panics.
abbrev pub Post : {A : Type 0} → Type 0 → (A → Type 0) → Result A → Type 0
Post K Q (ok a) = Q a
Post K Q (err e) = Unit {0}
Post K Q panic = K

Post-reply :
    {A : Type 0} (K : Type 0) (Q : A → Type 0) (r : Error ⊎ A)
    → ((a : A) → r ≡ inr a → Q a)
    → Post K Q (reply r)
Post-reply K Q (inl e) q = tt
Post-reply K Q (inr a) q = q a refl

-- What an action did from the history `h` on: it called `calls`, all of them as `P` allows.
pub record Outcome {C A : Type 0} (P : C → Type 0) (K : Type 0) (Q : A → Type 0) (h : List C)
    (r : Result A × List C) : Type 0 where
  pub calls : List C
  pub grown : r.1 ≡ calls ++ h
  pub allowed : All P calls
  pub post : Post K Q r.0

pub record Ensures {C A : Type 0} (P : C → Type 0) (K : Type 0) (Q : A → Type 0) (m : Action C A)
    : Type 0 where
  pub at : (h : List C) → Outcome P K Q h (m h)

module _ {C A : Type 0} {P : C → Type 0} {K : Type 0} {Q : A → Type 0} where
  pub Ensures-pure : (a : A) → Q a → Ensures P K Q (pure a)
  unfolding pure
  Ensures-pure a q = record {
    at = λ h. record { calls = []; grown = refl; allowed = tt; post = q };
  }

  pub Ensures-fail : (e : Error) → Ensures P K Q (fail e)
  unfolding fail
  Ensures-fail e = record { at = λ h. record { calls = []; grown = refl; allowed = tt; post = tt } }

  pub Ensures-crash : K → Ensures P K Q crash
  unfolding crash
  Ensures-crash k = record { at = λ h. record { calls = []; grown = refl; allowed = tt; post = k } }

  pub Ensures-lift : (r : Error ⊎ A) → ((a : A) → r ≡ inr a → Q a) → Ensures P K Q (lift r)
  unfolding lift
  Ensures-lift r q = record {
    at = λ h. record { calls = []; grown = refl; allowed = tt; post = Post-reply K Q r q };
  }

  pub Ensures-perform :
      (c : C) (answer : List C → Error ⊎ A)
      → P c
      → ((h : List C) (a : A) → answer h ≡ inr a → Q a)
      → Ensures P K Q (perform c answer)
  unfolding perform
  Ensures-perform c answer p q = record {
    at = λ h. record {
      calls = c ∷ [];
      grown = refl;
      allowed = (p, tt);
      post = Post-reply K Q (answer h) (q h);
    };
  }

  pub Ensures-if :
      (b : Bool) (m n : Action C A)
      → (b ≡ true → Ensures P K Q m)
      → (b ≡ false → Ensures P K Q n)
      → Ensures P K Q (if b then m else n)
  Ensures-if true m n km kn = km refl
  Ensures-if false m n km kn = kn refl

  Outcome-wrapped :
      (s : String) (h : List C) (r : Result A × List C)
      → Outcome P K Q h r
      → Outcome P K Q h (wrapped s r)
  Outcome-wrapped s h (ok a, h') o = o
  Outcome-wrapped s h (err e, h') o = record {
    calls = o.calls;
    grown = o.grown;
    allowed = o.allowed;
    post = tt;
  }
  Outcome-wrapped s h (panic, h') o = o

  pub Ensures-wrapping :
      (s : String) (m : Action C A) → Ensures P K Q m → Ensures P K Q (wrapping s m)
  unfolding wrapping
  Ensures-wrapping s m e = record { at = λ h. Outcome-wrapped s h (m h) (e.at h) }

  Outcome-discarded :
      (h : List C) (r : Result A × List C)
      → Outcome P K Q h r
      → Outcome P K (λ _. Unit {0}) h (discarded r)
  Outcome-discarded h (ok a, h') o = record {
    calls = o.calls;
    grown = o.grown;
    allowed = o.allowed;
    post = tt;
  }
  Outcome-discarded h (err e, h') o = record {
    calls = o.calls;
    grown = o.grown;
    allowed = o.allowed;
    post = tt;
  }
  Outcome-discarded h (panic, h') o = record {
    calls = o.calls;
    grown = o.grown;
    allowed = o.allowed;
    post = o.post;
  }

  pub Ensures-ignoring :
      (m : Action C A) → Ensures P K Q m → Ensures P K (λ _. Unit {0}) (ignoring m)
  unfolding ignoring
  Ensures-ignoring m e = record { at = λ h. Outcome-discarded h (m h) (e.at h) }

-- A value or an error, with `Q` of a value.
abbrev pub OnValue : {A : Type 0} → (A → Type 0) → Error ⊎ A → Type 0
OnValue Q (inl e) = Unit {0}
OnValue Q (inr a) = Q a

module _ {C A : Type 0} {P : C → Type 0} {K : Type 0} {Q : A → Type 0} where
  Outcome-captured :
      (h : List C) (r : Result A × List C)
      → Outcome P K Q h r
      → Outcome P K (OnValue Q) h (captured r)
  Outcome-captured h (ok a, h') o = record {
    calls = o.calls;
    grown = o.grown;
    allowed = o.allowed;
    post = o.post;
  }
  Outcome-captured h (err e, h') o = record {
    calls = o.calls;
    grown = o.grown;
    allowed = o.allowed;
    post = tt;
  }
  Outcome-captured h (panic, h') o = record {
    calls = o.calls;
    grown = o.grown;
    allowed = o.allowed;
    post = o.post;
  }

  pub Ensures-attempt : (m : Action C A) → Ensures P K Q m → Ensures P K (OnValue Q) (attempt m)
  unfolding attempt
  Ensures-attempt m e = record { at = λ h. Outcome-captured h (m h) (e.at h) }

module _ {C B : Type 0} {P : C → Type 0} {K : Type 0} {R : B → Type 0} where
  -- Two outcomes, the second from where the first ended.
  Outcome-trans :
      (h h' : List C) (c : List C) (r : Result B × List C)
      → h' ≡ c ++ h
      → All P c
      → Outcome P K R h' r
      → Outcome P K R h r
  Outcome-trans h h' c r e a o = record {
    calls = o.calls ++ c;
    grown = o.grown ∙ ap (λ t. o.calls ++ t) e ∙ sym (append_assoc o.calls c h);
    allowed = All-append P o.calls c o.allowed a;
    post = o.post;
  }

module _ {C A B : Type 0} {P : C → Type 0} {K : Type 0} {Q : A → Type 0} {R : B → Type 0} where
  Outcome-continue :
      (h : List C) (r : Result A × List C) (f : A → Action C B)
      → Outcome P K Q h r
      → ((a : A) → Q a → Ensures P K R (f a))
      → Outcome P K R h (continue r f)
  Outcome-continue h (ok a, h') f o k =
      Outcome-trans h h' o.calls (f a h') o.grown o.allowed ((k a o.post).at h')
  Outcome-continue h (err e, h') f o k = record {
    calls = o.calls;
    grown = o.grown;
    allowed = o.allowed;
    post = tt;
  }
  Outcome-continue h (panic, h') f o k = record {
    calls = o.calls;
    grown = o.grown;
    allowed = o.allowed;
    post = o.post;
  }

  pub Ensures-bind :
      (m : Action C A) (f : A → Action C B)
      → Ensures P K Q m
      → ((a : A) → Q a → Ensures P K R (f a))
      → Ensures P K R (m >>= f)
  unfolding ◌>>=◌
  Ensures-bind m f e k = record { at = λ h. Outcome-continue h (m h) f (e.at h) k }

Post-imp :
    {A : Type 0} (K : Type 0) {Q Q' : A → Type 0}
    → ((a : A) → Q a → Q' a)
    → (r : Result A) → Post K Q r
    → Post K Q' r
Post-imp K f (ok a) h = f a h
Post-imp K f (err e) h = tt
Post-imp K f panic h = h

pub Ensures-imp :
    {C A : Type 0} {P : C → Type 0} {K : Type 0} {Q Q' : A → Type 0} (m : Action C A)
    → ((a : A) → Q a → Q' a)
    → Ensures P K Q m
    → Ensures P K Q' m
Ensures-imp {K = K} m f e = record {
  at = λ h.
      let o = e.at h in
      record {
        calls = o.calls;
        grown = o.grown;
        allowed = o.allowed;
        post = Post-imp K f (m h).0 o.post;
      };
}
