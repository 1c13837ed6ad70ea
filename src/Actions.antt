-- ===== src/Actions.antt =====
-- Actions that a program takes on its surroundings. Each call is recorded in a history, the newest call
-- first, and its answer depends on all that was called before.
pub mod Rules
pub mod Count
pub mod Exact
pub mod Weaken
pub mod Handled
use statgate.Prelude.{Bool, true, false, String, List, ◌∷◌, ◌⊎◌, inl, inr, ◌≡◌, arith}

-- A Go `error`: an API error by whether `IsNotFound` holds, or a text put in front of another error.
pub data Error : Type 0 where
  not_found failure : String → Error
  wrap : String → Error → Error

abbrev pub is_not_found : Error → Bool
is_not_found (not_found s) = true
is_not_found (failure s) = false
is_not_found (wrap s e) = is_not_found e

-- What a Go function returns: its value, its error, or a run-time panic.
pub data Result (A : Type 0) : Type 0 where
  ok : A → Result A
  err : Error → Result A
  panic : Result A

-- An action over calls of the type `C`.
abbrev pub Action : Type 0 → Type 0 → Type 0
Action C A = List C → Result A × List C

abbrev pub reply : {A : Type 0} → Error ⊎ A → Result A
reply (inl e) = err e
reply (inr a) = ok a

module _ {C A : Type 0} where
  unfoldable pub pure : A → Action C A
  pure a h = (ok a, h)

  unfoldable pub fail : Error → Action C A
  fail e h = (err e, h)

  unfoldable pub crash : Action C A
  crash h = (panic, h)

  unfoldable pub lift : Error ⊎ A → Action C A
  lift r h = (reply r, h)

  -- A call, with the environment's answer to it.
  unfoldable pub perform : C → (List C → Error ⊎ A) → Action C A
  perform c answer h = (reply (answer h), c ∷ h)

module _ {C A B : Type 0} where
  abbrev pub continue : Result A × List C → (A → Action C B) → Result B × List C
  continue (ok a, h) f = f a h
  continue (err e, h) f = (err e, h)
  continue (panic, h) f = (panic, h)

  infixl 5 ◌>>=◌ ◌>>◌
  unfoldable pub ◌>>=◌ : Action C A → (A → Action C B) → Action C B
  ◌>>=◌ m f h = continue (m h) f

  abbrev pub ◌>>◌ : Action C A → Action C B → Action C B
  m >> n = m >>= λ _. n

abbrev pub wrapped : {A H : Type 0} → String → Result A × H → Result A × H
wrapped s (ok a, h) = (ok a, h)
wrapped s (err e, h) = (err (wrap s e), h)
wrapped s (panic, h) = (panic, h)

abbrev pub discarded : {A H : Type 0} → Result A × H → Result (Unit {0}) × H
discarded (ok a, h) = (ok tt, h)
discarded (err e, h) = (ok tt, h)
discarded (panic, h) = (panic, h)

abbrev pub captured : {A H : Type 0} → Result A × H → Result (Error ⊎ A) × H
captured (ok a, h) = (ok (inr a), h)
captured (err e, h) = (ok (inl e), h)
captured (panic, h) = (panic, h)

module _ {C A : Type 0} where
  -- The error as a value, for the caller to look at.
  unfoldable pub attempt : Action C A → Action C (Error ⊎ A)
  attempt m h = captured (m h)

  -- `if err != nil { return fmt.Errorf("text: %w", err) }`
  unfoldable pub wrapping : String → Action C A → Action C A
  wrapping s m h = wrapped s (m h)

  -- `_ = f()`: the error is dropped.
  unfoldable pub ignoring : Action C A → Action C (Unit {0})
  ignoring m h = discarded (m h)

abbrev pub wrap_error {ℓ} : {A : Type ℓ} → String → Error ⊎ A → Error ⊎ A
wrap_error s (inl e) = inl (wrap s e)
wrap_error s (inr a) = inr a

module _ {C A B : Type 0} (f : A → Action C B) where
  -- A bind by the first result.
  pub continue-ok : (r : Result A × List C) (a : A) → r.0 ≡ ok a → continue r f ≡ f a r.1
  continue-ok (ok b, h) a e = ground arith
  continue-ok (err x, h) a e = absurd (ground arith)
  continue-ok (panic, h) a e = absurd (ground arith)

  pub continue-err : (r : Result A × List C) (x : Error) → r.0 ≡ err x → continue r f ≡ (err x, r.1)
  continue-err (ok b, h) x e = absurd (ground arith)
  continue-err (err y, h) x e = ground arith
  continue-err (panic, h) x e = absurd (ground arith)
