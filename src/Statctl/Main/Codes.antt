-- ===== src/Statctl/Main/Codes.antt =====
-- `statctl` as a whole: what it never writes, and the codes that it exits with.
use statgate.Prelude.{ℕ, Option, none, some, ◌≡◌, ◌≤◌}
use statgate.Float64.{Float64}
use statgate.Actions.Rules.{Ensures}
use statgate.Effects.{Env, Call, M, update_status, update_virtual_service}
use statgate.Statctl.Watch.{Watching}

-- Not the controller's writes: a rollout's status, and a VirtualService.
abbrev pub IsClients : {F V : Type 0} → Call F V → Type 0
IsClients (update_status r) = ⊥
IsClients (update_virtual_service v) = ⊥
IsClients _ = Unit {0}

-- An exit code of `statctl`, or none while it runs.
abbrev pub IsCode : Option ℕ → Type 0
IsCode none = Unit {0}
IsCode (some code) = code ≤ 2

module _ {F V : Type 0} ⦃fl : Float64 F⦄ (env : Env F V) where
  -- No panic, and none of the controller's writes.
  abbrev IsSafe : {A : Type 0} → M F V A → Type 0
  IsSafe m = Ensures IsClients ⊥ (λ _. Unit {0}) m

  -- The subcommand, if there is one.
  record IsSafeOption (o : Option (M F V Watching)) : Type 0 where
    each : (m : M F V Watching) → o ≡ some m → IsSafe m

  -- With an exit code.
  abbrev Exits : M F V (Option ℕ) → Type 0
  Exits m = Ensures IsClients ⊥ IsCode m
