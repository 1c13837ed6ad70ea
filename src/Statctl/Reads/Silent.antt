-- ===== src/Statctl/Reads/Silent.antt =====
-- `list` and `get` write nothing.
use statgate.Prelude.{String, List, [], ◌∷◌, Option, none, some}
use statgate.Float64.{Float64}
use statgate.Api.{CanaryRollout}
use statgate.Actions.{◌>>=◌}
use statgate.Actions.Rules.{Ensures, Ensures-pure, Ensures-lift, Ensures-perform, Ensures-bind}
use statgate.Effects.{Env, IsReading, M, now, fetch_rollout}
use statgate.Statctl.Client.{open_client-Ensures}
use statgate.Statctl.Commands.Edits.{parse-Ensures}
use statgate.Statctl.SprtPanel.Drawn.{IsDrawn}
use statgate.Statctl.Dashboard.Drawn.{render_rollout-IsDrawn}
use statgate.Statctl.Reads.{print_rows, print_table, show, cmd_list, cmd_get}

-- An action that only reads and prints, and does not panic.
abbrev pub IsQuiet : {F V A : Type 0} → M F V A → Type 0
IsQuiet m = Ensures IsReading ⊥ (λ _. Unit {0}) m

module _ {F V : Type 0} where
  pub IsQuiet-bind :
      {A B : Type 0} (m : M F V A) (f : A → M F V B)
      → IsQuiet m
      → ((a : A) → IsQuiet (f a))
      → IsQuiet (m >>= f)
  IsQuiet-bind m f q k = Ensures-bind m f q (λ a _. k a)

module _ {F V : Type 0} ⦃fl : Float64 F⦄ (env : Env F V) where
  print_rows-IsQuiet : (rs : List (CanaryRollout F)) → IsQuiet (print_rows env rs)
  unfolding print_rows now
  print_rows-IsQuiet [] = Ensures-pure _ tt
  print_rows-IsQuiet (r ∷ rs) =
      IsQuiet-bind _ _ (Ensures-perform _ _ tt (λ h a e. tt))
        λ t. IsQuiet-bind _ _ (Ensures-perform _ _ tt (λ h a e. tt)) λ _. print_rows-IsQuiet rs

  print_table-IsQuiet :
      (namespace : String) (rs : List (CanaryRollout F)) → IsQuiet (print_table env namespace rs)
  unfolding print_table
  print_table-IsQuiet namespace [] = Ensures-perform _ _ tt (λ h a e. tt)
  print_table-IsQuiet namespace (r ∷ rs) =
      IsQuiet-bind _ _ (Ensures-perform _ _ tt (λ h a e. tt)) λ _. print_rows-IsQuiet (r ∷ rs)

  pub cmd_list-IsQuiet : (args : List String) → IsQuiet (cmd_list env args)
  unfolding cmd_list
  cmd_list-IsQuiet args = IsQuiet-bind _ _ (parse-Ensures env "list" args) λ parsed.
      IsQuiet-bind _ _ (open_client-Ensures env _ (λ c. tt)) λ _.
        IsQuiet-bind _ _ (Ensures-perform _ _ tt (λ h a e. tt))
          λ items. print_table-IsQuiet parsed.flags.namespace items

  show-IsQuiet : (o : Option (List String)) → IsDrawn o → IsQuiet (show env o)
  unfolding show
  show-IsQuiet none (ls, e) = absurd (cc)
  show-IsQuiet (some ls) d = Ensures-perform _ _ tt (λ h a e. tt)

  pub cmd_get-IsQuiet : (args : List String) → IsQuiet (cmd_get env args)
  unfolding cmd_get fetch_rollout now
  cmd_get-IsQuiet args = IsQuiet-bind _ _ (parse-Ensures env "get" args) λ parsed.
      IsQuiet-bind _ _ (Ensures-lift _ (λ a e. tt)) λ name.
        IsQuiet-bind _ _ (open_client-Ensures env _ (λ c. tt)) λ _.
          IsQuiet-bind _ _ (Ensures-perform _ _ tt (λ h a e. tt)) λ r.
            IsQuiet-bind _ _ (Ensures-perform _ _ tt (λ h a e. tt))
              λ reading. show-IsQuiet _ (render_rollout-IsDrawn env r reading)
