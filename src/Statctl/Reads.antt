-- ===== src/Statctl/Reads.antt =====
-- cmd/statctl/commands.go: the subcommands `list` and `get`.
pub mod Silent
use statgate.Prelude.{ℤ, pos, String, Option, none, some, List, [], ◌∷◌, ◌-ℤ◌, saturate64, ◌+s◌}
use statgate.Float64.{Float64}
use statgate.Api.{CanaryRollout}
use statgate.Actions.{crash, lift, perform, pure, ◌>>=◌, ◌>>◌}
use statgate.Effects.{ObjectKey, Env, M, list_rollouts, fetch_rollout, now}
use statgate.Statctl.Texts.{truncate, padded, text_or, phase_text}
use statgate.Statctl.Durations.{human_duration}
use statgate.Statctl.Dashboard.{shown_step, shown_weight, render_rollout}
use statgate.Statctl.Commands.{first_name, say, parse}
use statgate.Statctl.Client.{open_client}

-- The lines of a rendering as one text.
abbrev pub unlines : List String → String
unlines [] = ""
unlines (l ∷ ls) = l +s "\n" +s unlines ls

-- A line of the table.
abbrev table_row : String → String → String → String → String → String → String
table_row name phase weight step age message =
    padded 28 name
    +s " "
    +s padded 10 phase
    +s " "
    +s padded 8 weight
    +s " "
    +s padded 8 step
    +s " "
    +s padded 12 age
    +s " "
    +s message
    +s "\n"

module _ {F V : Type 0} ⦃fl : Float64 F⦄ (env : Env F V) where
  -- `time.Since` reads the clock for each row.
  abbrev rollout_row : CanaryRollout F → ℤ → String
  rollout_row r reading =
      table_row r.name (text_or (phase_text r.status.phase) "-") (shown_weight r) (shown_step "/" r)
        (human_duration env (saturate64 (reading -ℤ r.creation_timestamp)))
        (truncate r.status.message (pos 60))

  print_rows : List (CanaryRollout F) → M F V (Unit {0})
  print_rows [] = pure tt
  print_rows (r ∷ rs) = do reading ← now env; say env (rollout_row r reading); print_rows rs

  print_table : String → List (CanaryRollout F) → M F V (Unit {0})
  unfolding print_rows
  print_table namespace [] =
      say env ("no canary rollouts in namespace " +s env.quote namespace +s "\n")
  print_table namespace (r ∷ rs) =
      say env (table_row "NAME" "PHASE" "WEIGHT" "STEP" "AGE" "MESSAGE") >> print_rows (r ∷ rs)

  unfoldable pub cmd_list : List String → M F V (Unit {0})
  unfolding print_table
  cmd_list args = do
    parsed ← parse env "list" args
    open_client env parsed.flags.kubeconfig
    items ←
        perform (list_rollouts parsed.flags.namespace)
          (λ h. env.rollouts_at h parsed.flags.namespace)
    print_table parsed.flags.namespace items

  -- The writes of a rendering are one print here.
  show : Option (List String) → M F V (Unit {0})
  show none = crash
  show (some ls) = say env (unlines ls)

  unfoldable pub cmd_get : List String → M F V (Unit {0})
  unfolding show
  cmd_get args = do
    parsed ← parse env "get" args
    name ← lift (first_name "get" parsed.positional)
    open_client env parsed.flags.kubeconfig
    r ← fetch_rollout env (record { namespace = parsed.flags.namespace; name = name })
    reading ← now env
    show (render_rollout env r reading)
