-- ===== src/Statctl/Main.antt =====
-- cmd/statctl/main.go: the dispatch to the subcommands, and the exit codes.
pub mod Codes
use statgate.Prelude.{
  ℕ, Bool, true, false, String, Option, none, some, List, [], ◌∷◌, ◌⊎◌, inl, inr, ◌||◌, str_eq,
  if◌then◌else◌, ◌+s◌,
}
use statgate.Float64.{Float64}
use statgate.Actions.{Error, ok, pure, perform, attempt, ◌>>=◌, ◌>>◌}
use statgate.Effects.{Env, M, warn}
use statgate.Statctl.Commands.{say, cmd_apply, cmd_pause, cmd_resume, cmd_abort, cmd_delete}
use statgate.Statctl.Reads.{unlines, cmd_list, cmd_get}
use statgate.Statctl.Watch.{Event, Watching, waiting, returned, cmd_watch}

usage_lines : List String
usage_lines =
    "statctl — manage StatGate canary rollouts" ∷ "" ∷ "Usage:"
    ∷ "  statctl <command> [args] [flags]" ∷ "" ∷ "Commands:"
    ∷ "  list                 List canary rollouts in a namespace"
    ∷ "  get <name>           Show details of a single rollout"
    ∷ "  apply -f <file>      Create or update a rollout from a YAML manifest"
    ∷ "  pause <name>         Halt progression (sets spec.paused=true)"
    ∷ "  resume <name>        Resume progression (clears paused/abort)"
    ∷ "  abort <name>         Trigger immediate rollback (sets spec.abort=true)"
    ∷ "  delete <name>        Delete a rollout"
    ∷ "  watch <name>         Live dashboard with SPRT state and metrics"
    ∷ "  version              Print client version" ∷ "  help                 Show this help" ∷ ""
    ∷ "Global flags (accepted on every subcommand):"
    ∷ "  -n, --namespace <ns>    Target namespace (default \"default\")"
    ∷ "  --kubeconfig <path>     Path to kubeconfig (default $KUBECONFIG or ~/.kube/config)" ∷ ""
    ∷ "Watch-only flags:" ∷ "  --interval <seconds>    Refresh cadence (default 2)" ∷ ""
    ∷ "Examples:" ∷ "  statctl apply -f demo/manifests/optional/05-rollout.yaml"
    ∷ "  statctl list -n statgate-demo" ∷ "  statctl watch demo-rollout -n statgate-demo"
    ∷ "  statctl pause demo-rollout -n statgate-demo"
    ∷ "  statctl abort demo-rollout -n statgate-demo" ∷ []

abbrev named : String → List String → Bool
named sub [] = false
named sub (name ∷ names) = str_eq sub name || named sub names

module _ {F V : Type 0} ⦃fl : Float64 F⦄ (env : Env F V) where
  usage : M F V (Unit {0})
  unfolding usage_lines
  usage = say env (unlines usage_lines)

  -- A subcommand that returns.
  abbrev pub ended : M F V (Unit {0}) → M F V Watching
  ended m = m >> pure returned

  -- The cases of the switch.
  pub commands : List Event → List String → List (List String × M F V Watching)
  unfolding usage
  commands events args =
      (("list" ∷ "ls" ∷ []), ended (cmd_list env args))
      ∷ (("get" ∷ "status" ∷ []), ended (cmd_get env args))
      ∷ (("apply" ∷ "create" ∷ []), ended (cmd_apply env args))
      ∷ (("pause" ∷ []), ended (cmd_pause env args))
      ∷ (("resume" ∷ "start" ∷ []), ended (cmd_resume env args))
      ∷ (("abort" ∷ "rollback" ∷ []), ended (cmd_abort env args))
      ∷ (("delete" ∷ "rm" ∷ []), ended (cmd_delete env args))
      ∷ (("watch" ∷ []), cmd_watch env events args)
      ∷ (("version" ∷ "--version" ∷ "-v" ∷ []), ended (say env "statctl v0.1.0\n"))
      ∷ (("help" ∷ "--help" ∷ "-h" ∷ []), ended usage)
      ∷ []

  -- The first case of a name, and `none` for the default.
  chosen : String → List (List String × M F V Watching) → Option (M F V Watching)
  chosen sub [] = none
  chosen sub (c ∷ cases) = if named sub c.0 then some c.1 else chosen sub cases

  -- `ctx.Err() != nil`
  is_cancelled : M F V Bool
  is_cancelled h = (ok (env.interrupted_at h), h)

  reported : Error → Bool → M F V (Option ℕ)
  reported e true = pure (some 0)
  reported e false =
      perform (warn ("error: " +s env.error_text e +s "\n")) (λ h. inr tt) >> pure (some 1)

  -- The exit code, and `none` while `watch` waits for its next event.
  finished : Error ⊎ Watching → M F V (Option ℕ)
  unfolding is_cancelled reported
  finished (inl e) = do cancelled ← is_cancelled; reported e cancelled
  finished (inr waiting) = pure none
  finished (inr returned) = pure (some 0)

  run : String → Option (M F V Watching) → M F V (Option ℕ)
  unfolding finished usage
  run sub none = do
    perform (warn ("unknown subcommand: " +s env.quote sub +s "\n\n")) (λ h. inr tt)
    usage
    pure (some 2)
  run sub (some m) = do answer ← attempt m; finished answer

  -- By the arguments behind the program's name, and what `watch` receives.
  unfoldable pub main : List Event → List String → M F V (Option ℕ)
  unfolding run usage commands chosen
  main events [] = usage >> pure (some 2)
  main events (sub ∷ args) = run sub (chosen sub (commands events args))
