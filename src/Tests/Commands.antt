-- ===== src/Tests/Commands.antt =====
-- The theorems on `statctl`, at concrete inputs.
use statgate.Prelude.{
  inr, arith, ℕ, ℤ, negsuc, pos, true, false, [], ◌∷◌, List, String, some, ◌≡◌, refl, ◌<◌, ◌⊎◌,
  length, get_elem?,
}
use statgate.Api.{CanaryRollout, running}
use statgate.Actions.{ok, pure, perform, lift, attempt, wrapping, ◌>>=◌}
use statgate.Effects.{read_input, get_rollout, Env, Flags, History, print, connect}
use statgate.Reconciler.Runs.{edited}
use statgate.Actions.Rules.{Ensures}
use statgate.Statctl.Args.{Splits, split_args, split_args-Splits}
use statgate.Statctl.Bar.{llr_bar, marker_cell, llr_bar-marker}
use statgate.Statctl.Steps.{StepLine, render_steps, render_steps-current}
use statgate.Statctl.Client.{chosen_config, open_client}
use statgate.Statctl.Commands.{parse, cmd_pause, cmd_resume, cmd_abort, cmd_apply}
use statgate.Statctl.Commands.Edits.{IsEdit, commands-IsEdit, edit_calls, cmd_abort_ok}
use statgate.Statctl.Commands.Applied.{IsApplied, key_of}
use statgate.Statctl.Commands.Stores.{Stored, cmd_apply-Stored}
use statgate.Actions.Count.{total}
use statgate.Statctl.Durations.{IsUnits, IsElapsed, human_duration, human_duration-IsElapsed}
use statgate.Statctl.Texts.{truncate}
use statgate.Statctl.Reads.{cmd_list, cmd_get}
use statgate.Statctl.Reads.Silent.{IsQuiet}
use statgate.Statctl.Watch.{tick, done, returned, cmd_watch}
use statgate.Statctl.Watch.Polls.{is_poll, cmd_watch_ends}
use statgate.Statctl.Watch.Quiet.{shows-IsQuiet}
use statgate.Statctl.Main.{main}
use statgate.Tests.Sample.{Object, integer_floats}
use statgate.Tests.Cluster.{demo_rollout, demo_steps, demo_env}

abbrev watch_args : List String
watch_args = "demo-rollout" ∷ "-n" ∷ "statgate-demo" ∷ "--interval=5" ∷ []

split_example :
    split_args watch_args ≡ ("-n" ∷ "statgate-demo" ∷ "--interval=5" ∷ [], "demo-rollout" ∷ [])
unfolding split_args
split_example = refl

split_args-Splits_example : Splits watch_args (split_args watch_args).0 (split_args watch_args).1
split_args-Splits_example = split_args-Splits watch_args

abbrev demo : CanaryRollout ℤ
demo = demo_rollout "http://prometheus" running (pos 1) (pos 25) []

abbrev env : Env ℤ Object
env = demo_env demo (pos 7) (pos 3)

abbrev demo_flags : Flags
demo_flags = record {
  namespace = "statgate-demo";
  kubeconfig = "";
  file = "rollout.yaml";
  interval = pos 2;
}

commands-IsEdit_example :
    Ensures
      (IsEdit env (λ _. true) (λ r. r.spec.abort))
      ⊥
      (λ _. Unit {0})
      (cmd_pause env ("demo-rollout" ∷ []))
    × Ensures
        (IsEdit env (λ _. false) (λ _. false))
        ⊥
        (λ _. Unit {0})
        (cmd_resume env ("demo-rollout" ∷ []))
    × Ensures
        (IsEdit env (λ r. r.spec.paused) (λ _. true))
        ⊥
        (λ _. Unit {0})
        (cmd_abort env ("demo-rollout" ∷ []))
commands-IsEdit_example = commands-IsEdit env ("demo-rollout" ∷ [])

abbrev apply_args : List String
apply_args = "-f" ∷ "rollout.yaml" ∷ []

apply_client_opens :
    open_client env "" (read_input "rollout.yaml" ∷ [])
    ≡ (ok tt, connect (chosen_config env "") ∷ read_input "rollout.yaml" ∷ [])
unfolding open_client wrapping lift perform ◌>>=◌
apply_client_opens = refl

-- The rollout is there, and takes the spec of the manifest.
cmd_apply-Stored_example :
    Stored demo
      (get_rollout (key_of env demo)
        ∷ connect (chosen_config env "")
        ∷ read_input "rollout.yaml"
        ∷ [])
      (inr demo)
      (cmd_apply env apply_args [])
    × Ensures (IsApplied env) ⊥ (λ _. Unit {0}) (cmd_apply env apply_args)
cmd_apply-Stored_example =
    cmd_apply-Stored env apply_args [] demo_flags ""
      (record { kind = "CanaryRollout"; rollout = demo }) refl refl refl refl refl refl
      apply_client_opens

abbrev second_line : StepLine
second_line = record {
  mark = "[▶]";
  index = 1;
  weight = pos 25;
  pause_seconds = pos 60;
  ending = "   ← current";
}

abbrev current : ℕ
current = 1

marks_steps :
    ((current < current) × (second_line.mark ≡ "[✔]") × (second_line.ending ≡ ""))
    ⊎ (((current ≡ current) × (second_line.mark ≡ "[▶]") × (second_line.ending ≡ "   ← current"))
        ⊎ ((current < current) × (second_line.mark ≡ "[ ]") × (second_line.ending ≡ "")))
unfolding render_steps
marks_steps = render_steps-current running current demo_steps current second_line refl refl

llr_bar-marker_example :
    (n : ℕ) × (bar : List String) × (marker_cell (pos 2) (negsuc 3) (pos 4) ≡ pos n)
    × (llr_bar (pos 2) (negsuc 3) (pos 4) ≡ some bar)
    × (length bar ≡ 50)
    × (get_elem? bar n ≡ some "●")
llr_bar-marker_example = llr_bar-marker (pos 2) (negsuc 3) (pos 4)

abbrev abort_args : List String
abort_args = "-n" ∷ "statgate-demo" ∷ "demo-rollout" ∷ []

finds_home_config : chosen_config env "" ≡ "/home/.kube/config"
unfolding chosen_config
finds_home_config = refl

client_opens : open_client env "" [] ≡ (ok tt, connect (chosen_config env "") ∷ [])
unfolding open_client wrapping lift perform ◌>>=◌
client_opens = refl

aborts_one : cmd_abort env abort_args [] ≡ (
  ok tt,
  edit_calls env demo_flags "demo-rollout" demo
      (edited demo false true)
      "aborted — rolling back to stable"
      [],
)
unfolding split_args
aborts_one =
    cmd_abort_ok env abort_args [] demo_flags "demo-rollout" [] demo refl refl client_opens refl
      refl

abbrev units : IsUnits env
units = record { seconds = λ d l. refl; minutes = λ d l. refl; hours = λ d l. refl }

-- An hour, a minute and a second.
human_duration-IsElapsed_example :
    IsElapsed env 3661000000000 (human_duration env (pos 3661000000000))
human_duration-IsElapsed_example = human_duration-IsElapsed env units 3661000000000 (omega arith)

shows-IsQuiet_example :
    IsQuiet (cmd_list env ("-n" ∷ "statgate-demo" ∷ []))
    × IsQuiet (cmd_get env ("-n" ∷ "statgate-demo" ∷ []))
    × IsQuiet (cmd_watch env (tick ∷ done ∷ []) ("-n" ∷ "statgate-demo" ∷ []))
shows-IsQuiet_example = shows-IsQuiet env ("-n" ∷ "statgate-demo" ∷ []) (tick ∷ done ∷ [])

-- Two ticks make three polls.
cmd_watch_ends_example :
    (h' : History ℤ Object) × (cmd_watch env (tick ∷ tick ∷ done ∷ []) watch_args []
      ≡ (ok returned, print "\u{1b}[?25h" ∷ h'))
    × (total is_poll h' ≡ 3)
unfolding split_args
cmd_watch_ends_example =
    cmd_watch_ends env watch_args [] demo_flags "demo-rollout" [] 2 [] refl refl client_opens

truncates_example :
    (truncate "all metrics promoted" (pos 8) ≡ "all met…")
    × (truncate "all metrics promoted" (pos 5) ≡ "all…")
    × (truncate "paused" (pos 8) ≡ "paused")
unfolding truncate
truncates_example = (refl, refl, refl)

-- An unknown subcommand, and one that fails.
unknown_exits_2 : (main env [] ("go" ∷ []) []).0 ≡ ok (some 2)
unfolding main pure perform ◌>>=◌
unknown_exits_2 = refl

nameless_exits_1 : (main env [] ("get" ∷ []) []).0 ≡ ok (some 1)
unfolding main cmd_get split_args parse attempt lift pure perform ◌>>=◌
nameless_exits_1 = refl
