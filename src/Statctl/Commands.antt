-- ===== src/Statctl/Commands.antt =====
-- cmd/statctl/commands.go and client.go: the subcommands that write a rollout.
pub mod Edits
pub mod Applied
pub mod Stores
use statgate.Prelude.{
  Bool, true, false, not, String, List, [], ◌∷◌, ◌⊎◌, inl, inr, ◌&&◌, str_eq, ◌+s◌, if◌then◌else◌,
}
use statgate.Api.{CanaryRollout}
use statgate.Actions.{
  Error, failure, is_not_found, pure, fail, lift, perform, wrapping, attempt, ◌>>=◌, ◌>>◌,
}
use statgate.Effects.{
  ObjectKey, Flags, Manifest, Env, M, fetch_rollout, read_input, print, create_rollout,
  update_rollout, delete_rollout,
}
use statgate.Statctl.Args.{split_args}
use statgate.Statctl.Client.{open_client}

-- `parse` and the positional tokens that it leaves.
pub record Parsed : Type 0 where
  pub flags : Flags
  pub positional : List String

-- `positional[0]`, behind the check that there is one.
abbrev pub first_name : String → List String → Error ⊎ String
first_name verb [] = inl (failure (verb +s ": <name> required"))
first_name verb (name ∷ names) = inr name

-- The mutations that the subcommands pass to `patchRollout`.
abbrev pub paused_by_user : {F : Type 0} → CanaryRollout F → CanaryRollout F
paused_by_user r = record r { spec = record r.spec { paused = true } }

abbrev pub resumed_by_user : {F : Type 0} → CanaryRollout F → CanaryRollout F
resumed_by_user r = record r { spec = record r.spec { paused = false; abort = false } }

abbrev pub aborted_by_user : {F : Type 0} → CanaryRollout F → CanaryRollout F
aborted_by_user r = record r { spec = record r.spec { abort = true } }

-- The kind may be left out of a manifest.
abbrev is_other_kind : String → Bool
is_other_kind kind = not (str_eq kind "") && not (str_eq kind "CanaryRollout")

-- A manifest without a namespace takes that of the flags.
abbrev placed : {F : Type 0} → String → CanaryRollout F → CanaryRollout F
placed ns r = record r { namespace = if str_eq r.namespace "" then ns else r.namespace }

module _ {F V : Type 0} (env : Env F V) where
  abbrev pub say : String → M F V (Unit {0})
  say text = perform (print text) (λ h. inr tt)

  abbrev pub create : CanaryRollout F → M F V (Unit {0})
  create r = perform (create_rollout r) (λ h. env.created h r)

  abbrev pub update : CanaryRollout F → M F V (Unit {0})
  update r = perform (update_rollout r) (λ h. env.updated h r)

  -- The standard input, where the file is "-".
  abbrev pub read_file : String → M F V String
  read_file file = perform (read_input file) (λ h. env.input_at h file)

  unfoldable pub parse : String → List String → M F V Parsed
  parse verb args = do
    flags ← lift (env.parse_flags verb (split_args args).0)
    pure (record { flags = flags; positional = (split_args args).1 })

  -- What is printed is the object that was sent, of which the answer keeps the name.
  pub patch_rollout :
      List String → String → String → (CanaryRollout F → CanaryRollout F) → M F V (Unit {0})
  patch_rollout args verb past_tense mutate = do
    parsed ← parse verb args
    name ← lift (first_name verb parsed.positional)
    open_client env parsed.flags.kubeconfig
    r ← fetch_rollout env (record { namespace = parsed.flags.namespace; name = name })
    wrapping "update" (update (mutate r))
    say ("canaryrollout/" +s r.name +s " " +s past_tense +s "\n")

  unfoldable pub cmd_pause : List String → M F V (Unit {0})
  unfolding patch_rollout parse
  cmd_pause args = patch_rollout args "pause" "paused" paused_by_user

  unfoldable pub cmd_resume : List String → M F V (Unit {0})
  unfolding patch_rollout parse
  cmd_resume args = patch_rollout args "resume" "resumed" resumed_by_user

  unfoldable pub cmd_abort : List String → M F V (Unit {0})
  unfolding patch_rollout parse
  cmd_abort args = patch_rollout args "abort" "aborted — rolling back to stable" aborted_by_user

  -- `IsNotFound` of the answer creates, another error ends, and else the spec is put into what is there.
  pub store : CanaryRollout F → Error ⊎ CanaryRollout F → M F V (Unit {0})
  store r (inl e) =
      if is_not_found e
      then (do
        wrapping "create" (create r)
        say ("canaryrollout/" +s r.name +s " created in namespace " +s r.namespace +s "\n"))
      else fail e
  store r (inr existing) = do
    wrapping "update" (update (record existing { spec = r.spec }))
    say ("canaryrollout/" +s r.name +s " configured in namespace " +s r.namespace +s "\n")

  -- Behind the parsing of the manifest.
  pub apply_manifest : Flags → Manifest F → M F V (Unit {0})
  apply_manifest flags manifest =
      if is_other_kind manifest.kind
      then fail (failure ("apply: expected kind CanaryRollout, got " +s env.quote manifest.kind))
      else if str_eq manifest.rollout.name ""
      then fail (failure "apply: metadata.name is required")
      else (let r = placed flags.namespace manifest.rollout in
          (do
            open_client env flags.kubeconfig
            found ← attempt (fetch_rollout env (record { namespace = r.namespace; name = r.name }))
            store r found))

  -- Behind the parsing of the flags.
  pub apply_file : Flags → M F V (Unit {0})
  apply_file flags =
      if str_eq flags.file "" then fail (failure "apply: -f <file> required") else (do
        text ← wrapping ("read " +s flags.file) (read_file flags.file)
        manifest ← wrapping ("parse " +s flags.file) (lift (env.unmarshal text))
        apply_manifest flags manifest)

  unfoldable pub cmd_apply : List String → M F V (Unit {0})
  unfolding apply_file apply_manifest store parse
  cmd_apply args = do parsed ← parse "apply" args; apply_file parsed.flags

  unfoldable pub cmd_delete : List String → M F V (Unit {0})
  unfolding parse
  cmd_delete args = do
    parsed ← parse "delete" args
    name ← lift (first_name "delete" parsed.positional)
    open_client env parsed.flags.kubeconfig
    perform (delete_rollout (record { namespace = parsed.flags.namespace; name = name }))
        (λ h. env.deleted h (record { namespace = parsed.flags.namespace; name = name }))
    say ("canaryrollout/" +s name +s " deleted\n")
