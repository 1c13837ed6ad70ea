-- ===== src/Statctl/Commands/Stores.antt =====
-- What `statctl apply` does with a manifest that it can read.
use statgate.Prelude.{
  Bool-cases, true, false, String, List, [], ◌∷◌, ◌++◌, ◌⊎◌, inl, inr, ◌≡◌, ◌+s◌, refl, ap, ◌∙◌,
  str_eq, All,
}
use statgate.Api.{CanaryRollout}
use statgate.Actions.{
  Error, Result, ok, err, is_not_found, pure, fail, perform, attempt, lift, wrapping, ◌>>=◌,
}
use statgate.Actions.Rules.{Ensures}
use statgate.Effects.{
  Flags, Manifest, Env, M, Call, History, connect, read_input, print, get_rollout, create_rollout,
  update_rollout, fetch_rollout,
}
use statgate.Statctl.Args.{split_args}
use statgate.Statctl.Client.{chosen_config, open_client}
use statgate.Statctl.Commands.{
  parse, say, store, apply_manifest, apply_file, cmd_apply, placed, is_other_kind,
}
use statgate.Statctl.Commands.Applied.{key_of, IsApplied, cmd_apply-IsApplied}

abbrev pub IsPrint : {F V : Type 0} → Call F V → Type 0
IsPrint (print text) = Unit {0}
IsPrint _ = ⊥

module _ {F V : Type 0} where
  -- What is done with a rollout, by the answer to the reading of it; then at most something is printed.
  pub data Stored (r : CanaryRollout F) (seen : History F V) (answer : Error ⊎ CanaryRollout F)
      (result : Result (Unit {0}) × History F V) : Type 0 where
    created :
        (e : Error) (shown : List (Call F V))
        → answer ≡ inl e
        → is_not_found e ≡ true
        → result.1 ≡ shown ++ (create_rollout r ∷ seen)
        → All IsPrint shown
        → Stored r seen answer result
    updated :
        (existing : CanaryRollout F) (shown : List (Call F V))
        → answer ≡ inr existing
        → result.1 ≡ shown ++ (update_rollout (record existing { spec = r.spec }) ∷ seen)
        → All IsPrint shown
        → Stored r seen answer result
    refused :
        (e : Error)
        → answer ≡ inl e
        → is_not_found e ≡ false
        → result ≡ (err e, seen)
        → Stored r seen answer result

module _ {F V : Type 0} (env : Env F V) where
  -- A write, and the text that is printed behind it.
  record Writes (what text : String) (c : Call F V) (answer : History F V → Error ⊎ Unit {0})
      (seen : History F V) : Type 0 where
    shown : List (Call F V)
    calls : ((wrapping what (perform c answer) >>= λ _. say env text) seen).1 ≡ shown ++ (c ∷ seen)
    printed : All IsPrint shown

  written :
      (what text : String) (c : Call F V) (answer : History F V → Error ⊎ Unit {0})
      (seen : History F V) (done : Error ⊎ Unit {0})
      → answer seen ≡ done
      → Writes what text c answer seen
  unfolding perform wrapping ◌>>=◌
  written what text c answer seen (inl e) d = record { shown = []; calls = rw d refl; printed = tt }
  written what text c answer seen (inr _) d = record {
    shown = print text ∷ [];
    calls = rw d refl;
    printed = (tt, tt);
  }

  store-missing :
      (r : CanaryRollout F) (e : Error)
      → is_not_found e ≡ true
      → store env r (inl e) ≡ (
          wrapping "create" (perform (create_rollout r) (λ h. env.created h r)) >>= λ _.
          say env ("canaryrollout/" +s r.name +s " created in namespace " +s r.namespace +s "\n"))
  unfolding store
  store-missing r e missing = rw missing refl

  created-of :
      (r : CanaryRollout F) (e : Error) (seen : History F V)
      → is_not_found e ≡ true
      → Stored r seen (inl e) (store env r (inl e) seen)
  created-of r e seen missing =
      let w = written "create" _ (create_rollout r) (λ h. env.created h r) seen _ refl in
      created e w.shown refl missing
        (ap (λ (m : M F V (Unit {0})). (m seen).1) (store-missing r e missing) ∙ w.calls) w.printed

  updated-of :
      (r existing : CanaryRollout F) (seen : History F V)
      → Stored r seen (inr existing) (store env r (inr existing) seen)
  unfolding store
  updated-of r existing seen =
      let r' = record existing { spec = r.spec } in
      let w = written "update" _ (update_rollout r') (λ h. env.updated h r') seen _ refl in
      updated existing w.shown refl w.calls w.printed

  refused-of :
      (r : CanaryRollout F) (e : Error) (seen : History F V)
      → is_not_found e ≡ false
      → Stored r seen (inl e) (store env r (inl e) seen)
  unfolding store fail
  refused-of r e seen other = rw other (refused e refl other refl)

  store-Stored :
      (r : CanaryRollout F) (answer : Error ⊎ CanaryRollout F) (seen : History F V)
      → Stored r seen answer (store env r answer seen)
  store-Stored r (inr existing) seen = updated-of r existing seen
  store-Stored r (inl e) seen = elim (Bool-cases (is_not_found e)) [
    | inl missing ↦ created-of r e seen missing
    | inr other ↦ refused-of r e seen other
  ]

  module _ (args : List String) (h : History F V) (flags : Flags) (text : String)
      (manifest : Manifest F) where
    abbrev asked : History F V
    asked = connect (chosen_config env flags.kubeconfig) ∷ read_input flags.file ∷ h

    apply-stores :
        (answer : Error ⊎ CanaryRollout F)
        → env.parse_flags "apply" (split_args args).0 ≡ inr flags
        → str_eq flags.file "" ≡ false
        → env.input_at h flags.file ≡ inr text
        → env.unmarshal text ≡ inr manifest
        → is_other_kind manifest.kind ≡ false
        → str_eq manifest.rollout.name "" ≡ false
        → open_client env flags.kubeconfig (read_input flags.file ∷ h) ≡ (ok tt, asked)
        → (let r = placed flags.namespace manifest.rollout in
            env.rollout_at asked (key_of env r) ≡ answer
            → cmd_apply env args h ≡ store env r answer (get_rollout (key_of env r) ∷ asked))
    unfolding cmd_apply apply_file apply_manifest parse fetch_rollout perform attempt lift wrapping
        ◌>>=◌ pure fail chosen_config
    apply-stores (inl e) parsed given read written kind named joined found =
        rw (parsed, given, read, written, kind, named, joined, found) refl
    apply-stores (inr existing) parsed given read written kind named joined found =
        rw (parsed, given, read, written, kind, named, joined, found) refl

    -- Where the flags parse and name a file, the file is read and holds a manifest of the right kind with
    -- a name, and the client is made: after reading the file, connecting and reading the rollout of that
    -- name, `apply` creates the manifest's rollout if the API server answers that there is none, updates
    -- one that it answers to the manifest's spec with all else kept, and ends with any other error; after
    -- that it only prints. In any history it makes no other write than these, and does not panic.
    pub cmd_apply-Stored :
        env.parse_flags "apply" (split_args args).0 ≡ inr flags
        → str_eq flags.file "" ≡ false
        → env.input_at h flags.file ≡ inr text
        → env.unmarshal text ≡ inr manifest
        → is_other_kind manifest.kind ≡ false
        → str_eq manifest.rollout.name "" ≡ false
        → open_client env flags.kubeconfig (read_input flags.file ∷ h) ≡ (ok tt, asked)
        → (let r = placed flags.namespace manifest.rollout in
            Stored r
              (get_rollout (key_of env r) ∷ asked)
              (env.rollout_at asked (key_of env r))
              (cmd_apply env args h))
          × Ensures (IsApplied env) ⊥ (λ _. Unit {0}) (cmd_apply env args)
    cmd_apply-Stored parsed given read written kind named joined =
        let r = placed flags.namespace manifest.rollout in
        (
          rw (apply-stores _ parsed given read written kind named joined refl)
              (store-Stored r (env.rollout_at asked (key_of env r)) _),
          cmd_apply-IsApplied env args,
        )
