-- ===== src/Statctl/Commands/Edits.antt =====
-- What the subcommands of `statctl` write to the API server.
use statgate.Prelude.{◌∷◌, ◌+s◌, Bool, true, false, String, List, inr, ◌≡◌, refl}
use statgate.Statctl.Args.{split_args}
use statgate.Statctl.Client.{chosen_config, open_client, open_client-Ensures}
use statgate.Api.{CanaryRollout}
use statgate.Actions.{ok, pure, lift, perform, wrapping, ◌>>=◌}
use statgate.Effects.{
  ObjectKey, Env, Call, History, fetch_rollout, update_status, update_virtual_service,
  create_rollout, update_rollout, delete_rollout, Flags, print, connect, get_rollout,
}
use statgate.Actions.Rules.{
  Ensures, Ensures-pure, Ensures-lift, Ensures-perform, Ensures-bind, Ensures-wrapping,
}
use statgate.Reconciler.Runs.{edited}
use statgate.Statctl.Commands.{
  parse, patch_rollout, paused_by_user, resumed_by_user, aborted_by_user, cmd_pause, cmd_resume,
  cmd_abort,
}

module _ {F V : Type 0} (env : Env F V) where
  -- The one write is an update, to an edit `halt` of the `paused` and `stop` of the `abort` of what the
  -- API server answered about a rollout.
  abbrev pub IsEdit : (CanaryRollout F → Bool) → (CanaryRollout F → Bool) → Call F V → Type 0
  IsEdit halt stop (update_rollout r') =
      (h : History F V) × (key : ObjectKey) × (r : CanaryRollout F) × (env.rollout_at h key ≡ inr r)
      × (r' ≡ edited r (halt r) (stop r))
  IsEdit halt stop (create_rollout r') = ⊥
  IsEdit halt stop (delete_rollout key) = ⊥
  IsEdit halt stop (update_status r') = ⊥
  IsEdit halt stop (update_virtual_service vs) = ⊥
  IsEdit halt stop _ = Unit {0}

  -- What the API server answered about a rollout.
  abbrev pub WasRead : CanaryRollout F → Type 0
  WasRead r = (h : History F V) × (key : ObjectKey) × (env.rollout_at h key ≡ inr r)

  pub parse-Ensures :
      {P : Call F V → Type 0} {K : Type 0} (verb : String) (args : List String)
      → Ensures P K (λ _. Unit {0}) (parse env verb args)
  unfolding parse
  parse-Ensures verb args =
      Ensures-bind {Q = λ _. Unit {0}} _ _ (Ensures-lift _ (λ a e. tt)) λ _ _. Ensures-pure _ tt

  patch_rollout-IsEdit :
      {K : Type 0} (halt stop : CanaryRollout F → Bool) (mutate : CanaryRollout F → CanaryRollout F)
      (args : List String) (verb past_tense : String)
      → ((r : CanaryRollout F) → mutate r ≡ edited r (halt r) (stop r))
      → Ensures (IsEdit halt stop) K (λ _. Unit {0}) (patch_rollout env args verb past_tense mutate)
  unfolding patch_rollout fetch_rollout
  patch_rollout-IsEdit halt stop mutate args verb past_tense same =
      Ensures-bind _ _ (parse-Ensures verb args) λ parsed _.
        Ensures-bind {Q = λ _. Unit {0}} _ _ (Ensures-lift _ (λ a e. tt)) λ name _.
          Ensures-bind {Q = λ _. Unit {0}} _ _ (open_client-Ensures env _ (λ c. tt)) λ _ _.
            Ensures-bind {Q = WasRead} _ _ (Ensures-perform _ _ tt (λ h r e. (h, _, e)))
              λ r (h, key, read).
                Ensures-bind {Q = λ _. Unit {0}} _ _
                  (Ensures-wrapping _ _
                    (Ensures-perform _ _ (h, key, r, read, same r) (λ h a e. tt)))
                  λ _ _. Ensures-perform _ _ tt (λ h a e. tt)

  -- The one kind of write of `pause`, `resume` and `abort` is an update of a rollout as the API server
  -- answered it: `pause` sets `paused` and keeps `abort`, `resume` clears both, and `abort` sets `abort`
  -- and keeps `paused`; all else stays. They do not panic.
  pub commands-IsEdit :
      (args : List String)
      → Ensures (IsEdit (λ _. true) (λ r. r.spec.abort)) ⊥ (λ _. Unit {0}) (cmd_pause env args)
        × Ensures (IsEdit (λ _. false) (λ _. false)) ⊥ (λ _. Unit {0}) (cmd_resume env args)
        × Ensures (IsEdit (λ r. r.spec.paused) (λ _. true)) ⊥ (λ _. Unit {0}) (cmd_abort env args)
  unfolding cmd_pause cmd_resume cmd_abort
  commands-IsEdit args = (
    patch_rollout-IsEdit _ _ paused_by_user args "pause" "paused" (λ r. refl),
    patch_rollout-IsEdit _ _ resumed_by_user args "resume" "resumed" (λ r. refl),
    patch_rollout-IsEdit _ _ aborted_by_user args "abort" "aborted — rolling back to stable"
        (λ r. refl),
  )

  -- What a subcommand that nothing hinders calls: it connects, reads the rollout that is named first,
  -- updates it, and says so.
  abbrev pub edit_calls :
      Flags → String → CanaryRollout F → CanaryRollout F → String → History F V → History F V
  edit_calls flags name r r' past_tense h =
      print ("canaryrollout/" +s r.name +s " " +s past_tense +s "\n")
      ∷ update_rollout r'
      ∷ get_rollout (record { namespace = flags.namespace; name = name })
      ∷ connect (chosen_config env flags.kubeconfig)
      ∷ h

  patch_rollout_ok :
      (args : List String) (verb past_tense : String) (mutate : CanaryRollout F → CanaryRollout F)
      (h : History F V) (flags : Flags) (name : String) (names : List String) (r : CanaryRollout F)
      → env.parse_flags verb (split_args args).0 ≡ inr flags
      → (split_args args).1 ≡ name ∷ names
      → open_client env flags.kubeconfig h
        ≡ (ok tt, connect (chosen_config env flags.kubeconfig) ∷ h)
      → env.rollout_at
          (connect (chosen_config env flags.kubeconfig) ∷ h)
          (record { namespace = flags.namespace; name = name })
        ≡ inr r
      → env.updated
          (get_rollout (record { namespace = flags.namespace; name = name })
            ∷ connect (chosen_config env flags.kubeconfig)
            ∷ h)
          (mutate r)
        ≡ inr tt
      → patch_rollout env args verb past_tense mutate h
        ≡ (ok tt, edit_calls flags name r (mutate r) past_tense h)
  unfolding patch_rollout parse fetch_rollout perform pure lift wrapping ◌>>=◌
  patch_rollout_ok args verb past_tense mutate h flags name names r parsed named joined read
        updated =
      rw (parsed, named, joined, read, updated) refl

  -- Where the flags parse, a name is given, the client is made, and the API server has the rollout and
  -- takes the update, `abort` connects, reads the rollout, updates it with `abort` set, and says so.
  pub cmd_abort_ok :
      (args : List String) (h : History F V) (flags : Flags) (name : String) (names : List String)
      (r : CanaryRollout F)
      → env.parse_flags "abort" (split_args args).0 ≡ inr flags
      → (split_args args).1 ≡ name ∷ names
      → open_client env flags.kubeconfig h
        ≡ (ok tt, connect (chosen_config env flags.kubeconfig) ∷ h)
      → env.rollout_at
          (connect (chosen_config env flags.kubeconfig) ∷ h)
          (record { namespace = flags.namespace; name = name })
        ≡ inr r
      → env.updated
          (get_rollout (record { namespace = flags.namespace; name = name })
            ∷ connect (chosen_config env flags.kubeconfig)
            ∷ h)
          (edited r r.spec.paused true)
        ≡ inr tt
      → cmd_abort env args h ≡ (
        ok tt,
        edit_calls flags name r (edited r r.spec.paused true) "aborted — rolling back to stable" h,
      )
  unfolding cmd_abort
  cmd_abort_ok args h flags name names r parsed named joined read updated =
      patch_rollout_ok args "abort" "aborted — rolling back to stable" aborted_by_user h flags name
        names r parsed named joined read updated

  -- `resume` in the same way: both requests are taken back.
  pub cmd_resume_ok :
      (args : List String) (h : History F V) (flags : Flags) (name : String) (names : List String)
      (r : CanaryRollout F)
      → env.parse_flags "resume" (split_args args).0 ≡ inr flags
      → (split_args args).1 ≡ name ∷ names
      → open_client env flags.kubeconfig h
        ≡ (ok tt, connect (chosen_config env flags.kubeconfig) ∷ h)
      → env.rollout_at
          (connect (chosen_config env flags.kubeconfig) ∷ h)
          (record { namespace = flags.namespace; name = name })
        ≡ inr r
      → env.updated
          (get_rollout (record { namespace = flags.namespace; name = name })
            ∷ connect (chosen_config env flags.kubeconfig)
            ∷ h)
          (edited r false false)
        ≡ inr tt
      → cmd_resume env args h ≡ (ok tt, edit_calls flags name r (edited r false false) "resumed" h)
  unfolding cmd_resume
  cmd_resume_ok args h flags name names r parsed named joined read updated =
      patch_rollout_ok args "resume" "resumed" resumed_by_user h flags name names r parsed named
        joined read updated
