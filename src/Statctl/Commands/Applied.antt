-- ===== src/Statctl/Commands/Applied.antt =====
-- What `statctl apply` writes to the API server.
use statgate.Prelude.{true, false, String, List, ◌∷◌, [], ◌⊎◌, inl, inr, ◌≡◌, refl, str_eq}
use statgate.Api.{CanaryRollout}
use statgate.Actions.{Error, is_not_found, ok, reply, captured, perform, attempt}
use statgate.Effects.{
  ObjectKey, Flags, Manifest, Env, Call, History, fetch_rollout, update_status,
  update_virtual_service, create_rollout, update_rollout, delete_rollout,
}
use statgate.Actions.Rules.{
  Ensures, Ensures-fail, Ensures-lift, Ensures-perform, Ensures-bind, Ensures-wrapping, Ensures-if,
}
use statgate.Statctl.Commands.{store, apply_file, apply_manifest, cmd_apply, placed, is_other_kind}
use statgate.Statctl.Client.{open_client-Ensures}
use statgate.Statctl.Commands.Edits.{parse-Ensures}

captured-reply : {A H : Type 0} (o : Error ⊎ A) (h : H) → captured (reply o, h) ≡ (ok o, h)
captured-reply (inl e) h = refl
captured-reply (inr a) h = refl

-- The rule for a call whose error is looked at.
Ensures-attempted :
    {F V A : Type 0} {P : Call F V → Type 0} {K : Type 0} {Q : Error ⊎ A → Type 0} (c : Call F V)
    (answer : History F V → Error ⊎ A)
    → P c
    → ((h : History F V) (o : Error ⊎ A) → answer h ≡ o → Q o)
    → Ensures P K Q (attempt (perform c answer))
unfolding attempt perform
Ensures-attempted c answer p q = record {
  at = λ h.
      rw (captured-reply (answer h) (c ∷ h))
        (record { calls = c ∷ []; grown = refl; allowed = (p, tt); post = q h (answer h) refl });
}

module _ {F V : Type 0} (env : Env F V) where
  abbrev pub key_of : CanaryRollout F → ObjectKey
  key_of r = record { namespace = r.namespace; name = r.name }

  -- The rollout of a manifest of the right kind, with a name, and with a namespace filled in.
  pub record IsFromManifest (r : CanaryRollout F) : Type 0 where
    pub text : String
    pub namespace : String
    pub manifest : Manifest F
    pub parsed : env.unmarshal text ≡ inr manifest
    pub right_kind : is_other_kind manifest.kind ≡ false
    pub has_name : str_eq manifest.rollout.name "" ≡ false
    pub filled : r ≡ placed namespace manifest.rollout

  abbrev pub IsApplied : Call F V → Type 0
  IsApplied (create_rollout r) =
      IsFromManifest r
      × (h : History F V) × (e : Error) × (env.rollout_at h (key_of r) ≡ inl e)
      × (is_not_found e ≡ true)
  IsApplied (update_rollout r') =
      (r : CanaryRollout F) × IsFromManifest r
      × (h : History F V) × (existing : CanaryRollout F) × (env.rollout_at h (key_of r)
          ≡ inr existing)
      × (r' ≡ record existing { spec = r.spec })
  IsApplied (delete_rollout key) = ⊥
  IsApplied (update_status r') = ⊥
  IsApplied (update_virtual_service vs) = ⊥
  IsApplied _ = Unit {0}

  store-IsApplied :
      {K : Type 0} (r : CanaryRollout F) (o : Error ⊎ CanaryRollout F) (h : History F V)
      → IsFromManifest r
      → env.rollout_at h (key_of r) ≡ o
      → Ensures IsApplied K (λ _. Unit {0}) (store env r o)
  unfolding store
  store-IsApplied r (inl e) h from read =
      Ensures-if _ _ _
        (λ missing.
          Ensures-bind {Q = λ _. Unit {0}} _ _
            (Ensures-wrapping _ _
              (Ensures-perform (create_rollout r) _ (from, h, e, read, missing) (λ h' a e'. tt)))
            λ _ _. Ensures-perform _ _ tt (λ h' a e'. tt))
        λ other. Ensures-fail _
  store-IsApplied r (inr existing) h from read =
      Ensures-bind {Q = λ _. Unit {0}} _ _
        (Ensures-wrapping _ _ (
          Ensures-perform (update_rollout (record existing { spec = r.spec })) _
            (r, from, h, existing, read, refl) (λ h' a e'. tt)))
        λ _ _. Ensures-perform _ _ tt (λ h' a e'. tt)

  apply_manifest-IsApplied :
      {K : Type 0} (flags : Flags) (text : String) (manifest : Manifest F)
      → env.unmarshal text ≡ inr manifest
      → Ensures IsApplied K (λ _. Unit {0}) (apply_manifest env flags manifest)
  unfolding apply_manifest fetch_rollout
  apply_manifest-IsApplied flags text manifest parsed =
      Ensures-if _ _ _ (λ other. Ensures-fail _)
        λ right_kind.
          Ensures-if _ _ _ (λ nameless. Ensures-fail _)
            λ has_name.
              Ensures-bind {Q = λ _. Unit {0}} _ _ (open_client-Ensures env _ (λ c. tt)) λ _ _.
                let r = placed flags.namespace manifest.rollout in
                let from : IsFromManifest r = record {
                  text = text;
                  namespace = flags.namespace;
                  manifest = manifest;
                  parsed = parsed;
                  right_kind = right_kind;
                  has_name = has_name;
                  filled = refl;
                } in
                Ensures-bind {Q = λ o. (h : History F V) × (env.rollout_at h (key_of r) ≡ o)} _ _
                  (Ensures-attempted _ _ tt (λ h o e. (h, e)))
                  λ o (h, read). store-IsApplied r o h from read

  apply_file-IsApplied :
      {K : Type 0} (flags : Flags) → Ensures IsApplied K (λ _. Unit {0}) (apply_file env flags)
  unfolding apply_file
  apply_file-IsApplied flags =
      Ensures-if (str_eq flags.file "") _ _ (λ no_file. Ensures-fail _)
        λ file.
          Ensures-bind {Q = λ _. Unit {0}} _ _
            (Ensures-wrapping _ _ (Ensures-perform _ _ tt (λ h a e. tt)))
            λ text _.
              Ensures-bind {Q = λ m. env.unmarshal text ≡ inr m} _ _
                (Ensures-wrapping _ _ (Ensures-lift _ (λ m e. e)))
                λ manifest e. apply_manifest-IsApplied flags text manifest e

  -- `apply` writes only for a manifest of the right kind that has a name. It creates only the manifest's
  -- rollout, and only if the API server answered that there is none; it updates only a rollout that the
  -- API server answered under that name, to the manifest's spec with all else kept. It makes no other
  -- write, and does not panic.
  pub cmd_apply-IsApplied :
      (args : List String) → Ensures IsApplied ⊥ (λ _. Unit {0}) (cmd_apply env args)
  unfolding cmd_apply
  cmd_apply-IsApplied args =
      Ensures-bind _ _ (parse-Ensures env "apply" args)
        λ parsed _. apply_file-IsApplied parsed.flags
