-- ===== src/Statctl/Client.antt =====
-- cmd/statctl/client.go: `newClient`.
use statgate.Prelude.{String, [], ◌∷◌, ◌⊎◌, inl, inr, str_eq, if◌then◌else◌}
use statgate.Actions.{Error, lift, perform, wrapping, ◌>>◌}
use statgate.Actions.Rules.{Ensures, Ensures-lift, Ensures-perform, Ensures-bind, Ensures-wrapping}
use statgate.Effects.{Env, Call, M, connect}

module _ {F V : Type 0} (env : Env F V) where
  -- The file in the home directory, if both are there.
  home_config : Error ⊎ String → String
  home_config (inl e) = ""
  home_config (inr home) =
      let candidate = env.join_path (home ∷ ".kube" ∷ "config" ∷ []) in
      if env.file_exists candidate then candidate else ""

  -- The flag, the variable, or the file of the home directory.
  unfoldable pub chosen_config : String → String
  unfolding home_config
  chosen_config given =
      let config = if str_eq given "" then env.variable "KUBECONFIG" else given in
      if str_eq config "" then home_config env.home_dir else config

  -- The library's `BuildConfigFromFlags`, `AddToScheme` and `New`.
  unfoldable pub open_client : String → M F V (Unit {0})
  open_client given = do
    wrapping "load kubeconfig" (lift (env.config_loaded (chosen_config given)))
    wrapping "register scheme" (lift env.scheme_registered)
    wrapping "create client"
        (perform (connect (chosen_config given)) (λ h. env.connected h (chosen_config given)))

  pub open_client-Ensures :
      {P : Call F V → Type 0} {K : Type 0} (given : String)
      → ((config : String) → P (connect config))
      → Ensures P K (λ _. Unit {0}) (open_client given)
  unfolding open_client
  open_client-Ensures given p =
      Ensures-bind {Q = λ _. Unit {0}} _ _ (Ensures-wrapping _ _ (Ensures-lift _ (λ a e. tt)))
        λ _ _.
          Ensures-bind {Q = λ _. Unit {0}} _ _ (Ensures-wrapping _ _ (Ensures-lift _ (λ a e. tt)))
            λ _ _. Ensures-wrapping _ _ (Ensures-perform _ _ (p _) (λ h a e. tt))
