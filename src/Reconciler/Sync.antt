-- ===== src/Reconciler/Sync.antt =====
-- `Reconcile` of internal/controller/oidcclient_controller.go, from the provider to the status.
use authentik_operator.Prelude.{
  String, ◌==◌, false, Option, none, some, List, [], ◌∷◌, if◌then◌else◌, is_empty,
}
use authentik_operator.Prelude.Dict.{Dict, lookup, insert}
use authentik_operator.Errors.{ok, err}
use authentik_operator.Api.{
  OidcClient, SecretApply, ConfigMapTarget, RolloutTargetRef, RolloutRestart,
}
use authentik_operator.Certs.{Bytes}
use authentik_operator.Responses.{OAuth2Provider}
use authentik_operator.World.{Env}
use authentik_operator.World.Effects.{
  Exec, ◌>>=◌, ◌>>◌, pure, attempt, on_result, on_option, apply_secret, update_status,
  get_config_map, update_config_map, read_clock,
}
use authentik_operator.Hash.{compute_secret_hash}
use authentik_operator.Profiles.{SigningCert, apply_with_cert}
use authentik_operator.Profiles.Url.{build_oidc_data}
use authentik_operator.Authentik.{get_certificate_by_id}
use authentik_operator.Rollout.{made, trigger_rollout}
use authentik_operator.Reconciler.Token.{Reconciler, CtrlResult, interval, with_client}
use authentik_operator.Reconciler.Status

-- `if s.URL != ""`
unfoldable pub non_empty : List String → List String
non_empty [] = []
non_empty (s ∷ ss) = let rest = non_empty ss in if s == "" then rest else s ∷ rest

-- `toByteMap`; a text stands for its bytes
unfoldable pub to_byte_map : Dict String → Dict String
to_byte_map [] = []
to_byte_map ((k, v) ∷ m) = insert k v (to_byte_map m)

abbrev pub after_interval : Reconciler → CtrlResult
after_interval r = record { requeue = false; requeue_after = interval r }

abbrev pub target_secret : OidcClient → Dict String → SecretApply
target_secret oc content = record {
  name = oc.spec.target.secret_name;
  namespace = oc.spec.target.namespace;
  labels =
      ("auth.kettleofketchup/managed-by", "authentik-operator")
      ∷ ("auth.kettleofketchup/oidc-client", oc.name)
      ∷ [];
  annotations = ("argocd.argoproj.io/compare-options", "IgnoreExtraneous") ∷ [];
  content = to_byte_map content;
}

module _ (env : Env) where
  unfoldable pub plain_uris : Bytes → List String
  plain_uris raw = elim (env.json.plain raw) [ ok uris ↦ uris | err _ ↦ [] ]

  -- `parseRedirectURIs`; nil is the empty list
  unfoldable pub parse_redirect_uris : Bytes → List String
  parse_redirect_uris raw = if is_empty raw then [] else elim (env.json.structured raw) [
    | ok urls ↦ if is_empty urls then plain_uris raw else non_empty urls
    | err _ ↦ plain_uris raw
  ]

  -- The signing certificate, where the provider has a key and it can be read.
  unfoldable pub fetch_key : Reconciler → String → Exec (Option SigningCert)
  fetch_key r id = if id == "" then pure none else do
    found ← attempt (with_client r λ c. get_certificate_by_id env c id)
    pure (elim found [
      | ok pair ↦ some (record {
        certificate_pem = pair.certificate_data;
        fingerprint_sha256 = pair.fingerprint_sha256;
      })
      | err _ ↦ none
    ])

  unfoldable pub fetch_signing_cert : Reconciler → OAuth2Provider → Exec (Option SigningCert)
  fetch_signing_cert r p = on_option p.signing_key (pure none) (fetch_key r)

  -- Step 3: the data of the Secret.
  unfoldable pub secret_data :
      Reconciler → OidcClient → OAuth2Provider → Option SigningCert → Dict String
  secret_data r oc p cert =
      apply_with_cert env.templates oc.spec.secret_profile
        (build_oidc_data r.authentik_url oc.spec.authentik.application_slug p.client_id
          p.client_secret (parse_redirect_uris p.redirect_uris))
        oc.spec.secret_overrides cert

  -- Step 6, with the value that was found.
  unfoldable pub write_config_map : OidcClient → ConfigMapTarget → String → Exec OidcClient
  write_config_map oc t value = do
    found ← attempt (get_config_map env (record { name = t.name; namespace = t.namespace }))
    on_result found
        (λ cm. do
          updated ← attempt (
              update_config_map env
                (record cm { content = some (insert t.data_key value (made cm.content)) }))
          on_result updated (λ _. Status.set_condition env oc (Status.config_map_synced oc t))
              (λ e. Status.set_condition env oc (Status.config_map_update_failed oc e)))
        (λ e. Status.set_condition env oc (Status.config_map_get_failed oc t e))

  unfoldable pub patch_config_map : OidcClient → Dict String → Exec OidcClient
  patch_config_map oc content =
      on_option oc.spec.config_map_target (pure oc)
        λ t. on_option (lookup t.source_key content) (pure oc) (write_config_map oc t)

  -- The workload to restart, where a restart is asked for.
  unfoldable pub restart_target : Option RolloutRestart → Option RolloutTargetRef
  restart_target none = none
  restart_target (some rr) = if rr.enabled then rr.target_ref else none

  unfoldable pub restart_workload : OidcClient → String → Exec OidcClient
  restart_workload oc hash = on_option (restart_target oc.spec.rollout_restart) (pure oc) λ ref. do
    result ← attempt (trigger_rollout env ref.kind ref.name ref.namespace hash)
    on_result result (λ _. Status.set_condition env oc (Status.rollout_triggered oc ref))
        (λ e. Status.set_condition env oc (Status.rollout_failed oc e))

  -- The last step: the hash goes into the status.
  unfoldable pub record_sync : Reconciler → OidcClient → String → Exec CtrlResult
  record_sync r oc hash = do
    now ← read_clock env
    oc' ←
        Status.set_condition env
          (record oc {
            status = record oc.status { secret_hash = hash; last_sync_time = some now };
          })
          (Status.secret_synced oc)
    update_status env oc'
    pure (after_interval r)

  -- Steps 5 to 7.
  unfoldable pub write_secret : Reconciler → OidcClient → Dict String → String → Exec CtrlResult
  write_secret r oc content hash = do
    applied ← attempt (apply_secret env (target_secret oc content))
    on_result applied
        (λ _. do
          oc1 ← patch_config_map oc content
          oc2 ← restart_workload oc1 hash
          record_sync r oc2 hash)
        (λ e. do
          oc' ← Status.set_condition env oc (Status.apply_failed oc e)
          attempt (update_status env oc')
          pure (after_interval r))

  -- Step 4: nothing is written where the hash is that of the status.
  unfoldable pub write_if_changed : Reconciler → OidcClient → Dict String → String → Exec CtrlResult
  write_if_changed r oc content hash =
      if hash == oc.status.secret_hash
      then pure (after_interval r)
      else write_secret r oc content hash

  -- From the found provider on.
  unfoldable pub sync_provider : Reconciler → OidcClient → OAuth2Provider → Exec CtrlResult
  sync_provider r oc p = do
    oc' ← Status.set_condition env oc (Status.provider_found oc p)
    cert ← fetch_signing_cert r p
    let content = secret_data r oc' p cert
    write_if_changed r oc' content (compute_secret_hash env.certs.sha256 content)
