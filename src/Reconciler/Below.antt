-- ===== src/Reconciler/Below.antt =====
-- Where the requests of `Reconcile` go.
use authentik_operator.Prelude.{String, ◌≡◌}
use authentik_operator.Prelude.Dict.{Dict}
use authentik_operator.Errors.{Error}
use authentik_operator.Text.{trim_slashes}
use authentik_operator.Api.{NamespacedName, OidcClient, Condition}
use authentik_operator.Responses.{OAuth2Provider}
use authentik_operator.World.{Env}
use authentik_operator.World.Effects.{Exec}
use authentik_operator.World.Guards.{Guards}
use authentik_operator.Authentik.{Client, get_oauth2_provider_by_slug, get_certificate_by_id}
use authentik_operator.Authentik.Below.{
  Safe, Rely, IfFixed, safe_rules, get_oauth2_provider_by_slug-Safe, get_certificate_by_id-Safe,
}
use authentik_operator.Rollout.{restart, trigger_rollout}
use authentik_operator.Reconciler.{
  reconcile, reconcile_client, try_refresh, report_missing, provider_failed,
}
use authentik_operator.Reconciler.Token.{Reconciler, with_client}
use authentik_operator.Reconciler.Sources.{Sources, ensure_token-Safe, refresh_token-Safe}
use authentik_operator.Reconciler.Status.{set_condition}
use authentik_operator.Reconciler.Sync.{
  fetch_key, fetch_signing_cert, write_config_map, patch_config_map, restart_workload, record_sync,
  write_secret, write_if_changed, sync_provider,
}

module _ (env : Env) (r : Reconciler) {Allowed : String → Type 0} {base : String}
    (rely : Rely env Allowed) (sources : Sources env r Allowed)
    (at_base : r.authentik_client.base_url ≡ base)
    (at_url : trim_slashes r.authentik_url ≡ base) where
  set_condition-Safe :
      (oc : OidcClient) (c : Condition) → Guards (Safe Allowed base) (set_condition env oc c)
  unfolding set_condition
  set_condition-Safe oc c = record { at = λ w h. h }

  ruleset calm_rules = (safe_rules, set_condition-Safe)

  try_refresh-Safe : (e : Error) → Guards (Safe Allowed base) (try_refresh env r e)
  unfolding try_refresh
  try_refresh-Safe e = search (safe_rules, refresh_token-Safe) depth 9

  provider_failed-Safe :
      (oc : OidcClient) (e : Error) → Guards (Safe Allowed base) (provider_failed env r oc e)
  unfolding provider_failed report_missing
  provider_failed-Safe oc e = search (calm_rules, try_refresh-Safe) depth 12

  with_client-Safe :
      {A : Type 0} (f : Client → Exec A)
      → ((c : Client)
          → IfFixed Allowed c.token
          → c.base_url ≡ base
          → Guards (Safe Allowed base) (f c))
      → Guards (Safe Allowed base) (with_client r f)
  unfolding with_client
  with_client-Safe f k = record { at = λ w h. (k _ tt at_base).at w h }

  provider-Safe :
      (slug : String)
      → Guards (Safe Allowed base) (with_client r (λ c. get_oauth2_provider_by_slug env c slug))
  provider-Safe slug =
      with_client-Safe _ (λ c b e. get_oauth2_provider_by_slug-Safe env c rely b e slug)

  certificate-Safe :
      (id : String)
      → Guards (Safe Allowed base) (with_client r (λ c. get_certificate_by_id env c id))
  certificate-Safe id = with_client-Safe _ (λ c b e. get_certificate_by_id-Safe env c rely b e id)

  fetch_signing_cert-Safe :
      (p : OAuth2Provider) → Guards (Safe Allowed base) (fetch_signing_cert env r p)
  unfolding fetch_signing_cert fetch_key
  fetch_signing_cert-Safe p = search (safe_rules, certificate-Safe) depth 12

  patch_config_map-Safe :
      (oc : OidcClient) (content : Dict String)
      → Guards (Safe Allowed base) (patch_config_map env oc content)
  unfolding patch_config_map write_config_map
  patch_config_map-Safe oc content = search calm_rules depth 12

  trigger_rollout-Safe :
      (kind name namespace hash : String)
      → Guards (Safe Allowed base) (trigger_rollout env kind name namespace hash)
  unfolding trigger_rollout restart
  trigger_rollout-Safe kind name namespace hash = search calm_rules depth 12

  restart_workload-Safe :
      (oc : OidcClient) (hash : String) → Guards (Safe Allowed base) (restart_workload env oc hash)
  unfolding restart_workload
  restart_workload-Safe oc hash = search (calm_rules, trigger_rollout-Safe) depth 9

  record_sync-Safe :
      (oc : OidcClient) (hash : String) → Guards (Safe Allowed base) (record_sync env r oc hash)
  unfolding record_sync
  record_sync-Safe oc hash = search calm_rules depth 9

  write_secret-Safe :
      (oc : OidcClient) (content : Dict String) (hash : String)
      → Guards (Safe Allowed base) (write_secret env r oc content hash)
  unfolding write_secret
  write_secret-Safe oc content hash =
      search (calm_rules, patch_config_map-Safe, restart_workload-Safe, record_sync-Safe) depth 12

  sync_provider-Safe :
      (oc : OidcClient) (p : OAuth2Provider) → Guards (Safe Allowed base) (sync_provider env r oc p)
  unfolding sync_provider write_if_changed
  sync_provider-Safe oc p = search (calm_rules, fetch_signing_cert-Safe, write_secret-Safe) depth 12

  reconcile_client-Safe : (oc : OidcClient) → Guards (Safe Allowed base) (reconcile_client env r oc)
  unfolding reconcile_client
  reconcile_client-Safe oc =
      search (safe_rules, provider-Safe, sync_provider-Safe, provider_failed-Safe) depth 9

  pub reconcile-Safe : (req : NamespacedName) → Guards (Safe Allowed base) (reconcile env r req)
  unfolding reconcile
  reconcile-Safe req = search (calm_rules, ensure_token-Safe, reconcile_client-Safe) depth 12
