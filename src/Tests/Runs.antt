-- ===== src/Tests/Runs.antt =====
-- Runs of `Run` and of `Reconcile`.
use authentik_operator.Prelude.{String, ◌≡◌, refl, eq_iff, false, none, some, [], ◌∷◌, arith}
use authentik_operator.Prelude.Dict.{erase, copy}
use authentik_operator.Profiles.{apply_with_cert, apply, resolve_overrides, profile, generic}
use authentik_operator.Profiles.Url.{build_oidc_data}
use authentik_operator.Errors.{ok, err, status_error, foreign, wrapf}
use authentik_operator.Api.{OidcClient}
use authentik_operator.Hash.{compute_secret_hash}
use authentik_operator.World.{Call, World, Trace, Env}
use authentik_operator.Authentik.{
  get_oauth2_provider_by_slug, get_application, get_provider, first_provider, authorized,
  is_unauthorized, create_api_token, check_created, view_token_key,
}
use authentik_operator.Authentik.Wait.{wait_for_ready, ready_loop, ready_round, is_ready}
use authentik_operator.Bootstrap.{run, secret_key, check_existing, obtain_key, exec_key}
use authentik_operator.Bootstrap.Laws.{IsLost, run-IsLost, run-Stops}
use authentik_operator.Reconciler.{reconcile, requeue_after}
use authentik_operator.Reconciler.Token.{with_client}
use authentik_operator.Reconciler.Sync.{
  after_interval, secret_data, fetch_signing_cert, write_secret,
}
use authentik_operator.Reconciler.Order.Defs.{IsOrdered}
use authentik_operator.Reconciler.Order.Whole.{reconcile-IsOrdered}
use authentik_operator.Reconciler.Unchanged.{reconcile_unchanged}
use authentik_operator.Authentik.Fetches.{OnlyFetches}
use authentik_operator.Reconciler.Synced.{write_secret_accepted}
use authentik_operator.Bootstrap.Success.{Stored, run-Stored}
use authentik_operator.Reconciler.Deletes.{AreJustified, reconcile-AreJustified}
use authentik_operator.Prelude.Dict.{Dict}
use authentik_operator.Reconciler.Settles.{writes, reconcile_settles}
use authentik_operator.Reconciler.Status.{set_condition, secret_synced}
use authentik_operator.Reconciler.Sync.{
  patch_config_map, restart_workload, restart_target, record_sync,
}
use authentik_operator.Tests.Fixtures.{
  env_with-Foreign, env_with, client_with, test_reconciler, test_config, test_provider,
  token_secret_found, request, with_token, without_token,
}

reconcile-IsOrdered_example :
    IsOrdered
      (env_with "" 200)
      (reconcile (env_with "" 200) test_reconciler request with_token).1.trace
reconcile-IsOrdered_example =
    reconcile-IsOrdered (env_with "" 200) test_reconciler request with_token tt

-- The hash that the data of the provider has.
abbrev settled_hash : String
settled_hash =
    compute_secret_hash (env_with "" 200).certs.sha256
      (secret_data (env_with "" 200) test_reconciler (client_with "") test_provider none)

abbrev settled : Env
settled = env_with settled_hash 200

abbrev fetched : World
fetched =
    (with_client test_reconciler (λ c. get_oauth2_provider_by_slug settled c "demo")
      (record with_token { trace = Call.client_get request ∷ [] })).1

reconcile_unchanged_example :
    (reconcile settled test_reconciler request with_token
      ≡ (ok (requeue_after test_reconciler), fetched))
    × OnlyFetches fetched.trace
unfolding secret_data with_client get_oauth2_provider_by_slug get_application get_provider
    first_provider authorized is_unauthorized fetch_signing_cert compute_secret_hash apply_with_cert
    apply erase copy resolve_overrides profile generic build_oidc_data
reconcile_unchanged_example =
    reconcile_unchanged settled test_reconciler request (client_with settled_hash) test_provider
      none with_token fetched fetched (ground (arith, eq_iff "old-token" "")) refl refl refl refl tt

write_secret_accepted_example :
    (oc' : OidcClient) × (t : Trace) × (oc'.spec ≡ (client_with "").spec)
    × (oc'.status.secret_hash ≡ "sha256:00")
    × ((write_secret
          (env_with "" 200)
          test_reconciler
          (client_with "")
          (("clientId", "demo-id") ∷ [])
          "sha256:00"
          with_token).1.trace
        ≡ Call.status_update oc' ∷ t)
    × ((write_secret
          (env_with "" 200)
          test_reconciler
          (client_with "")
          (("clientId", "demo-id") ∷ [])
          "sha256:00"
          with_token).0
        ≡ elim ((env_with "" 200).update_status t oc') [
          | none ↦ ok (after_interval test_reconciler)
          | some e ↦ err e
        ])
write_secret_accepted_example =
    write_secret_accepted (env_with "" 200) test_reconciler (client_with "")
      (("clientId", "demo-id") ∷ []) "sha256:00" with_token refl

-- The token Secret cannot be read.
abbrev locked : Env
locked = record (env_with "" 200) { get_secret = λ t key. err (status_error "NotFound") }

run-Stops_example :
    run (env_with "" 200) (record test_config { force_refresh = false }) without_token
    ≡ (ok tt, record without_token { trace = Call.secret_get (secret_key test_config) ∷ [] })
run-Stops_example =
    run-Stops (env_with "" 200) (record test_config { force_refresh = false }) without_token refl

-- The server accepts no Secret.
abbrev refusing : Env
refusing = record (env_with "" 200) { apply_secret = λ t s. some (foreign "forbidden") }

run-IsLost_example : IsLost refusing (run refusing test_config without_token).1.trace
unfolding run check_existing wait_for_ready ready_loop ready_round is_ready obtain_key exec_key
    create_api_token check_created view_token_key authorized
run-IsLost_example =
    run-IsLost refusing test_config without_token {s = token_secret_found}
      (wrapf "applying token secret: %w" [] (foreign "forbidden")) refl refl refl refl

abbrev read_and_deleted : World
read_and_deleted = (check_existing (env_with "" 200) test_config without_token).1

run-Stored_example :
    Stored
      (env_with "" 200)
      test_config
      read_and_deleted
      (run (env_with "" 200) test_config without_token).1
unfolding run check_existing wait_for_ready ready_loop ready_round is_ready obtain_key exec_key
    create_api_token check_created view_token_key authorized
run-Stored_example =
    run-Stored (env_with "" 200) test_config without_token read_and_deleted refl refl

-- Authentik answers every request with 403.
reconcile-AreJustified_example :
    AreJustified
      (env_with "" 403)
      (reconcile (env_with "" 403) test_reconciler request with_token).1.trace
reconcile-AreJustified_example =
    reconcile-AreJustified (env_with "" 403) test_reconciler env_with-Foreign request with_token tt

-- The custom resource reads as its status was last written.
abbrev stored : Trace → OidcClient
stored [] = client_with ""
stored (Call.status_update oc ∷ t) = oc
stored (_ ∷ t) = stored t

abbrev cluster : Env
cluster = record (env_with "" 200) { get_client = λ t key. ok (stored t) }

abbrev first_data : Dict String
first_data = secret_data cluster test_reconciler (client_with "") test_provider none

abbrev first_hash : String
first_hash = compute_secret_hash cluster.certs.sha256 first_data

abbrev after_first : World
after_first =
    (write_secret cluster test_reconciler (client_with "") first_data first_hash with_token).1

abbrev older : Trace → Trace
older [] = []
older (c ∷ t) = t

abbrev fetched_again : World
fetched_again =
    (with_client test_reconciler (λ c. get_oauth2_provider_by_slug cluster c "demo")
      (record after_first { trace = Call.client_get request ∷ after_first.trace })).1

reconcile_settles_example :
    (reconcile cluster test_reconciler request after_first
      ≡ (ok (requeue_after test_reconciler), fetched_again))
    × (writes fetched_again.trace ≡ writes after_first.trace)
unfolding with_client get_oauth2_provider_by_slug get_application get_provider first_provider
    authorized is_unauthorized fetch_signing_cert write_secret patch_config_map restart_workload
    restart_target record_sync set_condition secret_synced
reconcile_settles_example =
    reconcile_settles cluster test_reconciler (client_with "") (stored after_first.trace)
      test_provider none with_token (older after_first.trace) refl refl request after_first
      fetched_again fetched_again (ground (arith, eq_iff "old-token" "")) refl refl refl
