-- ===== src/Tests/Steps.antt =====
-- Runs of single steps: the restart, the ConfigMap, the refresh of the token, the command in a pod, the
-- certificates and the errors of requests.
use authentik_operator.Prelude.{inl, ℕ, ◌≡◌, refl, none, some, List, [], ◌∷◌, arith}
use authentik_operator.Errors.{Error, errorf, num, quoted, bytes, ok}
use authentik_operator.Api.{OidcClient, ConfigMap, ConfigMapTarget, Workload, deployment}
use authentik_operator.Certs.{cert_fingerprint}
use authentik_operator.Certs.Fingerprint.{split_colons, split_colons-cert_fingerprint}
use authentik_operator.World.{Env}
use authentik_operator.Authentik.{
  limited, get_oauth2_provider_by_slug, get_application, authorized, is_unauthorized,
  create_api_token, check_created, view_token_key,
}
use authentik_operator.Authentik.Wait.{wait_for_ready, ready_loop, ready_round, is_ready}
use authentik_operator.Hash.{value_at}
use authentik_operator.Authentik.Short.Rules.{IsShort}
use authentik_operator.Authentik.Short.{requests-IsShort}
use authentik_operator.Bootstrap.{run, check_existing, obtain_key, exec_key}
use authentik_operator.Entry.Options.{Flags, default_flags}
use authentik_operator.Reconciler.Token.{refresh_token, reload_token}
use authentik_operator.Reconciler.Status
use authentik_operator.Reconciler.Refresh.{Refreshed, refresh_token-Refreshed}
use authentik_operator.Tests.Fixtures.{
  test_client, env_with, test_certs, client_with, test_reconciler, with_token,
}

abbrev test_workload : Workload
test_workload = record { kind = deployment; name = "web"; namespace = "apps"; annotations = none }

abbrev with_workload : Env
with_workload = record (env_with "" 200) { get_workload = λ t kind key. ok test_workload }

abbrev test_target : ConfigMapTarget
test_target = record {
  name = "web-config";
  namespace = "apps";
  source_key = "issuer";
  data_key = "ISSUER";
}

abbrev test_config_map : ConfigMap
test_config_map = record {
  name = "web-config";
  namespace = "apps";
  content = some (("DEBUG", "0") ∷ []);
}

abbrev with_config_map : Env
with_config_map = record (env_with "" 200) { get_config_map = λ t key. ok test_config_map }

abbrev targeted : OidcClient
targeted = record (client_with "") {
  spec = record (client_with "").spec { config_map_target = some test_target };
}

refresh_token-Refreshed_example :
    Refreshed
      (env_with "" 200)
      test_reconciler
      with_token
      (refresh_token (env_with "" 200) test_reconciler with_token).1
unfolding refresh_token value_at run check_existing wait_for_ready ready_loop ready_round is_ready
    obtain_key exec_key create_api_token authorized check_created view_token_key reload_token
refresh_token-Refreshed_example =
    refresh_token-Refreshed (env_with "" 200) test_reconciler with_token refl

abbrev with_pod : Env
with_pod = record (env_with "" 200) {
  list_pods = λ t ns selector. ok (
      record { name = "server-0"; phase = "Pending" }
      ∷ record { name = "server-1"; phase = "Running" }
      ∷ []);
  exec_output = λ t q. record { stdout = "hi\n k7 \n\n"; stderr = "" };
}

abbrev test_der : List ℕ
test_der = 171 ∷ 205 ∷ []

split_colons-cert_fingerprint_example :
    split_colons (cert_fingerprint test_certs (record { raw = test_der })) ≡ some test_der
split_colons-cert_fingerprint_example =
    split_colons-cert_fingerprint test_certs (record { raw = test_der })
      (ground arith, (ground arith, tt))

abbrev trusting : Flags
trusting = record default_flags { authentik_ca_cert_data = "C" }

-- Authentik answers every request with 500 and a body.
abbrev failing : Env
failing = record (env_with "" 500) {
  send = λ t tls q. ok (record { status = 500; body = 111 ∷ 104 ∷ [] });
}

abbrev internal_error : Error
internal_error =
    errorf "authentik API returned %d for application %q: %s"
      (num 500 ∷ quoted "demo" ∷ bytes (111 ∷ 104 ∷ []) ∷ [])

requests-IsShort_example : IsShort failing "demo" internal_error
unfolding get_oauth2_provider_by_slug get_application authorized is_unauthorized limited
requests-IsShort_example =
    requests-IsShort failing test_client "demo" with_token internal_error (inl refl)
