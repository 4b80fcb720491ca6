-- ===== src/Tests/Updates.antt =====
-- Runs that apply new data, with and without a signing certificate.
use text.Mathlib.TextLemmas.{cons-append, cons≢nil}
use authentik_operator.Prelude.{
  some, ◌<>◌, sym, ◌∙◌, String, eq_iff, ◌≢◌, refl, none, some, [], ◌∷◌, arith,
}
use authentik_operator.Errors.{ok, foreign, wrapf}
use authentik_operator.World.{Call, World, Env}
use authentik_operator.Authentik.{
  get_oauth2_provider_by_slug, get_application, get_provider, first_provider, authorized,
  is_unauthorized, get_certificate_by_id,
}
use authentik_operator.Hash.{compute_secret_hash}
use authentik_operator.Reconciler.{reconcile}
use authentik_operator.Reconciler.Token.{with_client}
use authentik_operator.Reconciler.Sync.{fetch_signing_cert}
use authentik_operator.Profiles.{SigningCert}
use authentik_operator.Reconciler.Applied.{IsApplied, reconcile-IsApplied, reconcile_certless}
use authentik_operator.Responses.{OAuth2Provider}
use authentik_operator.Tests.Fixtures.{
  env_with, client_with, test_reconciler, test_provider, request, with_token,
}

prefixed-ne : (t : String) → "sha256:" <> t ≢ ""
prefixed-ne t e = cons≢nil (sym (cons-append "s" "ha256:" t) ∙ e)

abbrev first_env : Env
first_env = env_with "" 200

abbrev read_first : World
read_first = record with_token { trace = Call.client_get request ∷ [] }

abbrev fetched_first : World
fetched_first =
    (with_client test_reconciler (λ c. get_oauth2_provider_by_slug first_env c "demo") read_first).1

reconcile-IsApplied_example :
    IsApplied first_env test_reconciler
      (client_with "")
      test_provider
      none
      fetched_first
      (reconcile first_env test_reconciler request with_token).1
unfolding with_client get_oauth2_provider_by_slug get_application get_provider first_provider
    authorized is_unauthorized fetch_signing_cert compute_secret_hash
reconcile-IsApplied_example =
    reconcile-IsApplied first_env test_reconciler (client_with "") test_provider none request
      with_token fetched_first fetched_first (ground (arith, eq_iff "old-token" "")) refl refl refl
      (prefixed-ne _) refl

-- The provider names a signing certificate, which cannot be decoded.
abbrev signed_provider : OAuth2Provider
signed_provider = record test_provider { signing_key = some "key-1" }

abbrev signed_env : Env
signed_env = record first_env {
  json = record first_env.json {
    provider_list = λ bs. ok (record {
      pagination = record { count = 1; next = none; total_pages = 1 };
      results = signed_provider ∷ [];
    });
  };
}

abbrev fetched_signed : World
fetched_signed =
    (with_client test_reconciler (λ c. get_oauth2_provider_by_slug signed_env c "demo")
      read_first).1

abbrev after_certificate : World
after_certificate =
    (with_client test_reconciler (λ c. get_certificate_by_id signed_env c "key-1") fetched_signed).1

reconcile_certless_example :
    IsApplied signed_env test_reconciler
      (client_with "")
      signed_provider
      none
      after_certificate
      (reconcile signed_env test_reconciler request with_token).1
unfolding with_client get_oauth2_provider_by_slug get_application get_provider first_provider
    authorized is_unauthorized get_certificate_by_id compute_secret_hash
reconcile_certless_example =
    reconcile_certless signed_env test_reconciler (client_with "") signed_provider "key-1"
      (wrapf "decoding certificate response: %w" [] (foreign "no certificate")) request with_token
      fetched_signed after_certificate (ground (arith, eq_iff "old-token" "")) refl refl refl
      (ground (arith, eq_iff "key-1" "")) refl (prefixed-ne _) refl

abbrev test_pair : SigningCert
test_pair = record { certificate_pem = "PEM"; fingerprint_sha256 = "AB:CD" }
