-- ===== src/Reconciler/Content.antt =====
-- What the target Secret holds.
use authentik_operator.Prelude.{String, ◌==◌, Option, none, some, List, if◌then◌else◌}
use authentik_operator.Prelude.Dict.{Dict, lookup}
use authentik_operator.Api.{OidcClient}
use authentik_operator.Responses.{OAuth2Provider}
use authentik_operator.Profiles.{SigningCert}
use authentik_operator.Profiles.Url.{OidcData, build_oidc_data}
use authentik_operator.Profiles.Documented.{source_data, documented, filled}
use authentik_operator.Text.{trim_slashes}
use authentik_operator.Profiles.Laws.{pem_key, print_key}
use authentik_operator.Text.Escape.{utf8}
use authentik_operator.World.{Env}
use authentik_operator.Reconciler.Token.{Reconciler}
use authentik_operator.Reconciler.Sync.{parse_redirect_uris}

-- The data of a provider, as the profile gets them.
abbrev data_of_provider : Env → Reconciler → OidcClient → OAuth2Provider → OidcData
data_of_provider env r oc p =
    build_oidc_data r.authentik_url oc.spec.authentik.application_slug p.client_id p.client_secret
      (parse_redirect_uris env p.redirect_uris)

module _ (env : Env) (r : Reconciler) (oc : OidcClient) (p : OAuth2Provider) (j : String) where
  -- The value of a signing certificate's key.
  abbrev pub of_certificate : Option SigningCert → Option String
  of_certificate none = none
  of_certificate (some cert) =
      if j == print_key oc.spec.secret_profile
      then some cert.fingerprint_sha256
      else if j == pem_key oc.spec.secret_profile
      then some (
          if oc.spec.secret_profile == "argocd"
          then env.templates.base64_encode (utf8 cert.certificate_pem)
          else cert.certificate_pem)
      else none

  -- The address of Authentik without the slashes at its end.
  abbrev pub base : String
  base = trim_slashes r.authentik_url

  abbrev pub slug : String
  slug = oc.spec.authentik.application_slug

  abbrev pub uris : List String
  uris = parse_redirect_uris env p.redirect_uris

  -- The value of an override, or else the documented one of the profile.
  abbrev pub of_provider : Option String
  of_provider = if j == "redirect_uri" then none else elim (lookup j oc.spec.secret_overrides) [
    | some v ↦
        some (filled env.templates v (source_data base slug p.client_id p.client_secret uris))
    | none ↦ lookup j (
        documented base slug p.client_id p.client_secret oc.spec.secret_profile uris
          oc.spec.secret_overrides)
  ]
