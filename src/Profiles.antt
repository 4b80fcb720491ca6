-- ===== src/Profiles.antt =====
-- internal/profiles/types.go and internal/profiles/profiles.go: the OIDC data of a provider, and
-- the profiles that name its values for an application's Secret. text/template and
-- encoding/base64 are parameters.
pub mod Url
pub mod Laws
pub mod Documented
use authentik_operator.Prelude.{
  ℕ, String, ◌<>◌, ◌==◌, Bool, true, false, Option, none, some, List, [], ◌∷◌, if◌then◌else◌,
}
use authentik_operator.Prelude.Dict.{Dict, lookup, insert, erase, copy}
use authentik_operator.Errors.{Error, Result, ok, err}
use authentik_operator.Text.{trim_slashes, contains}
use authentik_operator.Text.Escape.{utf8}
use Url.{OidcData, app_root_url}

pub record SigningCert : Type 0 where
  pub certificate_pem : String
  pub fingerprint_sha256 : String

-- The libraries that the profiles call.
pub record Codec : Type 0 where
  -- `template.New("override").Parse`: the error where the text is no template
  pub parse_template : String → Option Error
  -- `Execute` of the template of a text: what is written, and the error that ends it if there is one
  pub execute_template : String → OidcData → String × Option Error
  -- `base64.StdEncoding.EncodeToString`
  pub base64_encode : List ℕ → String

unfoldable pub grafana : OidcData → Dict String
grafana d =
    let result : Dict String =
      ("GF_AUTH_GENERIC_OAUTH_ENABLED", "true")
      ∷ ("GF_AUTH_GENERIC_OAUTH_NAME", "authentik")
      ∷ ("GF_AUTH_GENERIC_OAUTH_CLIENT_ID", d.client_id)
      ∷ ("GF_AUTH_GENERIC_OAUTH_CLIENT_SECRET", d.client_secret)
      ∷ ("GF_AUTH_GENERIC_OAUTH_AUTH_URL", d.authorize_url)
      ∷ ("GF_AUTH_GENERIC_OAUTH_TOKEN_URL", d.token_url)
      ∷ ("GF_AUTH_GENERIC_OAUTH_API_URL", trim_slashes d.userinfo_url)
      ∷ ("GF_AUTH_GENERIC_OAUTH_SCOPES", d.scopes)
      ∷ ("GF_AUTH_SIGNOUT_REDIRECT_URL", d.logout_url)
      ∷ ("GF_AUTH_OAUTH_AUTO_LOGIN", "true")
      ∷ ("GF_AUTH_GENERIC_OAUTH_ALLOW_ASSIGN_GRAFANA_ADMIN", "true")
      ∷ ("GF_AUTH_GENERIC_OAUTH_ALLOW_SIGN_UP", "true")
      ∷ ("GF_AUTH_GENERIC_OAUTH_EMAIL_ATTRIBUTE_PATH", "email")
      ∷ ("GF_AUTH_GENERIC_OAUTH_NAME_ATTRIBUTE_PATH", "name")
      ∷ ("GF_AUTH_GENERIC_OAUTH_LOGIN_ATTRIBUTE_PATH", "preferred_username")
      ∷ ("GF_AUTH_GENERIC_OAUTH_USE_PKCE", "true")
      ∷ [] in
    let root_url = app_root_url d in
    if root_url == "" then result else insert "GF_SERVER_ROOT_URL" root_url result

unfoldable pub openwebui : OidcData → Dict String
openwebui d =
    ("ENABLE_OAUTH_SIGNUP", "true")
    ∷ ("OAUTH_PROVIDER_NAME", "authentik")
    ∷ ("OAUTH_CLIENT_ID", d.client_id)
    ∷ ("OAUTH_CLIENT_SECRET", d.client_secret)
    ∷ ("OPENID_PROVIDER_URL", d.issuer_url)
    ∷ ("OAUTH_SCOPES", d.scopes)
    ∷ []

unfoldable pub argocd : OidcData → Dict String
argocd d =
    ("dex.authentik.clientSecret", d.client_secret)
    ∷ ("clientId", d.client_id)
    ∷ ("issuerUrl", d.issuer_url)
    ∷ []

unfoldable pub ragflow : OidcData → Dict String → Dict String
ragflow d overrides =
    let redirect_uri : String = elim (lookup "redirect_uri" overrides) [ none ↦ "" | some v ↦ v ] in
    let service_conf_yaml : String =
      "oauth:\n  oidc:\n    type: oidc\n    icon: sso\n    display_name: \"Login with Authentik\"\n"
      <> ("    client_id: \"" <> (d.client_id <> "\"\n"))
      <> ("    client_secret: \"" <> (d.client_secret <> "\"\n"))
      <> ("    issuer: \"" <> (d.issuer_url <> "\"\n"))
      <> ("    scope: \"" <> (d.scopes <> "\"\n"))
      <> ("    redirect_uri: \"" <> (redirect_uri <> "\"\n")) in
    ("client_id", d.client_id)
    ∷ ("client_secret", d.client_secret)
    ∷ ("issuer", d.issuer_url)
    ∷ ("scope", d.scopes)
    ∷ ("service_conf_yaml", service_conf_yaml)
    ∷ []

unfoldable pub harbor : OidcData → Dict String
harbor d =
    ("client_id", d.client_id)
    ∷ ("client_secret", d.client_secret)
    ∷ ("issuer", d.issuer_url)
    ∷ ("scopes", d.scopes)
    ∷ ("authorize_url", d.authorize_url)
    ∷ ("token_url", d.token_url)
    ∷ ("userinfo_url", d.userinfo_url)
    ∷ []

unfoldable pub generic : OidcData → Dict String
generic d =
    ("clientId", d.client_id)
    ∷ ("clientSecret", d.client_secret)
    ∷ ("authorizeUrl", d.authorize_url)
    ∷ ("tokenUrl", d.token_url)
    ∷ ("userinfoUrl", d.userinfo_url)
    ∷ ("issuerUrl", d.issuer_url)
    ∷ ("scopes", d.scopes)
    ∷ []

-- The switch of `Apply`.
unfoldable pub profile : String → OidcData → Dict String → Dict String
profile name d overrides =
    if name == "grafana"
    then grafana d
    else if name == "openwebui"
    then openwebui d
    else if name == "argocd"
    then argocd d
    else if name == "ragflow"
    then ragflow d overrides
    else if name == "harbor"
    then harbor d
    else generic d

module _ (c : Codec) where
  -- `renderTemplate`
  unfoldable pub render_template : String → OidcData → Result String
  render_template text d = elim (c.parse_template text) [
    | some e ↦ err e
    | none ↦
        let (written, failed) = c.execute_template text d in
        elim failed [ some e ↦ err e | none ↦ ok written ]
  ]

  -- One value: a text with `{{` is a template, and stays as it is where the template fails.
  unfoldable pub resolve : String → OidcData → String
  unfolding render_template
  resolve v d = if contains v "{{" then elim (render_template v d) [ ok r ↦ r | err e ↦ v ] else v

  unfoldable pub resolve_overrides : Dict String → OidcData → Dict String
  resolve_overrides [] d = []
  resolve_overrides ((k, v) ∷ m) d = insert k (resolve v d) (resolve_overrides m d)

  -- `Apply`
  unfoldable pub apply : String → OidcData → Dict String → Dict String
  apply name d overrides =
      erase "redirect_uri" (copy (profile name d overrides) (resolve_overrides overrides d))

  unfoldable pub apply_with_cert :
      String → OidcData → Dict String → Option SigningCert → Dict String
  apply_with_cert name d overrides none = apply name d overrides
  apply_with_cert name d overrides (some cert) =
      let result = apply name d overrides in
      if name == "argocd"
      then insert "caFingerprint" cert.fingerprint_sha256
          (insert "caData" (c.base64_encode (utf8 cert.certificate_pem)) result)
      else insert "saml.fingerprint" cert.fingerprint_sha256
          (insert "saml.crt" cert.certificate_pem result)
