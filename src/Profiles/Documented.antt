-- ===== src/Profiles/Documented.antt =====
-- The Secret's keys and values as docs/profiles and docs/includes/oidc-source-data.md list them, written
-- out from the address of Authentik without the slashes at its end, the slug and the provider's
-- credentials. The profile of Harbor has no page; its keys are those of TestHarborProfile.
use text.Mathlib.TextLemmas.{cons-append, nil-append, cons≢nil}
use Prim.Native.String.{[] as none_left, ◌∷◌}
use authentik_operator.Prelude.{
  ℕ, String, ◌<>◌, ◌==◌, Bool, true, false, Option, none, some, List, [], ◌∷◌, ◌≡◌, ◌≢◌, refl,
  if◌then◌else◌, eq_iff, arith,
}
use authentik_operator.Prelude.Dict.{Dict, lookup, insert, lookup-insert}
use authentik_operator.Errors.{Error}
use authentik_operator.Text.{trim_slashes, index, contains}
use authentik_operator.Profiles.{
  grafana, openwebui, argocd, ragflow, harbor, generic, profile, Codec, resolve, render_template,
}
use authentik_operator.Profiles.Url.{
  OidcData, build_oidc_data, app_root_url, root_url_of, first_root_url,
}

module _ (base slug id secret : String) where
  -- docs/includes/oidc-source-data.md, and the redirect URIs
  abbrev pub source_data : List String → OidcData
  source_data uris = record {
    client_id = id;
    client_secret = secret;
    authorize_url = base <> "/application/o/authorize/";
    token_url = base <> "/application/o/token/";
    userinfo_url = base <> "/application/o/userinfo/";
    issuer_url = base <> ("/application/o/" <> (slug <> "/"));
    logout_url = base <> ("/application/o/" <> (slug <> "/end-session/"));
    scopes = "openid email profile";
    redirect_uris = uris;
  }

  abbrev pub issuer : String
  issuer = base <> ("/application/o/" <> (slug <> "/"))

  -- docs/profiles/grafana.md
  abbrev pub grafana_table : Dict String
  grafana_table =
      ("GF_AUTH_GENERIC_OAUTH_ENABLED", "true")
      ∷ ("GF_AUTH_GENERIC_OAUTH_NAME", "authentik")
      ∷ ("GF_AUTH_GENERIC_OAUTH_CLIENT_ID", id)
      ∷ ("GF_AUTH_GENERIC_OAUTH_CLIENT_SECRET", secret)
      ∷ ("GF_AUTH_GENERIC_OAUTH_AUTH_URL", base <> "/application/o/authorize/")
      ∷ ("GF_AUTH_GENERIC_OAUTH_TOKEN_URL", base <> "/application/o/token/")
      ∷ ("GF_AUTH_GENERIC_OAUTH_API_URL", base <> "/application/o/userinfo")
      ∷ ("GF_AUTH_GENERIC_OAUTH_SCOPES", "openid email profile")
      ∷ ("GF_AUTH_SIGNOUT_REDIRECT_URL", base <> ("/application/o/" <> (slug <> "/end-session/")))
      ∷ ("GF_AUTH_OAUTH_AUTO_LOGIN", "true")
      ∷ ("GF_AUTH_GENERIC_OAUTH_ALLOW_ASSIGN_GRAFANA_ADMIN", "true")
      ∷ ("GF_AUTH_GENERIC_OAUTH_ALLOW_SIGN_UP", "true")
      ∷ ("GF_AUTH_GENERIC_OAUTH_EMAIL_ATTRIBUTE_PATH", "email")
      ∷ ("GF_AUTH_GENERIC_OAUTH_NAME_ATTRIBUTE_PATH", "name")
      ∷ ("GF_AUTH_GENERIC_OAUTH_LOGIN_ATTRIBUTE_PATH", "preferred_username")
      ∷ ("GF_AUTH_GENERIC_OAUTH_USE_PKCE", "true")
      ∷ []

  -- The root of the first redirect URI, where it has one.
  abbrev pub with_root : List String → Dict String → Dict String
  with_root [] m = m
  with_root (uri ∷ _) m =
      if root_url_of uri == "" then m else ("GF_SERVER_ROOT_URL", root_url_of uri) ∷ m

  -- docs/profiles/openwebui.md
  abbrev pub openwebui_table : Dict String
  openwebui_table =
      ("ENABLE_OAUTH_SIGNUP", "true")
      ∷ ("OAUTH_PROVIDER_NAME", "authentik")
      ∷ ("OAUTH_CLIENT_ID", id)
      ∷ ("OAUTH_CLIENT_SECRET", secret)
      ∷ ("OPENID_PROVIDER_URL", issuer)
      ∷ ("OAUTH_SCOPES", "openid email profile")
      ∷ []

  -- docs/profiles/argocd.md
  abbrev pub argocd_table : Dict String
  argocd_table =
      ("dex.authentik.clientSecret", secret) ∷ ("clientId", id) ∷ ("issuerUrl", issuer) ∷ []

  -- The YAML text of a service_conf.yaml, line by line.
  abbrev pub service_conf : String → String
  service_conf redirect_uri =
      "oauth:\n  oidc:\n    type: oidc\n    icon: sso\n    display_name: \"Login with Authentik\"\n"
      <> ("    client_id: \"" <> (id <> "\"\n"))
      <> ("    client_secret: \"" <> (secret <> "\"\n"))
      <> ("    issuer: \"" <> (issuer <> "\"\n"))
      <> ("    scope: \"" <> ("openid email profile" <> "\"\n"))
      <> ("    redirect_uri: \"" <> (redirect_uri <> "\"\n"))

  -- docs/profiles/ragflow.md, with service_conf_yaml in place of redirect_uri_path
  abbrev pub ragflow_table : String → Dict String
  ragflow_table redirect_uri =
      ("client_id", id)
      ∷ ("client_secret", secret)
      ∷ ("issuer", issuer)
      ∷ ("scope", "openid email profile")
      ∷ ("service_conf_yaml", service_conf redirect_uri)
      ∷ []

  abbrev pub harbor_table : Dict String
  harbor_table =
      ("client_id", id)
      ∷ ("client_secret", secret)
      ∷ ("issuer", issuer)
      ∷ ("scopes", "openid email profile")
      ∷ ("authorize_url", base <> "/application/o/authorize/")
      ∷ ("token_url", base <> "/application/o/token/")
      ∷ ("userinfo_url", base <> "/application/o/userinfo/")
      ∷ []

  -- docs/profiles/generic.md
  abbrev pub generic_table : Dict String
  generic_table =
      ("clientId", id)
      ∷ ("clientSecret", secret)
      ∷ ("authorizeUrl", base <> "/application/o/authorize/")
      ∷ ("tokenUrl", base <> "/application/o/token/")
      ∷ ("userinfoUrl", base <> "/application/o/userinfo/")
      ∷ ("issuerUrl", issuer)
      ∷ ("scopes", "openid email profile")
      ∷ []

  abbrev pub or_empty : Option String → String
  or_empty o = elim o [ none ↦ "" | some v ↦ v ]

  -- docs/profiles/index.md: the table of a profile, and the generic one for an unknown name.
  abbrev pub documented : String → List String → Dict String → Dict String
  documented name uris overrides =
      if name == "grafana"
      then with_root uris grafana_table
      else if name == "openwebui"
      then openwebui_table
      else if name == "argocd"
      then argocd_table
      else if name == "ragflow"
      then ragflow_table (or_empty (lookup "redirect_uri" overrides))
      else if name == "harbor"
      then harbor_table
      else generic_table

not_empty : (t : String) → t ≢ "" → (t == "") ≡ false
not_empty t h = ground (arith, eq_iff t "")

filled_ne : (s t : String) → t ≢ "" → (s <> t == "") ≡ false
filled_ne none_left t h = rw nil-append (not_empty t h)
filled_ne (c ∷ s) t h = rw cons-append (not_empty _ cons≢nil)

trim_slashes-append :
    (s t t' : String) → trim_slashes t ≡ t' → t' ≢ "" → trim_slashes (s <> t) ≡ s <> t'
unfolding trim_slashes
trim_slashes-append none_left t t' e h = rw (nil-append, nil-append) e
trim_slashes-append (c ∷ s) t t' e h =
    rw (cons-append, cons-append) (rw (trim_slashes-append s t t' e h, filled_ne s t' h) refl)

userinfo_url-trim :
    (base : String)
    → trim_slashes (base <> "/application/o/userinfo/") ≡ base <> "/application/o/userinfo"
unfolding trim_slashes
userinfo_url-trim base = trim_slashes-append base _ _ refl cons≢nil

lookup-if :
    (j : String) (b : Bool) (x y x' y' : Dict String)
    → lookup j x ≡ lookup j x'
    → lookup j y ≡ lookup j y'
    → lookup j (if b then x else y) ≡ lookup j (if b then x' else y')
lookup-if j true x y x' y' e e' = e
lookup-if j false x y x' y' e e' = e'

module _ (j base_url slug id secret : String) where
  lookup-with_root :
      (b : Bool) (root : String) (m m' : Dict String)
      → m ≡ m'
      → lookup j (if b then m else insert "GF_SERVER_ROOT_URL" root m)
        ≡ lookup j (if b then m' else ("GF_SERVER_ROOT_URL", root) ∷ m')
  unfolding lookup
  lookup-with_root true root m m' e = rw e refl
  lookup-with_root false root m m' e = rw e (lookup-insert j "GF_SERVER_ROOT_URL" root m')

  lookup-grafana :
      (uris : List String)
      → lookup j (grafana (build_oidc_data base_url slug id secret uris))
        ≡ lookup j (
            with_root
              (trim_slashes base_url)
              slug
              id
              secret
              uris
              (grafana_table (trim_slashes base_url) slug id secret))
  unfolding grafana build_oidc_data app_root_url first_root_url
  lookup-grafana [] = rw (userinfo_url-trim (trim_slashes base_url)) refl
  lookup-grafana (uri ∷ uris) =
      lookup-with_root (root_url_of uri == "") (root_url_of uri) _ _
        (rw (userinfo_url-trim (trim_slashes base_url)) refl)

  -- The data of a provider give the documented keys and values, whatever the profile.
  pub lookup-profile :
      (name : String) (uris : List String) (overrides : Dict String)
      → lookup j (profile name (build_oidc_data base_url slug id secret uris) overrides)
        ≡ lookup j (documented (trim_slashes base_url) slug id secret name uris overrides)
  unfolding profile openwebui argocd ragflow harbor generic build_oidc_data
  lookup-profile name uris overrides =
      lookup-if j (name == "grafana") _ _ _ _ (lookup-grafana uris) (
        lookup-if j (name == "openwebui") _ _ _ _ refl (
          lookup-if j (name == "argocd") _ _ _ _ refl (
            lookup-if j (name == "ragflow") _ _ _ _ refl
              (lookup-if j (name == "harbor") _ _ _ _ refl refl))))

-- What a template writes, or else its text.
abbrev pub written_or : String → Option Error → String → Option Error → String
written_or v none text none = text
written_or v none text (some e) = v
written_or v (some e) text failed = v

module _ (c : Codec) where
  -- The value of an override: a text without `{{` as it is, and any other as the template that it is, or as it is
  -- where the template does not parse or fails.
  abbrev pub filled : String → OidcData → String
  filled v d = elim (index v "{{") [
    | none ↦ v
    | some _ ↦
        written_or v (c.parse_template v) (c.execute_template v d).0 (c.execute_template v d).1
  ]

  resolve-found :
      (v : String) (d : OidcData) (o : Option ℕ) (p q : Option Error)
      → index v "{{" ≡ o
      → c.parse_template v ≡ p
      → (c.execute_template v d).1 ≡ q
      → resolve c v d ≡ filled v d
  unfolding resolve render_template contains
  resolve-found v d none p q found parsed done = rw (resolve, filled, contains, found) refl
  resolve-found v d (some n) (some e) q found parsed done =
      rw (resolve, filled, contains, found, render_template, parsed) refl
  resolve-found v d (some n) none none found parsed done =
      rw (resolve, filled, contains, found, render_template, parsed, done) refl
  resolve-found v d (some n) none (some e) found parsed done =
      rw (resolve, filled, contains, found, render_template, parsed, done) refl

  pub resolve-filled : (v : String) (d : OidcData) → resolve c v d ≡ filled v d
  resolve-filled v d = resolve-found v d _ _ _ refl refl refl
