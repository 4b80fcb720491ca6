-- ===== src/Profiles/Url.antt =====
-- internal/profiles/types.go: the addresses of a provider.
pub mod Laws
use authentik_operator.Prelude.{String, ◌<>◌, ◌+◌, none, some, List, [], ◌∷◌}
use authentik_operator.Text.{trim_slashes, index, take_text, drop_text}

pub record OidcData : Type 0 where
  pub client_id : String
  pub client_secret : String
  pub authorize_url : String
  pub token_url : String
  pub userinfo_url : String
  pub issuer_url : String
  pub logout_url : String
  pub scopes : String
  pub redirect_uris : List String

unfoldable pub build_oidc_data : String → String → String → String → List String → OidcData
unfolding trim_slashes
build_oidc_data base_url slug client_id client_secret redirect_uris =
    let base = trim_slashes base_url in
    record {
      client_id = client_id;
      client_secret = client_secret;
      authorize_url = base <> "/application/o/authorize/";
      token_url = base <> "/application/o/token/";
      userinfo_url = base <> "/application/o/userinfo/";
      issuer_url = base <> ("/application/o/" <> (slug <> "/"));
      logout_url = base <> ("/application/o/" <> (slug <> "/end-session/"));
      scopes = "openid email profile";
      redirect_uris = redirect_uris;
    }

-- `AppRootURL` of one redirect URI.
unfoldable pub root_url_of : String → String
root_url_of uri = elim (index uri "://") [
  | none ↦ ""
  | some scheme_end ↦ elim (index (drop_text (scheme_end + 3) uri) "/") [
    | none ↦ uri <> "/"
    | some path_start ↦ take_text (scheme_end + 3 + path_start) uri <> "/"
  ]
]

unfoldable pub first_root_url : List String → String
unfolding root_url_of
first_root_url [] = ""
first_root_url (uri ∷ _) = root_url_of uri

unfoldable pub app_root_url : OidcData → String
unfolding first_root_url
app_root_url d = first_root_url d.redirect_uris
