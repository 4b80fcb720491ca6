-- ===== src/Authentik/Fetches.antt =====
-- The fetches of an application, of its provider and of a certificate are GET requests only.
use authentik_operator.Prelude.{String, ◌≡◌, refl, ◌==◌, Bool, true, false, Option, All}
use authentik_operator.Responses.{ApplicationResponse}
use authentik_operator.World.{Call, Trace, TlsConfig, Env}
use authentik_operator.World.Effects.{send}
use authentik_operator.World.Keeps.{Keeps, Keeps-perform, keeps_rules}
use authentik_operator.Authentik.{
  Client, authorized, get_request, get_application, get_provider, get_oauth2_provider_by_slug,
  get_certificate_by_id,
}

-- A read of a custom resource, or a GET request.
abbrev pub is_fetch : Call → Bool
is_fetch (Call.client_get _) = true
is_fetch (Call.http _ q) = q.method == "GET"
is_fetch _ = false

abbrev pub OnlyFetches : Trace → Type 0
OnlyFetches t = All (λ c. is_fetch c ≡ true) t

module _ (env : Env) (c : Client) where
  authorized_get-Keeps :
      (m s url : String) → Keeps OnlyFetches (authorized env c m s (get_request env c url))
  unfolding authorized
  authorized_get-Keeps m s url = search (keeps_rules, send_get-Keeps)
    where
      send_get-Keeps :
          (tls : Option TlsConfig) (token : Option String)
          → Keeps OnlyFetches (send env tls (record (get_request env c url) { token = token }))
      send_get-Keeps tls token = Keeps-perform _ _ (λ t h. (refl, h))

  get_application-Keeps : (slug : String) → Keeps OnlyFetches (get_application env c slug)
  unfolding get_application
  get_application-Keeps slug = search (keeps_rules, authorized_get-Keeps) depth 9

  get_provider-Keeps :
      (slug : String) (a : ApplicationResponse) → Keeps OnlyFetches (get_provider env c slug a)
  unfolding get_provider
  get_provider-Keeps slug a = search (keeps_rules, authorized_get-Keeps) depth 9

  pub get_oauth2_provider_by_slug-OnlyFetches :
      (slug : String) → Keeps OnlyFetches (get_oauth2_provider_by_slug env c slug)
  unfolding get_oauth2_provider_by_slug
  get_oauth2_provider_by_slug-OnlyFetches slug =
      search (keeps_rules, get_application-Keeps, get_provider-Keeps)

  pub get_certificate_by_id-OnlyFetches :
      (id : String) → Keeps OnlyFetches (get_certificate_by_id env c id)
  unfolding get_certificate_by_id
  get_certificate_by_id-OnlyFetches id = search (keeps_rules, authorized_get-Keeps)
