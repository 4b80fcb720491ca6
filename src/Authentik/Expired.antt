-- ===== src/Authentik/Expired.antt =====
-- When `GetOAuth2ProviderBySlug` reports that the token has expired.
use authentik_operator.Prelude.{
  String, ◌≡◌, Bool, true, false, [], ◌∷◌, arith, Option, none, some, ◌⊎◌, inl, inr,
}
use authentik_operator.Errors.{Error, Result, ok, err, is_token_expired, Result-cases}
use authentik_operator.Certs.{Bytes}
use authentik_operator.Responses.{ApplicationResponse}
use authentik_operator.World.{Call, Trace, World, Env, HttpRequest, HttpResponse, TlsConfig}
use authentik_operator.World.Effects.{carried}
use authentik_operator.Authentik.{
  Client, get_request, application_url, providers_url, authorized, is_unauthorized, first_provider,
  get_application, get_provider, get_oauth2_provider_by_slug,
}

-- The newest call is a request that was answered with 401 or 403.
abbrev pub Rejected : Env → Trace → Type 0
Rejected env [] = ⊥
Rejected env (Call.http tls q ∷ t) =
    (resp : HttpResponse) × (env.send t tls q ≡ ok resp)
    × ((resp.status ≡ 401) ⊎ (resp.status ≡ 403))
Rejected env (_ ∷ t) = ⊥

abbrev expired_option : Option Error → Bool
expired_option none = false
expired_option (some e) = is_token_expired e

abbrev expired_result : {A : Type 0} → Result A → Bool
expired_result (ok a) = false
expired_result (err e) = is_token_expired e

-- The errors of net/http and of encoding/json are not the program's own.
pub record Foreign (env : Env) : Type 0 where
  pub request : (url : String) → expired_option (env.request_error url) ≡ false
  pub send :
      (t : Trace) (tls : Option TlsConfig) (q : HttpRequest)
      → expired_result (env.send t tls q) ≡ false
  pub application : (b : Bytes) → expired_result (env.json.application b) ≡ false
  pub providers : (b : Bytes) → expired_result (env.json.provider_list b) ≡ false

module _ (env : Env) (c : Client) (foreign : Foreign env) (slug : String) where
  get_application-Rejected :
      (w : World) (e : Error)
      → (get_application env c slug w).0 ≡ err e
      → is_token_expired e ≡ true
      → Rejected env (get_application env c slug w).1.trace
  unfolding get_application authorized is_unauthorized
  get_application-Rejected w e failed expired =
      let q : HttpRequest = record (get_request env c (application_url env c slug)) {
        token = some (carried env c.token w);
      } in
      elim (Result-cases (env.send w.trace c.tls q)) [
        | inl (resp, p) ↦ ground (arith, p, foreign.request q.url, foreign.application resp.body)
        | inr (x, p) ↦ ground (arith, p, foreign.request q.url, foreign.send w.trace c.tls q)
      ]

  get_provider-Rejected :
      (app : ApplicationResponse) (w : World) (e : Error)
      → (get_provider env c slug app w).0 ≡ err e
      → is_token_expired e ≡ true
      → Rejected env (get_provider env c slug app w).1.trace
  unfolding get_provider authorized is_unauthorized first_provider
  get_provider-Rejected app w e failed expired =
      let q : HttpRequest = record (get_request env c (providers_url env c app.pk)) {
        token = some (carried env c.token w);
      } in
      elim (Result-cases (env.send w.trace c.tls q)) [
        | inl (resp, p) ↦ ground (arith, p, foreign.request q.url, foreign.providers resp.body)
        | inr (x, p) ↦ ground (arith, p, foreign.request q.url, foreign.send w.trace c.tls q)
      ]

  -- Where the errors of the libraries are not the client's own, an error of `GetOAuth2ProviderBySlug` counts
  -- as an expired token only where the last request was answered with 401 or 403.
  pub get_oauth2_provider_by_slug-Rejected :
      (w : World) (e : Error)
      → (get_oauth2_provider_by_slug env c slug w).0 ≡ err e
      → is_token_expired e ≡ true
      → Rejected env (get_oauth2_provider_by_slug env c slug w).1.trace
  unfolding get_oauth2_provider_by_slug
  get_oauth2_provider_by_slug-Rejected w e failed expired =
      elim (Result-cases (get_application env c slug w).0) [
        | inl (app, p) ↦ rw p (get_provider-Rejected app _ e (rw p at failed) expired)
        | inr (e', p) ↦
            let bad = rw p at failed in rw p (get_application-Rejected w e' p (ground (arith, bad)))
      ]
