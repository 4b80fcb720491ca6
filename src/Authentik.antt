-- ===== src/Authentik.antt =====
-- internal/authentik/client.go: the HTTP client of Authentik's API, request by request.
pub mod Tls
pub mod Wait
pub mod Quiet
pub mod Fetches
pub mod Ready
pub mod Creation
pub mod Requests
pub mod Below
pub mod Short
pub mod Expired
use authentik_operator.Prelude.{
  ℕ, zero, suc, ◌+◌, ◌*◌, ◌/◌, String, ◌<>◌, Bool, true, false, not, ◌||◌, Option, none, some, List,
  [], ◌∷◌, if◌then◌else◌, nat_eq, ltb, take,
}
use authentik_operator.Errors.{
  Arg, Error, str, quoted, num, bytes, err_provider_not_found, err_token_expired, errorf, wrapf,
  out_of_rounds, Result, ok, err,
}
use authentik_operator.Certs.{Bytes}
use authentik_operator.Text.{trim_slashes}
use authentik_operator.Text.Escape.{path_escape, utf8}
use authentik_operator.Responses.{
  ApplicationResponse, CertificateKeypair, OAuth2Provider, TokenCreateRequest,
}
use authentik_operator.World.{TlsConfig, Bearer, fixed, HttpRequest, HttpResponse, Env}
use authentik_operator.World.Effects.{
  Exec, pass_on, ◌>>=◌, ◌>>◌, pure, fail, lift, attempt, on_option, wrapping, check, send, bearer,
  read_clock, wait_tick,
}
use Tls.{ClientOption, config_of, build_tls_config}

-- `Client`, with the token that each request reads under the lock.
pub record Client : Type 0 where
  pub base_url : String
  pub token : Bearer
  pub tls : Option TlsConfig

-- `io.LimitReader(body, 1<<20)`, read to its end
unfoldable pub limited : Bytes → Bytes
limited body = take 1048576 body

-- `strings.Contains(string(body), sub)`
unfoldable pub is_prefix_bytes : Bytes → Bytes → Bool
is_prefix_bytes [] s = true
is_prefix_bytes (c ∷ t) [] = false
is_prefix_bytes (c ∷ t) (d ∷ s) =
    let rest = is_prefix_bytes t s in if nat_eq c d then rest else false

unfoldable pub contains_bytes : Bytes → Bytes → Bool
contains_bytes [] sub = is_prefix_bytes sub []
contains_bytes (c ∷ s) sub = is_prefix_bytes sub (c ∷ s) || contains_bytes s sub

abbrev pub second : ℕ
second = 1000000000

module _ (env : Env) where
  -- `NewClient`
  unfoldable pub new_client : String → String → List ClientOption → Client
  new_client base_url token opts = record {
    base_url = trim_slashes base_url;
    token = fixed token;
    tls = build_tls_config env (config_of opts);
  }

  module _ (c : Client) where
    -- A request with `setAuth`; the two formats wrap the errors of making and of sending it. Where net/http
    -- follows a redirect, the answer is that of the last request that it makes.
    unfoldable pub authorized : String → String → HttpRequest → Exec HttpResponse
    authorized making sending q = do
      wrapping making [] (check (env.request_error q.url))
      token ← bearer env c.token
      wrapping sending [] (send env c.tls (record q { token = some token }))

    abbrev pub get_request : String → HttpRequest
    get_request url = record {
      method = "GET";
      url = url;
      token = none;
      content_type = none;
      body = [];
      deadline = none;
    }

    unfoldable pub is_unauthorized : ℕ → Bool
    is_unauthorized status = nat_eq status 401 || nat_eq status 403

    abbrev pub application_url : String → String
    application_url slug = c.base_url <> ("/api/v3/core/applications/" <> (path_escape slug <> "/"))

    abbrev pub providers_url : String → String
    providers_url pk = c.base_url <> ("/api/v3/providers/oauth2/?application=" <> pk)

    -- Step 1 of `GetOAuth2ProviderBySlug`
    unfoldable pub get_application : String → Exec ApplicationResponse
    get_application slug = do
      resp ←
          authorized "creating application request: %w" "fetching application: %w"
            (get_request (application_url slug))
      if nat_eq resp.status 404
          then fail err_provider_not_found
          else if is_unauthorized resp.status
          then fail (
              wrapf "%w: %d for application %q: %s"
                (num resp.status ∷ quoted slug ∷ bytes (limited resp.body) ∷ []) err_token_expired)
          else if not (nat_eq resp.status 200)
          then fail (
              errorf "authentik API returned %d for application %q: %s"
                (num resp.status ∷ quoted slug ∷ bytes (limited resp.body) ∷ []))
          else wrapping "decoding application response: %w" []
              (lift (env.json.application resp.body))

    -- `&listResp.Results[0]`, or `ErrProviderNotFound`
    unfoldable pub first_provider : List OAuth2Provider → Result OAuth2Provider
    first_provider [] = err err_provider_not_found
    first_provider (p ∷ _) = ok p

    -- Step 2
    unfoldable pub get_provider : String → ApplicationResponse → Exec OAuth2Provider
    get_provider slug app = do
      resp ←
          authorized "creating provider request: %w" "fetching providers: %w"
            (get_request (providers_url app.pk))
      if is_unauthorized resp.status
          then fail (
              wrapf "%w: %d for providers (application %q): %s"
                (num resp.status ∷ quoted slug ∷ bytes (limited resp.body) ∷ []) err_token_expired)
          else if not (nat_eq resp.status 200)
          then fail (
              errorf "authentik API returned %d for providers: %s"
                (num resp.status ∷ bytes (limited resp.body) ∷ []))
          else do
            list ←
                wrapping "decoding provider response: %w" []
                  (lift (env.json.provider_list resp.body))
            lift (first_provider list.results)

    -- `GetOAuth2ProviderBySlug`
    unfoldable pub get_oauth2_provider_by_slug : String → Exec OAuth2Provider
    get_oauth2_provider_by_slug slug = do app ← get_application slug; get_provider slug app

    -- `GetCertificateByID`
    unfoldable pub get_certificate_by_id : String → Exec CertificateKeypair
    get_certificate_by_id id = do
      resp ← authorized "creating certificate request: %w" "fetching certificate: %w" (
          get_request
            (c.base_url <> ("/api/v3/crypto/certificatekeypairs/" <> (path_escape id <> "/"))))
      if not (nat_eq resp.status 200)
          then fail (
              errorf "authentik API returned %d for certificate %q: %s"
                (num resp.status ∷ quoted id ∷ bytes (limited resp.body) ∷ []))
          else wrapping "decoding certificate response: %w" []
              (lift (env.json.certificate resp.body))

    -- `viewTokenKey`
    unfoldable pub view_token_key : String → Exec String
    view_token_key identifier = do
      resp ← authorized "creating view_key request: %w" "fetching token key: %w" (
          get_request
            (c.base_url <> ("/api/v3/core/tokens/" <> (path_escape identifier <> "/view_key/"))))
      if not (nat_eq resp.status 200)
          then fail
              (errorf "view_key returned %d: %s" (num resp.status ∷ bytes (limited resp.body) ∷ []))
          else do
            key_resp ←
                wrapping "decoding view_key response: %w" [] (lift (env.json.view_key resp.body))
            pure key_resp.key

    -- The switch on the status of the creation.
    unfoldable pub check_created : HttpResponse → Result (Unit {0})
    check_created resp =
        if nat_eq resp.status 201 || nat_eq resp.status 200
        then ok tt
        else if nat_eq resp.status 400
        then if contains_bytes (limited resp.body) (utf8 "already exists")
          then ok tt
          else err (errorf "authentik API returned 400: %s" (bytes (limited resp.body) ∷ []))
        else err (
            errorf "authentik API returned %d: %s"
              (num resp.status ∷ bytes (limited resp.body) ∷ []))

    -- `CreateAPIToken`
    unfoldable pub create_api_token : String → Exec String
    create_api_token identifier = do
      body ← wrapping "marshaling request: %w" [] (
          lift (
            env.json.marshal_token (record {
              identifier = identifier;
              intent = "api";
              description = "AuthentikOperator service token";
            })))
      resp ← authorized "creating request: %w" "executing request: %w" (record {
        method = "POST";
        url = c.base_url <> "/api/v3/core/tokens/";
        token = none;
        content_type = some "application/json";
        body = body;
        deadline = none;
      })
      lift (check_created resp)
      view_token_key identifier
