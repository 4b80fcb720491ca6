-- ===== src/Authentik/Short.antt =====
-- What an error of a request carries of an answer.
pub mod Rules
use authentik_operator.Prelude.{
  ℕ, zero, suc, ◌≤◌, String, ◌≡◌, refl, ◌⊎◌, inl, inr, Bool, true, false, Option, none, some, List,
  [], ◌∷◌, All, length, take, if◌then◌else◌, arith,
}
use authentik_operator.Errors.{
  Arg, quoted, num, bytes, Error, errorf, wrapf, err_token_expired, err_provider_not_found, Result,
  ok, err,
}
use authentik_operator.Certs.{Bytes}
use authentik_operator.Responses.{ApplicationResponse, OAuth2Provider, TokenCreateRequest}
use authentik_operator.World.{World, Env, HttpRequest, HttpResponse, Trace, TlsConfig}
use authentik_operator.World.Effects.{
  carried, Exec, pass_on, wrap_result, ◌>>=◌, pure, fail, lift, wrapping, done,
}
use authentik_operator.Authentik.{
  Client, limited, authorized, first_provider, check_created, get_application, get_provider,
  get_oauth2_provider_by_slug, get_certificate_by_id, view_token_key, create_api_token,
}
use Rules.{
  FromLibrary, request, send, application, providers, certificate, view_key, marshal, IsShort, made,
  expired, missing, library, limited_size, Fails, ShortResult, err-ShortResult, Fails-lift,
  Fails-bind, Fails-if, Fails-pure, Fails-fail, Fails-wrapping,
}

module _ (env : Env) (name : String) where
  ShortResult-if :
      {A : Type 0} (b : Bool) (r r' : Result A)
      → ShortResult env name r
      → ShortResult env name r'
      → ShortResult env name (if b then r else r')
  ShortResult-if true r r' h h' = h
  ShortResult-if false r r' h h' = h'

  ok_short : {A : Type 0} (a : A) → ShortResult env name (ok a)
  ok_short a = tt

  body_short :
      (f : String) (body : Bytes)
      → ShortResult env name {A = Unit {0}} (err (errorf f (bytes (limited body) ∷ [])))
  body_short f body = made f _ (limited_size body) (tt, tt)

  status_short :
      (f : String) (status : ℕ) (body : Bytes)
      → ShortResult env name {A = Unit {0}}
          (err (errorf f (num status ∷ bytes (limited body) ∷ [])))
  status_short f status body = made f _ (limited_size body) (tt, (tt, tt))

  -- What a library answers, where its errors are counted as its own.
  answered :
      {A : Type 0} (r : Result A)
      → ((e : Error) → r ≡ err e → FromLibrary env e)
      → ShortResult env name r
  answered r from = err-ShortResult r (λ e p. library e (from e p))

  making_short :
      (url : String) (o : Option Error) → env.request_error url ≡ o → ShortResult env name (done o)
  making_short url none p = tt
  making_short url (some e) p = library e (request url e p)

module _ (env : Env) (c : Client) (name : String) where
  authorized-Fails :
      (making sending : String) (q : HttpRequest)
      → Fails env name (authorized env c making sending q)
  unfolding authorized
  authorized-Fails making sending q =
      Fails-bind _ _ (Fails-wrapping making _ (Fails-lift _ (making_short env name q.url _ refl)))
        (λ _. Fails-wrapping sending _ (record {
          at = λ w e p.
              library e
                (send w.trace c.tls (record q { token = some (carried env c.token w) }) e p);
        }))

  -- The answer with another status, its body limited.
  refused-Fails :
      {A : Type 0} (f : String) (status : ℕ) (body : Bytes)
      → Fails env name (fail {A = A} (errorf f (num status ∷ bytes (limited body) ∷ [])))
  refused-Fails f status body = Fails-fail _ (made f _ (limited_size body) (tt, (tt, tt)))

  refused_for-Fails :
      {A : Type 0} (f : String) (status : ℕ) (body : Bytes)
      → Fails env name
          (fail {A = A} (errorf f (num status ∷ quoted name ∷ bytes (limited body) ∷ [])))
  refused_for-Fails f status body =
      Fails-fail _ (made f _ (limited_size body) (tt, (refl, (tt, tt))))

  expired-Fails :
      {A : Type 0} (f : String) (status : ℕ) (body : Bytes)
      → Fails env name (
          fail {A = A}
            (wrapf f (num status ∷ quoted name ∷ bytes (limited body) ∷ []) err_token_expired))
  expired-Fails f status body =
      Fails-fail _ (expired f _ (limited_size body) (tt, (refl, (tt, tt))))

  first_provider-Fails :
      (ps : List OAuth2Provider) → Fails env name (lift (first_provider env c ps))
  unfolding first_provider
  first_provider-Fails [] = Fails-lift _ missing
  first_provider-Fails (p ∷ ps) = Fails-lift _ tt

  missing-Fails : {A : Type 0} → Fails env name (fail {A = A} err_provider_not_found)
  missing-Fails = Fails-fail _ missing

  application_short : (b : Bytes) → ShortResult env name (env.json.application b)
  application_short b = answered env name _ (application b)

  providers_short : (b : Bytes) → ShortResult env name (env.json.provider_list b)
  providers_short b = answered env name _ (providers b)

  certificate_short : (b : Bytes) → ShortResult env name (env.json.certificate b)
  certificate_short b = answered env name _ (certificate b)

  view_key_short : (b : Bytes) → ShortResult env name (env.json.view_key b)
  view_key_short b = answered env name _ (view_key b)

  marshal_short : (q : TokenCreateRequest) → ShortResult env name (env.json.marshal_token q)
  marshal_short q = answered env name _ (marshal q)

  ruleset short_rules = (
    Fails-bind, Fails-if, Fails-pure, Fails-wrapping, Fails-lift, authorized-Fails, refused-Fails,
    refused_for-Fails, expired-Fails, first_provider-Fails, missing-Fails,
  )

  get_application-Fails : Fails env name (get_application env c name)
  unfolding get_application
  get_application-Fails = search (short_rules, application_short) depth 12

  get_provider-Fails : (app : ApplicationResponse) → Fails env name (get_provider env c name app)
  unfolding get_provider
  get_provider-Fails app = search (short_rules, providers_short) depth 12

  get_certificate_by_id-Fails : Fails env name (get_certificate_by_id env c name)
  unfolding get_certificate_by_id
  get_certificate_by_id-Fails = search (short_rules, certificate_short) depth 12

  view_token_key-Fails : Fails env name (view_token_key env c name)
  unfolding view_token_key
  view_token_key-Fails = search (short_rules, view_key_short) depth 12

  check_created-Fails : (resp : HttpResponse) → Fails env name (lift (check_created env c resp))
  unfolding check_created
  check_created-Fails resp = search (Fails-lift, ShortResult-if, ok_short, body_short, status_short)

  create_api_token-Fails : Fails env name (create_api_token env c name)
  unfolding create_api_token
  create_api_token-Fails =
      search (short_rules, marshal_short, check_created-Fails, view_token_key-Fails) depth 12

  get_oauth2_provider_by_slug-Fails : Fails env name (get_oauth2_provider_by_slug env c name)
  unfolding get_oauth2_provider_by_slug
  get_oauth2_provider_by_slug-Fails =
      search (short_rules, get_application-Fails, get_provider-Fails) depth 12

  -- An error that a request for the provider, the certificate or the new token of a name ends with is of one of these forms, each
  -- with any number of formats without arguments around it: a format with at most a mebibyte of answers
  -- among its arguments, however long the answer is, and with no other text than the name, alone or around the
  -- error of an expired token; the error of a missing provider; or an error as net/http or
  -- encoding/json answered it, whose own text is not bounded here.
  pub requests-IsShort :
      (w : World) (e : Error)
      → ((get_oauth2_provider_by_slug env c name w).0 ≡ err e)
        ⊎ (((get_certificate_by_id env c name w).0 ≡ err e)
            ⊎ ((create_api_token env c name w).0 ≡ err e))
      → IsShort env name e
  requests-IsShort w e (inl p) = get_oauth2_provider_by_slug-Fails.at w e p
  requests-IsShort w e (inr (inl p)) = get_certificate_by_id-Fails.at w e p
  requests-IsShort w e (inr (inr p)) = create_api_token-Fails.at w e p
