-- ===== src/Authentik/Below.antt =====
-- Where the requests of the client go.
use authentik_operator.Prelude.{
  ℕ, zero, suc, String, ◌<>◌, ◌≡◌, Bool, true, false, Option, none, some, [], ◌∷◌, arith,
}
use authentik_operator.Text.Escape.{path_escape}
use authentik_operator.Text.Path.{IsSegment, path_escape-IsSegment}
use authentik_operator.Errors.{Result}
use authentik_operator.Responses.{ApplicationResponse}
use authentik_operator.World.{Call, Trace, World, Env, Bearer, fixed, shared, HttpRequest}
use authentik_operator.World.Effects.{Exec, ◌>>=◌, perform, send, set_token, bearer, carried}
use authentik_operator.World.Guards.{
  Guards, Guards-fail, Guards-perform, Guards-set_token, Guards-bind_Gives, guards_rules,
}
use authentik_operator.Authentik.{
  Client, application_url, providers_url, get_request, authorized, get_application, get_provider,
  get_oauth2_provider_by_slug, get_certificate_by_id, view_token_key, create_api_token,
}
use authentik_operator.Authentik.Wait.{health_url, ready_round, ready_loop, wait_for_ready}

-- The addresses that the client asks for, under a base: each has at most one segment that is not fixed, which holds only
-- the characters of a segment, and that of the providers has the primary key that Authentik
-- answered, as it is.
pub data IsEndpoint : String → String → Type 0 where
  application :
      (base segment : String)
      → IsSegment segment
      → IsEndpoint base (base <> ("/api/v3/core/applications/" <> (segment <> "/")))
  providers :
      (base pk : String)
      → IsEndpoint base (base <> ("/api/v3/providers/oauth2/?application=" <> pk))
  certificate :
      (base segment : String)
      → IsSegment segment
      → IsEndpoint base (base <> ("/api/v3/crypto/certificatekeypairs/" <> (segment <> "/")))
  view_key :
      (base segment : String)
      → IsSegment segment
      → IsEndpoint base (base <> ("/api/v3/core/tokens/" <> (segment <> "/view_key/")))
  tokens : (base : String) → IsEndpoint base (base <> "/api/v3/core/tokens/")
  config : (base : String) → IsEndpoint base (base <> "/api/v3/root/config/")

-- What holds of the token of a request, where it has one.
abbrev pub IfCarried : (String → Type 0) → Option String → Type 0
IfCarried Allowed none = Unit
IfCarried Allowed (some token) = Allowed token

-- Every request goes to one of these addresses, and carries an allowed token or none.
abbrev pub StaysUnder : (String → Type 0) → String → Trace → Type 0
StaysUnder Allowed base [] = Unit
StaysUnder Allowed base (Call.http tls q ∷ t) =
    IsEndpoint base q.url × IfCarried Allowed q.token × StaysUnder Allowed base t
StaysUnder Allowed base (_ ∷ t) = StaysUnder Allowed base t

-- The token is an allowed one too.
pub record Safe (Allowed : String → Type 0) (base : String) (w : World) : Type 0 where
  pub token : Allowed w.token
  pub requests : StaysUnder Allowed base w.trace

-- No token counts as allowed, and another worker sets an allowed token where this one has.
pub record Rely (env : Env) (Allowed : String → Type 0) : Type 0 where
  pub cleared : Allowed ""
  pub others : (t : Trace) (own : String) → Allowed own → Allowed (env.shared_token t own)

abbrev pub is_http : Call → Bool
is_http (Call.http _ _) = true
is_http _ = false

StaysUnder-other :
    (Allowed : String → Type 0) (base : String) (c : Call) (t : Trace)
    → is_http c ≡ false
    → StaysUnder Allowed base t
    → StaysUnder Allowed base (c ∷ t)
StaysUnder-other Allowed base (Call.http tls q) t e h = absurd (ground (arith, e))
StaysUnder-other Allowed base _ t e h = h

module _ {Allowed : String → Type 0} {base : String} where
  -- A call that is no request.
  pub Guards-other :
      {A : Type 0} (c : Call) (answer : Trace → Result A)
      → is_http c ≡ false
      → Guards (Safe Allowed base) (perform c answer)
  Guards-other c answer e = Guards-perform c answer (λ w h. record {
    token = h.token;
    requests = StaysUnder-other Allowed base c w.trace e h.requests;
  })

  pub Guards-token : (token : String) → Allowed token → Guards (Safe Allowed base) (set_token token)
  Guards-token token h = Guards-set_token token (λ w k. record { token = h; requests = k.requests })

pub ruleset safe_rules = (guards_rules, Guards-other, Guards-token)

-- What a client brings: an allowed token, where it is not the shared one.
abbrev pub IfFixed : (String → Type 0) → Bearer → Type 0
IfFixed Allowed (fixed token) = Allowed token
IfFixed Allowed shared = Unit

carried-Allowed :
    (env : Env) {Allowed : String → Type 0} (b : Bearer) (w : World)
    → Rely env Allowed
    → IfFixed Allowed b
    → Allowed w.token
    → Allowed (carried env b w)
carried-Allowed env (fixed token) w rely brought h = brought
carried-Allowed env shared w rely brought h = rely.others w.trace w.token h

module _ (env : Env) (c : Client) {Allowed : String → Type 0} {base : String}
    (rely : Rely env Allowed) (brought : IfFixed Allowed c.token)
    (at_base : c.base_url ≡ base) where
  send-Safe :
      (q : HttpRequest)
      → IsEndpoint c.base_url q.url
      → IfCarried Allowed q.token
      → Guards (Safe Allowed base) (send env c.tls q)
  send-Safe q u t =
      Guards-perform _ _
        (λ w h. record { token = h.token; requests = (rw at_base at u, t, h.requests) })

  application_url-IsEndpoint : (slug : String) → IsEndpoint c.base_url (application_url env c slug)
  application_url-IsEndpoint slug =
      application c.base_url (path_escape slug) (path_escape-IsSegment slug)

  providers_url-IsEndpoint : (pk : String) → IsEndpoint c.base_url (providers_url env c pk)
  providers_url-IsEndpoint pk = providers c.base_url pk

  certificate-IsEndpoint :
      (id : String)
      → IsEndpoint c.base_url
          (c.base_url <> ("/api/v3/crypto/certificatekeypairs/" <> (path_escape id <> "/")))
  certificate-IsEndpoint id = certificate c.base_url (path_escape id) (path_escape-IsSegment id)

  view_key-IsEndpoint :
      (id : String)
      → IsEndpoint c.base_url
          (c.base_url <> ("/api/v3/core/tokens/" <> (path_escape id <> "/view_key/")))
  view_key-IsEndpoint id = view_key c.base_url (path_escape id) (path_escape-IsSegment id)

  tokens-IsEndpoint : IsEndpoint c.base_url (c.base_url <> "/api/v3/core/tokens/")
  tokens-IsEndpoint = tokens c.base_url

  ruleset url_rules = (
    guards_rules, application_url-IsEndpoint, providers_url-IsEndpoint, certificate-IsEndpoint,
    view_key-IsEndpoint, tokens-IsEndpoint,
  )

  bearer-Safe :
      {A : Type 0} (f : String → Exec A)
      → ((token : String) → Allowed token → Guards (Safe Allowed base) (f token))
      → Guards (Safe Allowed base) (bearer env c.token >>= f)
  bearer-Safe f k =
      Guards-bind_Gives {Q = Allowed} (bearer env c.token) f (record { at = λ w h. h })
        (record {
          at = λ w h a e.
              let same : carried env c.token w ≡ a = ground (arith, e) in
              rw same at (carried-Allowed env c.token w rely brought h.token);
        })
        k

  authorized-Safe :
      (m s : String) (q : HttpRequest)
      → IsEndpoint c.base_url q.url
      → Guards (Safe Allowed base) (authorized env c m s q)
  unfolding authorized
  authorized-Safe m s q u = search (safe_rules, bearer-Safe, send-Safe, u) depth 9

  get_application-Safe : (slug : String) → Guards (Safe Allowed base) (get_application env c slug)
  unfolding get_application
  get_application-Safe slug = search (url_rules, authorized-Safe) depth 9

  get_provider-Safe :
      (slug : String) (a : ApplicationResponse)
      → Guards (Safe Allowed base) (get_provider env c slug a)
  unfolding get_provider
  get_provider-Safe slug a = search (url_rules, authorized-Safe) depth 9

  pub get_oauth2_provider_by_slug-Safe :
      (slug : String) → Guards (Safe Allowed base) (get_oauth2_provider_by_slug env c slug)
  unfolding get_oauth2_provider_by_slug
  get_oauth2_provider_by_slug-Safe slug =
      search (safe_rules, get_application-Safe, get_provider-Safe)

  pub get_certificate_by_id-Safe :
      (id : String) → Guards (Safe Allowed base) (get_certificate_by_id env c id)
  unfolding get_certificate_by_id
  get_certificate_by_id-Safe id = search (url_rules, authorized-Safe)

  view_token_key-Safe : (id : String) → Guards (Safe Allowed base) (view_token_key env c id)
  unfolding view_token_key
  view_token_key-Safe id = search (url_rules, authorized-Safe) depth 9

  pub create_api_token-Safe : (id : String) → Guards (Safe Allowed base) (create_api_token env c id)
  unfolding create_api_token
  create_api_token-Safe id = search (url_rules, authorized-Safe, view_token_key-Safe) depth 9

  health-Safe :
      (deadline : ℕ)
      → Guards (Safe Allowed base) (
          send env c.tls
            (record (get_request env c (health_url env c)) { deadline = some deadline }))
  health-Safe deadline = send-Safe _ (config c.base_url) tt

  ready_round-Safe :
      (timeout deadline : ℕ) (again : Exec (Unit {0}))
      → Guards (Safe Allowed base) again
      → Guards (Safe Allowed base) (ready_round env c timeout deadline again)
  unfolding ready_round
  ready_round-Safe timeout deadline again k = search (safe_rules, health-Safe) depth 14

  ready_loop-Safe :
      (fuel timeout deadline : ℕ)
      → Guards (Safe Allowed base) (ready_loop env c fuel timeout deadline)
  unfolding ready_loop
  ready_loop-Safe zero timeout deadline = Guards-fail _
  ready_loop-Safe (suc fuel) timeout deadline =
      ready_round-Safe timeout deadline _ (ready_loop-Safe fuel timeout deadline)

  pub wait_for_ready-Safe :
      (timeout : ℕ) → Guards (Safe Allowed base) (wait_for_ready env c timeout)
  unfolding wait_for_ready
  wait_for_ready-Safe timeout = search (safe_rules, ready_loop-Safe)
