-- ===== src/Reconciler/Race.antt =====
-- Two workers and one token: a request that goes out while another worker refreshes the token.
use authentik_operator.Prelude.{
  String, ◌≡◌, refl, ap, ◌≢◌, true, false, [], ◌∷◌, ◌⊎◌, none, some, inl, inr,
}
use authentik_operator.Errors.{
  Error, ok, err, num, quoted, bytes, wrapf, err_token_expired, is_token_expired, Result-cases,
}
use authentik_operator.Api.{NamespacedName, OidcClient, Secret}
use authentik_operator.Hash.{value_at}
use authentik_operator.World.{Call, Trace, World, Env, HttpRequest, HttpResponse, shared}
use authentik_operator.World.Effects.{Exec, ◌>>◌, pure, wrapping, held, delete_secret}
use authentik_operator.Authentik.{
  Client, limited, get_request, application_url, authorized, is_unauthorized, get_application,
  get_oauth2_provider_by_slug,
}
use authentik_operator.Authentik.Creation.{sent}
use authentik_operator.Bootstrap.{Config, secret_key, check_existing}
use authentik_operator.Reconciler.{reconcile, reconcile_client}
use authentik_operator.Reconciler.Token.{
  Reconciler, with_client, token_key, bootstrap_key, refresh_config,
}
use authentik_operator.Reconciler.Later.{IsLater, failed_goes_on, refresh_goes_on}
use authentik_operator.Reconciler.Unchanged.{ensure_token_present}

-- A value in the end changes nothing of the world.
then_pure : {A B : Type 0} (m : Exec A) (b : B) (w : World) → ((m >> pure b) w).1 ≡ (m w).1
then_pure m b w = elim (Result-cases (m w).0) [ inl (a, p) ↦ rw p refl | inr (e, p) ↦ rw p refl ]

module _ (env : Env) (cfg : Config) where
  -- A forced refresh deletes the token Secret that it finds.
  check_existing_deletes :
      (w : World) {s : Secret}
      → cfg.force_refresh ≡ true
      → env.get_secret w.trace (secret_key cfg) ≡ ok s
      → (check_existing env cfg w).1.trace
        ≡ Call.secret_delete s ∷ Call.secret_get (secret_key cfg) ∷ w.trace
  unfolding check_existing
  check_existing_deletes w {s} forced found =
      rw (found, forced)
        (ap (λ v. v.trace)
          (then_pure (wrapping "deleting stale token secret: %w" [] (delete_secret env s)) false
            (record w { trace = Call.secret_get (secret_key cfg) ∷ w.trace })))

module _ (env : Env) (c : Client) (slug : String) where
  abbrev refusal : HttpResponse → Error
  refusal resp =
      wrapf "%w: %d for application %q: %s"
        (num resp.status ∷ quoted slug ∷ bytes (limited resp.body) ∷ []) err_token_expired

  get_provider_refused :
      (w : World) {resp : HttpResponse}
      → env.request_error (application_url env c slug) ≡ none
      → env.send w.trace c.tls (sent env c w (get_request env c (application_url env c slug)))
        ≡ ok resp
      → (resp.status ≡ 401) ⊎ (resp.status ≡ 403)
      → (e : Error) × (is_token_expired e ≡ true)
        × (get_oauth2_provider_by_slug env c slug w ≡ (
          err e,
          record w {
            trace =
                Call.http c.tls (sent env c w (get_request env c (application_url env c slug)))
                ∷ w.trace;
          },
        ))
  unfolding get_oauth2_provider_by_slug get_application authorized is_unauthorized
  get_provider_refused w {resp} address answer (inl status) =
      (refusal resp, refl, rw (address, answer, status) refl)
  get_provider_refused w {resp} address answer (inr status) =
      (refusal resp, refl, rw (address, answer, status) refl)

module _ (env : Env) (r : Reconciler) (req : NamespacedName) (w : World) (oc : OidcClient)
    (bs s : Secret) where
  abbrev shared_client : Client
  shared_client = record r.authentik_client { token = shared }

  abbrev slug : String
  slug = oc.spec.authentik.application_slug

  abbrev pub after_get : World
  after_get = record w { trace = Call.client_get req ∷ w.trace }

  -- The request for the application, with no token.
  abbrev pub bare_request : HttpRequest
  bare_request = record (get_request env shared_client (application_url env shared_client slug)) {
    token = some "";
  }

  abbrev pub after_answer : World
  after_answer = record w {
    trace = Call.http r.authentik_client.tls bare_request ∷ Call.client_get req ∷ w.trace;
  }

  -- The calls up to the delete of the token Secret, the newest first.
  abbrev pub deleted : Trace
  deleted =
      Call.secret_delete s
      ∷ Call.secret_get (token_key env r)
      ∷ Call.secret_get (bootstrap_key env r)
      ∷ after_answer.trace

  -- A worker finds a token and reads its custom resource, then another worker clears the token for a refresh, so
  -- that the request of the first carries none and is answered with 401 or 403. Where the bootstrap Secret
  -- is set up, the first worker then deletes the token Secret that it finds, whatever it holds: also
  -- one that the other worker has just stored there.
  pub reconcile_races :
      (resp : HttpResponse)
      → held env w ≢ ""
      → env.get_client w.trace req ≡ ok oc
      → held env after_get ≡ ""
      → env.request_error bare_request.url ≡ none
      → env.send after_get.trace r.authentik_client.tls bare_request ≡ ok resp
      → (resp.status ≡ 401) ⊎ (resp.status ≡ 403)
      → r.bootstrap_secret_name ≢ ""
      → env.get_secret after_answer.trace (bootstrap_key env r) ≡ ok bs
      → value_at bs.content r.bootstrap_secret_key ≢ ""
      → env.get_secret
          (Call.secret_get (bootstrap_key env r) ∷ after_answer.trace)
          (token_key env r)
        ≡ ok s
      → IsLater deleted (reconcile env r req w).1.trace
  unfolding reconcile reconcile_client with_client
  reconcile_races resp token found cleared address answer status configured bootstrap full stored =
      let (e, expired, fetched) =
        get_provider_refused env shared_client slug after_get {resp = resp} address
          (rw cleared answer) status in
      let cfg = refresh_config env r (value_at bs.content r.bootstrap_secret_key) in
      let w1 : World = record after_answer {
        token = "";
        trace = Call.secret_get (bootstrap_key env r) ∷ after_answer.trace;
      } in
      let gone : IsLater deleted (check_existing env cfg w1).1.trace =
        ([], check_existing_deletes env cfg w1 refl stored) in
      let fetched' = rw cleared at fetched in
      rw (ensure_token_present env r w token) (
        rw (found, fetched')
          (failed_goes_on env deleted r oc e after_answer expired
            (refresh_goes_on env deleted r after_answer configured bootstrap full gone)))
