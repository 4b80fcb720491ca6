-- ===== src/Reconciler/Unchanged.antt =====
-- A run that finds the hash of the status again.
use authentik_operator.Prelude.{
  String, ap, ◌≡◌, refl, ◌≢◌, ◌∷◌, eq_refl, eq_iff, true, Option, arith,
}
use authentik_operator.Errors.{ok}
use authentik_operator.Api.{NamespacedName, OidcClient}
use authentik_operator.Responses.{OAuth2Provider}
use authentik_operator.Profiles.{SigningCert}
use authentik_operator.World.{Call, World, Env}
use authentik_operator.World.Keeps.{Keeps, keeps_rules}
use authentik_operator.Hash.{compute_secret_hash}
use authentik_operator.Authentik.{Client, get_oauth2_provider_by_slug}
use authentik_operator.Authentik.Fetches.{
  OnlyFetches, get_oauth2_provider_by_slug-OnlyFetches, get_certificate_by_id-OnlyFetches,
}
use authentik_operator.World.Effects.{Exec, held}
use authentik_operator.Reconciler.{reconcile, reconcile_client, requeue_after}
use authentik_operator.Reconciler.Token.{Reconciler, with_client, ensure_token, has_token}
use authentik_operator.Reconciler.Status.{set_condition}
use authentik_operator.Reconciler.Sync.{
  fetch_key, fetch_signing_cert, secret_data, sync_provider, write_if_changed,
}

module _ (env : Env) (r : Reconciler) where
  -- The provider as the client fetches it after the custom resource was read.
  abbrev pub Fetches : OidcClient → World → OAuth2Provider → World → Type 0
  Fetches oc w p w' =
      with_client r (λ c. get_oauth2_provider_by_slug env c oc.spec.authentik.application_slug) w
      ≡ (ok p, w')

  sync_provider_unchanged :
      (oc : OidcClient) (p : OAuth2Provider) (cert : Option SigningCert) (w w' : World)
      → fetch_signing_cert env r p w ≡ (ok cert, w')
      → compute_secret_hash env.certs.sha256 (secret_data env r oc p cert) ≡ oc.status.secret_hash
      → sync_provider env r oc p w ≡ (ok (requeue_after r), w')
  unfolding sync_provider set_condition write_if_changed secret_data
  sync_provider_unchanged oc p cert w w' e h = rw e (rw h (rw eq_refl refl))

  pub ensure_token_present : (w : World) → held env w ≢ "" → ensure_token env r w ≡ (ok true, w)
  unfolding ensure_token has_token
  ensure_token_present w h = ground (arith, eq_iff (held env w) "")

  with_client-OnlyFetches :
      {A : Type 0} (f : Client → Exec A)
      → ((c : Client) → Keeps OnlyFetches (f c))
      → Keeps OnlyFetches (with_client r f)
  unfolding with_client
  with_client-OnlyFetches f k = record { at = λ w h. (k _).at w h }

  fetch_key-OnlyFetches : (id : String) → Keeps OnlyFetches (fetch_key env r id)
  unfolding fetch_key
  fetch_key-OnlyFetches id =
      search (keeps_rules, with_client-OnlyFetches, get_certificate_by_id-OnlyFetches) depth 9

  fetch_signing_cert-OnlyFetches :
      (p : OAuth2Provider) → Keeps OnlyFetches (fetch_signing_cert env r p)
  unfolding fetch_signing_cert
  fetch_signing_cert-OnlyFetches p = search (keeps_rules, fetch_key-OnlyFetches)

  module _ (req : NamespacedName) (oc : OidcClient) (p : OAuth2Provider) (cert : Option SigningCert)
      (w w1 w2 : World) where
    abbrev pub read_world : World
    read_world = record w { trace = Call.client_get req ∷ w.trace }

    pub reconcile_same :
        held env w ≢ ""
        → env.get_client w.trace req ≡ ok oc
        → Fetches oc read_world p w1
        → fetch_signing_cert env r p w1 ≡ (ok cert, w2)
        → compute_secret_hash env.certs.sha256 (secret_data env r oc p cert) ≡ oc.status.secret_hash
        → reconcile env r req w ≡ (ok (requeue_after r), w2)
    unfolding reconcile reconcile_client
    reconcile_same token found provider signed same =
        rw (ensure_token_present w token)
          (rw found (rw provider (sync_provider_unchanged oc p cert w1 w2 signed same)))

    -- With a token, a custom resource whose provider can be fetched, and data that has the hash of its
    -- status, a run is requeued after the interval and leaves the world of the last fetch.
    -- Where only fetches were made before, only fetches have been made then: nothing was
    -- written, no status either, and the target Secret was not looked at.
    pub reconcile_unchanged :
        held env w ≢ ""
        → env.get_client w.trace req ≡ ok oc
        → Fetches oc read_world p w1
        → fetch_signing_cert env r p w1 ≡ (ok cert, w2)
        → compute_secret_hash env.certs.sha256 (secret_data env r oc p cert) ≡ oc.status.secret_hash
        → OnlyFetches w.trace
        → (reconcile env r req w ≡ (ok (requeue_after r), w2)) × OnlyFetches w2.trace
    reconcile_unchanged token found provider signed same before = (
      reconcile_same token found provider signed same,
      rw (ap (λ x. x.1.trace) signed) at (
          (fetch_signing_cert-OnlyFetches p).at w1 (
            rw (ap (λ x. x.1.trace) provider) at (
              (with_client-OnlyFetches
                  (λ c. get_oauth2_provider_by_slug env c oc.spec.authentik.application_slug)
                  (λ c.
                    get_oauth2_provider_by_slug-OnlyFetches env c
                      oc.spec.authentik.application_slug)).at
                read_world (refl, before)))),
    )
