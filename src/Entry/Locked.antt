-- ===== src/Entry/Locked.antt =====
-- The operator without a token, over any number of requests.
use authentik_operator.Prelude.{String, ◌≡◌, refl, ap, ◌∙◌, ◌≢◌, List, [], ◌∷◌, true}
use authentik_operator.Errors.{Error, Result, ok, err, is_token_expired}
use authentik_operator.Api.{NamespacedName, OidcClient, Secret}
use authentik_operator.Hash.{value_at}
use authentik_operator.Authentik.{get_oauth2_provider_by_slug}
use authentik_operator.World.{Call, Trace, World, Env}
use authentik_operator.World.Effects.{held}
use authentik_operator.Reconciler.{reconcile, reconcile_client}
use authentik_operator.Reconciler.Locked.{Barren, after_read, reconcile_locked}
use authentik_operator.Reconciler.Token.{
  Reconciler, token_key, bootstrap_key, with_client, refresh_token,
}
use authentik_operator.Reconciler.Later.{IsLater, IsLater-tail}
use authentik_operator.Reconciler.Failed.{reported, provider_failed_again}
use authentik_operator.Reconciler.Refresh.{refresh_token_clears}
use authentik_operator.Reconciler.Unchanged.{ensure_token_present}
use authentik_operator.Entry.{Host, serve}
use authentik_operator.Entry.Options.{Flags}

module _ (env : Env) (host : Host) (f : Flags) (r : Reconciler) where
  -- One read of the token Secret for each request, and the wait for the next one, above the calls made before.
  abbrev pub reads : List NamespacedName → Trace → Trace
  reads [] t = t
  reads (req ∷ reqs) t = reads reqs (Call.request_wait ∷ (Call.secret_get (token_key env r) ∷ t))

  abbrev waited : World → World
  waited w = record w { trace = Call.request_wait ∷ w.trace }

  -- Where a worker of the operator has no token, no other worker sets one, and the token Secret, which is configured,
  -- stays missing, unreadable or without a token from then on, each of any number of requests ends
  -- after one read of this Secret: nothing else is called, and no refresh is tried.
  pub serve_locked :
      (reqs : List NamespacedName) (w : World)
      → w.token ≡ ""
      → r.token_secret_name ≢ ""
      → ((t : Trace) → env.shared_token t "" ≡ "")
      → ((t : Trace) → IsLater w.trace t → Barren (env.get_secret t (token_key env r)))
      → serve env host f r reqs w ≡ (ok tt, record w { trace = reads reqs w.trace })
  unfolding serve
  serve_locked [] w no_token named alone barren = refl
  serve_locked (req ∷ reqs) w no_token named alone barren =
      let empty : held env w ≡ "" = rw no_token (alone w.trace) in
      let still : held env (after_read env r w) ≡ "" =
        rw no_token (alone (after_read env r w).trace) in
      rw (reconcile_locked env r req w empty still named (barren w.trace ([], refl))) (
        serve_locked reqs (waited (after_read env r w)) no_token named alone
          (λ t later. barren t (IsLater-tail w.trace _ t (IsLater-tail _ _ t later))))

  -- A worker whose token is rejected and whose refresh then fails, after it got the bootstrap token, writes the failure
  -- into the status and never gets a token again by itself: where no other worker sets one and the token Secret
  -- stays missing, unreadable or without a token from then on, each later request, of any number, ends
  -- after one read of this Secret.
  pub serve_lost :
      (req : NamespacedName) (reqs : List NamespacedName) (w w1 : World) (oc : OidcClient)
      (e x : Error) (bs : Secret)
      → held env w ≢ ""
      → env.get_client w.trace req ≡ ok oc
      → with_client r
          (λ c. get_oauth2_provider_by_slug env c oc.spec.authentik.application_slug)
          (record w { trace = Call.client_get req ∷ w.trace })
        ≡ (err e, w1)
      → is_token_expired e ≡ true
      → r.bootstrap_secret_name ≢ ""
      → env.get_secret w1.trace (bootstrap_key env r) ≡ ok bs
      → value_at bs.content r.bootstrap_secret_key ≢ ""
      → (refresh_token env r w1).0 ≡ err x
      → r.token_secret_name ≢ ""
      → ((t : Trace) → env.shared_token t "" ≡ "")
      → ((t : Trace)
          → IsLater (reported env r oc e (refresh_token env r w1).1).1.trace t
          → Barren (env.get_secret t (token_key env r)))
      → serve env host f r (req ∷ reqs) w ≡ (
        ok tt,
        record {
          token = "";
          trace =
              reads reqs
                (Call.request_wait ∷ (reported env r oc e (refresh_token env r w1).1).1.trace);
        },
      )
  unfolding serve reconcile reconcile_client
  serve_lost req reqs w w1 oc e x bs token found failed expired configured bootstrap full refused
        named alone barren =
      let cleared = refresh_token_clears env r w1 x configured bootstrap full refused in
      let after : World = (reported env r oc e (refresh_token env r w1).1).1 in
      let ended : String → Result (Unit {0}) × World =
        λ t. (ok tt, record { token = t; trace = reads reqs (Call.request_wait ∷ after.trace) }) in
      let rest =
        serve_locked reqs (waited (reported env r oc e (refresh_token env r w1).1).1) cleared named
          alone (λ t later. barren t (IsLater-tail _ _ t later)) in
      rw (ensure_token_present env r w token) (
        rw (found, failed)
          (rw (provider_failed_again env r oc e w1 x expired refused) (rest ∙ ap ended cleared)))
