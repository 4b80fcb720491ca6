-- ===== src/Reconciler/Applied.antt =====
-- A run whose data have another hash than the status.
use authentik_operator.Prelude.{
  String, ◌==◌, eq_iff, ◌≡◌, refl, ◌≢◌, ◌∙◌, [], ◌∷◌, false, Option, none, some, arith,
}
use authentik_operator.Prelude.Dict.{Dict}
use authentik_operator.Errors.{Error, ok, err}
use authentik_operator.Api.{NamespacedName, OidcClient, SecretApply}
use authentik_operator.Responses.{OAuth2Provider}
use authentik_operator.Profiles.{SigningCert}
use authentik_operator.World.{Call, Trace, World, Env}
use authentik_operator.World.Effects.{◌>>=◌, held}
use authentik_operator.World.Keeps.{Keeps, keeps_rules}
use authentik_operator.Hash.{compute_secret_hash}
use authentik_operator.Authentik.{get_certificate_by_id}
use authentik_operator.Rollout.{restart, trigger_rollout}
use authentik_operator.Reconciler.Later.{IsLater, later_rules}
use authentik_operator.Reconciler.{reconcile, reconcile_client}
use authentik_operator.Reconciler.Token.{Reconciler, with_client}
use authentik_operator.Reconciler.Status.{set_condition}
use authentik_operator.Reconciler.Sync.{
  fetch_key, fetch_signing_cert, secret_data, sync_provider, write_if_changed, write_secret,
  target_secret, patch_config_map, write_config_map, restart_workload, record_sync,
}
use authentik_operator.Reconciler.Synced.{write_secret_accepted}
use authentik_operator.Reconciler.Unchanged.{Fetches, ensure_token_present}

module _ (env : Env) (base : Trace) where
  set_condition-IsLater :
      (oc : OidcClient) (c : authentik_operator.Api.Condition)
      → Keeps (IsLater base) (set_condition env oc c)
  unfolding set_condition
  set_condition-IsLater oc c = record { at = λ w h. h }

  patch_config_map-IsLater :
      (oc : OidcClient) (content : Dict String)
      → Keeps (IsLater base) (patch_config_map env oc content)
  unfolding patch_config_map write_config_map
  patch_config_map-IsLater oc content = search (later_rules, set_condition-IsLater) depth 15

  trigger_rollout-IsLater :
      (kind name namespace hash : String)
      → Keeps (IsLater base) (trigger_rollout env kind name namespace hash)
  unfolding trigger_rollout restart
  trigger_rollout-IsLater kind name namespace hash = search later_rules depth 15

  restart_workload-IsLater :
      (oc : OidcClient) (hash : String) → Keeps (IsLater base) (restart_workload env oc hash)
  unfolding restart_workload
  restart_workload-IsLater oc hash =
      search (later_rules, trigger_rollout-IsLater, set_condition-IsLater) depth 15

  record_sync-IsLater :
      (r : Reconciler) (oc : OidcClient) (hash : String)
      → Keeps (IsLater base) (record_sync env r oc hash)
  unfolding record_sync
  record_sync-IsLater r oc hash = search (later_rules, set_condition-IsLater) depth 15

  synced-IsLater :
      (r : Reconciler) (oc : OidcClient) (content : Dict String) (hash : String)
      → Keeps (IsLater base) (
          patch_config_map env oc content >>= λ oc1.
          restart_workload env oc1 hash >>= λ oc2. record_sync env r oc2 hash)
  synced-IsLater r oc content hash =
      search (keeps_rules, patch_config_map-IsLater, restart_workload-IsLater, record_sync-IsLater)
        depth 9

module _ (env : Env) (r : Reconciler) (oc : OidcClient) (p : OAuth2Provider)
    (cert : Option SigningCert) where
  abbrev pub data_of : Dict String
  data_of = secret_data env r oc p cert

  abbrev pub hash_of : String
  hash_of = compute_secret_hash env.certs.sha256 data_of

  -- What a run that applies the data leaves: the Secret with the data was applied as the first call after the
  -- fetches, and the last call writes the status with the hash.
  pub record IsApplied (fetched end : World) : Type 0 where
    pub client : OidcClient
    pub spec : client.spec ≡ oc.spec
    pub hash : client.status.secret_hash ≡ hash_of
    pub before : Trace
    pub last : end.trace ≡ Call.status_update client ∷ before
    pub applied : IsLater (Call.secret_apply (target_secret oc data_of) ∷ fetched.trace) end.trace

  write_secret-IsApplied :
      (oc' : OidcClient) (w : World)
      → oc'.spec ≡ oc.spec
      → target_secret oc' data_of ≡ target_secret oc data_of
      → env.apply_secret w.trace (target_secret oc' data_of) ≡ none
      → IsApplied w (write_secret env r oc' data_of hash_of w).1
  unfolding write_secret
  write_secret-IsApplied oc' w spec same accepted =
      let (client, before, spec', hash, last, result) =
        write_secret_accepted env r oc' data_of hash_of w accepted in
      let w1 : World = record w {
        trace = Call.secret_apply (target_secret oc' data_of) ∷ w.trace;
      } in
      let later = (synced-IsLater env w1.trace r oc' data_of hash_of).at w1 ([], refl) in
      record {
        client = client;
        spec = spec' ∙ spec;
        hash = hash;
        before = before;
        last = last;
        applied = rw (← same) (rw accepted later);
      }

  sync_provider-IsApplied :
      (w w' : World)
      → fetch_signing_cert env r p w ≡ (ok cert, w')
      → hash_of ≢ oc.status.secret_hash
      → env.apply_secret w'.trace (target_secret oc data_of) ≡ none
      → IsApplied w' (sync_provider env r oc p w).1
  unfolding sync_provider set_condition write_if_changed secret_data
  sync_provider-IsApplied w w' signed new accepted =
      let differs : (hash_of == oc.status.secret_hash) ≡ false =
        ground (arith, eq_iff hash_of oc.status.secret_hash) in
      rw signed (rw differs (write_secret-IsApplied _ w' refl refl accepted))

  -- With a token, a custom resource whose provider can be fetched, and data with another hash than its status, a
  -- run applies the target Secret with the data right after the fetches, where the server accepts it, and ends
  -- with a write of the status that holds the new hash and the specification that was read.
  pub reconcile-IsApplied :
      (req : NamespacedName) (w w1 w2 : World)
      → held env w ≢ ""
      → env.get_client w.trace req ≡ ok oc
      → Fetches env r oc (record w { trace = Call.client_get req ∷ w.trace }) p w1
      → fetch_signing_cert env r p w1 ≡ (ok cert, w2)
      → hash_of ≢ oc.status.secret_hash
      → env.apply_secret w2.trace (target_secret oc data_of) ≡ none
      → IsApplied w2 (reconcile env r req w).1
  unfolding reconcile reconcile_client
  reconcile-IsApplied req w w1 w2 token found provider signed new accepted =
      rw (ensure_token_present env r w token)
        (rw found (rw provider (sync_provider-IsApplied w1 w2 signed new accepted)))

module _ (env : Env) (r : Reconciler) (oc : OidcClient) (p : OAuth2Provider) where
  fetch_signing_cert-missing :
      (id : String) (e : Error) (w w' : World)
      → p.signing_key ≡ some id
      → with_client r (λ c. get_certificate_by_id env c id) w ≡ (err e, w')
      → id ≢ ""
      → fetch_signing_cert env r p w ≡ (ok none, w')
  unfolding fetch_signing_cert fetch_key
  fetch_signing_cert-missing id e w w' key failed used =
      let b : (id == "") ≡ false = ground (arith, eq_iff id "") in rw (key) (rw (b, failed) refl)

  -- Where the provider names a signing certificate that cannot be fetched, the run goes on as for a provider without
  -- one: data without a certificate, if their hash is another than that of the status, are applied over the
  -- Secret and recorded.
  pub reconcile_certless :
      (id : String) (e : Error) (req : NamespacedName) (w w1 w2 : World)
      → held env w ≢ ""
      → env.get_client w.trace req ≡ ok oc
      → Fetches env r oc (record w { trace = Call.client_get req ∷ w.trace }) p w1
      → p.signing_key ≡ some id
      → id ≢ ""
      → with_client r (λ c. get_certificate_by_id env c id) w1 ≡ (err e, w2)
      → hash_of env r oc p none ≢ oc.status.secret_hash
      → env.apply_secret w2.trace (target_secret oc (data_of env r oc p none)) ≡ none
      → IsApplied env r oc p none w2 (reconcile env r req w).1
  reconcile_certless id e req w w1 w2 token found provider key used failed new accepted =
      reconcile-IsApplied env r oc p none req w w1 w2 token found provider
        (fetch_signing_cert-missing id e w1 w2 key failed used) new accepted
